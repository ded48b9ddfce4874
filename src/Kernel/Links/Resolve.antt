-- ===== src/Kernel/Links/Resolve.antt =====
-- What a search along the way up the process tree finds and leaves behind.
use chos.Kernel.Links.Way.{written-SameResolves, SameResolves, SameResolves-trans, Distinct, Dated}
pub use chos.Kernel.Links.Way.{
  pid_of, is_top, has, Lineage, top, below, Resolves, at_top, at_entry, at_parent,
}
use chos.Kernel.Links.Set.{entry_of}
use chos.Kernel.Links.{remember, lookup_entry, not_cached, lookup_link}
use chos.Kernel.Links.Inv.{KeepsLoose, Frame-trans, Bound, Cleared, blank, KeepsTexts, Frame}
use chos.Prelude.{
  ◌≢◌, refl, if◌then◌else◌, arith, ◌∷◌, [], ◌==◌, suc, false, true, List, ℕ, ◌≡◌, ◌<◌,
}
use chos.Kernel.State.{◌>>=◌, ok, load_proc, null, Machine, State, Ptr}

-- What a search for `t` that returns `a` leaves behind; `ps` are the pids on its way.
pub record Found (m : Machine) (t : Ptr) (ps : List ℕ) (a : Ptr) (s s' : State) : Type 0 where
  pub frame : Frame s s'
  pub resolves : Resolves m s t a
  pub texts : KeepsTexts s s'
  pub loose : KeepsLoose s s'
  pub others : (j : ℕ) → has j ps ≡ false → s'.procs j ≡ s.procs j
  pub own :
      is_top m t ≡ false → s'.procs (pid_of m t) ≡ (if a == null then blank else entry_of m a t)
  pub same : Distinct m → SameResolves m s s'
  pub pinned :
      (j : ℕ) → (s.procs j).link ≢ null → Dated m j (s.procs j).start_time → s'.procs j ≡ s.procs j

module _ (m : Machine) (fuel : ℕ) (t : Ptr) (s : State) where
  pub lookup_link-top : is_top m t ≡ true → lookup_link m (suc fuel) t s ≡ ok null s
  unfolding lookup_link
  lookup_link-top h = ground arith

  pub lookup_link-cached :
      is_top m t ≡ false
      → pid_of m t < s.pid_max
      → not_cached m t (s.procs (pid_of m t)) ≡ false
      → lookup_link m (suc fuel) t s ≡ ok (s.procs (pid_of m t)).link s
  unfolding lookup_link lookup_entry load_proc
  lookup_link-cached h k c = ground arith

  pub lookup_link-walk :
      is_top m t ≡ false
      → pid_of m t < s.pid_max
      → not_cached m t (s.procs (pid_of m t)) ≡ true
      → lookup_link m (suc fuel) t s ≡ (lookup_link m fuel (m.task t).parent >>= remember m t) s
  unfolding lookup_link lookup_entry load_proc
  lookup_link-walk h k c = ground arith

pub Found-top : (m : Machine) (t : Ptr) (s : State) → is_top m t ≡ true → Found m t [] null s s
Found-top m t s h = record {
  frame = ground arith;
  resolves = at_top h refl;
  texts = λ a q e. e;
  loose = λ q b o. o;
  others = λ j o. refl;
  own = λ o. cc;
  same = λ d u b. (λ r. r, λ r. r);
  pinned = λ j o h. refl;
}

pub Found-cached :
    (m : Machine) (t : Ptr) (ps : List ℕ) (s : State)
    → is_top m t ≡ false
    → not_cached m t (s.procs (pid_of m t)) ≡ false
    → Found m t ps (s.procs (pid_of m t)).link s s
Found-cached m t ps s h c = record {
  frame = ground arith;
  resolves = at_entry h c refl;
  texts = λ a q e. e;
  loose = λ q b o. o;
  others = λ j o. refl;
  own = λ o. ground arith;
  same = λ d u b. (λ r. r, λ r. r);
  pinned = λ j o h. refl;
}

module _ (m : Machine) {t : Ptr} {p : ℕ} {ps : List ℕ} {a : Ptr} {s s1 : State}
    (low : is_top m t ≡ false) (ep : pid_of m t ≡ p) (fresh : has p ps ≡ false)
    (stale : not_cached m t (s.procs (pid_of m t)) ≡ true)
    (found : Found m (m.task t).parent ps a s s1) where
  -- What `t` resolved to before the search of its parent, it resolves to behind it.
  still : Distinct m → Resolves m s1 t a
  still d = (found.same d t a).0 (at_parent low stale found.resolves)

  -- The entry of `t` is replaced, so it is no valid entry.
  stale_apart :
      (j : ℕ) → (s.procs j).link ≢ null → Dated m j (s.procs j).start_time → j ≢ pid_of m t
  stale_apart j o h e = ground (arith, h t low, stale)

  pub Found-set :
      {s2 : State}
      → a ≢ null
      → Bound (pid_of m t) (entry_of m a t) s1 s2
      → Found m t (p ∷ ps) a s s2
  Found-set ne b = record {
    frame = Frame-trans found.frame b.frame;
    resolves = at_parent low stale found.resolves;
    texts = λ x q e. found.texts x q (b.texts x q e);
    loose = λ x q e. b.loose x q (found.loose x q e);
    others = λ j o. ground (arith, b.procs, found.others j);
    own = λ o. ground (arith, b.procs);
    same = λ d.
        SameResolves-trans (found.same d)
          (written-SameResolves d low (still d) (ground (arith, b.procs)));
    pinned = λ j o h. ground (arith, b.procs, found.pinned j o h, stale_apart j o h);
  }

  pub Found-reset : {s2 : State} → a ≡ null → Cleared (pid_of m t) s1 s2 → Found m t (p ∷ ps) a s s2
  Found-reset e c = record {
    frame = Frame-trans found.frame c.frame;
    resolves = at_parent low stale found.resolves;
    texts = λ x q e. found.texts x q (c.texts x q e);
    loose = λ x q e. c.loose x q (found.loose x q e);
    others = λ j o. ground (arith, c.procs, found.others j);
    own = λ o. ground (arith, c.procs);
    same = λ d.
        SameResolves-trans (found.same d)
          (written-SameResolves d low (still d) (ground (arith, c.procs)));
    pinned = λ j o h. ground (arith, c.procs, found.pinned j o h, stale_apart j o h);
  }

pub Resolves-top :
    {m : Machine} {s : State} {t a : Ptr} → is_top m t ≡ true → Resolves m s t a → a ≡ null
Resolves-top h (at_top k e) = e
Resolves-top h (at_entry low k e) = cc
Resolves-top h (at_parent low k r) = cc
