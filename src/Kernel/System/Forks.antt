-- ===== src/Kernel/System/Forks.antt =====
-- chos_do_fork in a safe state, with the calls that other processes make while it runs.
use chos.Kernel.System.{Call, Fits, run, Elsewhere, HasWay, IsChild, IsApart, fork}
use chos.Kernel.System.Held.{Held}
use chos.Kernel.System.Safe.{Safe, kept_same, Kept, Kept-trans, Kept-narrow, kept}
use chos.Kernel.Fork.{child, failed, Forked, after_fork, chos_do_fork}
use chos.Kernel.Fork.Inherit.{
  Undisturbed, Undisturbed-CanHold, after_fork-child, chos_do_fork-lookup,
}
use chos.Kernel.Links.{lookup_link}
use chos.Kernel.Links.Create.{text_of-live}
use chos.Kernel.Links.Inv.{Inv}
use chos.Kernel.Links.Lookup.{lookup_link-Found}
use chos.Kernel.Links.Resolve.{Found}
use chos.Kernel.Links.Set.{set_link-Bound}
use chos.Kernel.Links.Way.{Lineage, top, below, pid_of, is_top, Dated}
use chos.Kernel.State.{Machine, State, Ptr, Proc, null, ok, pure, ◌>>◌}
use chos.Kernel.State.Returns.{returns, Returns}
use chos.Kernel.State.Returns
use chos.Prelude.{
  ℕ, Bytes, List, ◌<◌, ◌≡◌, ◌≢◌, ◌==◌, true, false, refl, sym, subst, arith, Bool-cases, inl, inr,
  ◌∙◌,
}

-- A search keeps the entry of a process that every task with its pid is.
pub Found-Held :
    {m : Machine} {t : Ptr} {ps : List ℕ} {a x : Ptr} {s s' : State} {i time : ℕ} {b : Bytes}
    → Found m t ps x s s'
    → Dated m i time
    → Held i time a b s
    → s'.procs i ≡ s.procs i
Found-Held {m} {i} found dated g =
    found.pinned i (ground (arith, g.entry, g.is_link))
      (subst (λ (p : Proc). Dated m i p.start_time) (sym g.entry) dated)

Lineage-low :
    {m : Machine} {n : ℕ} {t : Ptr} {ps : List ℕ}
    → Lineage m n t ps
    → is_top m t ≡ false
    → pid_of m t < n
Lineage-low (top h) low = absurd (cc)
Lineage-low (below low' ep k fresh rest) low = omega (arith, ep)

after_fork_missing :
    (m : Machine) (fuel pid : ℕ) (a : Ptr) (s : State)
    → (m.find_task pid == null) ≡ true
    → after_fork m fuel a (child pid) s ≡ ok tt s
unfolding after_fork
after_fork_missing m fuel pid a s e = rw e refl

module _ {P : Bytes → Type 0} {s : State} (h : Safe P s) {m : Machine} {fuel : ℕ}
    (q : HasWay m fuel s) {a : Ptr} {s1 : State} (v1 : Inv null s1)
    (found : Found m m.current q.pids a s s1) where
  found-Kept : Kept P (Dated m) s s1
  found-Kept = kept h v1 found.frame found.texts λ i time x b dated g. Found-Held found dated g

  module _ {E : ℕ → ℕ → Type 0} {s2 : State}
      (others : E (pid_of m m.current) (m.task m.current).start_time) (k : Kept P E s1 s2) where
    during-Undisturbed : Undisturbed m s1 s2
    during-Undisturbed = record {
      inv = k.safe.inv;
      pid_max = k.pid_max;
      own = λ low is_link.
          let own = found.own low in
          let (b, eb) =
            text_of-live (pid_of m m.current) v1
              (omega (arith, Lineage-low q.way low, found.frame.pid_max)) is_link in
          let g : Held (pid_of m m.current) (m.task m.current).start_time
              (s1.procs (pid_of m m.current)).link b s1 =
            record {
              low = omega (arith, Lineage-low q.way low, found.frame.pid_max);
              entry = ground (arith, own);
              is_link = is_link;
              text = eb;
            } in
          let g2 = k.held _ _ _ _ others g in (ground (arith, g2.entry, g.entry), g2.text ∙ sym eb);
    }

    during-frame : s2.pid_max ≡ s.pid_max
    during-frame = k.pid_max ∙ found.frame.pid_max

    after_fork-failed :
        (e : ℕ) → Returns (λ _ s3. Kept P (Dated m) s2 s3) (after_fork m fuel a (failed e) s2)
    unfolding after_fork
    after_fork-failed e =
        Returns.bind
          (lookup_link-Found fuel m.current q.way during-frame (omega (arith, q.enough)) k.safe.inv)
          λ x s3 (v3, again).
            returns (
              kept k.safe v3 again.frame again.texts λ i time b c dated g. Found-Held again dated g)

    after_fork-found :
        (behind : Machine) (pid : ℕ)
        → IsChild m behind (child pid) s
        → behind.find_task pid ≢ null
        → Returns
            (λ _ s3. Kept P (λ i time. IsApart behind (child pid) i) s2 s3)
            (after_fork behind fuel a (child pid) s2)
    after_fork-found behind pid is_child ne =
        let (low, other) = is_child ne in
        rw (after_fork-child behind fuel pid a ne) (
          Returns.mono
            (set_link-Bound behind a (behind.find_task pid) k.safe.inv (inl refl) ne
              (omega (arith, during-frame))
              (Undisturbed-CanHold m (pid_of behind (behind.find_task pid)) q.way found
                during-Undisturbed during-frame low other))
            λ _ s3 (v3, b).
              kept k.safe v3 b.frame b.texts
                λ i time x c apart g. ground (arith, b.procs, apart ne))

    after_fork-Kept :
        (behind : Machine) (r : Forked)
        → IsChild m behind r s
        → Returns
            (λ _ s3. Kept P (λ i time. Dated m i time × IsApart behind r i) s2 s3)
            (after_fork behind fuel a r s2)
    after_fork-Kept behind (failed e) same =
        subst
          (λ b.
            Returns (λ _ s3. Kept P (λ i time. Dated m i time × IsApart b (failed e) i) s2 s3)
              (after_fork b fuel a (failed e) s2))
          (sym same) (Returns.mono (after_fork-failed e) λ _ s3 g. Kept-narrow (λ i time o. o.0) g)
    after_fork-Kept behind (child pid) is_child = elim (Bool-cases (behind.find_task pid == null)) [
      | inl missing ↦
          rw (after_fork_missing behind fuel pid a s2 missing)
            (returns (kept_same k.safe refl refl refl refl k.safe.valid))
      | inr there ↦
          Returns.mono (after_fork-found behind pid is_child (ground arith))
            λ _ s3 g. Kept-narrow (λ i time o. o.1) g
    ]

module _ {P : Bytes → Type 0} {s : State} (m behind : Machine) (fuel : ℕ) (during : Call)
    (r : Forked) (h : Safe P s) (f : Fits P (fork m fuel during r behind) s)
    (runs : (s1 : State)
      → Safe P s1
      → Fits P during s1
      → Returns (λ _ s2. Kept P (Elsewhere during) s1 s2) (run during s1)) where
  do_fork-Kept :
      (a : Ptr) (s1 : State)
      → lookup_link m fuel m.current s ≡ ok a s1
      → Safe P s1
      → Returns
          (λ (x : Forked × Machine) s2. (x ≡ (r, behind)) × Kept P (Elsewhere during) s1 s2)
          ((run during >> pure (r, behind)) s1)
  do_fork-Kept a s1 e h1 = Returns.bind (runs s1 h1 (f.3 a s1 e)) λ _ s2 k2. returns (refl, k2)

  Found-fork :
      (a : Ptr) (s1 : State)
      → lookup_link m fuel m.current s ≡ ok a s1
      → Inv null s1
      → Found m m.current f.0.pids a s s1
      → Returns
          (λ _ s'. Kept P (Elsewhere (fork m fuel during r behind)) s s')
          (chos_do_fork m fuel (run during >> pure (r, behind)) s)
  Found-fork a s1 e v1 found =
      let k1 = found-Kept h f.0 v1 found in
      rw (chos_do_fork-lookup m fuel (run during >> pure (r, behind)) s, e)
        (Returns.bind (do_fork-Kept a s1 e k1.safe) λ x s2 (ex, k2). rw ex (
          Returns.bind (after_fork-Kept h f.0 v1 found f.2 k2 behind r f.1) λ _ s3 k3. returns (
            Kept-trans (Kept-narrow (λ i time o. o.0) k1) (
              Kept-trans (Kept-narrow (λ i time o. o.2) k2)
                (Kept-narrow (λ i time o. (o.0, o.1)) k3)))))

  -- Whatever others do while do_fork runs, if each of their calls fits.
  pub chos_do_fork-Kept :
      Returns
        (λ _ s'. Kept P (Elsewhere (fork m fuel during r behind)) s s')
        (chos_do_fork m fuel (run during >> pure (r, behind)) s)
  chos_do_fork-Kept =
      let (a, s1, e, (v1, found)) =
        Returns.run
          (lookup_link-Found fuel m.current f.0.way refl (omega (arith, f.0.enough)) h.inv) in
      Found-fork a s1 e v1 found

  -- The same, for what the caller's entry holds.
  pub do_fork-Undisturbed :
      (a : Ptr) (s1 : State)
      → lookup_link m fuel m.current s ≡ ok a s1
      → Returns
          (λ (x : Forked × Machine) s2. (x ≡ (r, behind)) × Undisturbed m s1 s2)
          ((run during >> pure (r, behind)) s1)
  do_fork-Undisturbed a s1 e =
      let (v1, found) =
        Returns.holds
          (lookup_link-Found fuel m.current f.0.way refl (omega (arith, f.0.enough)) h.inv) e in
      let k1 = found-Kept h f.0 v1 found in
      Returns.mono (do_fork-Kept a s1 e k1.safe)
        λ x s2 (ex, k2). (ex, during-Undisturbed h f.0 v1 found f.2 k2)
