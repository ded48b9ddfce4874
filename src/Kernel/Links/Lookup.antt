-- ===== src/Kernel/Links/Lookup.antt =====
-- What lookup_link finds, and what it stores.
use chos.Kernel.Links.Resolve.{
  Found-cached, lookup_link-cached, lookup_link-walk, below, Found-top, lookup_link-top,
  Resolves-top, Found-set, top, Found-reset, has, Found, is_top, Lineage, pid_of,
}
use chos.Kernel.Links.Reset.{reset_link-Cleared}
use chos.Kernel.Links.Refs.{refs-two}
use chos.Kernel.State.Returns.{returns, Returns}
use chos.Kernel.Links.Set.{set_link-Bound, CanHold}
use chos.Kernel.Links.{set_link, reset_link, remember, not_cached, lookup_link}
use chos.Kernel.Links.Inv.{Inv}
use chos.Prelude.{
  some, zero, length, subst, inr, inl, Bool-cases, ◌≢◌, refl, arith, ◌∷◌, ◌==◌, suc, false, true,
  List, ℕ, ◌≡◌, ◌<◌,
}
use chos.Kernel.State.Returns
use chos.Kernel.State.{pure, ◌>>◌, null, Machine, State, Ptr}

-- A link that another entry holds can be held by the entry `i` too.
pub holder-CanHold :
    {s : State} {a : Ptr} (i j : ℕ)
    → Inv null s
    → i < s.pid_max
    → j < s.pid_max
    → i ≢ j
    → (s.procs j).link ≡ a
    → a ≢ null
    → CanHold s i a
holder-CanHold {s} {a} i j v hi hj ne own na =
    let (l, el) = v.live j hj (ground arith) in
    let el' : s.links a ≡ some l = subst (λ b. s.links b ≡ some l) own el in
    inr (
      l,
      el',
      elim (Bool-cases ((s.procs i).link == a)) [
        | inl same ↦ inr (ground (arith, v.counted a l el', refs-two a s.pid_max i j s.procs))
        | inr other ↦ inl (ground arith)
      ],
    )

-- A link that the parent's search returned is still held by the parent's entry.
Found-CanHold :
    (m : Machine) {pid_max : ℕ} {u : Ptr} {ps : List ℕ} {a : Ptr} {s s1 : State} (i : ℕ)
    → Lineage m pid_max u ps
    → Inv null s1
    → Found m u ps a s s1
    → s1.pid_max ≡ pid_max
    → i < pid_max
    → has i ps ≡ false
    → CanHold s1 i a
Found-CanHold m i (top t) v found e h o = inl (Resolves-top t found.resolves)
Found-CanHold m {u} {a} {s1} i (below low ep k fresh rest) v found e h o =
    elim (Bool-cases (a == null)) [
      | inl is_null ↦ inl (ground arith)
      | inr is_link ↦
          let own : (s1.procs (pid_of m u)).link ≡ a = ground (arith, found.own low) in
          holder-CanHold i (pid_of m u) v (omega arith) (omega arith) (ground arith) own
            (ground arith)
    ]

pub remember-set :
    (m : Machine) (t a : Ptr) (s : State)
    → a ≢ null
    → remember m t a s ≡ (set_link m a t >> pure a) s
unfolding remember
remember-set m t a s h = ground arith

remember-reset :
    (m : Machine) (t a : Ptr) (s : State)
    → a ≡ null
    → remember m t a s ≡ (reset_link (pid_of m t) >> pure null) s
unfolding remember
remember-reset m t a s h = ground arith

remember-Found :
    (m : Machine) {pid_max : ℕ} {t : Ptr} {p : ℕ} {ps : List ℕ} {a : Ptr} {s s1 : State}
    → is_top m t ≡ false
    → pid_of m t ≡ p
    → p < pid_max
    → has p ps ≡ false
    → Lineage m pid_max (m.task t).parent ps
    → not_cached m t (s.procs (pid_of m t)) ≡ true
    → s.pid_max ≡ pid_max
    → Inv null s1
    → Found m (m.task t).parent ps a s s1
    → Returns (λ b s2. Inv null s2 × Found m t (p ∷ ps) b s s2) (remember m t a s1)
remember-Found m {t} {p} {ps} {a} {s} {s1} low ep h fresh rest stale e v found =
    let e1 : s1.pid_max ≡ s.pid_max = found.frame.pid_max in
    elim (Bool-cases (a == null)) [
      | inl is_null ↦
          let ea : a ≡ null = ground arith in
          rw (remember-reset m t a s1 ea) (
            Returns.bind (reset_link-Cleared (pid_of m t) v (omega arith)) λ _ s2 (v2, c). returns (
              v2,
              subst (λ b. Found m t (p ∷ ps) b s s2) ea
                  (Found-reset m low ep fresh stale found ea c),
            ))
      | inr is_link ↦
          let ne : a ≢ null = ground arith in
          rw (remember-set m t a s1 ne) (
            Returns.bind
              (set_link-Bound m a t v (inl refl) (ground arith) (omega arith) (
                Found-CanHold m (pid_of m t) rest v found (omega arith) (omega arith)
                  (ground arith)))
              λ _ s2 (v2, b). returns (v2, Found-set m low ep fresh stale found ne b))
    ]

-- If the invariant holds and the pids on the way up are in range and no two alike, lookup_link with
-- more fuel than there are such pids ends without a fault: it returns the link that the entries
-- resolve to, stores it in the entry of the process itself, changes no entry off the way and no
-- link's text, and keeps the invariant.
pub lookup_link-Found :
    (fuel : ℕ) {m : Machine} {s : State} {pid_max : ℕ} (t : Ptr) {ps : List ℕ}
    → Lineage m pid_max t ps
    → s.pid_max ≡ pid_max
    → length ps < fuel
    → Inv null s
    → Returns (λ a s'. Inv null s' × Found m t ps a s s') (lookup_link m fuel t s)
lookup_link-Found zero t line e h v = absurd (omega arith)
lookup_link-Found (suc fuel) {m} {s} t (top h') e h v =
    rw (lookup_link-top m fuel t s h') (returns (v, Found-top m t s h'))
lookup_link-Found (suc fuel) {m} {s} t {ps} (below low ep k fresh rest) e h v =
    elim (Bool-cases (not_cached m t (s.procs (pid_of m t)))) [
      | inl stale ↦ rw (lookup_link-walk m fuel t s low (omega arith) stale) (
          Returns.bind (lookup_link-Found fuel (m.task t).parent rest e (omega arith) v)
            λ a s1 (v1, found). remember-Found m low ep k fresh rest stale e v1 found)
      | inr cached ↦
          rw (lookup_link-cached m fuel t s low (omega arith) cached)
            (returns (v, Found-cached m t _ s low cached))
    ]
