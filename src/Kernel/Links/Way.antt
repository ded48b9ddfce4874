-- ===== src/Kernel/Links/Way.antt =====
-- The way up the process tree, and the abstract search along it.
use chos.Kernel.Links.Set.{entry_of}
use chos.Kernel.Links.{not_cached}
use chos.Kernel.Links.Inv.{blank}
use chos.Prelude.{
  subst, refl, if◌then◌else◌, arith, ◌∷◌, ◌||◌, [], ◌==◌, Bool, false, true, List, ℕ, ◌≡◌, ◌<◌,
  update, Bool-cases, inl, inr, sym,
}
use chos.Kernel.State.{null, Machine, State, Ptr, Task}

abbrev pub pid_of : Machine → Ptr → ℕ
pid_of m t = (m.task t).pid

-- Where the walk ends: no process, or process 0 or 1.
abbrev pub is_top : Machine → Ptr → Bool
is_top m t = t == null || (pid_of m t == 0 || pid_of m t == 1)

abbrev pub has : ℕ → List ℕ → Bool
has p [] = false
has p (q ∷ qs) = p == q || has p qs

-- The pids on the way from `t` up to process 1: in range, and no two alike.
pub data Lineage (m : Machine) (pid_max : ℕ) : Ptr → List ℕ → Type 0 where
  top : {t : Ptr} → is_top m t ≡ true → Lineage m pid_max t []
  below :
      {t : Ptr} {p : ℕ} {ps : List ℕ}
      → is_top m t ≡ false
      → pid_of m t ≡ p
      → p < pid_max
      → has p ps ≡ false
      → Lineage m pid_max (m.task t).parent ps
      → Lineage m pid_max t (p ∷ ps)

-- The abstract search: the entry of `t` if it is valid, and else what its parent resolves to.
pub data Resolves (m : Machine) (s : State) : Ptr → Ptr → Type 0 where
  at_top : {t a : Ptr} → is_top m t ≡ true → a ≡ null → Resolves m s t a
  at_entry :
      {t a : Ptr}
      → is_top m t ≡ false
      → not_cached m t (s.procs (pid_of m t)) ≡ false
      → a ≡ (s.procs (pid_of m t)).link
      → Resolves m s t a
  at_parent :
      {t a : Ptr}
      → is_top m t ≡ false
      → not_cached m t (s.procs (pid_of m t)) ≡ true
      → Resolves m s (m.task t).parent a
      → Resolves m s t a

-- At one time, two tasks with one pid are the same.
abbrev pub Distinct : Machine → Type 0
Distinct m =
    (t u : Ptr)
    → is_top m t ≡ false
    → is_top m u ≡ false
    → pid_of m t ≡ pid_of m u
    → m.task t ≡ m.task u

-- Every task with the pid `j` has the start time `time`.
abbrev pub Dated : Machine → ℕ → ℕ → Type 0
Dated m j time = (t : Ptr) → is_top m t ≡ false → pid_of m t ≡ j → (m.task t).start_time ≡ time

-- Every process resolves in both states to the same links.
abbrev pub SameResolves : Machine → State → State → Type 0
SameResolves m s s' =
    (u b : Ptr) → (Resolves m s u b → Resolves m s' u b) × (Resolves m s' u b → Resolves m s u b)

-- The link does not depend on the pointer through which a task is read.
Resolves-task :
    {m : Machine} {s : State} {t u a : Ptr}
    → is_top m t ≡ false
    → is_top m u ≡ false
    → m.task t ≡ m.task u
    → Resolves m s t a
    → Resolves m s u a
Resolves-task lt lu e (at_top k ea) = absurd (cc)
Resolves-task lt lu e (at_entry low k ea) = at_entry lu (ground arith) (ground arith)
Resolves-task {m} {s} {a} lt lu e (at_parent low k r) =
    at_parent lu (ground arith) (subst (λ (x : Task). Resolves m s x.parent a) e r)

pub Resolves-unique :
    {m : Machine} {s : State} {t a b : Ptr} → Resolves m s t a → Resolves m s t b → a ≡ b
Resolves-unique (at_top h e) (at_top h' e') = cc
Resolves-unique (at_top h e) (at_entry low c e') = absurd (cc)
Resolves-unique (at_top h e) (at_parent low c r) = absurd (cc)
Resolves-unique (at_entry low c e) (at_top h e') = absurd (cc)
Resolves-unique (at_entry low c e) (at_entry low' c' e') = cc
Resolves-unique (at_entry low c e) (at_parent low' c' r) = absurd (cc)
Resolves-unique (at_parent low c r) (at_top h e') = absurd (cc)
Resolves-unique (at_parent low c r) (at_entry low' c' e') = absurd (cc)
Resolves-unique (at_parent low c r) (at_parent low' c' r') = Resolves-unique r r'

-- What a cached search resolves to is no null pointer.
Resolves-cached :
    {m : Machine} {s : State} {t a : Ptr}
    → is_top m t ≡ false
    → not_cached m t (s.procs (pid_of m t)) ≡ false
    → Resolves m s t a
    → a ≡ (s.procs (pid_of m t)).link
Resolves-cached low c r = Resolves-unique r (at_entry low c refl)

Resolves-parent :
    {m : Machine} {s : State} {t a : Ptr}
    → is_top m t ≡ false
    → not_cached m t (s.procs (pid_of m t)) ≡ true
    → Resolves m s t a
    → Resolves m s (m.task t).parent a
Resolves-parent low c (at_top h e) = absurd (cc)
Resolves-parent low c (at_entry low' c' e) = absurd (cc)
Resolves-parent low c (at_parent low' c' r) = r

-- An entry is replaced by what its task resolves to.
module _ {m : Machine} {s s' : State} {t a : Ptr} (d : Distinct m) (low : is_top m t ≡ false)
    (r : Resolves m s t a)
    (eq : s'.procs
      ≡ update s.procs (pid_of m t) (if a == null then blank else entry_of m a t)) where
  forth : (u b : Ptr) → Resolves m s u b → Resolves m s' u b
  forth u b (at_top h e) = at_top h e
  forth u b (at_entry lu c e) = elim (Bool-cases (pid_of m u == pid_of m t)) [
    | inl same ↦
        let et = d t u low lu (ground arith) in
        let ea = Resolves-cached lu c (Resolves-task low lu et r) in
        at_entry lu (ground arith) (ground arith)
    | inr other ↦ at_entry lu (ground arith) (ground arith)
  ]
  forth u b (at_parent lu c q) = elim (Bool-cases (pid_of m u == pid_of m t)) [
    | inl same ↦
        let et = d t u low lu (ground arith) in
        let ea : a ≡ b = Resolves-unique (Resolves-task low lu et r) (at_parent lu c q) in
        elim (Bool-cases (a == null)) [
          | inl is_null ↦ at_parent lu (ground arith) (forth (m.task u).parent b q)
          | inr is_link ↦ at_entry lu (ground arith) (ground arith)
        ]
    | inr other ↦ at_parent lu (ground arith) (forth (m.task u).parent b q)
  ]

  back : (u b : Ptr) → Resolves m s' u b → Resolves m s u b
  back u b (at_top h e) = at_top h e
  back u b (at_entry lu c e) = elim (Bool-cases (pid_of m u == pid_of m t)) [
    | inl same ↦
        let et = d t u low lu (ground arith) in
        let ea : b ≡ a = ground arith in subst (Resolves m s u) (sym ea) (Resolves-task low lu et r)
    | inr other ↦ at_entry lu (ground arith) (ground arith)
  ]
  back u b (at_parent lu c q) = elim (Bool-cases (pid_of m u == pid_of m t)) [
    | inl same ↦
        let et = d t u low lu (ground arith) in
        let is_null : a ≡ null = ground arith in
        let ru = Resolves-task low lu et r in
        let stale : not_cached m u (s.procs (pid_of m u)) ≡ true = uncached lu ru is_null in
        at_parent lu stale (back (m.task u).parent b q)
    | inr other ↦ at_parent lu (ground arith) (back (m.task u).parent b q)
  ]
    where
      uncached :
          is_top m u ≡ false
          → Resolves m s u a
          → a ≡ null
          → not_cached m u (s.procs (pid_of m u)) ≡ true
      uncached lu ru is_null = elim (Bool-cases (not_cached m u (s.procs (pid_of m u)))) [
        | inl stale ↦ stale
        | inr cached ↦ absurd (ground (arith, Resolves-cached lu cached ru))
      ]

  pub written-SameResolves : SameResolves m s s'
  written-SameResolves u b = (forth u b, back u b)

pub SameResolves-trans :
    {m : Machine} {s t u : State} → SameResolves m s t → SameResolves m t u → SameResolves m s u
SameResolves-trans f g v b = (λ r. (g v b).0 ((f v b).0 r), λ r. (f v b).1 ((g v b).1 r))
