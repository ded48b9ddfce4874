-- ===== src/Kernel/Links/Tree.antt =====
-- The process tree as the kernel keeps it, and the search of lookup_link on it.
use chos.Kernel.Links.{lookup_link}
use chos.Kernel.Links.Inv.{Inv}
use chos.Kernel.Links.Lookup.{lookup_link-Found}
use chos.Kernel.Links.Way.{
  pid_of, is_top, has, Lineage, top, below, Resolves, Resolves-unique, Distinct, SameResolves,
}
use chos.Kernel.State.{Ptr, Machine, State, null}
use chos.Kernel.State.Returns.{Returns}
use chos.Kernel.State.Returns
use chos.Prelude.{
  ℕ, zero, suc, ◌+◌, ◌<◌, ◌≤◌, ◌==◌, List, [], ◌∷◌, length, ltb, false, if◌then◌else◌, Bool-cases,
  inl, inr, ◌≡◌, refl, arith, ap,
}

-- The parents of a task come before it in some order (the order in which the tasks began, say), the
-- pids are in range, and no two tasks have one pid.
pub record Tree (m : Machine) (pid_max : ℕ) : Type 0 where
  pub rank : Ptr → ℕ
  pub down : (t : Ptr) → is_top m t ≡ false → rank (m.task t).parent < rank t
  pub in_range : (t : Ptr) → is_top m t ≡ false → pid_of m t < pid_max
  pub distinct : Distinct m

-- How many of the numbers below `n` are in the list.
members : ℕ → List ℕ → ℕ
members zero ps = 0
members (suc n) ps = members n ps + (if has n ps then 1 else 0)

members_le : (n : ℕ) (ps : List ℕ) → members n ps ≤ n
unfolding members
members_le zero ps = omega arith
members_le (suc n) ps = ground (arith, members_le n ps)

members_nil : (n : ℕ) → members n [] ≡ 0
unfolding members
members_nil zero = refl
members_nil (suc n) = ground (arith, members_nil n)

members_cons :
    (n p : ℕ) (ps : List ℕ)
    → has p ps ≡ false
    → members n (p ∷ ps) ≡ members n ps + (if ltb p n then 1 else 0)
unfolding members
members_cons zero p ps h = ground arith
members_cons (suc n) p ps h = ground (arith, members_cons n p ps h)

Lineage-members :
    {m : Machine} {pid_max : ℕ} {t : Ptr} {ps : List ℕ}
    → Lineage m pid_max t ps
    → length ps ≡ members pid_max ps
Lineage-members {pid_max} (top h) = ground (arith, members_nil pid_max)
Lineage-members {pid_max} (below {p} {ps} low e k fresh rest) =
    ground (arith, members_cons pid_max p ps fresh, Lineage-members rest)

-- A way up holds no more pids than there are.
pub Lineage-short :
    {m : Machine} {pid_max : ℕ} {t : Ptr} {ps : List ℕ}
    → Lineage m pid_max t ps
    → length ps ≤ pid_max
Lineage-short {pid_max} {ps} line = omega (arith, Lineage-members line, members_le pid_max ps)

module _ {m : Machine} {pid_max : ℕ} (q : Tree m pid_max) where
  -- The pid of a task is not on the way up from its parent.
  pid-fresh :
      {t u : Ptr} {ps : List ℕ}
      → is_top m t ≡ false
      → q.rank u ≤ q.rank (m.task t).parent
      → Lineage m pid_max u ps
      → has (pid_of m t) ps ≡ false
  pid-fresh low h (top k) = refl
  pid-fresh {t} {u} low h (below lu e k fresh rest) =
      let above = pid-fresh low (omega (arith, q.down u lu, h)) rest in
      elim (Bool-cases (pid_of m t == pid_of m u)) [
        | inl same ↦
            let parents : (m.task t).parent ≡ (m.task u).parent =
              ap (λ x. x.parent) (q.distinct t u low lu (ground arith)) in
            absurd (ground (arith, parents, q.down u lu, h))
        | inr other ↦ ground (arith, other, above, e)
      ]

  climb : (n : ℕ) (t : Ptr) → q.rank t < n → (ps : List ℕ) × Lineage m pid_max t ps
  climb zero t h = absurd (omega arith)
  climb (suc n) t h = elim (Bool-cases (is_top m t)) [
    | inl high ↦ ([], top high)
    | inr low ↦
        let (ps, line) = climb n (m.task t).parent (omega (arith, q.down t low, h)) in
        (pid_of m t ∷ ps, below low refl (q.in_range t low) (pid-fresh low (omega arith) line) line)
  ]

  pub Tree-Lineage : (t : Ptr) → (ps : List ℕ) × Lineage m pid_max t ps
  Tree-Lineage t = climb (suc (q.rank t)) t (omega arith)

-- If the invariant holds and the tasks form a tree (the parent of a task comes before it in some
-- order, the pids are below pid_max, no two tasks have one pid): lookup_link with more than pid_max
-- fuel returns for every task, without a fault, the one link that the task's entries resolve to; it
-- keeps the invariant, and leaves a state in which every process resolves to just the links that it
-- resolved to before.
pub lookup_link-total :
    {m : Machine} {s : State} (fuel : ℕ) (t : Ptr)
    → Tree m s.pid_max
    → Inv null s
    → s.pid_max < fuel
    → Returns
        (λ a s'.
          Inv null s'
          × SameResolves m s s'
          × Resolves m s t a
          × ((b : Ptr) → Resolves m s t b → a ≡ b))
        (lookup_link m fuel t s)
lookup_link-total {m} {s} fuel t q v h =
    let (ps, line) = Tree-Lineage q t in
    Returns.mono (lookup_link-Found fuel t line refl (omega (arith, Lineage-short line, h)) v)
      λ a s' (v', found).
        (v', found.same q.distinct, found.resolves, λ b r. Resolves-unique found.resolves r)
