-- ===== src/Kernel/Fork/Exit.antt =====
-- my_sys_exit and my_sys_exit_group: what the children of a process that ends resolve to.
use chos.Kernel.State.Returns
use chos.Kernel.State.Returns.{returns, Returns}
use chos.Kernel.Links.Set.{entry_of}
use chos.Kernel.Links.Resolve.{at_entry, at_top, below, at_parent, has, Found}
use chos.Kernel.Links.Way.{
  at_top, SameResolves-trans, has, SameResolves, pid_of, Lineage, is_top, Distinct, Resolves, Dated,
}
use chos.Kernel.Links.Inv.{KeepsTexts, Frame, Frame-trans, blank, Inv}
use chos.Kernel.State.{Proc, null, Cmd, Ptr, State, Machine}
use chos.Prelude.{
  refl, sym, subst, ◌≢◌, inr, [], arith, map, inl, length, ◌∙◌, ◌<◌, suc, ◌==◌, true, if◌then◌else◌,
  All, false, Bool-cases, ◌≡◌, List, ℕ, ◌∷◌,
}
use chos.Kernel.Fork.{lookup_children, my_sys_exit}
use chos.Kernel.Links.Lookup.{lookup_link-Found}

-- The children of the caller: each in range, its pid on no other's way up; `ps` is the caller's way.
abbrev pub Children : Machine → ℕ → List ℕ → List Ptr → Type 0
Children m pid_max ps [] = Unit
Children m pid_max ps (t ∷ ts) =
    (is_top m t ≡ false)
    × ((m.task t).parent ≡ m.current)
    × (pid_of m t < pid_max)
    × (has (pid_of m t) ps ≡ false)
    × (has (pid_of m t) (map (pid_of m) ts) ≡ false)
    × Children m pid_max ps ts

-- The entry of each child holds what the child resolved to in the state `s`.
abbrev pub Settled : Machine → State → State → Ptr → Type 0
Settled m s s' t =
    (a : Ptr) × Resolves m s t a
    × (s'.procs (pid_of m t) ≡ (if a == null then blank else entry_of m a t))

pub record Looked (m : Machine) (ps : List ℕ) (ts : List Ptr) (s s' : State) : Type 0 where
  pub inv : Inv null s'
  pub frame : Frame s s'
  pub texts : KeepsTexts s s'
  pub same : SameResolves m s s'
  pub others :
      (j : ℕ) → has j ps ≡ false → has j (map (pid_of m) ts) ≡ false → s'.procs j ≡ s.procs j
  pub settled : All (Settled m s s') ts
  pub pinned :
      (j : ℕ) → (s.procs j).link ≢ null → Dated m j (s.procs j).start_time → s'.procs j ≡ s.procs j

module _ {m : Machine} {ps : List ℕ} {pid_max : ℕ} (d : Distinct m) where
  Looked-cons :
      {t : Ptr} {ts : List Ptr} {a : Ptr} {s s1 s2 : State}
      → Children m pid_max ps (t ∷ ts)
      → Found m t (pid_of m t ∷ ps) a s s1
      → Looked m ps ts s1 s2
      → Looked m ps (t ∷ ts) s s2
  Looked-cons {t} {ts} {a} {s} {s1} {s2} c f l = record {
    inv = l.inv;
    frame = Frame-trans f.frame l.frame;
    texts = λ x y e. f.texts x y (l.texts x y e);
    same = SameResolves-trans (f.same d) l.same;
    others = λ j o k. ground (arith, l.others j, f.others j);
    settled = ((a, f.resolves, ground (arith, l.others (pid_of m t), f.own)), before ts l.settled);
    pinned = λ j o h.
        let e = f.pinned j o h in
        l.pinned j (rw e o) (subst (λ (p : Proc). Dated m j p.start_time) (sym e) h) ∙ e;
  }
    where
      before : (us : List Ptr) → All (Settled m s1 s2) us → All (Settled m s s2) us
      before [] h = tt
      before (u ∷ us) ((b, r, e), h) = ((b, (f.same d u b).1 r, e), before us h)

  pub lookup_children-Looked :
      (fuel : ℕ) (ts : List Ptr) {s : State}
      → Lineage m pid_max m.current ps
      → Children m pid_max ps ts
      → s.pid_max ≡ pid_max
      → suc (length ps) < fuel
      → Inv null s
      → Returns (λ _ s'. Looked m ps ts s s') (lookup_children m fuel ts s)
  unfolding lookup_children
  lookup_children-Looked fuel [] line c e h v = returns (record {
    inv = v;
    frame = ground arith;
    texts = λ x y e. e;
    same = λ u b. (λ r. r, λ r. r);
    others = λ j o k. refl;
    settled = tt;
    pinned = λ j o h. refl;
  })
  lookup_children-Looked fuel (t ∷ ts) line c e h v =
      let way : Lineage m pid_max t (pid_of m t ∷ ps) =
        below c.0 refl c.2 c.3 (subst (λ p. Lineage m pid_max p ps) (sym c.1) line) in
      Returns.bind (lookup_link-Found fuel t way e h v) λ a s1 (v1, f).
        Returns.mono (lookup_children-Looked fuel ts line c.5 (f.frame.pid_max ∙ e) h v1)
          λ _ s2 l. Looked-cons c f l

-- The machine behind the exit of the caller: its children are those of a process 0 or 1.
pub record Reaped (m m' : Machine) (t : Ptr) : Type 0 where
  pub low : is_top m' t ≡ false
  pub pid : pid_of m' t ≡ pid_of m t
  pub start_time : (m'.task t).start_time ≡ (m.task t).start_time
  pub parent : is_top m' (m'.task t).parent ≡ true

Settled-Reaped :
    {m m' : Machine} {s : State} (s1 : State) {s2 : State} {t : Ptr}
    → Settled m s s1 t
    → s2.procs ≡ s1.procs
    → Reaped m m' t
    → (a : Ptr) × Resolves m s t a × Resolves m' s2 t a
Settled-Reaped {m} {m'} s1 {s2} {t} (a, r, e) same q = (
  a,
  r,
  elim (Bool-cases (a == null)) [
    | inl is_null ↦ at_parent q.low (ground (arith, q.pid)) (at_top q.parent (ground arith))
    | inr is_link ↦ at_entry q.low (ground (arith, q.pid, q.start_time)) (ground (arith, q.pid))
  ],
)

-- If the invariant holds, no two tasks have one pid, the caller's way up and its children are in
-- range and free of repetitions with enough fuel for them, and the original exit keeps the table
-- and the invariant: then the invariant still holds, and when the caller is gone and its children
-- are those of a process 0 or 1, each of them resolves to a link that it resolved to before.
pub my_sys_exit-orphans :
    {R : Type 0} (fuel : ℕ) {m : Machine} (m' : Machine) (ts : List Ptr) {ps : List ℕ}
    (exit : Cmd R) {s : State}
    → Inv null s
    → Distinct m
    → Lineage m s.pid_max m.current ps
    → Children m s.pid_max ps ts
    → suc (length ps) < fuel
    → ((s1 : State) → Inv null s1 → Returns (λ _ s2. Inv null s2 × (s2.procs ≡ s1.procs)) (exit s1))
    → All (Reaped m m') ts
    → Returns
        (λ _ s'. Inv null s' × All (λ t. (a : Ptr) × Resolves m s t a × Resolves m' s' t a) ts)
        (my_sys_exit m fuel ts exit s)
unfolding my_sys_exit
my_sys_exit-orphans fuel {m} m' ts exit {s} v d line c h runs reaped =
    Returns.bind (lookup_children-Looked d fuel ts line c refl h v) λ _ s1 l.
      Returns.mono (runs s1 l.inv) λ _ s2 (v2, e). (v2, settle s1 s2 e ts l.settled reaped)
  where
    settle :
        (s1 s2 : State)
        → s2.procs ≡ s1.procs
        → (us : List Ptr) → All (Settled m s s1) us
        → All (Reaped m m') us
        → All (λ t. (a : Ptr) × Resolves m s t a × Resolves m' s2 t a) us
    settle s1 s2 e [] h q = tt
    settle s1 s2 e (u ∷ us) (h, hs) (q, qs) = (Settled-Reaped s1 h e q, settle s1 s2 e us hs qs)
