-- ===== src/Kernel/Locks/Processors/Alone.antt =====
-- A call on one processor of Kernel/Locks/Processors.antt while the others hold no lock.
use chos.Prelude.{Bool-cases, inl, inr, ℕ, ◌<◌, ◌==◌, ◌≡◌, ◌≢◌, true, arith, refl, update}
use chos.Kernel.Locks.{
  Lock, tasklist_lock, reader, writer, Locks, Locked, no_locks, in_order, erase, result, access,
  taking, giving, loading, storing, with_lock, without_lock,
}
use chos.Kernel.Locks.Balanced.{run-Erases}
use chos.Kernel.Locks.Calls.{run_locked}
use chos.Kernel.Locks.Discipline.{Disciplined}
use chos.Kernel.Locks.Processors.Apart.{Reached-Sound, replaced}
use chos.Kernel.Locks.Processors.Progress.{lets_lem, over_lem, granted-all}
use chos.Kernel.Locks.Processors.{
  Processor, lets, granted, over, goes, next, next_of, Smp, begun, Reached, Works, stays, onward,
}
use chos.Kernel.State.{State, Run, ok, fault, and_then, load_proc, store_proc}
use chos.Kernel.System.{Call, run}

update-same : (f : ℕ → Processor) (i : ℕ) (p : Processor) → update f i p i ≡ p
update-same f i p = let e : (i == i) ≡ true = ground arith in rw e refl

lets_none : (h : Lock) → lets h no_locks ≡ true
lets_none tasklist_lock = refl
lets_none (reader i) = refl
lets_none (writer i) = refl

-- A lock in order does not wait for the processor that takes it.
lets_own : (h : Lock) (l : Locks) → in_order h l ≡ true → lets h l ≡ true
lets_own tasklist_lock l o = ground (arith, o)
lets_own (reader i) l o = lets_lem (reader i) l (ground (arith, o)) (λ e. ground (arith, e))
lets_own (writer i) l o = lets_lem (writer i) l (ground (arith, o)) (λ e. ground (arith, e))

module _ (n i : ℕ) where
  -- The processors but `i` hold no lock.
  abbrev pub OthersFree : Smp → Type 0
  OthersFree c = (j : ℕ) → j < n → j ≢ i → (c.at j).locks ≡ no_locks

  -- Steps of `i` alone bring its call to its end, with the memory `s`.
  abbrev pub Completes : Smp → State → Type 1
  Completes c s = (d : Smp) × Works n i c d × (next_of n i d ≡ over) × (d.memory ≡ s)

module _ (n i : ℕ) (c0 : Smp) where
  -- Processor `i` with the locks `l` and the rest `p` of a call.
  record At (l : Locks) (p : Locked (Unit {0})) (c : Smp) : Type 1 where
    reached : Works n i c0 c
    here : c.at i ≡ record { locks = l; rest = p }
    others : OthersFree n i c

  At-moves :
      {l d : Locks} {p q : Locked (Unit {0})} {c : Smp} (s : State)
      → At l p c
      → next (granted n c.at) l p c.memory ≡ goes (record { locks = d; rest = q }) s
      → At d q (record { at = update c.at i (record { locks = d; rest = q }); memory = s })
  unfolding next_of
  At-moves {c} s a e = record {
    reached = onward _ s a.reached (rw (a.here) e);
    here = update-same c.at i _;
    others = λ j kj ne.
        replaced (λ x. x.locks ≡ no_locks) c.at i j _ (λ e. absurd (ne e)) (λ _. a.others j kj ne);
  }

  At-granted :
      {l : Locks} {p : Locked (Unit {0})} {c : Smp} (h : Lock)
      → At l p c
      → in_order h l ≡ true
      → granted n c.at h ≡ true
  At-granted {l} {c} h a o = granted-all n c.at h λ j kj. elim (Bool-cases (j == i)) [
    | inl e ↦ let same : j ≡ i = ground (arith, e) in rw (same, a.here) (lets_own h l o)
    | inr e ↦ rw (a.others j kj (λ d. ground (arith, e, d))) (lets_none h)
  ]

  through :
      {X : Type 0} (r : Run X) (f : X → Locked (Unit {0})) (s : State)
      → and_then r (λ x. erase (f x)) ≡ ok tt s
      → ((x : X) (s1 : State) → r ≡ ok x s1 → erase (f x) s1 ≡ ok tt s → Completes n i c0 s)
      → Completes n i c0 s
  through (ok x s1) f s e h = h x s1 refl e
  through (fault b) f s e h = absurd (ground (arith, e))

  complete :
      (l : Locks) (p : Locked (Unit {0})) {c : Smp} (s : State)
      → At l p c
      → Disciplined l p no_locks
      → erase p c.memory ≡ ok tt s
      → Completes n i c0 s
  unfolding Disciplined erase next next_of
  complete l (result x) {c} s a o e = (c, a.reached, rw (a.here) refl, ground (arith, e))
  complete l (access g f) {c} s a o e =
      through (g c.memory) f s e
        λ x s1 e1 e2. complete l (f x) s (At-moves s1 a (rw e1 refl)) (o x) e2
  complete l (taking h p) {c} s a (b, o) e =
      complete (with_lock h l) p s (At-moves c.memory a (rw (At-granted h a b) refl)) o e
  complete l (giving h p) {c} s a (b, o) e =
      complete (without_lock h l) p s (At-moves c.memory a refl) o e
  complete l (loading j f) {c} s a (b, o) e =
      through (load_proc j c.memory) f s e
        λ x s1 e1 e2. complete l (f x) s (At-moves s1 a (rw e1 refl)) (o x) e2
  complete l (storing j q p) {c} s a (b, o) e =
      through (store_proc j q c.memory) (λ _. p) s e
        λ x s1 e1 e2. complete l p s (At-moves s1 a (rw e1 refl)) o e2

-- For any number of processors on one memory that made any steps of calls of any kind, from a point
-- where none was in a call: if one is between two calls while the others hold no lock, and a call
-- by itself, without locks, ends without a fault in the memory as it is, then this processor, once
-- it has begun that call, brings it to its end by steps of its own, without a wait, and leaves the
-- memory that the call by itself leaves.
pub Reached-Completes :
    (n i : ℕ) {c : Smp} (call : Call) (s : State)
    → Reached n c
    → (k : i < n) → next_of n i c ≡ over
    → OthersFree n i c
    → run call c.memory ≡ ok tt s
    → Completes n i (begun i call c) s
Reached-Completes n i {c} call s r k e f g =
    let v = Reached-Sound n r in
    let none = over_lem n v i k e in
    let q = run-Erases call in
    complete n i (begun i call c) no_locks (run_locked call) s
      (record {
        reached = stays;
        here =
            rw
              (update-same c.at i (record { locks = (c.at i).locks; rest = run_locked call }), none)
              refl;
        others = λ j kj ne.
            replaced (λ x. x.locks ≡ no_locks) c.at i j _ (λ d. absurd (ne d)) (λ _. f j kj ne);
      })
      q.steps (rw (q.same c.memory) g)
