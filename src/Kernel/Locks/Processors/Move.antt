-- ===== src/Kernel/Locks/Processors/Move.antt =====
-- The locks of one processor of Kernel/Locks/Processors.antt at its next step.
use chos.Prelude.{if◌then◌else◌, ◌≡◌, Bool, true, false, refl}
use chos.Kernel.Locks.{
  Lock, Locks, no_locks, Locked, result, access, taking, giving, loading, storing, with_lock,
  without_lock, in_order,
}
use chos.Kernel.Locks.Discipline.{Disciplined}
use chos.Kernel.Locks.Processors.{Next, over, waits, breaks, goes, proceed, next}
use chos.Kernel.State.{State, Run, ok, fault, load_proc, store_proc}

-- What a step does to the locks of a processor.
pub data Change (avail : Lock → Bool) (l : Locks) : Locks → Type 0 where
  same : Change avail l l
  took : (h : Lock) → in_order h l ≡ true → avail h ≡ true → Change avail l (with_lock h l)
  gave : (h : Lock) → Change avail l (without_lock h l)

-- A processor keeps to the discipline, and its locks change by a step.
abbrev pub Kept : (Lock → Bool) → Locks → Next → Type 0
Kept avail l over = (l ≡ no_locks)
Kept avail l waits = (h : Lock) × (in_order h l ≡ true) × (avail h ≡ false)
Kept avail l breaks = Unit
Kept avail l (goes p s) = Disciplined p.locks p.rest no_locks × Change avail l p.locks

proceed-Kept :
    {X : Type 0} (avail : Lock → Bool) (l : Locks) (r : Run X) (k : X → Locked (Unit {0}))
    → ((x : X) → Disciplined l (k x) no_locks)
    → Kept avail l (proceed l r k)
proceed-Kept avail l (ok x s) k h = (h x, same)
proceed-Kept avail l (fault e) k h = tt

Kept-if :
    (avail : Lock → Bool) (l : Locks) (b : Bool) (x y : Next)
    → (b ≡ true → Kept avail l x)
    → (b ≡ false → Kept avail l y)
    → Kept avail l (if b then x else y)
Kept-if avail l true x y h k = h refl
Kept-if avail l false x y h k = k refl

pub next-Kept :
    (avail : Lock → Bool) (l : Locks) (p : Locked (Unit {0})) (s : State)
    → Disciplined l p no_locks
    → Kept avail l (next avail l p s)
unfolding next Disciplined
next-Kept avail l (result a) s h = h
next-Kept avail l (access f k) s h = proceed-Kept avail l (f s) k h
next-Kept avail l (taking c p) s (o, h) =
    Kept-if avail l (avail c) _ waits (λ e. (h, took c o e)) (λ e. (c, o, e))
next-Kept avail l (giving c p) s (o, h) = (h, gave c)
next-Kept avail l (loading i k) s (o, h) = proceed-Kept avail l (load_proc i s) k h
next-Kept avail l (storing i q p) s (o, h) = proceed-Kept avail l (store_proc i q s) _ λ _. h
