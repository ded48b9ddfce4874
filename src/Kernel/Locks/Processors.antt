-- ===== src/Kernel/Locks/Processors.antt =====
-- Several processors, each in a call of Kernel/Locks/Calls.antt, one step of one of them after
-- another. A processor that asks for a lock waits while it is held in a way that excludes it.
pub mod Move
pub mod Compatible
pub mod Apart
pub mod Progress
pub mod Alone
use chos.Prelude.{zero, suc, ◌≡◌, ℕ, ◌<◌, Bool, true, not, ◌&&◌, update, if◌then◌else◌}
use chos.Kernel.Locks.{
  Lock, tasklist_lock, reader, writer, Locks, no_locks, Locked, result, access, taking, giving,
  loading, storing, is_reading, is_writing, with_lock, without_lock,
}
use chos.Kernel.Locks.Calls.{run_locked}
use chos.Kernel.State.{State, Run, ok, fault, load_proc, store_proc}
use chos.Kernel.System.{Call}

-- A processor: the locks that it holds, and the rest of its call.
pub record Processor : Type 1 where
  pub locks : Locks
  pub rest : Locked (Unit {0})

-- One that holds `l` lets another take the lock: an entry can have many readers or one writer, and
-- each call takes tasklist_lock as a writer.
abbrev pub lets : Lock → Locks → Bool
lets tasklist_lock l = not l.tasklist
lets (reader i) l = not (is_writing i l.entry)
lets (writer i) l = not (is_writing i l.entry) && not (is_reading i l.entry)

-- Each of the processors below `n` lets it be taken.
unfoldable pub granted : ℕ → (ℕ → Processor) → Lock → Bool
granted zero ps h = true
granted (suc n) ps h = lets h (ps n).locks && granted n ps h

-- What the next step of a processor comes to: its call is over, it waits, a fault, or a step.
pub data Next : Type 1 where
  over waits breaks : Next
  goes : Processor → State → Next

abbrev pub proceed : {X : Type 0} → Locks → Run X → (X → Locked (Unit {0})) → Next
proceed l (ok x s) k = goes (record { locks = l; rest = k x }) s
proceed l (fault e) k = breaks

-- `free` says whether a lock can be taken.
unfoldable pub next : (Lock → Bool) → Locks → Locked (Unit {0}) → State → Next
unfolding load_proc store_proc
next free l (result a) s = over
next free l (access f k) s = proceed l (f s) k
next free l (taking h p) s =
    if free h then goes (record { locks = with_lock h l; rest = p }) s else waits
next free l (giving h p) s = goes (record { locks = without_lock h l; rest = p }) s
next free l (loading i k) s = proceed l (load_proc i s) k
next free l (storing i q p) s = proceed l (store_proc i q s) λ _. p

-- `n` processors and the memory that they share.
pub record Smp : Type 1 where
  pub at : ℕ → Processor
  pub memory : State

-- Processor `i` at the begin of a call.
abbrev pub begun : ℕ → Call → Smp → Smp
begun i call c = record c {
  at = update c.at i (record { locks = (c.at i).locks; rest = run_locked call });
}

module _ (n : ℕ) where
  unfoldable pub next_of : ℕ → Smp → Next
  unfolding next granted
  next_of i c = next (granted n c.at) (c.at i).locks (c.at i).rest c.memory

  -- Processor `i` begins a call when its last one is over, or makes the next step of its call.
  pub data Step (c : Smp) : Smp → Type 1 where
    begins : (i : ℕ) (call : Call) → i < n → next_of i c ≡ over → Step c (begun i call c)
    moves :
        (i : ℕ) (p : Processor) (s : State)
        → i < n
        → next_of i c ≡ goes p s
        → Step c (record { at = update c.at i p; memory = s })

  -- From processors without a call, in any memory.
  pub data Reached : Smp → Type 1 where
    at_rest :
        (s : State)
        → Reached (record { at = λ i. record { locks = no_locks; rest = result tt }; memory = s })
    further : {c d : Smp} → Reached c → Step c d → Reached d

  -- Steps of processor `i` alone.
  pub data Works (i : ℕ) (c : Smp) : Smp → Type 1 where
    stays : Works i c c
    onward :
        {d : Smp} (p : Processor) (s : State)
        → Works i c d
        → next_of i d ≡ goes p s
        → Works i c (record { at = update d.at i p; memory = s })
