-- ===== src/Kernel/Links/Reclaim.antt =====
-- Which links a cleanup leaves.
use chos.Kernel.Links.Cleanup.{Cleaned}
use chos.Kernel.Links.Inv.{Inv}
use chos.Kernel.Links.Refs.{refs}
use chos.Kernel.State.{State, Machine, Ptr, Link, Proc, null}
use chos.Prelude.{ℕ, zero, suc, ◌<◌, ◌≡◌, ◌≢◌, ◌==◌, some, arith, Bool-cases, inl, inr}

pub refs-holder :
    (a : Ptr) (n : ℕ) (procs : ℕ → Proc)
    → 0 < refs a n procs
    → (i : ℕ) × (i < n) × ((procs i).link ≡ a)
unfolding refs
refs-holder a zero procs h = absurd (omega arith)
refs-holder a (suc n) procs h = elim (Bool-cases ((procs n).link == a)) [
  | inl same ↦ (n, omega arith, ground arith)
  | inr other ↦ let (i, k, e) = refs-holder a n procs (ground arith) in (i, omega arith, e)
]

-- Every link is that of a process which is alive: its pid is a task's, with the same start time.
abbrev pub AllHeld : Machine → State → Type 0
AllHeld m s =
    (a : Ptr) (l : Link)
    → s.links a ≡ some l
    → (i : ℕ) × (i < s.pid_max)
      × ((s.procs i).link ≡ a)
      × (m.find_task i ≢ null)
      × ((m.task (m.find_task i)).start_time ≡ (s.procs i).start_time)

-- No entry is left that is dead.
pub AllHeld-live :
    (m : Machine) {s : State}
    → Inv null s
    → ((i : ℕ)
        → i < s.pid_max
        → (s.procs i).link ≢ null
        → (m.find_task i ≢ null) × ((m.task (m.find_task i)).start_time ≡ (s.procs i).start_time))
    → AllHeld m s
AllHeld-live m {s} v alive a l e =
    let ne : a ≢ null = ground (arith, v.null_link) in
    let pos = v.held a l e ne in
    let (i, k, own) = refs-holder a s.pid_max s.procs (omega (arith, v.counted a l e)) in
    let (t, d) = alive i k (ground arith) in (i, k, own, t, d)

pub Cleaned-alive :
    {m : Machine} {s s' : State} (i : ℕ)
    → Cleaned m s s'
    → i < s.pid_max
    → (s'.procs i).link ≢ null
    → (m.find_task i ≢ null) × ((m.task (m.find_task i)).start_time ≡ (s'.procs i).start_time)
Cleaned-alive i c k o = (ground (arith, c.entries i), ground (arith, c.entries i))
