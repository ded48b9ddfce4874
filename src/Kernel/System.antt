-- ===== src/Kernel/System.antt =====
-- The whole module: the calls that processes make, one after the other in any order, from
-- kernel/chos_lkm.c, the tables of operations and the wrappers.
pub mod Held
pub mod Safe
pub mod Switch
pub mod Forks
pub mod Isolation
pub mod Heirs
pub mod Policy
use chos.Prelude.{
  ℕ, ◌≤◌, ◌<◌, ◌≡◌, ◌≢◌, Option, none, List, Bytes, length, suc, false, true, ◌==◌, arith,
}
use chos.Kernel.State.{Ptr, null, Machine, State, Cmd, ok, pure, ◌>>=◌, ◌>>◌}
use chos.Kernel.Buffer.{Write, text_length}
use chos.Kernel.Links.{cleanup_links, lookup_link}
use chos.Kernel.Links.Way.{Lineage, pid_of, Distinct, Dated}
use chos.Kernel.Paths.{write_valid}
use chos.Kernel.Paths.Accepted.{is_root}
use chos.Kernel.Proc.{Services, write_setchos, write_resetchos, write_savestate, link_readlink}
use chos.Kernel.Proc.Assign.{entered, path_of}
use chos.Kernel.Fork.{failed, Forked, child, chos_do_fork, my_sys_exit}
use chos.Kernel.Fork.Exit.{Children}

-- A call, with the machine that it runs on: the caller, and what the kernel gives. While a fork is
-- under way, other processes, the child among them, make the calls `during`: none, or some in a row.
pub data Call : Type 0 where
  setchos : Services → Machine → Write → Call
  resetchos : Machine → Write → Call
  valid : Machine → Write → Call
  savestate : Write → Call
  readlink : Machine → (fuel : ℕ) → Call
  fork : Machine → (fuel : ℕ) → (during : Call) → Forked → (behind : Machine) → Call
  exit : Machine → (fuel : ℕ) → (children : List Ptr) → Call
  idle : Call
  sequence : Call → Call → Call

-- do_fork and the original exit change nothing by themselves that the module sees but the tasks.
unfoldable pub run : Call → Cmd (Unit {0})
unfolding write_setchos write_resetchos write_valid write_savestate link_readlink chos_do_fork
    my_sys_exit
run (setchos k m w) = write_setchos k m w >> pure tt
run (resetchos m w) = write_resetchos m w >> pure tt
run (valid m w) = write_valid m w >> pure tt
run (savestate w) = write_savestate w >> pure tt
run (readlink m fuel) = link_readlink {R = Bytes} (λ t. t) m fuel >> pure tt
run (fork m fuel during r behind) = chos_do_fork m fuel (run during >> pure (r, behind)) >> pure tt
run (exit m fuel children) = my_sys_exit m fuel children (pure tt)
run idle = pure tt
run (sequence c d) = run c >> run d

-- What kmalloc guarantees for a write to setchos: null, or an object that is not in use.
pub record FreshObjects (m : Machine) (w : Write) (s : State) : Type 0 where
  pub text_new : w.text ≢ null → s.texts w.text ≡ none
  pub object_new :
      w.object ≢ null
      → (s1 : State) → cleanup_links m (entered m w s) ≡ ok tt s1
      → s1.links w.object ≡ none

-- The way up from the caller: pids in range, no two alike, with enough fuel for them.
pub record HasWay (m : Machine) (fuel : ℕ) (s : State) : Type 0 where
  pub pids : List ℕ
  pub way : Lineage m s.pid_max m.current pids
  pub enough : suc (length pids) < fuel

-- The child of a fork: found, in range and not the caller.
abbrev pub IsChild : Machine → Machine → Forked → State → Type 0
IsChild m behind (child pid) s =
    behind.find_task pid ≢ null
    → (pid_of behind (behind.find_task pid) < s.pid_max)
      × (pid_of behind (behind.find_task pid) ≢ pid_of m m.current)
IsChild m behind (failed e) s = (behind ≡ m)

-- The process with the pid `i` that began at `time` is among the tasks.
abbrev pub Alive : Machine → ℕ → ℕ → Type 0
Alive m i time = (m.find_task i ≢ null) × ((m.task (m.find_task i)).start_time ≡ time)

-- A write by another process.
abbrev pub Others : Machine → ℕ → ℕ → Type 0
Others m i time = Alive m i time × (pid_of m m.current ≢ i)

-- The child of a fork is another process.
abbrev pub IsApart : Machine → Forked → ℕ → Type 0
IsApart behind (child pid) i =
    behind.find_task pid ≢ null → pid_of behind (behind.find_task pid) ≢ i
IsApart behind (failed e) i = Unit

-- The process with the pid `i` that began at `time` lives through the call, and makes none of the
-- writes in it.
abbrev pub Elsewhere : Call → ℕ → ℕ → Type 0
Elsewhere (setchos k m w) i time = Others m i time
Elsewhere (resetchos m w) i time = Others m i time
Elsewhere (valid m w) i time = Unit
Elsewhere (savestate w) i time = Unit
Elsewhere (readlink m fuel) i time = Dated m i time
Elsewhere (fork m fuel during r behind) i time =
    Dated m i time × IsApart behind r i × Elsewhere during i time
Elsewhere (exit m fuel children) i time = Dated m i time
Elsewhere idle i time = Unit
Elsewhere (sequence c d) i time = Elsewhere c i time × Elsewhere d i time

-- What the kernel guarantees to a call, and the policy `P`: root writes only approved paths to
-- /proc/chos/valid.
abbrev pub Fits : (Bytes → Type 0) → Call → State → Type 0
Fits P (setchos k m w) s =
    FreshObjects m w s × (m.current ≢ null) × (pid_of m m.current < s.pid_max)
Fits P (resetchos m w) s = (pid_of m m.current < s.pid_max)
Fits P (valid m w) s = is_root m s ≡ true → P (path_of w)
Fits P (savestate w) s = Unit
Fits P (readlink m fuel) s = HasWay m fuel s
Fits P (fork m fuel during r behind) s =
    HasWay m fuel s
    × IsChild m behind r s
    × Elsewhere during (pid_of m m.current) (m.task m.current).start_time
    × ((a : Ptr) (s1 : State) → lookup_link m fuel m.current s ≡ ok a s1 → Fits P during s1)
Fits P (exit m fuel children) s =
    (h : HasWay m fuel s) × Distinct m × Children m s.pid_max h.pids children
Fits P idle s = Unit
Fits P (sequence c d) s = Fits P c s × ((s1 : State) → run c s ≡ ok tt s1 → Fits P d s1)

-- The states that calls lead to, with the kernel's guarantees and the policy at each of them.
pub data Reach (P : Bytes → Type 0) (s0 : State) : State → Type 0 where
  start : Reach P s0 s0
  later : {s s' : State} (c : Call) → Reach P s0 s → Fits P c s → run c s ≡ ok tt s' → Reach P s0 s'
