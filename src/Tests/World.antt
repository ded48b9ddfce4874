-- ===== src/Tests/World.antt =====
-- A small machine: init (1), a shell (2), its child (3) and grandchild (4); the shell has chosen an
-- environment, and the entry of pid 5 is left from an earlier process.
use chos.Kernel.Links.Inv.{Inv, blank}
use chos.Kernel.Paths.Reload.{line_write}
use chos.Kernel.Links.Resolve.{top, below, Lineage}
use chos.Kernel.Buffer.{Write}
use chos.Kernel.Links.Refs.{refs}
use chos.Kernel.Proc.{Services}
use chos.Prelude.{
  inr, inl, Bool-cases, refl, true, arith, ◌==◌, ◌^◌, some, false, leb, [], length, ◌-◌, none, ◌∷◌,
  if◌then◌else◌, update, ◌+◌, codes, Bytes, Option, ℕ,
}
use chos.Kernel.State.{null, ValidPath, Link, Dir, Proc, Machine, Task, State, Ptr}

abbrev pub task_of : ℕ → Task
task_of p = record { pid = p; start_time = 100 + p; parent = p - 1; cred = p; fs = p }

abbrev pub machine : Machine
machine = record { task = task_of; find_task = λ p. if leb p 4 then p else 0; current = 4 }

abbrev pub procs0 : ℕ → Proc
procs0 =
    update (update (λ _. blank) 2 (record { link = 10; start_time = 102 })) 5
      (record { link = 20; start_time = 7 })

abbrev pub links0 : Ptr → Option Link
links0 =
    update (update (λ _. none) 10 (some (record { text = 50; count = 1 }))) 20
      (some (record { text = 60; count = 1 }))

abbrev pub texts0 : Ptr → Option Bytes
texts0 = update (update (λ _. none) 50 (some (codes "/os/a"))) 60 (some (codes "/os/b"))

abbrev pub path : Bytes → ValidPath
path p = record { path = p; length = length p }

abbrev pub base : Dir
base = record { mnt = 1; inode = 2 }

abbrev pub chos_dir : Dir
chos_dir = record { mnt = 1; inode = 9 }

abbrev pub state0 : State
state0 = record {
  pid_max = 6;
  procs = procs0;
  links = links0;
  texts = texts0;
  valid_paths = path (codes "/os/a") ∷ path (codes "/os/b") ∷ [];
  save_state = false;
  root = λ _. base;
  named = chos_dir;
  nochroot = base;
  euid = λ p. if p == 1 then 0 else 500;
  caps = λ _. 0;
  addr_limit = 77;
  fork_wrapped = true;
}

abbrev pub services : Services
services = record {
  sys_chroot = λ p c. if leb (2 ^ 18) c then some chos_dir else none;
  kernel_ds = 99;
}

-- `echo /os/b > /proc/chos/setchos`
abbrev pub choose_b : Write
choose_b = line_write 70 30 (codes "/os/b")

pub state0-Inv : Inv null state0
unfolding refs
state0-Inv = record {
  small = omega arith;
  null_link = refl;
  null_text = refl;
  counted = λ a l e. ground arith;
  held = λ a l e o. ground arith;
  live = λ i h o. elim (Bool-cases (i == 2)) [
    | inl two ↦ (record { text = 50; count = 1 }, ground arith)
    | inr other ↦ (record { text = 60; count = 1 }, ground arith)
  ];
  owned = λ a l e. elim (Bool-cases (a == 10)) [
    | inl ten ↦ (codes "/os/a", ground arith)
    | inr other ↦ (codes "/os/b", ground arith)
  ];
  unique = λ a b l k e f g. ground arith;
}

pub caller-Lineage : Lineage machine 6 4 (4 ∷ 3 ∷ 2 ∷ [])
caller-Lineage =
    below refl refl (omega arith) refl
      (below refl refl (omega arith) refl (below refl refl (omega arith) refl (top refl)))
