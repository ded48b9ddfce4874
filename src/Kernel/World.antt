-- ===== src/Kernel/World.antt =====
-- What outlives a module of kernel/chos_lkm.c, the build and the load, and actions on it.
use chos.Prelude.{ℕ, Bool, Option, none, some, List, Bytes, ◌==◌, update, if◌then◌else◌}
use chos.Kernel.State.{ValidPath, Ptr, null, Proc, Dir, Fault, null_deref, use_after_free}
use chos.Kernel.Patch.{Target, Memory}

-- `struct chos` in memory, less `dir`; `procs` is the address of the array.
pub record Chos : Type 0 where
  pub magic : ℕ
  pub version : ℕ
  pub pid_max : ℕ
  pub procs : Ptr
  pub named : Dir
  pub nochroot : Dir
  pub fork_wrapped : Bool

-- The entries of the system call table that the module changes.
pub record Syscalls : Type 0 where
  pub exit : Ptr
  pub exit_group : Ptr

-- The memory of the kernel, /proc/chos with the files under it, the variables of the module that is
-- loaded (`ch`, `save_state`, the list valid_paths, and the pointers to the original system calls), and how many references
-- to each directory path_lookup has taken and path_put given back.
pub record World : Type 0 where
  pub tables : Ptr → Option Chos
  pub arrays : Ptr → Option (ℕ → Proc)
  pub memory : Memory
  pub syscalls : Syscalls
  pub dir : Bool
  pub files : List Bytes
  pub ch : Ptr
  pub save_state : Bool
  pub valid_paths : List ValidPath
  pub orig : Syscalls
  pub taken : Dir → ℕ
  pub given_back : Dir → ℕ

-- How the module was built: WRAP_DOFORK and SCT, the addresses, and PID_MAX.
pub record Build : Type 0 where
  pub wrap_dofork : Bool
  pub sct : Bool
  pub target : Target
  pub my_exit : Syscalls
  pub pid_max : ℕ

-- The parameters `table` and `max` of the module (0 for a `max` below 1), and what the kernel does
-- during the load: kmalloc, vmalloc by the size, the directory that path_lookup leaves in the path and
-- whether it has found it, and whether the entries under /proc can be made.
pub record Loading : Type 0 where
  pub table : Ptr
  pub max : ℕ
  pub kmalloc : Ptr
  pub vmalloc : ℕ → Ptr
  pub path_lookup : Bytes → Dir
  pub found : Bytes → Bool
  pub proc_mkdir : Bool
  pub proc_create : Bytes → Bool
  pub proc_symlink : Bool

-- A result and the new world, or a fault.
pub data Outcome (A : Type 0) : Type 0 where
  done : A → World → Outcome A
  oops : Fault → Outcome A

abbrev pub Action : Type 0 → Type 0
Action A = World → Outcome A

module _ {A B : Type 0} where
  abbrev pub after : Outcome A → (A → Action B) → Outcome B
  after (done a w) k = k a w
  after (oops f) k = oops f

  infixl 5 ◌>>=◌ ◌>>◌
  abbrev pub ◌>>=◌ : Action A → (A → Action B) → Action B
  (f >>= k) w = after (f w) k

  abbrev pub ◌>>◌ : Action A → Action B → Action B
  f >> g = f >>= λ _. g

-- What an int function returns: 0, or -1.
pub data Status : Type 0 where
  zero_ok minus_one : Status

abbrev pub magic : ℕ
magic = 0x1234

-- `CDSV`
abbrev pub cdsv : ℕ
cdsv = 1

abbrev pub set_table : Ptr → Option Chos → World → World
set_table p c w = record w { tables = update w.tables p c }

abbrev pub set_array : Ptr → Option (ℕ → Proc) → World → World
set_array p a w = record w { arrays = update w.arrays p a }

-- `*ch`
unfoldable pub load_chos : Action Chos
load_chos w =
    if w.ch == null
    then oops null_deref
    else elim (w.tables w.ch) [ none ↦ oops use_after_free | some c ↦ done c w ]
