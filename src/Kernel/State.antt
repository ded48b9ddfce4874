-- ===== src/Kernel/State.antt =====
-- kernel/chos.h: the objects of the module, and the memory that its functions read and write.
-- A run either ends in a new state or at the first fault of C: a failed BUG_ON, an index outside
-- of `ch->procs`, or a pointer that is null or freed.
pub mod Returns
use chos.Prelude.{ℕ, ◌<◌, Option, none, some, Bool, List, Bytes, ltb, ◌==◌, if◌then◌else◌, update}

abbrev pub Ptr : Type 0
Ptr = ℕ

abbrev pub null : Ptr
null = 0

-- `struct chos_link`; `text` points to a kmalloc'ed C string.
pub record Link : Type 0 where
  pub text : Ptr
  pub count : ℕ

-- `struct chos_proc`, less its lock.
pub record Proc : Type 0 where
  pub link : Ptr
  pub start_time : ℕ

-- `struct valid_path`.
pub record ValidPath : Type 0 where
  pub path : Bytes
  pub length : ℕ

-- The fields of `struct task_struct` that the module reads.
pub record Task : Type 0 where
  pub pid : ℕ
  pub start_time : ℕ
  pub parent : Ptr
  pub cred : Ptr
  pub fs : Ptr

-- A directory, as is_chrooted tells them apart.
pub record Dir : Type 0 where
  pub mnt : Ptr
  pub inode : Ptr

-- What the kernel gives to a call: its tasks, the search for a task by its pid (null if there is
-- none), and the calling task.
pub record Machine : Type 0 where
  pub task : Ptr → Task
  pub find_task : ℕ → Ptr
  pub current : Ptr

-- The global `struct chos`, the objects on the heap, the list `valid_paths`, the flag
-- `save_state`, the root directory of each `struct fs_struct`, the effective uid and capabilities of
-- each `struct cred`, and the address limit of the calling thread.
pub record State : Type 0 where
  pub pid_max : ℕ
  pub procs : ℕ → Proc
  pub links : Ptr → Option Link
  pub texts : Ptr → Option Bytes
  pub valid_paths : List ValidPath
  pub save_state : Bool
  pub root : Ptr → Dir
  pub named : Dir
  pub nochroot : Dir
  pub euid : Ptr → ℕ
  pub caps : Ptr → ℕ
  pub addr_limit : ℕ
  pub fork_wrapped : Bool

pub data Fault : Type 0 where
  bug_on out_of_bounds null_deref use_after_free double_free out_of_fuel : Fault

pub data Run (A : Type 0) : Type 0 where
  ok : A → State → Run A
  fault : Fault → Run A

abbrev pub Cmd : Type 0 → Type 0
Cmd A = State → Run A

module _ {A B : Type 0} where
  abbrev pub and_then : Run A → (A → Cmd B) → Run B
  and_then (ok a s) k = k a s
  and_then (fault f) k = fault f

  infixl 5 ◌>>=◌ ◌>>◌
  abbrev pub ◌>>=◌ : Cmd A → (A → Cmd B) → Cmd B
  (m >>= k) s = and_then (m s) k

  abbrev pub ◌>>◌ : Cmd A → Cmd B → Cmd B
  m >> n = m >>= λ _. n

abbrev pub pure : {A : Type 0} → A → Cmd A
pure = ok

abbrev pub get : Cmd State
get s = ok s s

-- `BUG_ON(b)` halts the kernel if `b` holds.
abbrev pub assert_not : Bool → Cmd (Unit {0})
assert_not b s = if b then fault bug_on else ok tt s

-- `ch->procs[i]`, an array of `pid_max` entries.
unfoldable pub load_proc : ℕ → Cmd Proc
load_proc i s = if ltb i s.pid_max then ok (s.procs i) s else fault out_of_bounds

unfoldable pub store_proc : ℕ → Proc → Cmd (Unit {0})
store_proc i p s =
    if ltb i s.pid_max then ok tt (record s { procs = update s.procs i p }) else fault out_of_bounds

-- `*link`
unfoldable pub load_link : Ptr → Cmd Link
load_link a s =
    if a == null
    then fault null_deref
    else elim (s.links a) [ none ↦ fault use_after_free | some l ↦ ok l s ]

-- The raw write: `some l` fills the address, `none` gives it back.
abbrev pub write_link : Ptr → Option Link → Cmd (Unit {0})
write_link a o s = ok tt (record s { links = update s.links a o })

unfoldable pub store_link : Ptr → Link → Cmd (Unit {0})
unfolding load_link
store_link a l = load_link a >> write_link a (some l)

-- `kfree(link)`
unfoldable pub free_link : Ptr → Cmd (Unit {0})
unfolding load_link
free_link a = load_link a >> write_link a none

abbrev pub write_text : Ptr → Option Bytes → Cmd (Unit {0})
write_text p o s = ok tt (record s { texts = update s.texts p o })

-- `kfree(text)`, which ignores the null pointer
unfoldable pub free_text : Ptr → Cmd (Unit {0})
free_text p s =
    if p == null
    then ok tt s
    else elim (s.texts p) [ none ↦ fault double_free | some _ ↦ write_text p none s ]

-- `*text`
unfoldable pub load_text : Ptr → Cmd Bytes
load_text p s =
    if p == null
    then fault null_deref
    else elim (s.texts p) [ none ↦ fault use_after_free | some t ↦ ok t s ]
