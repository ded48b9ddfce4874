-- ===== src/Kernel/Locks.antt =====
-- The locks of kernel/chos_lkm.c: the lock of each entry (`rwlock_t lock` of chos.h) and
-- tasklist_lock, and calls as the steps that a processor makes one at a time.
pub mod Links
pub mod Calls
pub mod Discipline
pub mod Erase
pub mod Balanced
pub mod Processors
use chos.Prelude.{ℕ, ◌+◌, ◌-◌, Bool, true, false, not, ◌&&◌, ◌||◌, ◌==◌, update, if◌then◌else◌}
use chos.Kernel.State.{Proc, State, Fault, Run, ok, fault, Cmd, load_proc, store_proc, and_then}

-- tasklist_lock, or the lock of the entry `i` for a reader or for a writer.
pub data Lock : Type 0 where
  tasklist_lock : Lock
  reader writer : ℕ → Lock

-- The lock of an entry that a call holds: none, that of the entry `i` as a reader, or as a writer.
pub data Hold : Type 0 where
  free : Hold
  reading writing : ℕ → Hold

-- What a call holds: tasklist_lock or not, and at most one lock of an entry.
pub record Locks : Type 0 where
  pub tasklist : Bool
  pub entry : Hold

abbrev pub no_locks : Locks
no_locks = record { tasklist = false; entry = free }

-- The rest of a call: its result, or its next step. A step is an access to the memory that needs
-- no lock, a lock taken or given back, or a read or write of an entry, `p->link` and
-- `p->start_time`.
pub data Locked (A : Type 0) : Type 1 where
  result : A → Locked A
  access : {X : Type 0} → Cmd X → (X → Locked A) → Locked A
  taking giving : Lock → Locked A → Locked A
  loading : ℕ → (Proc → Locked A) → Locked A
  storing : ℕ → Proc → Locked A → Locked A

infixl 5 ◌>>=◌ ◌>>◌
unfoldable pub ◌>>=◌ : {A B : Type 0} → Locked A → (A → Locked B) → Locked B
result a >>= f = f a
access g k >>= f = access g λ x. k x >>= f
taking h p >>= f = taking h (p >>= f)
giving h p >>= f = giving h (p >>= f)
loading i k >>= f = loading i λ q. k q >>= f
storing i q p >>= f = storing i q (p >>= f)

abbrev pub ◌>>◌ : {A B : Type 0} → Locked A → Locked B → Locked B
unfolding ◌>>=◌
f >> g = f >>= λ _. g

abbrev pub pure : {A : Type 0} → A → Locked A
pure = result

abbrev pub lift : {A : Type 0} → Cmd A → Locked A
lift f = access f result

abbrev pub write_lock : ℕ → Locked (Unit {0})
write_lock i = taking (writer i) (result tt)

abbrev pub write_unlock : ℕ → Locked (Unit {0})
write_unlock i = giving (writer i) (result tt)

abbrev pub read_lock : ℕ → Locked (Unit {0})
read_lock i = taking (reader i) (result tt)

abbrev pub read_unlock : ℕ → Locked (Unit {0})
read_unlock i = giving (reader i) (result tt)

-- `write_lock_irq(tasklist_lock_p)`
abbrev pub lock_tasklist : Locked (Unit {0})
lock_tasklist = taking tasklist_lock (result tt)

abbrev pub unlock_tasklist : Locked (Unit {0})
unlock_tasklist = giving tasklist_lock (result tt)

-- `p->link` and `p->start_time` under the lock of the entry.
abbrev pub load_entry : ℕ → Locked Proc
load_entry i = loading i result

abbrev pub store_entry : ℕ → Proc → Locked (Unit {0})
store_entry i q = storing i q (result tt)

abbrev pub is_free : Hold → Bool
is_free free = true
is_free (reading j) = false
is_free (writing j) = false

abbrev pub is_reading : ℕ → Hold → Bool
is_reading i free = false
is_reading i (reading j) = i == j
is_reading i (writing j) = false

abbrev pub is_writing : ℕ → Hold → Bool
is_writing i free = false
is_writing i (reading j) = false
is_writing i (writing j) = i == j

-- A lock is in order if tasklist_lock comes before that of an entry, and one entry's at a time.
abbrev pub in_order : Lock → Locks → Bool
in_order tasklist_lock l = not l.tasklist && is_free l.entry
in_order (reader i) l = is_free l.entry
in_order (writer i) l = is_free l.entry

abbrev pub holds : Lock → Locks → Bool
holds tasklist_lock l = l.tasklist
holds (reader i) l = is_reading i l.entry
holds (writer i) l = is_writing i l.entry

abbrev pub with_lock : Lock → Locks → Locks
with_lock tasklist_lock l = record l { tasklist = true }
with_lock (reader i) l = record l { entry = reading i }
with_lock (writer i) l = record l { entry = writing i }

abbrev pub without_lock : Lock → Locks → Locks
without_lock tasklist_lock l = record l { tasklist = false }
without_lock (reader i) l = record l { entry = free }
without_lock (writer i) l = record l { entry = free }

-- What ends a call: a fault, a lock taken out of order, the release of a lock that the call does
-- not hold, or an access to an entry without the lock for it.
pub data Stop : Type 0 where
  bad : Fault → Stop
  out_of_order not_held unprotected : Stop

pub data Outcome (A : Type 0) : Type 0 where
  done : A → Locks → State → Outcome A
  stopped : Stop → Outcome A

abbrev pub settle : {A : Type 0} → Locks → Run A → Outcome A
settle l (ok a s) = done a l s
settle l (fault e) = stopped (bad e)

abbrev pub resume : {X A : Type 0} → Run X → (X → State → Outcome A) → Outcome A
resume (ok x s) k = k x s
resume (fault e) k = stopped (bad e)

-- A call by itself, with a look at its locks at each step.
unfoldable pub alone : {A : Type 0} → Locked A → Locks → State → Outcome A
unfolding load_proc store_proc
alone (result a) l s = done a l s
alone (access f k) l s = resume (f s) λ x. alone (k x) l
alone (taking h p) l s =
    let rest = alone p (with_lock h l) s in if in_order h l then rest else stopped out_of_order
alone (giving h p) l s =
    let rest = alone p (without_lock h l) s in if holds h l then rest else stopped not_held
alone (loading i k) l s =
    let rest = resume (load_proc i s) λ q. alone (k q) l in
    if holds (reader i) l || holds (writer i) l then rest else stopped unprotected
alone (storing i q p) l s =
    let rest = resume (store_proc i q s) λ _. alone p l in
    if holds (writer i) l then rest else stopped unprotected

-- A call by itself without its locks.
unfoldable pub erase : {A : Type 0} → Locked A → Cmd A
unfolding load_proc store_proc
erase (result a) s = ok a s
erase (access f k) s = and_then (f s) λ x. erase (k x)
erase (taking h p) s = erase p s
erase (giving h p) s = erase p s
erase (loading i k) s = and_then (load_proc i s) λ q. erase (k q)
erase (storing i q p) s = and_then (store_proc i q s) λ _. erase p
