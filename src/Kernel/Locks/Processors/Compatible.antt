-- ===== src/Kernel/Locks/Processors/Compatible.antt =====
-- The locks that two processors can hold at one time: readers and writers of the entries, and
-- tasklist_lock.
use chos.Prelude.{ℕ, ◌≡◌, Bool, true, false, not, ◌&&◌, ◌||◌, arith, refl}
use chos.Kernel.Locks.{
  Hold, Lock, tasklist_lock, reader, writer, Locks, is_reading, is_writing, with_lock, without_lock,
  in_order, free, reading, writing,
}
use chos.Kernel.Locks.Processors.{lets}

abbrev pub holds_entry : ℕ → Hold → Bool
holds_entry i e = is_reading i e || is_writing i e

-- Two processors hold nothing that excludes the other: not both tasklist_lock, and no entry that
-- one of them holds as a writer.
pub record Compatible (l d : Locks) : Type 0 where
  pub tasklists : (l.tasklist && d.tasklist) ≡ false
  pub first_writes : (i : ℕ) → is_writing i l.entry ≡ true → holds_entry i d.entry ≡ false
  pub second_writes : (i : ℕ) → is_writing i d.entry ≡ true → holds_entry i l.entry ≡ false

pub Compatible-sym : {l d : Locks} → Compatible l d → Compatible d l
Compatible-sym q = record {
  tasklists = ground (arith, q.tasklists);
  first_writes = q.second_writes;
  second_writes = q.first_writes;
}

-- What a lock that is let leaves alone.
read_clear :
    (i j : ℕ) (e : Hold)
    → not (is_writing i e) ≡ true
    → is_writing j e ≡ true
    → holds_entry j (reading i) ≡ false
read_clear i j free o w = ground (arith, w)
read_clear i j (reading k) o w = ground (arith, w)
read_clear i j (writing k) o w = ground (arith, o, w)

write_clear :
    (i j : ℕ) (e : Hold)
    → (not (is_writing i e) && not (is_reading i e)) ≡ true
    → is_writing j (writing i) ≡ true
    → holds_entry j e ≡ false
write_clear i j free o w = refl
write_clear i j (reading k) o w = ground (arith, o, w)
write_clear i j (writing k) o w = ground (arith, o, w)

write_clear_back :
    (i j : ℕ) (e : Hold)
    → (not (is_writing i e) && not (is_reading i e)) ≡ true
    → is_writing j e ≡ true
    → holds_entry j (writing i) ≡ false
write_clear_back i j free o w = ground (arith, w)
write_clear_back i j (reading k) o w = ground (arith, w)
write_clear_back i j (writing k) o w = ground (arith, o, w)

pub Compatible-took :
    {l d : Locks} (h : Lock)
    → in_order h l ≡ true
    → lets h d ≡ true
    → Compatible l d
    → Compatible (with_lock h l) d
Compatible-took {l} {d} tasklist_lock o e q = record {
  tasklists = ground (arith, e);
  first_writes = q.first_writes;
  second_writes = q.second_writes;
}
Compatible-took {l} {d} (reader i) o e q = record {
  tasklists = q.tasklists;
  first_writes = λ j w. ground (arith, w);
  second_writes = λ j w. read_clear i j d.entry e w;
}
Compatible-took {l} {d} (writer i) o e q = record {
  tasklists = q.tasklists;
  first_writes = λ j w. write_clear i j d.entry e w;
  second_writes = λ j w. write_clear_back i j d.entry e w;
}

pub Compatible-gave : {l d : Locks} (h : Lock) → Compatible l d → Compatible (without_lock h l) d
Compatible-gave tasklist_lock q = record {
  tasklists = refl;
  first_writes = q.first_writes;
  second_writes = q.second_writes;
}
Compatible-gave (reader i) q = record {
  tasklists = q.tasklists;
  first_writes = λ j e. ground (arith, e);
  second_writes = λ j e. refl;
}
Compatible-gave (writer i) q = record {
  tasklists = q.tasklists;
  first_writes = λ j e. ground (arith, e);
  second_writes = λ j e. refl;
}
