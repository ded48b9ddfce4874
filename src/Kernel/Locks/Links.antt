-- ===== src/Kernel/Locks/Links.antt =====
-- reset_link to lookup_link of kernel/chos_lkm.c with their locks.
use chos.Kernel.Links.{drop_reference, acquire, is_dead, not_cached}
use chos.Kernel.Locks.{
  fault, Locked, lift, pure, ◌>>=◌, ◌>>◌, write_lock, write_unlock, read_lock, read_unlock,
  lock_tasklist, unlock_tasklist, load_entry, store_entry,
}
use chos.Kernel.State.{
  load_link, free_text, free_link, fault, Ptr, null, Machine, out_of_fuel, load_proc, get,
  assert_not,
}
use chos.Prelude.{ℕ, zero, suc, ◌+◌, not, ◌==◌, ◌||◌, ltb, if◌then◌else◌}

-- destroy_link, in three accesses.
unfoldable pub destroy_link_locked : Ptr → Locked (Unit {0})
unfolding ◌>>=◌ load_link free_text free_link
destroy_link_locked link = if link == null then pure tt else (do
  l ← lift (load_link link)
  if l.count == 0 then (do lift (free_text l.text); lift (free_link link)) else pure tt)

-- The part of reset_link behind the lock: the decrement, the look at the count, destroy_link.
unfoldable pub release_locked : Ptr → Locked (Unit {0})
unfolding ◌>>=◌ load_link drop_reference destroy_link_locked
release_locked link = if link == null then pure tt else (do
  lift (drop_reference link)
  left ← lift (load_link link)
  if left.count == 0 then destroy_link_locked link else pure tt)

unfoldable pub reset_link_locked : ℕ → Locked (Unit {0})
unfolding ◌>>=◌ release_locked
reset_link_locked i = do
  write_lock i
  p ← load_entry i
  store_entry i (record { link = null; start_time = 0 })
  write_unlock i
  release_locked p.link

unfoldable pub set_link_locked : Machine → Ptr → Ptr → Locked (Unit {0})
unfolding ◌>>=◌
set_link_locked m link t = do
  lift (assert_not (t == null))
  s ← lift get
  lift (assert_not (ltb s.pid_max (m.task t).pid))
  read_lock (m.task t).pid
  p ← load_entry (m.task t).pid
  if not (p.link == null)
      then (do read_unlock (m.task t).pid; reset_link_locked (m.task t).pid)
      else read_unlock (m.task t).pid
  lift (acquire link)
  write_lock (m.task t).pid
  store_entry (m.task t).pid (record { link = link; start_time = (m.task t).start_time })
  write_unlock (m.task t).pid

-- The loop reads the entries without their locks.
unfoldable pub cleanup_from_locked : Machine → ℕ → ℕ → Locked (Unit {0})
unfolding ◌>>=◌ load_proc
cleanup_from_locked m zero i = pure tt
cleanup_from_locked m (suc n) i = do
  p ← lift (load_proc i)
  if is_dead m i p then reset_link_locked i else pure tt
  cleanup_from_locked m n (i + 1)

unfoldable pub cleanup_links_locked : Machine → Locked (Unit {0})
unfolding ◌>>=◌
cleanup_links_locked m = do
  lock_tasklist
  s ← lift get
  cleanup_from_locked m s.pid_max 0
  unlock_tasklist

unfoldable pub remember_locked : Machine → Ptr → Ptr → Locked Ptr
unfolding ◌>>=◌
remember_locked m t link =
    if not (link == null)
    then (do set_link_locked m link t; pure link)
    else (do reset_link_locked (m.task t).pid; pure link)

-- The lock is given back before the call for the parent.
unfoldable pub lookup_entry_locked : Machine → Ptr → Locked Ptr → Locked Ptr
unfolding ◌>>=◌
lookup_entry_locked m t walk = do
  s ← lift get
  lift (assert_not (ltb s.pid_max (m.task t).pid))
  read_lock (m.task t).pid
  p ← load_entry (m.task t).pid
  if not_cached m t p
      then (do read_unlock (m.task t).pid; link ← walk; remember_locked m t link)
      else (do read_unlock (m.task t).pid; pure p.link)

unfoldable pub lookup_link_locked : Machine → ℕ → Ptr → Locked Ptr
unfolding lookup_entry_locked
lookup_link_locked m zero t = lift λ s. fault out_of_fuel
lookup_link_locked m (suc fuel) t =
    let found = lookup_entry_locked m t (lookup_link_locked m fuel (m.task t).parent) in
    if t == null
    then pure null
    else if (m.task t).pid == 0 || (m.task t).pid == 1
    then pure null
    else found
