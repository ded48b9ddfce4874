-- ===== src/Kernel/Links.antt =====
-- The reference-counted links and the cache of one entry for each process:
-- kernel/chos_lkm.c, create_link to lookup_link.
pub mod Refs
pub mod Inv
pub mod Release
pub mod Reset
pub mod Set
pub mod Cleanup
pub mod Way
pub mod Resolve
pub mod Lookup
pub mod Reclaim
pub mod Invisible
pub mod Tree
pub mod Create
use chos.Prelude.{
  ℕ, zero, suc, ◌+◌, ◌-◌, ◌%◌, ◌^◌, Bool, true, false, not, ◌&&◌, ◌||◌, Option, none, some, Bytes,
  ltb, ◌==◌, if◌then◌else◌,
}
use chos.Kernel.State.{
  Ptr, null, Link, Proc, Task, Machine, State, Run, ok, fault, out_of_fuel, Cmd, ◌>>=◌, ◌>>◌, pure,
  get, assert_not, load_proc, store_proc, load_link, write_link, store_link, free_link, free_text,
}

-- `atomic_inc` and `atomic_dec` on a 32-bit counter.
abbrev pub atomic_inc : ℕ → ℕ
atomic_inc n = (n + 1) % 2 ^ 32

abbrev pub atomic_dec : ℕ → ℕ
atomic_dec n = (n + (2 ^ 32 - 1)) % 2 ^ 32

-- `fresh` is what kmalloc returns for the link.
unfoldable pub create_link : (fresh : Ptr) → (text : Ptr) → Cmd Ptr
create_link fresh text =
    if fresh == null
    then pure null
    else (do write_link fresh (some (record { text = text; count = 0 })); pure fresh)

unfoldable pub destroy_link : Ptr → Cmd (Unit {0})
unfolding load_link free_link free_text
destroy_link link = if link == null then pure tt else (do
  l ← load_link link
  if l.count == 0 then (do free_text l.text; free_link link) else pure tt)

-- The part of reset_link behind the lock: drop one reference to the link, and then look whether it
-- was the last.
unfoldable pub drop_reference : Ptr → Cmd (Unit {0})
unfolding load_link store_link
drop_reference link = do
  l ← load_link link
  store_link link (record l { count = atomic_dec l.count })

unfoldable pub destroy_unused : Ptr → Cmd (Unit {0})
unfolding load_link destroy_link
destroy_unused link = do
  left ← load_link link
  if left.count == 0 then destroy_link link else pure tt

unfoldable pub release : Ptr → Cmd (Unit {0})
unfolding drop_reference destroy_unused
release link = if link == null then pure tt else (do drop_reference link; destroy_unused link)

-- `reset_link(&ch->procs[i])`
unfoldable pub reset_link : ℕ → Cmd (Unit {0})
unfolding load_proc store_proc release
reset_link i = do
  p ← load_proc i
  store_proc i (record { link = null; start_time = 0 })
  release p.link

-- The part of set_link that counts a new reference.
unfoldable pub acquire : Ptr → Cmd (Unit {0})
unfolding load_link store_link
acquire link =
    if link == null
    then pure tt
    else (do l ← load_link link; store_link link (record l { count = atomic_inc l.count }))

unfoldable pub set_link : Machine → Ptr → Ptr → Cmd (Unit {0})
unfolding load_proc store_proc reset_link acquire
set_link m link t = do
  assert_not (t == null)
  s ← get
  assert_not (ltb s.pid_max (m.task t).pid)
  p ← load_proc (m.task t).pid
  if not (p.link == null) then reset_link (m.task t).pid else pure tt
  acquire link
  store_proc (m.task t).pid (record { link = link; start_time = (m.task t).start_time })

-- The two tests of the loop of cleanup_links, for the entry `p` of index `i`.
abbrev pub is_dead : Machine → ℕ → Proc → Bool
is_dead m i p =
    let t = m.find_task i in
    if not (p.link == null) && t == null
    then true
    else not (p.link == null) && not (p.start_time == (m.task t).start_time)

-- The loop of cleanup_links over the `n` indices from `i`.
unfoldable pub cleanup_from : Machine → ℕ → ℕ → Cmd (Unit {0})
unfolding load_proc reset_link
cleanup_from m zero i s = ok tt s
cleanup_from m (suc n) i s =
    (do p ← load_proc i; if is_dead m i p then reset_link i else pure tt; cleanup_from m n (i + 1))
      s

unfoldable pub cleanup_links : Machine → Cmd (Unit {0})
unfolding cleanup_from
cleanup_links m s = cleanup_from m s.pid_max 0 s

-- What lookup_link does with the link found for the parent of `t`.
unfoldable pub remember : Machine → Ptr → Ptr → Cmd Ptr
unfolding set_link reset_link
remember m t link =
    if not (link == null)
    then (do set_link m link t; pure link)
    else (do reset_link (m.task t).pid; pure link)

-- The entry `p` holds no link for `t`: none at all, or one of an earlier process with that pid.
abbrev pub not_cached : Machine → Ptr → Proc → Bool
not_cached m t p = p.link == null || not (p.start_time == (m.task t).start_time)

-- lookup_link below its two early returns; `walk` is the call for the parent.
unfoldable pub lookup_entry : Machine → Ptr → Cmd Ptr → Cmd Ptr
unfolding load_proc remember
lookup_entry m t walk = do
  s ← get
  assert_not (ltb s.pid_max (m.task t).pid)
  p ← load_proc (m.task t).pid
  if not_cached m t p then walk >>= remember m t else pure p.link

-- The recursion goes up the process tree, once for each process on the path.
unfoldable pub lookup_link : Machine → ℕ → Ptr → Cmd Ptr
unfolding lookup_entry
lookup_link m zero t s = fault out_of_fuel
lookup_link m (suc fuel) t s =
    let found = lookup_entry m t (lookup_link m fuel (m.task t).parent) s in
    if t == null
    then ok null s
    else if (m.task t).pid == 0 || (m.task t).pid == 1
    then ok null s
    else found
