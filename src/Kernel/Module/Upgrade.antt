-- ===== src/Kernel/Module/Upgrade.antt =====
-- An upgrade: one module is unloaded with its state saved, and the next is loaded with the table.
use mathlib.Core.Option
use chos.Kernel.Patch.Restore.{copy-inside}
use chos.Kernel.Module.Load.{make_entries-ok, with_files}
use chos.Kernel.State.{Dir, null, State}
use chos.Prelude.{
  [], inr, inl, Option-cases, false, ◌∙◌, arith, Bytes, ◌+◌, ◌<◌, ℕ, some, true, ◌≡◌, ◌≢◌,
}
use chos.Kernel.Patch.{cleanup_do_fork}
use chos.Kernel.Module.Cleanup.{cleanup_module}
use chos.Kernel.World.{cdsv, magic, done, Build, Chos, Loading, ◌>>◌, World, zero_ok}
use chos.Kernel.Module.{recover_chos, fresh_module, make_entries, init_module, seen}
use chos.Kernel.Module.Unload.{
  cleaned-taken, cleaned-given_back, cleaned-arrays, cleaned-tables, cleaned-memory,
  cleanup_module-cleaned, IsApart, cleaned,
}

-- What a saved table is, and what the load that gets it asks the kernel for.
pub record Saved (l : Loading) (c : Chos) (w : World) : Type 0 where
  pub table_ne : l.table ≢ null
  pub table : w.tables l.table ≡ some c
  pub magic_is : c.magic ≡ magic
  pub version_is : c.version ≡ cdsv
  pub proc_mkdir : l.proc_mkdir ≡ true
  pub proc_create : (name : Bytes) → l.proc_create name ≡ true
  pub proc_symlink : l.proc_symlink ≡ true

module _ {l : Loading} {c : Chos} {w : World} (q : Saved l c w) where
  recovered :
      (b : Build) → init_module b l w ≡ done zero_ok (with_files (record w { ch = l.table }))
  recovered b =
      recover
      ∙ make_entries-ok l (record w { ch = l.table }) q.table_ne q.table q.proc_mkdir q.proc_create
          q.proc_symlink
    where
      recover : init_module b l w ≡ make_entries l (record w { ch = l.table })
      recover =
          unfold init_module recover_chos in
          ground (arith, q.table_ne, q.table, q.magic_is, q.version_is)

-- If a module is unloaded with save_state set, and the next is loaded with its table, a struct with
-- the right magic number and version, and granted its entries under /proc: then both calls succeed,
-- and the new module sees the same entries, the same size of the table, the same directories and
-- the same fork_wrapped, whatever the two builds differ in; but save_state is off and its list of
-- valid paths is empty, whatever paths were on the old one. No reference to a directory is taken or
-- given back on the way.
pub upgrade-seen :
    (b b' : Build) (l : Loading) {c : Chos} {w : World} (s : State)
    → Saved l c w
    → w.ch ≡ l.table
    → w.save_state ≡ true
    → (w' : World) × ((cleanup_module b >> (λ w1. init_module b' l (fresh_module w1))) w
        ≡ done zero_ok w')
      × (seen w' s
          ≡ Option.map
              (λ (s1 : State). record s1 { save_state = false; valid_paths = [] })
              (seen w s))
      × ((d : Dir) → (w'.taken d ≡ w.taken d) × (w'.given_back d ≡ w.given_back d))
unfolding seen
upgrade-seen b b' l {c} {w} s q e saved =
    let w1 : World = fresh_module (cleaned b c w) in
    let kept : Saved l c w1 = record {
      table_ne = q.table_ne;
      table = cleaned-tables b c w l.table ∙ ground (arith, saved, q.table);
      magic_is = q.magic_is;
      version_is = q.version_is;
      proc_mkdir = q.proc_mkdir;
      proc_create = q.proc_create;
      proc_symlink = q.proc_symlink;
    } in
    let arrays : (cleaned b c w).arrays c.procs ≡ w.arrays c.procs =
      cleaned-arrays b c w c.procs ∙ ground (arith, saved) in
    (
      with_files (record w1 { ch = l.table }),
      rw (cleanup_module-cleaned b w {c = c} (ground (arith, q.table_ne)) (rw e q.table))
          (recovered kept b'),
      same arrays kept.table,
      λ d. (ground (arith, cleaned-taken b c w), ground (arith, cleaned-given_back b c w d, saved)),
    )
  where
    same :
        (cleaned b c w).arrays c.procs ≡ w.arrays c.procs
        → (cleaned b c w).tables l.table ≡ some c
        → seen (with_files (record (fresh_module (cleaned b c w)) { ch = l.table })) s
          ≡ Option.map
              (λ (s1 : State). record s1 { save_state = false; valid_paths = [] })
              (seen w s)
    same arrays table = elim (Option-cases (w.arrays c.procs)) [
      | inl none_there ↦ ground (arith, arrays, table, q.table, none_there)
      | inr (procs, there) ↦ ground (arith, arrays, table, q.table, there)
    ]

-- recover_chos takes fork_wrapped over and puts no wrapper in. If a module with the wrapper in its
-- build is loaded with a saved table that has fork_wrapped set, its addresses are apart, and its
-- jumper is still zero as every variable of a module just loaded, then the next cleanup_module
-- writes zeros over the whole of the original function.
recovered-clobbers :
    (b : Build) (l : Loading) {c : Chos} {w : World}
    → Saved l c w
    → b.wrap_dofork ≡ true
    → c.fork_wrapped ≡ true
    → IsApart b.target
    → ((i : ℕ) → i < b.target.length → w.memory.bytes (b.target.jumper + i) ≡ 0)
    → (w' : World) × ((init_module b l >> cleanup_module b) w ≡ done tt w')
      × ((i : ℕ) → i < b.target.length → w'.memory.bytes (b.target.start + i) ≡ 0)
unfolding cleanup_do_fork
recovered-clobbers b l {c} {w} q wraps wrapped a zeros =
    let w1 : World = with_files (record w { ch = l.table }) in
    (
      cleaned b c w1,
      rw (recovered q b) (cleanup_module-cleaned b w1 q.table_ne q.table),
      λ i h.
          rw (cleaned-memory b c w1, wraps, wrapped)
            (copy-inside b.target.length b.target.start b.target.jumper w.memory.bytes i
                (ground (arith, a.apart)) h
              ∙ zeros i h),
    )
