-- ===== src/Kernel/Module/Unload.antt =====
-- Unloading: cleanup_module by itself, and behind a load.
use chos.Kernel.Proc.{dir_eq}
use chos.Kernel.Patch.Restore.{cleanup_do_fork-restores}
use chos.Kernel.State.{Dir, null, Ptr}
use chos.Prelude.{
  codes, refl, inl, inr, Bool-cases, false, ◌∙◌, none, ◌==◌, ◌&&◌, ◌<◌, some, arith, not, true, ◌⊎◌,
  ℕ, ◌≢◌, ◌≡◌, ◌+◌, if◌then◌else◌, ◌≤◌,
}
use chos.Kernel.Patch.{Memory, init_do_fork, cleanup_do_fork, Target}
use chos.Kernel.Module.Cleanup.{cleanup_module, free_chos, remove_entries}
use chos.Kernel.World.{◌>>◌, zero_ok, done, Loading, Chos, load_chos, World, Build}
use chos.Kernel.Module.{new_chos, init_module}
use chos.Kernel.Module.Load.{
  set_up-given_back, set_up-taken, set_up-files, set_up-syscalls, set_up-memory, set_up-arrays,
  set_up-other, set_up-save_state, set_up-current, make_entries-ok, set_up-ch, trapped,
  init_module-set_up, set_up, with_files, Grants,
}

-- The world behind cleanup_module, given the struct that `ch` points to.
abbrev pub cleaned : Build → Chos → World → World
cleaned b c w =
    let w1 : World =
      if b.wrap_dofork
      then (if c.fork_wrapped then record w { memory = cleanup_do_fork b.target w.memory } else w)
      else w in
    let w2 : World = if b.sct then record w1 { syscalls = w1.orig } else w1 in
    let w3 = remove_entries w2 in if not w3.save_state then free_chos c w3 else w3

pub cleanup_module-cleaned :
    (b : Build) (w : World) {c : Chos}
    → w.ch ≢ null
    → w.tables w.ch ≡ some c
    → cleanup_module b w ≡ done tt (cleaned b c w)
unfolding cleanup_module load_chos
cleanup_module-cleaned b w ne e = ground arith

module _ (b : Build) (c : Chos) (w : World) where
  pub cleaned-memory :
      (cleaned b c w).memory
      ≡ (if b.wrap_dofork && c.fork_wrapped then cleanup_do_fork b.target w.memory else w.memory)
  unfolding remove_entries free_chos
  cleaned-memory = ground arith

  pub cleaned-syscalls : (cleaned b c w).syscalls ≡ (if b.sct then w.orig else w.syscalls)
  unfolding remove_entries free_chos
  cleaned-syscalls = ground arith

  pub cleaned-tables :
      (p : Ptr)
      → (cleaned b c w).tables p ≡ (if not w.save_state && p == w.ch then none else w.tables p)
  unfolding remove_entries free_chos
  cleaned-tables p = ground arith

  pub cleaned-arrays :
      (p : Ptr)
      → (cleaned b c w).arrays p ≡ (if not w.save_state && p == c.procs then none else w.arrays p)
  unfolding remove_entries free_chos
  cleaned-arrays p = ground arith

  pub cleaned-taken : (cleaned b c w).taken ≡ w.taken
  unfolding remove_entries free_chos
  cleaned-taken = ground arith

  pub cleaned-given_back :
      (d : Dir)
      → (cleaned b c w).given_back d
        ≡ w.given_back d + (if not w.save_state && dir_eq d c.named then 1 else 0)
  unfolding remove_entries free_chos
  cleaned-given_back d = ground arith

  cleaned-files : (cleaned b c (with_files w)).files ≡ w.files
  unfolding remove_entries free_chos
  cleaned-files = ground arith

-- The memory behind a load and an unload.
abbrev memory_after : Build → World → Memory
memory_after b w =
    let m = if b.wrap_dofork then (init_do_fork b.target w.memory).1 else w.memory in
    if b.wrap_dofork && trapped b w then cleanup_do_fork b.target m else m

-- What a load and the unload behind it leave: everything as it was, but for the jumper and one
-- reference to "/".
pub record Undone (b : Build) (l : Loading) (w w' : World) : Type 0 where
  pub tables : (p : Ptr) → w'.tables p ≡ w.tables p
  pub arrays : (p : Ptr) → w'.arrays p ≡ w.arrays p
  pub bytes :
      (a : ℕ)
      → (a < b.target.jumper) ⊎ (b.target.jumper + b.target.length + 9 ≤ a)
      → w'.memory.bytes a ≡ w.memory.bytes a
  pub pte : w'.memory.pte ≡ w.memory.pte
  pub syscalls : w'.syscalls ≡ w.syscalls
  pub files : w'.files ≡ w.files
  pub references :
      (d : Dir)
      → w'.taken d + w.given_back d
        ≡ w.taken d + w'.given_back d + (if dir_eq d (l.path_lookup (codes "/")) then 1 else 0)

-- The range of the function is long enough and apart from the jumper.
pub record IsApart (c : Target) : Type 0 where
  pub long : 9 ≤ c.length
  pub apart : (c.start + c.length ≤ c.jumper) ⊎ (c.jumper + c.length + 9 ≤ c.start)

module _ {b : Build} {l : Loading} {w : World} (g : Grants b l w)
    (mkdir : l.proc_mkdir ≡ true) where
  pub init_module-loaded : init_module b l w ≡ done zero_ok (with_files (set_up b l w))
  init_module-loaded =
      init_module-set_up g
      ∙ make_entries-ok l (set_up b l w) (ground (arith, set_up-ch b l w, g.kmalloc))
          (set_up-current b l w) mkdir g.proc_create g.proc_symlink

  unloaded :
      cleanup_module b (with_files (set_up b l w))
      ≡ done tt (
          cleaned b
            (record (new_chos b l) { fork_wrapped = trapped b w })
            (with_files (set_up b l w)))
  unloaded =
      cleanup_module-cleaned b (with_files (set_up b l w))
        (ground (arith, set_up-ch b l w, g.kmalloc)) (set_up-current b l w)

  -- If everything that a first load asks for is granted, the wrapper goes in where the build has
  -- one, its addresses are apart, and save_state is off: then init_module and the cleanup_module
  -- behind it end without a fault, and the tables, the arrays, the system calls, the page table
  -- entry, the files under /proc/chos and every byte outside of the jumper are as before; the
  -- references to directories that are taken and not given back are as before too, but for one more
  -- to "/".
  pub cleanup_module-init_module :
      IsApart b.target
      → (b.wrap_dofork ≡ true → (init_do_fork b.target w.memory).0 ≡ true)
      → w.save_state ≡ false
      → (w' : World) × ((init_module b l >> cleanup_module b) w ≡ done tt w') × Undone b l w w'
  cleanup_module-init_module q wraps unsaved =
      let c : Chos = record (new_chos b l) { fork_wrapped = trapped b w } in
      let w1 : World = with_files (set_up b l w) in
      (
        cleaned b c w1,
        rw init_module-loaded unloaded,
        record {
          tables = λ p. ground (
            arith,
            cleaned-tables b c w1 p,
            set_up-save_state b l w,
            set_up-ch b l w,
            set_up-other b l w p,
            g.new_table,
          );
          arrays = λ p. ground (
            arith,
            cleaned-arrays b c w1 p,
            set_up-save_state b l w,
            set_up-arrays b l w,
            g.new_array,
          );
          bytes = λ a h. rw (cleaned-memory b c w1, set_up-memory b l w) (restored.0 a h);
          pte = rw (cleaned-memory b c w1, set_up-memory b l w) restored.1;
          syscalls = ground (arith, cleaned-syscalls b c w1, set_up-syscalls b l w);
          files = cleaned-files b c (set_up b l w) ∙ set_up-files b l w;
          references = λ d. ground (
            arith,
            cleaned-taken b c w1,
            cleaned-given_back b c w1 d,
            set_up-taken b l w d g.named g.nochroot,
            set_up-given_back b l w,
            set_up-save_state b l w,
            unsaved,
          );
        },
      )
    where
      restored :
          ((a : ℕ)
            → (a < b.target.jumper) ⊎ (b.target.jumper + b.target.length + 9 ≤ a)
            → (memory_after b w).bytes a ≡ w.memory.bytes a)
          × ((memory_after b w).pte ≡ w.memory.pte)
      restored = elim (Bool-cases b.wrap_dofork) [
        | inr plain ↦ rw plain (λ a h. refl, refl)
        | inl wrapped ↦
            let put : (init_do_fork b.target w.memory).0 ≡ true = wraps wrapped in
            rw (wrapped, put)
              (cleanup_do_fork-restores b.target w.memory (init_do_fork b.target w.memory).1 q.long
                q.apart (ground (arith, put)))
      ]
