-- ===== src/Kernel/Module/Load.antt =====
-- A load into a kernel that has no saved table, and the unload that follows it.
use chos.Kernel.Proc.{dir_eq}
use chos.Kernel.Patch.{init_do_fork}
use chos.Prelude.{
  ◌+◌, ℕ, ◌&&◌, ◌∷◌, Bool, codes, update, if◌then◌else◌, refl, true, Bytes, arith, none, some, ◌≢◌,
  ◌≡◌,
}
use chos.Kernel.World.{Chos, set_array, zero_ok, done, set_table, World, Loading, Build}
use chos.Kernel.Module.{
  make_files, chos_make_proc_entry, look_up_paths, seen, hook, wrap, unused, make_entries, new_chos,
  init_module, init_chos,
}
use chos.Kernel.State.{Dir, Proc, State, Ptr, null}

-- Nothing that the load asks the kernel for is refused, and the memory that it gets is new.
pub record Grants (b : Build) (l : Loading) (w : World) : Type 0 where
  pub no_table : l.table ≡ null
  pub kmalloc : l.kmalloc ≢ null
  pub vmalloc : (new_chos b l).procs ≢ null
  pub new_table : w.tables l.kmalloc ≡ none
  pub new_array : w.arrays (new_chos b l).procs ≡ none
  pub named : l.found (codes "/chos") ≡ true
  pub nochroot : l.found (codes "/") ≡ true
  pub proc_create : (name : Bytes) → l.proc_create name ≡ true
  pub proc_symlink : l.proc_symlink ≡ true

-- The world behind init_chos: the struct with its array, the wrapper, and the system calls.
abbrev pub set_up : Build → Loading → World → World
set_up b l w =
    let c = new_chos b l in
    let w1 : World =
      set_table l.kmalloc (some c)
        (set_array c.procs (some (λ i. unused)) (look_up_paths l (record w { ch = l.kmalloc }))) in
    let w2 : World = if b.wrap_dofork then wrap b c w1 else w1 in if b.sct then hook b w2 else w2

-- The same with the files under /proc/chos.
abbrev pub with_files : World → World
with_files w = record w {
  dir = true;
  files =
      codes "link"
      ∷ codes "valid"
      ∷ codes "version"
      ∷ codes "savestate"
      ∷ codes "resetchos"
      ∷ codes "setchos"
      ∷ w.files;
}

module _ {b : Build} {l : Loading} {w : World} (g : Grants b l w) where
  init_chos-set_up : init_chos b l w ≡ done zero_ok (set_up b l w)
  unfolding init_chos
  init_chos-set_up = ground (arith, g.kmalloc, g.vmalloc)

  pub init_module-set_up : init_module b l w ≡ make_entries l (set_up b l w)
  unfolding init_module
  init_module-set_up = ground (arith, g.no_table, init_chos-set_up)

make-ok :
    (l : Loading) (name : Bytes) (w : World)
    → l.proc_create name ≡ true
    → chos_make_proc_entry l name w ≡ record w { files = name ∷ w.files }
unfolding chos_make_proc_entry
make-ok l name w h = rw h refl

make_files-ok :
    (l : Loading) (w : World)
    → ((name : Bytes) → l.proc_create name ≡ true)
    → make_files l w ≡ record w {
      files =
          codes "valid"
          ∷ codes "version"
          ∷ codes "savestate"
          ∷ codes "resetchos"
          ∷ codes "setchos"
          ∷ w.files;
    }
unfolding make_files
make_files-ok l w create =
    let made : (name : Bytes) (v : World)
        → chos_make_proc_entry l name v ≡ record v { files = name ∷ v.files } =
      λ name v. make-ok l name v (create name) in
    simp made

pub make_entries-ok :
    (l : Loading) (w : World) {c : Chos}
    → w.ch ≢ null
    → w.tables w.ch ≡ some c
    → l.proc_mkdir ≡ true
    → ((name : Bytes) → l.proc_create name ≡ true)
    → l.proc_symlink ≡ true
    → make_entries l w ≡ done zero_ok (with_files w)
unfolding make_entries
make_entries-ok l w ne e mkdir create symlink =
    ground (arith, ne, e, mkdir, symlink, make_files-ok l (record w { dir = true }) create)

-- The wrapper as it stands behind init_chos.
abbrev pub trapped : Build → World → Bool
trapped b w = b.wrap_dofork && (init_do_fork b.target w.memory).0

module _ (b : Build) (l : Loading) (w : World) where
  pub set_up-table :
      (set_up b l w).tables l.kmalloc ≡ some (record (new_chos b l) { fork_wrapped = trapped b w })
  unfolding look_up_paths wrap hook
  set_up-table = ground arith

  pub set_up-other : (p : Ptr) → p ≢ l.kmalloc → (set_up b l w).tables p ≡ w.tables p
  unfolding look_up_paths wrap hook
  set_up-other p ne = ground arith

  pub set_up-ch : (set_up b l w).ch ≡ l.kmalloc
  unfolding look_up_paths wrap hook
  set_up-ch = ground arith

  pub set_up-current :
      (set_up b l w).tables (set_up b l w).ch
      ≡ some (record (new_chos b l) { fork_wrapped = trapped b w })
  set_up-current = rw set_up-ch set_up-table

  pub set_up-save_state : (set_up b l w).save_state ≡ w.save_state
  unfolding look_up_paths wrap hook
  set_up-save_state = ground arith

  pub set_up-valid_paths : (set_up b l w).valid_paths ≡ w.valid_paths
  unfolding look_up_paths wrap hook
  set_up-valid_paths = ground arith

  pub set_up-arrays :
      (set_up b l w).arrays ≡ update w.arrays (new_chos b l).procs (some (λ i. unused))
  unfolding look_up_paths wrap hook
  set_up-arrays = ground arith

  pub set_up-memory :
      (set_up b l w).memory
      ≡ (if b.wrap_dofork then (init_do_fork b.target w.memory).1 else w.memory)
  unfolding look_up_paths wrap hook
  set_up-memory = ground arith

  pub set_up-syscalls :
      (if b.sct then (set_up b l w).orig else (set_up b l w).syscalls) ≡ w.syscalls
  unfolding look_up_paths wrap hook
  set_up-syscalls = ground arith

  pub set_up-files : (set_up b l w).files ≡ w.files
  unfolding look_up_paths wrap hook
  set_up-files = ground arith

  pub set_up-taken :
      (d : Dir)
      → l.found (codes "/chos") ≡ true
      → l.found (codes "/") ≡ true
      → (set_up b l w).taken d
        ≡ w.taken d
          + (if dir_eq d (new_chos b l).named then 1 else 0)
          + (if dir_eq d (new_chos b l).nochroot then 1 else 0)
  unfolding look_up_paths wrap hook
  set_up-taken d named nochroot = ground (arith, named, nochroot)

  pub set_up-given_back : (set_up b l w).given_back ≡ w.given_back
  unfolding look_up_paths wrap hook
  set_up-given_back = ground arith

pub seen-some :
    (w : World) (s : State) {c : Chos} {procs : ℕ → Proc}
    → w.tables w.ch ≡ some c
    → w.arrays c.procs ≡ some procs
    → seen w s
      ≡ some (record s {
        pid_max = c.pid_max;
        procs = procs;
        named = c.named;
        nochroot = c.nochroot;
        fork_wrapped = c.fork_wrapped;
        save_state = w.save_state;
        valid_paths = w.valid_paths;
      })
unfolding seen
seen-some w s table array = rw (table, seen, array) refl
