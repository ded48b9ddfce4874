-- ===== src/Kernel/Module.antt =====
-- Loading: kernel/chos_lkm.c, init_chos to init_module. cleanup_module is in Cleanup.antt.
pub mod Cleanup
pub mod Load
pub mod Unload
pub mod Upgrade
pub mod Fresh
use chos.Kernel.World.{
  Chos, Syscalls, World, Build, Loading, Action, zero_ok, minus_one, done, oops, Status, magic,
  cdsv, set_table, set_array, load_chos, ◌>>=◌, ◌>>◌,
}
use chos.Prelude.{
  ℕ, ◌+◌, ◌*◌, ◌-◌, ◌%◌, ◌^◌, Bool, true, false, not, Option, none, some, List, [], ◌∷◌, Bytes,
  codes, str_eq, ltb, ◌==◌, update, if◌then◌else◌,
}
use chos.Kernel.State.{Ptr, null, Proc, Dir, State, Fault, null_deref, use_after_free}
use chos.Kernel.Proc.{dir_eq}
use chos.Kernel.Patch.{Target, Memory, init_do_fork, cleanup_do_fork}

-- `sizeof(struct chos_proc)`
abbrev pub proc_size : ℕ
proc_size = 24

-- An entry that init_chos writes: its start time is -1.
abbrev pub unused : Proc
unused = record { link = null; start_time = 2 ^ 64 - 1 }

-- path_lookup takes a reference to the directory that it finds.
abbrev pub take_reference : Loading → Bytes → World → World
take_reference l path w =
    if l.found path
    then record w {
      taken = λ d. if dir_eq d (l.path_lookup path) then w.taken d + 1 else w.taken d;
    }
    else w

-- `retval` is not looked at.
unfoldable pub look_up_paths : Loading → World → World
look_up_paths l w = take_reference l (codes "/") (take_reference l (codes "/chos") w)

abbrev pub size_of : Build → Loading → ℕ
size_of b l = if ltb 0 l.max then l.max else b.pid_max

-- The struct as init_chos fills it, before the wrapper is put in.
abbrev pub new_chos : Build → Loading → Chos
new_chos b l = record {
  magic = magic;
  version = 1;
  pid_max = size_of b l;
  procs = l.vmalloc (size_of b l * proc_size % 2 ^ 64);
  named = l.path_lookup (codes "/chos");
  nochroot = l.path_lookup (codes "/");
  fork_wrapped = false;
}

-- `if (init_do_fork()==0) ch->fork_wrapped=1;`
unfoldable pub wrap : Build → Chos → World → World
unfolding init_do_fork
wrap b c w =
    let (trapped, memory) = init_do_fork b.target w.memory in
    record w {
      memory = memory;
      tables = update w.tables w.ch (some (record c { fork_wrapped = trapped }));
    }

-- The system calls are saved and replaced.
unfoldable pub hook : Build → World → World
hook b w = record w { orig = w.syscalls; syscalls = b.my_exit }

unfoldable pub init_chos : Build → Loading → Action Status
unfolding look_up_paths wrap hook
init_chos b l w =
    let c = new_chos b l in
    let w0 : World = record w { ch = l.kmalloc } in
    let w1 = look_up_paths l w0 in
    let w2 = set_table l.kmalloc (some c) (set_array c.procs (some (λ i. unused)) w1) in
    let w3 = if b.wrap_dofork then wrap b c w2 else w2 in
    if l.kmalloc == null
    then done minus_one w0
    else if c.procs == null
    then done minus_one (set_table l.kmalloc none w1)
    else done zero_ok (if b.sct then hook b w3 else w3)

unfoldable pub recover_chos : Ptr → Action Status
recover_chos table w = elim (w.tables table) [
  | none ↦ oops use_after_free
  | some c ↦
      if not (c.magic == magic)
      then done minus_one w
      else if c.version == cdsv
      then done zero_ok (record w { ch = table })
      else done minus_one w
]

-- handle_proc_entry_failure
unfoldable pub handle_proc_entry_failure : World → World
handle_proc_entry_failure w = record w { dir = false }

unfoldable pub chos_make_proc_entry : Loading → Bytes → World → World
unfolding handle_proc_entry_failure
chos_make_proc_entry l name w =
    if l.proc_create name then record w { files = name ∷ w.files } else handle_proc_entry_failure w

-- The files, less the link.
unfoldable pub make_files : Loading → World → World
make_files l w =
    let make = chos_make_proc_entry l in
    make (codes "valid") (
      make (codes "version")
        (make (codes "savestate") (make (codes "resetchos") (make (codes "setchos") w))))

-- The part of init_module behind the tables.
unfoldable pub make_entries : Loading → Action Status
unfolding load_chos
make_entries l w =
    if not l.proc_mkdir
    then done minus_one w
    else (do
      _ ← load_chos
      λ w1.
          (let w2 = make_files l (record w1 { dir = true }) in
            if not l.proc_symlink
            then oops null_deref
            else done zero_ok (record w2 { files = codes "link" ∷ w2.files })))
        w

-- Either result of the first part other than 0 ends the load.
unfoldable pub init_module : Build → Loading → Action Status
unfolding init_chos recover_chos
init_module b l = do
  r ← if not (l.table == null) then recover_chos l.table else init_chos b l
  elim r [ zero_ok ↦ make_entries l | minus_one ↦ done minus_one ]

-- A module that is loaded into the kernel has its variables as they are declared.
abbrev pub fresh_module : World → World
fresh_module w = record w {
  ch = null;
  save_state = false;
  valid_paths = [];
  orig = record { exit = null; exit_group = null };
}

-- The table that the functions of a loaded module see.
unfoldable pub seen : World → State → Option State
seen w s = elim (w.tables w.ch) [
  | none ↦ none
  | some c ↦ elim (w.arrays c.procs) [
    | none ↦ none
    | some procs ↦ some (record s {
      pid_max = c.pid_max;
      procs = procs;
      named = c.named;
      nochroot = c.nochroot;
      fork_wrapped = c.fork_wrapped;
      save_state = w.save_state;
      valid_paths = w.valid_paths;
    })
  ]
]
