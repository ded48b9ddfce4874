-- ===== src/Tests/Module.antt =====
-- Loads and unloads of the module, on a small kernel.
use chos.Kernel.Links.Way.{Resolves}
use chos.Kernel.System.Safe.{Safe}
use chos.Prelude.{
  str_eq, codes, Bytes, ◌≢◌, ◌%◌, [], ltb, inl, some, arith, false, ◌≡◌, if◌then◌else◌, ◌+◌, none,
  update, true, ℕ, refl,
}
use chos.Kernel.Module.Fresh.{init_module-Safe, init_module_fails-wrapped}
use chos.Tests.World.{procs0, base, chos_dir, state0}
use chos.Kernel.State.{Dir, Ptr, Machine, null, State}
use chos.Kernel.Module.Load.{Grants}
use chos.Kernel.Patch.{init_do_fork}
use chos.Kernel.Module.Upgrade.{upgrade-seen, Saved}
use chos.Kernel.Module.Unload.{cleanup_module-init_module, Undone, IsApart}
use mathlib.Core.Option
use chos.Kernel.Module.Cleanup.{cleanup_module}
use chos.Kernel.World.{◌>>◌, minus_one, zero_ok, done, Chos, Syscalls, Build, Loading, World}
use chos.Kernel.Module.{seen, fresh_module, init_module}
use chos.Tests.Patch.{target, kernel}

abbrev syscalls_of : ℕ → Syscalls
syscalls_of p = record { exit = p; exit_group = p + 1 }

abbrev build : Build
build = record {
  wrap_dofork = true;
  sct = true;
  target = target;
  my_exit = syscalls_of 800;
  pid_max = 64;
}

abbrev loading : Loading
loading = record {
  table = null;
  max = 0;
  kmalloc = 300;
  vmalloc = λ size. 400;
  path_lookup = λ path. if str_eq path (codes "/") then base else chos_dir;
  found = λ path. true;
  proc_mkdir = true;
  proc_create = λ name. true;
  proc_symlink = true;
}

abbrev world : World
world = record {
  tables = λ p. none;
  arrays = λ p. none;
  memory = kernel;
  syscalls = syscalls_of 900;
  dir = false;
  files = [];
  ch = null;
  save_state = false;
  valid_paths = [];
  orig = syscalls_of 0;
  taken = λ d. 2;
  given_back = λ d. 0;
}

loading-Grants : Grants build loading world
loading-Grants = record {
  no_table = refl;
  kmalloc = λ e. omega (arith, e);
  vmalloc = λ e. omega (arith, e);
  new_table = refl;
  new_array = refl;
  named = refl;
  nochroot = refl;
  proc_create = λ name. refl;
  proc_symlink = refl;
}

target-IsApart : IsApart target
target-IsApart = record { long = omega arith; apart = inl (omega arith) }

wraps : (init_do_fork target kernel).0 ≡ true
unfolding init_do_fork
wraps = refl

abbrev no_links : State
no_links = record state0 { links = λ p. none; texts = λ p. none; valid_paths = [] }

-- A saved table, of a module that had put its wrapper in.
abbrev saved : Chos
saved = record {
  magic = 0x1234;
  version = 1;
  pid_max = 6;
  procs = 400;
  named = chos_dir;
  nochroot = base;
  fork_wrapped = true;
}

abbrev world_saved : World
world_saved = record world {
  tables = update world.tables 300 (some saved);
  arrays = update world.arrays 400 (some procs0);
  ch = 300;
  save_state = true;
  valid_paths = state0.valid_paths;
}

abbrev reloading : Loading
reloading = record loading { table = 300 }

reloading-Saved : Saved reloading saved world_saved
reloading-Saved = record {
  table_ne = λ e. omega (arith, e);
  table = refl;
  magic_is = refl;
  version_is = refl;
  proc_mkdir = refl;
  proc_create = λ name. refl;
  proc_symlink = refl;
}

-- The jumper of the new module is zero.
abbrev world_new : World
world_new = record (fresh_module world_saved) {
  memory = record { bytes = λ a. if ltb a 5000 then a % 256 else 0; pte = 1 };
}

new-Saved : Saved reloading saved world_new
new-Saved = record {
  table_ne = λ e. omega (arith, e);
  table = refl;
  magic_is = refl;
  version_is = refl;
  proc_mkdir = refl;
  proc_create = λ name. refl;
  proc_symlink = refl;
}

-- The properties here.

cleanup_module-init_module_example :
    (w' : World) × ((init_module build loading >> cleanup_module build) world ≡ done tt w')
    × Undone build loading world w'
cleanup_module-init_module_example =
    cleanup_module-init_module loading-Grants refl target-IsApart (λ e. wraps) refl

-- The policy of a site with one environment.
abbrev IsOs : Bytes → Type 0
IsOs p = p ≡ codes "/os/a"

init_module-Safe_example :
    (w' : World) × (s' : State) × (init_module build loading world ≡ done zero_ok w')
    × (seen w' no_links ≡ some s')
    × Safe IsOs s'
    × ((m : Machine) (t a : Ptr) → Resolves m s' t a → a ≡ null)
init_module-Safe_example =
    init_module-Safe IsOs build loading no_links loading-Grants refl (omega arith) (λ p. refl) refl
      refl

init_module_fails-wrapped_example :
    (w' : World) × (init_module build (record loading { proc_mkdir = false }) world
      ≡ done minus_one w')
    × (w'.memory ≡ (init_do_fork target kernel).1)
    × (w'.memory.bytes 1000 ≡ 233)
    × (w'.tables 300 ≢ none)
init_module_fails-wrapped_example =
    init_module_fails-wrapped build (record loading { proc_mkdir = false })
      (record {
        no_table = refl;
        kmalloc = λ e. omega (arith, e);
        vmalloc = λ e. omega (arith, e);
        new_table = refl;
        new_array = refl;
        named = refl;
        nochroot = refl;
        proc_create = λ name. refl;
        proc_symlink = refl;
      })
      refl refl wraps

upgrade-seen_example :
    (w' : World) × ((cleanup_module build >> (λ w1. init_module build reloading (fresh_module w1)))
        world_saved
      ≡ done zero_ok w')
    × (seen w' state0
        ≡ Option.map
            (λ (s1 : State). record s1 { save_state = false; valid_paths = [] })
            (seen world_saved state0))
    × ((d : Dir)
        → (w'.taken d ≡ world_saved.taken d) × (w'.given_back d ≡ world_saved.given_back d))
upgrade-seen_example = upgrade-seen build build reloading state0 reloading-Saved refl refl
