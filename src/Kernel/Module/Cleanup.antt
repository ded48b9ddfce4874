-- ===== src/Kernel/Module/Cleanup.antt =====
-- cleanup_module of kernel/chos_lkm.c, which unloads the module.
use chos.Kernel.Proc.{dir_eq}
use chos.Kernel.State.{Dir}
use chos.Prelude.{◌+◌, false, not, none, List, [], ◌∷◌, Bytes, codes, str_eq, if◌then◌else◌}
use chos.Kernel.Patch.{cleanup_do_fork}
use chos.Kernel.World.{load_chos, World, Chos, Build, Action, set_table, set_array, done, ◌>>=◌}

-- remove_proc_entry for a file.
abbrev pub remove : Bytes → List Bytes → List Bytes
remove name [] = []
remove name (f ∷ fs) = if str_eq f name then fs else f ∷ remove name fs

-- The calls of remove_proc_entry.
unfoldable pub remove_entries : World → World
remove_entries w = record w {
  dir = false;
  files = remove (codes "valid") (
      remove (codes "link") (
        remove (codes "savestate") (
          remove (codes "version")
            (remove (codes "resetchos") (remove (codes "setchos") w.files)))));
}

abbrev pub path_put : Dir → World → World
path_put e w = record w {
  given_back = λ d. if dir_eq d e then w.given_back d + 1 else w.given_back d;
}

-- `path_put(&(ch->named).path); vfree(ch->procs); kfree(ch);`
unfoldable pub free_chos : Chos → World → World
free_chos c w = set_table w.ch none (set_array c.procs none (path_put c.named w))

unfoldable pub cleanup_module : Build → Action (Unit {0})
unfolding load_chos cleanup_do_fork remove_entries free_chos
cleanup_module b = do
  c ← load_chos
  λ w.
      (let w1 : World =
          if b.wrap_dofork
          then (if c.fork_wrapped
              then record w { memory = cleanup_do_fork b.target w.memory }
              else w)
          else w in
        let w2 : World = if b.sct then record w1 { syscalls = w1.orig } else w1 in
        let w3 = remove_entries w2 in done tt (if not w3.save_state then free_chos c w3 else w3))
