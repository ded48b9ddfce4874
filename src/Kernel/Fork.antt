-- ===== src/Kernel/Fork.antt =====
-- The wrapper of do_fork and of the exit system calls: kernel/chos_lkm.c, chos_do_fork, my_sys_exit
-- and my_sys_exit_group.
use chos.Kernel.Links.{lookup_link, set_link}
pub mod Inherit
pub mod Exit
use chos.Prelude.{[], ◌∷◌, ◌==◌, not, if◌then◌else◌, List, ℕ, ◌≡◌, ◌<◌}
use chos.Kernel.State.{null, pure, ok, ◌>>=◌, ◌>>◌, Cmd, Machine, State, Ptr}

-- The result of do_fork: the pid of the child, or a number that is not above 0.
pub data Forked : Type 0 where
  child : ℕ → Forked
  failed : ℕ → Forked

-- chos_do_fork behind the call of the original function.
unfoldable pub after_fork : Machine → ℕ → Ptr → Forked → Cmd (Unit {0})
unfolding set_link lookup_link
after_fork m fuel parent_link (child pid) =
    let t = m.find_task pid in if not (t == null) then set_link m parent_link t else pure tt
after_fork m fuel parent_link (failed e) = lookup_link m fuel m.current >> pure tt

-- `do_fork` is the original function, behind the jumper: it returns its result and the tasks that
-- there are then.
unfoldable pub chos_do_fork : Machine → ℕ → Cmd (Forked × Machine) → Cmd Forked
unfolding after_fork lookup_link
chos_do_fork m fuel do_fork = do
  parent_link ← lookup_link m fuel m.current
  r ← do_fork
  after_fork r.1 fuel parent_link r.0
  pure r.0

-- The loop over the children of a process that ends.
unfoldable pub lookup_children : Machine → ℕ → List Ptr → Cmd (Unit {0})
unfolding lookup_link
lookup_children m fuel [] s = ok tt s
lookup_children m fuel (t ∷ ts) s = (lookup_link m fuel t >> lookup_children m fuel ts) s

-- my_sys_exit and my_sys_exit_group; `exit` is the original system call.
unfoldable pub my_sys_exit : {R : Type 0} → Machine → ℕ → List Ptr → Cmd R → Cmd R
unfolding lookup_children
my_sys_exit m fuel children exit = lookup_children m fuel children >> exit
