-- ===== src/Kernel/Locks/Calls.antt =====
-- The handlers and wrappers of kernel/chos_lkm.c with the locks of what they call, and that of
-- chos_do_fork.
use chos.Kernel.Buffer.{Write, Ssize, written, errno, enoent, enomem, text_length}
use chos.Kernel.Fork.{Forked, child, failed}
use chos.Kernel.Links.{create_link}
use chos.Kernel.Locks.{Locked, lift, pure, ◌>>=◌, ◌>>◌, lock_tasklist, unlock_tasklist}
use chos.Kernel.Locks.Links.{
  cleanup_links_locked, lookup_link_locked, reset_link_locked, set_link_locked,
}
use chos.Kernel.Paths.{is_valid_path, write_valid}
use chos.Kernel.Proc.{
  Services, chosroot, is_chrooted, link_text, my_chroot, set_root, slash, write_savestate,
}
use chos.Kernel.State.{Machine, Ptr, null, assert_not, get, load_text, write_text}
use chos.Kernel.State
use chos.Kernel.System.{
  Call, setchos, resetchos, valid, savestate, readlink, fork, exit, idle, sequence,
}
use chos.Prelude.{Bytes, List, [], ◌∷◌, ℕ, ltb, not, some, str_eq, ◌==◌, if◌then◌else◌}

unfoldable pub assign_current_locked : Machine → Write → Locked (Unit {0})
unfolding ◌>>=◌
assign_current_locked m w = do
  cleanup_links_locked m
  link ← lift (create_link w.object w.text)
  set_link_locked m link m.current

unfoldable pub set_path_locked : Services → Machine → Write → Bytes → Locked Ssize
unfolding ◌>>=◌
set_path_locked k m w path = do
  s ← lift get
  if str_eq path slash
      then (do
        lift (set_root (m.task m.current).fs s.nochroot)
        assign_current_locked m w
        pure (written w.count))
      else (if not (is_valid_path s.valid_paths path) then pure (errno enoent) else (do
        assign_current_locked m w
        s' ← lift get
        lift (
            if not (is_chrooted m s')
            then State.◌>>◌ (my_chroot k m chosroot) (State.pure tt)
            else State.pure tt)
        pure (written w.count)))

unfoldable pub write_setchos_locked : Services → Machine → Write → Locked Ssize
unfolding ◌>>=◌
write_setchos_locked k m w = if w.text == null then pure (errno enomem) else (do
  lift (write_text w.text (some (w.copy w.buf (text_length w))))
  path ← lift (load_text w.text)
  set_path_locked k m w path)

unfoldable pub write_resetchos_locked : Machine → Write → Locked Ssize
unfolding ◌>>=◌
write_resetchos_locked m w = do
  s ← lift get
  lift (assert_not (ltb s.pid_max (m.task m.current).pid))
  reset_link_locked (m.task m.current).pid
  cleanup_links_locked m
  pure (written w.count)

unfoldable pub link_readlink_locked : {R : Type 0} → (Bytes → R) → Machine → ℕ → Locked R
unfolding ◌>>=◌
link_readlink_locked vfs_readlink m fuel = do
  link ← lookup_link_locked m fuel m.current
  text ← lift (link_text link)
  pure (vfs_readlink text)

-- The search for the child runs under tasklist_lock.
unfoldable pub after_fork_locked : Machine → ℕ → Ptr → Forked → Locked (Unit {0})
unfolding ◌>>=◌
after_fork_locked m fuel parent_link (child pid) = do
  lock_tasklist
  let t = m.find_task pid
  unlock_tasklist
  if not (t == null) then set_link_locked m parent_link t else pure tt
after_fork_locked m fuel parent_link (failed e) = lookup_link_locked m fuel m.current >> pure tt

unfoldable pub chos_do_fork_locked : Machine → ℕ → Locked (Forked × Machine) → Locked Forked
unfolding ◌>>=◌
chos_do_fork_locked m fuel do_fork = do
  parent_link ← lookup_link_locked m fuel m.current
  r ← do_fork
  after_fork_locked r.1 fuel parent_link r.0
  pure r.0

-- The list of the children is walked without tasklist_lock.
unfoldable pub lookup_children_locked : Machine → ℕ → List Ptr → Locked (Unit {0})
unfolding ◌>>=◌
lookup_children_locked m fuel [] = pure tt
lookup_children_locked m fuel (t ∷ ts) =
    lookup_link_locked m fuel t >> lookup_children_locked m fuel ts

unfoldable pub my_sys_exit_locked : {R : Type 0} → Machine → ℕ → List Ptr → Locked R → Locked R
unfolding ◌>>=◌
my_sys_exit_locked m fuel children last = lookup_children_locked m fuel children >> last

-- The calls of Kernel/System.antt.
unfoldable pub run_locked : Call → Locked (Unit {0})
unfolding ◌>>=◌
run_locked (setchos k m w) = write_setchos_locked k m w >> pure tt
run_locked (resetchos m w) = write_resetchos_locked m w >> pure tt
run_locked (valid m w) = lift (write_valid m w) >> pure tt
run_locked (savestate w) = lift (write_savestate w) >> pure tt
run_locked (readlink m fuel) = link_readlink_locked {R = Bytes} (λ t. t) m fuel >> pure tt
run_locked (fork m fuel during r behind) =
    chos_do_fork_locked m fuel (run_locked during >> pure (r, behind)) >> pure tt
run_locked (exit m fuel children) = my_sys_exit_locked m fuel children (pure tt)
run_locked idle = pure tt
run_locked (sequence c d) = run_locked c >> run_locked d
