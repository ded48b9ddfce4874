-- ===== src/Kernel/Locks/Balanced.antt =====
-- The handlers and wrappers with their locks, beside those without.
use chos.Kernel.Buffer.{enoent, enomem, errno, Write, written, text_length}
use chos.Kernel.Fork.{Forked, child, failed, after_fork, chos_do_fork, lookup_children, my_sys_exit}
use chos.Kernel.Links.{create_link}
use chos.Kernel.Locks.{settle, Locked, alone, erase, pure, no_locks}
use chos.Kernel.Locks.Discipline.{Disciplined, alone-erase}
use chos.Kernel.Locks.Calls.{
  assign_current_locked, set_path_locked, write_setchos_locked, write_resetchos_locked,
  link_readlink_locked, after_fork_locked, chos_do_fork_locked, lookup_children_locked,
  my_sys_exit_locked, run_locked,
}
use chos.Kernel.Locks.Erase.Links.{
  cleanup_links-Erases, lookup_link-Erases, reset_link-Erases, set_link-Erases,
}
use chos.Kernel.Locks.Erase.{
  Erases-get, Erases, Erases-bind, Erases-if, Erases-lift, Erases-pure, Erases-branch,
}
use chos.Kernel.Proc.{
  Services, assign_current, set_path, write_setchos, write_resetchos, link_readlink, link_text,
  chosroot, is_chrooted, my_chroot, write_savestate, set_root, slash,
}
use chos.Kernel.Paths.{write_valid, is_valid_path}
use chos.Kernel.State.{
  Machine, Ptr, null, State, Cmd, Run, assert_not, get, ok, load_text, write_text, Dir,
}
use chos.Kernel.State
use chos.Kernel.System.{
  Call, setchos, resetchos, valid, savestate, readlink, fork, exit, idle, sequence, run,
}
use chos.Prelude.{
  false, str_eq, Bytes, List, [], ◌∷◌, ℕ, not, ◌==◌, ◌≡◌, refl, ltb, if◌then◌else◌, some,
}

assign_current-Erases :
    (m : Machine) (w : Write) → Erases false (assign_current_locked m w) (assign_current m w)
unfolding assign_current_locked assign_current
assign_current-Erases m w = Erases-bind (cleanup_links-Erases m) λ _.
    Erases-bind (Erases-lift (create_link w.object w.text)) λ link. set_link-Erases m link m.current

set_path-Erases :
    (k : Services) (m : Machine) (w : Write) (path : Bytes)
    → Erases false (set_path_locked k m w path) (set_path k m w path)
unfolding set_path_locked set_path
set_path-Erases k m w path =
    let finished = Erases-pure (written w.count) in
    let left = λ (d : Dir).
      Erases-bind (Erases-lift (set_root (m.task m.current).fs d))
        λ _. Erases-bind (assign_current-Erases m w) λ _. finished in
    let entered = Erases-bind (assign_current-Erases m w) λ _. Erases-bind (Erases-lift get) λ s.
      Erases-bind
        (Erases-lift (
          if not (is_chrooted m s)
          then State.◌>>◌ (my_chroot k m chosroot) (State.pure tt)
          else State.pure tt))
        λ _. finished in
    Erases-get λ s.
      Erases-branch (str_eq path slash) (left s.nochroot) (
        Erases-branch (not (is_valid_path s.valid_paths path)) (Erases-pure (errno enoent)) entered)

write_setchos-Erases :
    (k : Services) (m : Machine) (w : Write)
    → Erases false (write_setchos_locked k m w) (write_setchos k m w)
unfolding write_setchos_locked write_setchos
write_setchos-Erases k m w =
    let copied =
      Erases-bind (Erases-lift (write_text w.text (some (w.copy w.buf (text_length w)))))
        λ _. Erases-bind (Erases-lift (load_text w.text)) λ path. set_path-Erases k m w path in
    Erases-branch (w.text == null) (Erases-pure (errno enomem)) copied

write_resetchos-Erases :
    (m : Machine) (w : Write) → Erases false (write_resetchos_locked m w) (write_resetchos m w)
unfolding write_resetchos_locked write_resetchos
write_resetchos-Erases m w = Erases-bind (Erases-lift get) λ s.
    Erases-bind (Erases-lift (assert_not (ltb s.pid_max (m.task m.current).pid))) λ _.
      Erases-bind (reset_link-Erases (m.task m.current).pid)
        λ _. Erases-bind (cleanup_links-Erases m) λ _. Erases-pure (written w.count)

link_readlink-Erases :
    {R : Type 0} (vfs_readlink : Bytes → R) (m : Machine) (fuel : ℕ)
    → Erases false (link_readlink_locked vfs_readlink m fuel) (link_readlink vfs_readlink m fuel)
unfolding link_readlink_locked link_readlink
link_readlink-Erases vfs_readlink m fuel =
    Erases-bind (lookup_link-Erases m fuel m.current)
      λ a. Erases-bind (Erases-lift (link_text a)) λ text. Erases-pure (vfs_readlink text)

after_fork-Erases :
    (m : Machine) (fuel : ℕ) (a : Ptr) (r : Forked)
    → Erases false (after_fork_locked m fuel a r) (after_fork m fuel a r)
unfolding after_fork_locked after_fork Disciplined erase
after_fork-Erases m fuel a (child pid) =
    let t = m.find_task pid in
    let put = Erases-if (not (t == null)) (set_link-Erases m a t) (Erases-pure tt) in
    record { steps = (refl, (refl, put.steps)); same = put.same }
after_fork-Erases m fuel a (failed e) =
    Erases-bind (lookup_link-Erases m fuel m.current) λ _. Erases-pure tt

chos_do_fork-Erases :
    (m : Machine) (fuel : ℕ) {f : Locked (Forked × Machine)} {g : Cmd (Forked × Machine)}
    → Erases false f g
    → Erases false (chos_do_fork_locked m fuel f) (chos_do_fork m fuel g)
unfolding chos_do_fork_locked chos_do_fork
chos_do_fork-Erases m fuel e =
    Erases-bind (lookup_link-Erases m fuel m.current)
      λ a. Erases-bind e λ r. Erases-bind (after_fork-Erases r.1 fuel a r.0) λ _. Erases-pure r.0

lookup_children-Erases :
    (m : Machine) (fuel : ℕ) (ts : List Ptr)
    → Erases false (lookup_children_locked m fuel ts) (lookup_children m fuel ts)
unfolding lookup_children_locked lookup_children
lookup_children-Erases m fuel [] = Erases-pure tt
lookup_children-Erases m fuel (t ∷ ts) =
    Erases-bind (lookup_link-Erases m fuel t) λ _. lookup_children-Erases m fuel ts

my_sys_exit-Erases :
    (m : Machine) (fuel : ℕ) (ts : List Ptr)
    → Erases false (my_sys_exit_locked m fuel ts (pure tt)) (my_sys_exit m fuel ts (State.pure tt))
unfolding my_sys_exit_locked my_sys_exit
my_sys_exit-Erases m fuel ts = Erases-bind (lookup_children-Erases m fuel ts) λ _. Erases-pure tt

pub run-Erases : (c : Call) → Erases false (run_locked c) (run c)
unfolding run_locked run
run-Erases (setchos k m w) = Erases-bind (write_setchos-Erases k m w) λ _. Erases-pure tt
run-Erases (resetchos m w) = Erases-bind (write_resetchos-Erases m w) λ _. Erases-pure tt
run-Erases (valid m w) = Erases-bind (Erases-lift (write_valid m w)) λ _. Erases-pure tt
run-Erases (savestate w) = Erases-bind (Erases-lift (write_savestate w)) λ _. Erases-pure tt
run-Erases (readlink m fuel) =
    Erases-bind (link_readlink-Erases (λ t. t) m fuel) λ _. Erases-pure tt
run-Erases (fork m fuel during r behind) =
    Erases-bind
      (chos_do_fork-Erases m fuel (Erases-bind (run-Erases during) λ _. Erases-pure (r, behind)))
      λ _. Erases-pure tt
run-Erases (exit m fuel children) = my_sys_exit-Erases m fuel children
run-Erases idle = Erases-pure tt
run-Erases (sequence c d) = Erases-bind (run-Erases c) λ _. run-Erases d

-- In every state and for every call or sequence of calls, forks with calls of other processes in
-- the middle among them, from a point where no lock is held: the call with its locks does what the
-- call without them does, faults included. So it takes every lock in order (tasklist_lock before an
-- entry's, one entry's at a time), releases only what it holds and all that it holds, and has the
-- lock of an entry where it reads or writes it, but for the reads in the loop of cleanup_links.
pub run_locked-run :
    (c : Call) (s : State) → alone (run_locked c) no_locks s ≡ settle no_locks (run c s)
run_locked-run c s =
    let e = run-Erases c in
    rw (alone-erase no_locks no_locks (run_locked c) s e.steps, e.same s) refl
