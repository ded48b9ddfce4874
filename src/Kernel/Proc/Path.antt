-- ===== src/Kernel/Proc/Path.antt =====
-- The branches of set_path.
use Prim.Native.Nat.{bit_or}
use chos.Kernel.Paths.{is_valid_path}
use chos.Kernel.Proc.Chroot.{my_chroot-moved, moved}
use chos.Kernel.Proc.{
  my_chroot, cap_sys_chroot, chosroot, is_chrooted, slash, set_path, Services, assign_current,
}
use chos.Kernel.Buffer.{Ssize, written, Write}
use chos.Prelude.{not, false, true, str_eq, update, arith, if◌then◌else◌, Bytes, ◌≡◌}
use chos.Kernel.State.{get, ◌>>=◌, pure, Cmd, ◌>>◌, ok, Machine, State}

pub set_path-slash :
    (k : Services) (m : Machine) (w : Write) (path : Bytes) (s : State)
    → str_eq path slash ≡ true
    → set_path k m w path s
      ≡ (assign_current m w >> pure (written w.count))
          (record s { root = update s.root (m.task m.current).fs s.nochroot })
unfolding set_path
set_path-slash k m w path s e = rw e

-- What follows the new link on the valid branch: enter the chroot, if need be.
pub enter : Services → Machine → Write → Cmd Ssize
enter k m w = do
  s' ← get
  if not (is_chrooted m s') then (my_chroot k m chosroot >> pure tt) else pure tt
  pure (written w.count)

pub set_path-valid :
    (k : Services) (m : Machine) (w : Write) (path : Bytes) (s : State)
    → str_eq path slash ≡ false
    → is_valid_path s.valid_paths path ≡ true
    → set_path k m w path s ≡ (assign_current m w >> enter k m w) s
unfolding set_path enter
set_path-valid k m w path s e h = rw (e, h)

pub enter-moved :
    (k : Services) (m : Machine) (w : Write) (s : State)
    → enter k m w s
      ≡ ok (written w.count) (
          if is_chrooted m s
          then s
          else moved m s
              (k.sys_chroot chosroot (bit_or (s.caps (m.task m.current).cred) cap_sys_chroot)))
unfolding enter
enter-moved k m w s = ground (arith, my_chroot-moved k m chosroot s)
