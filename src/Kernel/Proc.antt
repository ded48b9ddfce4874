-- ===== src/Kernel/Proc.antt =====
-- The files under /proc/chos but `valid`: kernel/chos_lkm.c, is_chrooted to print_version, and
-- link_readlink and link_follow_link.
pub mod Chroot
pub mod Assign
pub mod Path
pub mod Setchos
pub mod Readlink
pub mod Resetchos
pub mod Reclaim
use chos.Kernel.Links.{set_link, create_link, cleanup_links, lookup_link, reset_link}
use chos.Kernel.Buffer.{enoent, enomem, written, errno, Ssize, Write, text_length}
use chos.Kernel.Paths.{is_valid_path}
use chos.Prelude.{
  true, some, not, false, none, str_eq, ltb, ◌&&◌, if◌then◌else◌, ◌++◌, ◌==◌, update, codes, Bool,
  Option, ◌^◌, Bytes, ℕ,
}
use Prim.Native.Nat.{bit_or}
use chos.Kernel.State.{
  assert_not, write_text, get, ◌>>◌, ◌>>=◌, pure, null, load_text, ok, Dir, load_link, Machine, Cmd,
  State, Ptr,
}

-- The system calls and constants that the handlers use: `sys_chroot` gives the new root directory
-- of a caller with these capabilities, or fails with none.
pub record Services : Type 0 where
  pub sys_chroot : Bytes → ℕ → Option Dir
  pub kernel_ds : ℕ

abbrev pub slash : Bytes
slash = codes "/"

-- `CHOSROOT`
abbrev pub chosroot : Bytes
chosroot = codes "/chos"

-- The bit of CAP_SYS_CHROOT.
abbrev pub cap_sys_chroot : ℕ
cap_sys_chroot = 2 ^ 18

abbrev pub dir_eq : Dir → Dir → Bool
dir_eq d e = d.mnt == e.mnt && d.inode == e.inode

unfoldable pub is_chrooted : Machine → State → Bool
is_chrooted m s = dir_eq s.named (s.root (m.task m.current).fs)

abbrev pub set_root : Ptr → Dir → Cmd (Unit {0})
set_root fs d s = ok tt (record s { root = update s.root fs d })

abbrev pub set_caps : Ptr → ℕ → Cmd (Unit {0})
set_caps cred c s = ok tt (record s { caps = update s.caps cred c })

abbrev pub set_fs : ℕ → Cmd (Unit {0})
set_fs limit s = ok tt (record s { addr_limit = limit })

-- `sys_chroot(path)` by the calling task: 0, or an error.
unfoldable pub chroot : Services → Machine → Bytes → Cmd Bool
chroot k m path s = elim (k.sys_chroot path (s.caps (m.task m.current).cred)) [
  | none ↦ ok false s
  | some d ↦ (set_root (m.task m.current).fs d >> pure true) s
]

-- The result says whether sys_chroot returned 0.
unfoldable pub my_chroot : Services → Machine → Bytes → Cmd Bool
unfolding chroot
my_chroot k m path = do
  s ← get
  let capback = s.caps (m.task m.current).cred
  set_caps (m.task m.current).cred (bit_or capback cap_sys_chroot)
  let mem = s.addr_limit
  set_fs k.kernel_ds
  done ← chroot k m path
  set_caps (m.task m.current).cred capback
  set_fs mem
  pure done

-- The body of write_setchos once the path is accepted: forget the dead, then link the caller.
unfoldable pub assign_current : Machine → Write → Cmd (Unit {0})
unfolding cleanup_links create_link set_link
assign_current m w = do
  cleanup_links m
  link ← create_link w.object w.text
  set_link m link m.current

-- write_setchos behind the copy of the text.
unfoldable pub set_path : Services → Machine → Write → Bytes → Cmd Ssize
unfolding assign_current is_valid_path is_chrooted my_chroot
set_path k m w path s =
    if str_eq path slash
    then (do set_root (m.task m.current).fs s.nochroot; assign_current m w; pure (written w.count))
        s
    else if not (is_valid_path s.valid_paths path)
    then ok (errno enoent) s
    else (do
      assign_current m w
      s' ← get
      if not (is_chrooted m s') then (my_chroot k m chosroot >> pure tt) else pure tt
      pure (written w.count))
        s

unfoldable pub write_setchos : Services → Machine → Write → Cmd Ssize
unfolding text_length set_path load_text
write_setchos k m w s =
    if w.text == null
    then ok (errno enomem) s
    else (do
      write_text w.text (some (w.copy w.buf (text_length w)))
      path ← load_text w.text
      set_path k m w path)
        s

unfoldable pub write_resetchos : Machine → Write → Cmd Ssize
unfolding reset_link cleanup_links
write_resetchos m w = do
  s ← get
  assert_not (ltb s.pid_max (m.task m.current).pid)
  reset_link (m.task m.current).pid
  cleanup_links m
  pure (written w.count)

unfoldable pub write_savestate : Write → Cmd Ssize
write_savestate w s =
    if ltb 1 w.count
    then ok (written w.count) (record s { save_state = w.buf 0 == b'1' })
    else ok (written w.count) s

-- `/proc/chos/version`
unfoldable pub print_version : State → Bytes
print_version s =
    codes "chos 0.13.2 "
    ++ ((if s.fork_wrapped then codes "Fork trapped" else codes "Fork not trapped") ++ codes "\n")

-- The target of /proc/chos/link for the calling task, which link_readlink and link_follow_link
-- hand to the kernel.
unfoldable pub link_text : Ptr → Cmd Bytes
unfolding load_link load_text
link_text link = if link == null then pure slash else (do l ← load_link link; load_text l.text)

unfoldable pub link_readlink : {R : Type 0} → (Bytes → R) → Machine → ℕ → Cmd R
unfolding lookup_link link_text
link_readlink vfs_readlink m fuel = do
  link ← lookup_link m fuel m.current
  text ← link_text link
  pure (vfs_readlink text)
