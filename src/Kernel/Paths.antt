-- ===== src/Kernel/Paths.antt =====
-- The list of valid paths: kernel/chos_lkm.c, add_valid_path to is_valid_path, as the list that its
-- nodes and their strings stand for. Paths/Nodes.antt has the nodes and strings in memory.
pub mod Accepted
pub mod Reload
pub mod Nodes
use chos.Kernel.Buffer.{written, eperm, errno, Ssize, Write, text_length}
use chos.Prelude.{
  true, [], str_eq, ◌∷◌, not, ◌++◌, zero, false, Bool, length, suc, ◌==◌, if◌then◌else◌, Bytes,
  List, ℕ,
}
use chos.Kernel.State.{pure, ◌>>◌, null, ok, Machine, ValidPath, Cmd, Ptr}

-- `object` is what kmalloc returns for the list's node.
unfoldable pub add_valid_path : Ptr → Bytes → ℕ → Cmd (Unit {0})
add_valid_path object path len s =
    if object == null
    then ok tt s
    else ok tt
        (record s { valid_paths = s.valid_paths ++ record { path = path; length = len } ∷ [] })

-- The list without its node `v`; the nodes are told apart by their place, and the loop of
-- resetvalid removes the first.
unfoldable pub remove_valid_path : List ValidPath → List ValidPath
remove_valid_path [] = []
remove_valid_path (v ∷ vs) = vs

-- The loop of resetvalid, one round for each node.
unfoldable pub reset_loop : ℕ → List ValidPath → List ValidPath
unfolding remove_valid_path
reset_loop zero vs = vs
reset_loop (suc n) vs = reset_loop n (remove_valid_path vs)

unfoldable pub resetvalid : Cmd (Unit {0})
unfolding reset_loop
resetvalid s = ok tt (record s { valid_paths = reset_loop (length s.valid_paths) s.valid_paths })

unfoldable pub write_valid : Machine → Write → Cmd Ssize
unfolding add_valid_path resetvalid text_length
write_valid m w s =
    if not (s.euid (m.task m.current).cred == 0)
    then ok (errno eperm) s
    else if w.buf 0 == b'-'
    then (resetvalid >> pure (written w.count)) s
    else if w.text == null
    then ok (written 0) s
    else (add_valid_path w.object (w.copy w.buf (text_length w)) (text_length w)
          >> pure (written w.count))
        s

-- What a read of /proc/chos/valid gives: print_valid, one line for each path.
unfoldable pub print_valid : List ValidPath → Bytes
print_valid [] = []
print_valid (v ∷ vs) = v.path ++ b'\n' ∷ print_valid vs

unfoldable pub is_valid_path : List ValidPath → Bytes → Bool
is_valid_path [] path = false
is_valid_path (v ∷ vs) path = if str_eq path v.path then true else is_valid_path vs path
