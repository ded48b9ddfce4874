-- ===== src/Conf.antt =====
-- /etc/chos: check_chos of pam_chos/pam_chos_helper.c and of utils/chos.c, which differ in the
-- size of their buffers only.
pub mod Section
use chos.Prelude.{
  [], true, ◌||◌, str_eq, false, ◌∷◌, not, ◌==◌, none, head_or, if◌then◌else◌, some, codes, List,
  Option, Bytes, Bool, ℕ, ◌≡◌, ◌<◌,
}
use chos.Text.{until_end, read_lines, fgets}

-- What fopen and fstat give for a configuration file: the owner, or none if fstat fails, and the
-- bytes.
pub record ConfFile : Type 0 where
  pub owner : Option ℕ
  pub bytes : Bytes

-- `SHELLHEAD`
abbrev pub shellhead : Bytes
shellhead = codes "%SHELLS"

-- Comments and empty lines, by the first byte of the buffer.
abbrev pub is_skipped : Bytes → Bool
is_skipped line = head_or 0 line == b'#' || head_or 0 line == b'\n'

-- The string before the first ':', and the one behind it; none if there is no ':'.
unfoldable pub split_colon : Bytes → Option (Bytes × Bytes)
split_colon [] = none
split_colon (c ∷ cs) = elim (c == b':') [
  | true ↦ some ([], cs)
  | false ↦ elim (split_colon cs) [ none ↦ none | some (key, path) ↦ some (c ∷ key, path) ]
]

-- One round of the loop: go on, with the flag `start`, or leave it with `retpath`.
pub data Round : Type 0 where
  go : Bool → Round
  leave : Option Bytes → Round

unfoldable pub check_entry : Bytes → Bytes → Round
unfolding split_colon
check_entry name text = if head_or 0 text == b'%' then leave none else elim (split_colon text) [
  | none ↦ go true
  | some (key, path) ↦ if str_eq key name then leave (some path) else go true
]

unfoldable pub check_round : Bytes → Bool → Bytes → Round
unfolding check_entry
check_round name start line =
    if is_skipped line
    then go start
    else if start
    then check_entry name (until_end line)
    else go (str_eq (until_end line) shellhead)

unfoldable pub check_lines : Bytes → Bool → List Bytes → Option Bytes
unfolding check_round
check_lines name start [] = none
check_lines name start (line ∷ lines) = elim (check_round name start line) [
  | go start' ↦ check_lines name start' lines
  | leave path ↦ path
]

-- `cfile` is none if fopen fails.
unfoldable pub check_chos : (size : ℕ) → Option ConfFile → Bytes → Option Bytes
unfolding check_lines read_lines
check_chos size none name = none
check_chos size (some file) name = elim file.owner [
  | none ↦ none
  | some uid ↦ if not (uid == 0) then none else check_lines name false (read_lines size file.bytes)
]
