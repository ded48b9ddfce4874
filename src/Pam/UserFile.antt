-- ===== src/Pam/UserFile.antt =====
-- pam_chos/pam_chos_helper.c: read_chos_file, the file in which a user names an environment.
use chos.Pam.Args.{max_len, maxline}
use chos.Pam.Sanitize.{sanitize_name}
pub mod Name
use chos.Prelude.{
  ◌+◌, none, [], ◌∷◌, ltb, ◌==◌, ◌++◌, some, length, codes, Bool, if◌then◌else◌, take, Option,
  Bytes, ℕ, ◌≡◌,
}
use chos.Text.{until_end, starts_with}

-- What open, read and close give: the bytes that read returned, or none if it failed, and whether
-- close succeeded; or the error of open, which only a log line depends on.
pub data Opened : Type 0 where
  opened : Option Bytes → Bool → Opened
  not_opened : ℕ → Opened

-- `DEFAULT_ENV_NAME`
abbrev pub default_env_name : Bytes
default_env_name = codes "default"

-- `snprintf(userfile, …, "%.100s/%.20s", dir, user_conf_file)`, before it is cut to the buffer.
abbrev pub user_path : Bytes → Bytes → Bytes
user_path dir user_conf_file = take 100 dir ++ b'/' ∷ take 20 user_conf_file

-- The string in `osenv` behind the two loops: up to the first newline or 0, then sanitized.
unfoldable pub clean_name : Bytes → Bytes
unfolding sanitize_name
clean_name osenv = (sanitize_name (until_end osenv) (length (until_end osenv))).0

-- `osenv` and `count` from the bytes read, none of which means the default.
unfoldable pub name_or_default : Bytes → ℕ × Bytes
unfolding clean_name
name_or_default osenv =
    if length osenv == 0
    then (length default_env_name + 1, clean_name default_env_name)
    else (length osenv, clean_name osenv)

-- The part behind open; none is the return of -1. read is asked for MAXLINE bytes at most.
unfoldable pub read_opened : Opened → Option (ℕ × Bytes)
unfolding name_or_default
read_opened (opened none closes) = if closes then some (name_or_default []) else none
read_opened (opened (some bytes) closes) =
    if closes then some (name_or_default (take maxline bytes)) else none
read_opened (not_opened errno) = some (name_or_default [])

unfoldable pub read_chos_file : (Bytes → Opened) → Bytes → Bytes → Option (ℕ × Bytes)
unfolding read_opened
read_chos_file open_file user_conf_file dir =
    let ret = length (user_path dir user_conf_file) in
    if ltb ret 1
    then none
    else if ltb (max_len + 1) ret
    then none
    else read_opened (open_file (take max_len (user_path dir user_conf_file)))
