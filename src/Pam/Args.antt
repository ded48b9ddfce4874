-- ===== src/Pam/Args.antt =====
-- pam_chos/pam_chos_helper.c: init_pam_chos_config, argmatch and parse_pam_chos_args.
pub mod Config
use chos.Prelude.{
  ◌==◌, [], false, none, not, ◌+◌, ◌∷◌, length, head_or, ltb, drop, some, if◌then◌else◌, take, Bool,
  Option, Bytes, codes, List, ℕ, ◌≡◌,
}
use chos.Text.{starts_with}

-- `MAX_LEN`
abbrev pub max_len : ℕ
max_len = 256

-- `MAXLINE`
abbrev pub maxline : ℕ
maxline = 80

-- `pam_chos_config`; the array of `MAX_LEN + 1` bytes is the string that it holds.
pub record PamChosConfig : Type 0 where
  pub user_conf_file : Bytes
  pub fail_to_default : ℕ

-- `strncpy(dest, src, MAX_LEN+1)` and the terminator behind it.
abbrev pub copy_max_len : Bytes → Bytes
copy_max_len = take max_len

-- The pointer is not null.
unfoldable pub init_pam_chos_config : PamChosConfig
init_pam_chos_config = record { fail_to_default = 0; user_conf_file = copy_max_len (codes ".chos") }

unfoldable pub argmatch : Bytes → Bytes → Bool
argmatch arg match = if ltb (length arg) (length match + 1) then false else starts_with arg match

abbrev pub user_conf_arg : Bytes
user_conf_arg = codes "user_conf_file="

abbrev pub fail_arg : Bytes
fail_arg = codes "fail_to_default="

-- The first test of the loop.
unfoldable pub parse_user_conf : PamChosConfig → Bytes → PamChosConfig
unfolding argmatch
parse_user_conf cfg arg =
    if argmatch arg user_conf_arg
    then record cfg { user_conf_file = copy_max_len (drop (length user_conf_arg) arg) }
    else cfg

-- The switch on the value of fail_to_default; none is the return of -1.
unfoldable pub switch_fail : PamChosConfig → ℕ → Option PamChosConfig
switch_fail cfg val =
    if val == 0
    then none
    else if val == b'0'
    then some (record cfg { fail_to_default = 0 })
    else if val == b'1'
    then some (record cfg { fail_to_default = 1 })
    else none

-- The second test of the loop.
unfoldable pub parse_fail : PamChosConfig → Bytes → Option PamChosConfig
unfolding switch_fail
parse_fail cfg arg =
    if argmatch arg fail_arg
    then switch_fail cfg (head_or 0 (drop (length fail_arg) arg))
    else some cfg

unfoldable pub parse_pam_chos_args : PamChosConfig → List Bytes → Option PamChosConfig
unfolding parse_user_conf parse_fail
parse_pam_chos_args cfg [] = some cfg
parse_pam_chos_args cfg (arg ∷ args) = elim (parse_fail (parse_user_conf cfg arg) arg) [
  | none ↦ none
  | some cfg' ↦ parse_pam_chos_args cfg' args
]
