-- ===== src/Pam/Info.antt =====
-- pam_chos/pam_chos_helper.c: get_chos_info, which the child process runs; and the functions of
-- pam_chos/pam_chos_util.c by which the parent takes its answer.
use chos.Pam.UserFile.{default_env_name, Opened, read_chos_file}
use chos.Pam.Sanitize.{sanitize_name, sanitize_str}
use chos.Pam.Args.{init_pam_chos_config, maxline, PamChosConfig, parse_pam_chos_args}
use chos.Conf.{ConfFile, check_chos}
pub mod Resolve
pub mod Answer
use chos.Prelude.{
  ◌||◌, str_eq, List, [], none, ◌+◌, length, not, ◌∷◌, ltb, if◌then◌else◌, some, ◌++◌, Option,
  Bytes, Bool, ℕ, ◌≡◌,
}
use chos.Text.{until_nul, fgets, starts_with}

-- What the child process finds: $CHOS, the user's file, the configuration file, and whether fdopen
-- and fclose on the pipe succeed.
pub record Surroundings : Type 0 where
  pub env : Option Bytes
  pub open_file : Bytes → Opened
  pub conf : Option ConfFile
  pub fdopens : Bool
  pub fcloses : Bool

-- The result of get_chos_info: -1, a string function called on a null pointer, or 1 with the bytes
-- on the pipe.
pub data Info : Type 0 where
  error : Info
  crash : Info
  sent : Bytes → Info

-- $CHOS goes before the user's file, unless it is too long. A newline in it becomes the end of the
-- string.
unfoldable pub choose_name : Option Bytes → Bytes → Bytes
unfolding sanitize_name
choose_name none name = name
choose_name (some env) name =
    if ltb maxline (length env) then name else until_nul (sanitize_name env (length env)).0

-- The calls of check_chos; none is a null pointer.
unfoldable pub choose_os : PamChosConfig → Option ConfFile → Bytes → Option Bytes
unfolding check_chos
choose_os cfg conf name = elim (check_chos (maxline + 1) conf name) [
  | some os ↦ some os
  | none ↦
      if str_eq name default_env_name || ltb 0 cfg.fail_to_default
      then check_chos (maxline + 1) conf default_env_name
      else some name
]

-- `fputs(os,f); fputc('\n',f); fputs(osenv,f); fputc('\n',f);`
abbrev pub answer : Bytes → Bytes → Bytes
answer os name = os ++ b'\n' ∷ (name ++ b'\n' ∷ [])

unfoldable pub write_info : Surroundings → Option Bytes → Bytes → Info
write_info s os name = if not s.fdopens then error else elim os [
  | none ↦ crash
  | some path ↦ if not s.fcloses then error else sent (answer path name)
]

unfoldable pub get_chos_info : Surroundings → List Bytes → Bytes → Info
unfolding parse_pam_chos_args read_chos_file choose_name choose_os write_info init_pam_chos_config
get_chos_info s args user_conf_dir = elim (parse_pam_chos_args init_pam_chos_config args) [
  | none ↦ error
  | some cfg ↦ elim (read_chos_file s.open_file cfg.user_conf_file user_conf_dir) [
    | none ↦ error
    | some (count, file) ↦
        let name = choose_name s.env file in write_info s (choose_os cfg s.conf name) name
  ]
]

unfoldable pub read_line_from_file : Bytes → Option (Bytes × Bytes)
unfolding fgets
read_line_from_file f = fgets maxline f

-- The two lines that the parent reads from the pipe; none is the return of -1.
unfoldable pub retrieve_from_child : (fdopens fcloses : Bool) → Bytes → Option (Bytes × Bytes)
unfolding read_line_from_file
retrieve_from_child fdopens fcloses stream =
    if not fdopens then none else elim (read_line_from_file stream) [
      | none ↦ none
      | some (env_path, rest) ↦ elim (read_line_from_file rest) [
        | none ↦ none
        | some (osenv, rest') ↦ if fcloses then some (env_path, osenv) else none
      ]
    ]

-- The string in a buffer of the parent behind the sanitize function: the newline that fgets left
-- has become its end.
unfoldable pub received : Bytes → Bool → Bytes
unfolding sanitize_str
received line is_path = until_nul (sanitize_str line (length line) is_path).0
