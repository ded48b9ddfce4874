-- ===== src/Tests/Pam.antt =====
-- The session module and the configuration file on concrete inputs.
use chos.Text.{read_lines}
use chos.Conf.Section.{check_chos-section, section, first_entry}
use chos.Pam.Info.Resolve.{get_chos_info-entry, Chosen, from_variable, chosen_name}
use chos.Pam.Sanitize.Cleans.{keeps, at_newline}
use chos.Pam.UserFile.{read_chos_file, default_env_name, opened, not_opened}
use chos.Pam.Sanitize.{sanitize_str, is_valid_char}
use chos.Pam.Sanitize.Clean.{sanitize_str-AllValid, AllValid}
use chos.Pam.UserFile.Name.{read_chos_file-Names, IsName, opened_at, NamesFrom}
use chos.Pam.Session.Login.{pam_sm_open_session-success, AllWell, PrintsPlain}
use chos.Pam.Args.Config.{parse_pam_chos_args-Parsed, Parsed, FitsConfig}
use chos.Pam.Args.{init_pam_chos_config, parse_pam_chos_args}
use chos.Conf.{shellhead, check_chos, ConfFile}
use chos.Pam.Session.{Passwd, forked, pam_success, Calls, pam_sm_open_session}
use chos.Pam.Info.{sent, answer, choose_name, get_chos_info, Surroundings}
use chos.Prelude.{
  ltb, refl, arith, str_eq, take, drop, All, codes, some, none, true, false, [], Bytes, ◌≡◌, ◌∷◌,
  ◌||◌, ◌==◌,
}

abbrev conf_bytes : Bytes
conf_bytes = codes "# shells\n%SHELLS\nlocal:/\na:/os/a\ndefault:/os/d\n%OTHER\nb:/os/b\n"

abbrev conf : ConfFile
conf = record { owner = some 0; bytes = conf_bytes }

-- A file with no default entry.
abbrev conf_a : ConfFile
conf_a = record { owner = some 0; bytes = codes "%SHELLS\na:/os/a\n" }

-- $CHOS is not set, and the user's file says `a`.
abbrev pub surroundings : Surroundings
surroundings = record {
  env = none;
  open_file = λ name. opened (some (codes "a\n")) true;
  conf = some conf;
  fdopens = true;
  fcloses = true;
}

-- The user has no file.
abbrev no_file : Surroundings
no_file = record surroundings { open_file = λ name. not_opened 2; conf = some conf_a }

abbrev pub calls : Calls
calls = record {
  user = some (codes "joe");
  passwd = λ user. some (record { uid = 500; dir = codes "/home/joe" });
  pipe = true;
  fork = forked;
  child_close = true;
  setgroups = true;
  setresgid = true;
  setresuid = true;
  surroundings = surroundings;
  parent_close = true;
  fdopens = true;
  fcloses = true;
  opens_setchos = true;
  printed = λ t. some t;
  putenv = true;
}

abbrev pub home : Bytes
home = codes "/home/joe"

abbrev pub a : Bytes
a = codes "a"

abbrev pub os_a : Bytes
os_a = codes "/os/a"

parses : parse_pam_chos_args init_pam_chos_config [] ≡ some init_pam_chos_config
unfolding parse_pam_chos_args
parses = refl

finds_a : check_chos 81 (some conf) a ≡ some os_a
unfolding check_chos
finds_a = refl

-- A file of one newline gives the empty name, not the default.
empty_name :
    read_chos_file (λ path. opened (some (codes "\n")) true) (codes ".chos") home ≡ some (1, [])
unfolding read_chos_file
empty_name = refl

-- Only the first character of a value counts.
ten_is_one :
    parse_pam_chos_args init_pam_chos_config (codes "fail_to_default=10" ∷ [])
    ≡ some (record init_pam_chos_config { fail_to_default = 1 })
unfolding parse_pam_chos_args
ten_is_one = refl

finds_no_default : check_chos 81 (some conf_a) default_env_name ≡ none
unfolding check_chos
finds_no_default = refl

default_name : chosen_name no_file init_pam_chos_config home ≡ default_env_name
unfolding choose_name
default_name = refl

misses_name : check_chos 81 (some conf_a) (chosen_name no_file init_pam_chos_config home) ≡ none
unfolding check_chos choose_name
misses_name = refl

wants_default :
    (str_eq (chosen_name no_file init_pam_chos_config home) default_env_name
      || ltb 0 init_pam_chos_config.fail_to_default)
    ≡ true
unfolding choose_name
wants_default = refl

pub valid_os_a : AllValid true os_a
unfolding is_valid_char
valid_os_a = (refl, (refl, (refl, (refl, (refl, tt)))))

pub valid_a : AllValid false a
unfolding is_valid_char
valid_a = (refl, tt)

pub sends_a : get_chos_info surroundings [] home ≡ sent (answer os_a a)
unfolding get_chos_info
sends_a = refl

init-FitsConfig : FitsConfig init_pam_chos_config
unfolding init_pam_chos_config
init-FitsConfig = record { fits = omega arith; flag = omega arith }

-- The properties here.

check_chos-section_example :
    check_chos 81 (some conf) a ≡ first_entry a (section shellhead (read_lines 81 conf_bytes))
check_chos-section_example = check_chos-section 81 (some conf) a

sanitize_str-AllValid_example :
    AllValid false (take 4 (sanitize_str (codes "a%b\n") 4 false).0)
    × All
        (λ c. ((c == b'%') ≡ false) × ((c == b'\n') ≡ false))
        (take 4 (sanitize_str (codes "a%b\n") 4 false).0)
    × (drop 4 (sanitize_str (codes "a%b\n") 4 false).0 ≡ drop 4 (codes "a%b\n"))
    × (sanitize_str (sanitize_str (codes "a%b\n") 4 false).0 4 false
        ≡ ((sanitize_str (codes "a%b\n") 4 false).0, true))
sanitize_str-AllValid_example = sanitize_str-AllValid (codes "a%b\n") 4 false

parse_pam_chos_args-Parsed_example :
    Parsed init_pam_chos_config (codes "user_conf_file=.x" ∷ codes "fail_to_default=1" ∷ []) (
      parse_pam_chos_args init_pam_chos_config
        (codes "user_conf_file=.x" ∷ codes "fail_to_default=1" ∷ []))
parse_pam_chos_args-Parsed_example =
    parse_pam_chos_args-Parsed init_pam_chos_config
      (codes "user_conf_file=.x" ∷ codes "fail_to_default=1" ∷ []) init-FitsConfig

read_chos_file-Names_example :
    NamesFrom
      (opened_at surroundings.open_file (codes ".chos") home)
      (read_chos_file surroundings.open_file (codes ".chos") home)
read_chos_file-Names_example = read_chos_file-Names surroundings.open_file (codes ".chos") home

-- $CHOS ends at its newline.
abbrev two_lines : Surroundings
two_lines = record surroundings { env = some (codes "a\nb") }

a-Chosen : Chosen two_lines init_pam_chos_config home a
a-Chosen = from_variable refl (omega arith) (keeps (λ e. omega (arith, e)) refl at_newline)

get_chos_info-entry_example : (get_chos_info two_lines [] home ≡ sent (answer os_a a)) × IsName a
get_chos_info-entry_example =
    get_chos_info-entry two_lines [] home parses refl a-Chosen finds_a refl refl

pam_sm_open_session-success_example :
    ((pam_sm_open_session calls []).ret ≡ pam_success)
    × ((user : Bytes) (pw : Passwd)
        → calls.user ≡ some user
        → calls.passwd user ≡ some pw
        → pw.uid ≡ 0
        → pam_sm_open_session calls []
          ≡ record { ret = pam_success; setchos = none; variable = none })
pam_sm_open_session-success_example = pam_sm_open_session-success calls []

pub calls-AllWell : AllWell calls
calls-AllWell = record {
  pipe = refl;
  fork = refl;
  child_close = refl;
  setgroups = refl;
  setresgid = refl;
  setresuid = refl;
  child_fdopens = refl;
  child_fcloses = refl;
  parent_close = refl;
  fdopens = refl;
  fcloses = refl;
  opens_setchos = refl;
  putenv = refl;
}

pub calls-PrintsPlain : PrintsPlain calls
calls-PrintsPlain t h = refl
