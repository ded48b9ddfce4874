-- ===== src/Command/Main.antt =====
-- utils/chos.c: main, is_chrooted, set_multi, get_multi and the options. The system calls that reach
-- the kernel module are commands on its state.
pub mod Again
pub mod Enter
use chos.Command.{Shell, set_env, set_beh, line_size, no_env, environment, overflow, undefined}
use chos.Conf
use chos.Conf.{ConfFile}
use chos.Text.{starts_with, until_nul, fgets}
use chos.Kernel.State.{Cmd, State, pure, ◌>>◌, ◌>>=◌}
use chos.Prelude.{
  ℕ, Bool, true, false, not, Option, none, some, List, [], ◌∷◌, ◌++◌, Bytes, codes, length, str_eq,
  head_or, ltb, take, ◌==◌, ◌-◌, ◌&&◌, if◌then◌else◌,
}

-- `MAX_OS`
abbrev pub max_os : ℕ
max_os = 80

-- `DEFAULT`
abbrev pub default : Bytes
default = codes "default"

-- The results of the calls of the library: what set_env and set_beh get, the file /etc/chos, the
-- shell of the user (none if getpwuid fails), and the files /proc/chos/link and /proc/chos/setchos.
-- A stream writes when it is closed. `readlink` gets the size of the buffer, and gives none for -1;
-- `printed` is what fprintf writes for a format with no arguments, or none if it returns -1;
-- `setuid` stands for `setuid(getuid())`.
pub record Host : Type 0 where
  pub shell : Shell
  pub chosconf : Option ConfFile
  pub pw_shell : Option Bytes
  pub readlink : ℕ → Cmd (Option Bytes)
  pub opens_setchos : Bool
  pub printed : Bytes → Option Bytes
  pub close_setchos : Bytes → Cmd (Unit {0})
  pub setuid : Cmd (Unit {0})
  pub kernel_version : Option Bytes
  pub strerror : Bytes
  pub version : Bytes

pub data Code : Type 0 where
  minus_one minus_two minus_three : Code

-- How main ends: it returns 1 behind a text, or a negative code; it calls execve with the program,
-- the arguments and the environment, or execvp with the arguments; or it breaks a rule of C.
pub data Exit : Type 0 where
  informs : Bytes → Exit
  returns_code : Code → Exit
  execve : Bytes → List Bytes → List Bytes → Exit
  execvp : List Bytes → Exit
  breaks : Exit

-- `chos[0]=='/' && chos[1]==0`, with the terminator behind the bytes.
unfoldable pub is_chrooted : Bytes → Bool
is_chrooted [] = true
is_chrooted (c ∷ cs) = not (c == b'/' && head_or 0 cs == 0)

unfoldable pub argmatch : Bytes → Bytes → Bool
argmatch arg match = if ltb (length arg) (length match) then false else starts_with arg match

-- `snprintf(kernel_version, MAXLINE-1, "%s not readable: %s.", ...)`
abbrev pub not_readable : Host → Bytes
not_readable h =
    take (line_size - 2)
      (codes "/proc/chos/version" ++ (codes " not readable: " ++ (h.strerror ++ codes ".")))

-- The line of the version file, or the message when it cannot be opened or is empty.
unfoldable pub version_line : Host → Bytes
unfolding fgets
version_line h = elim h.kernel_version [
  | none ↦ not_readable h
  | some bytes ↦ elim (fgets line_size bytes) [ none ↦ not_readable h | some (line, rest) ↦ line ]
]

unfoldable pub chos_print_version : Host → Bytes
unfolding version_line
chos_print_version h =
    (codes "CHOS userland component version:\t" ++ (h.version ++ codes "\n"))
    ++ (codes "CHOS kernel component version:  \t" ++ (version_line h ++ codes "\n"))

abbrev pub chos_print_usage : Bytes
chos_print_usage =
    codes "Usage: chos [OPTION]\n       chos [COMMAND]\n\n"
    ++ (codes "The \"chos\" utility will run COMMAND within the CHOS\n"
        ++ (codes "environment named within the $CHOS environment variable.\n\n"
            ++ (codes "If no command is provided, a new login shell will be launched.\n\n"
                ++ (codes "If the only argument to chos is exactly one of the options defined\n"
                    ++ (codes "below, then the following behavior will result:\n\nOptions:\n"
                        ++ (codes "       --version\t\tPrint version information\n"
                            ++ codes "       --help\t\t\tPrint this help message\n\n"))))))

-- none is the result 1; the other result, 0, comes with what is printed.
unfoldable pub chos_parse_args : Host → List Bytes → Option Bytes
unfolding argmatch chos_print_version
chos_parse_args h (name ∷ option ∷ []) =
    if argmatch option (codes "--version")
    then some (chos_print_version h)
    else if argmatch option (codes "--help")
    then some (chos_print_version h ++ chos_print_usage)
    else none
chos_parse_args h _ = none

-- What get_multi leaves: a result other than 0, the string in the array, or a terminator behind
-- the array.
pub data Got : Type 0 where
  failed : Got
  got : Bytes → Got
  outside : Got

unfoldable pub terminated : Option Bytes → Got
terminated none = failed
terminated (some link) =
    if length link == 0
    then failed
    else if ltb (length link) max_os
    then got (until_nul link)
    else outside

unfoldable pub get_multi : Host → Cmd Got
unfolding terminated
get_multi h = do link ← h.readlink max_os; pure (terminated link)

-- The result says whether it is 0.
unfoldable pub set_multi : Host → Bytes → Cmd Bool
set_multi h os s = if not h.opens_setchos then pure false s else elim (h.printed os) [
  | none ↦ pure false s
  | some bytes ↦ (h.close_setchos bytes >> pure true) s
]

-- The same function as in the session module, with a buffer of `MAXLINE` bytes.
unfoldable pub check_chos : Host → Bytes → Option Bytes
unfolding Conf.check_chos
check_chos h = Conf.check_chos line_size h.chosconf

-- `os` behind the call of check_chos.
unfoldable pub requested : Host → Bytes → Option Bytes
unfolding check_chos
requested h osenv = elim (check_chos h osenv) [
  | none ↦ if str_eq osenv default then none else some osenv
  | some path ↦ some path
]

-- `strncmp(chos,os,MAX_OS)!=0`
abbrev pub differ : Bytes → Bytes → Bool
differ chos os = not (str_eq (take max_os chos) (take max_os os))

-- The steps that read and set the link, if `os` is not null; none is to go on.
unfoldable pub update_link : Host → Option Bytes → Cmd (Option Exit)
unfolding get_multi set_multi
update_link h none = pure none
update_link h (some os) = do
  link ← get_multi h
  elim link [
    | failed ↦ pure (some (returns_code minus_three))
    | outside ↦ pure (some breaks)
    | got chos ↦
        if differ chos os
        then (do
          done ← set_multi h os
          pure (if done then none else some (returns_code minus_three)))
        else pure none
  ]

-- `strstr(text, part) != NULL`
abbrev pub contains : Bytes → Bytes → Bool
contains [] part = starts_with [] part
contains (c ∷ cs) part = if starts_with (c ∷ cs) part then true else contains cs part

-- The branch with no arguments: a login shell.
unfoldable pub login : Host → Bytes → Exit
unfolding set_env set_beh
login h shell = elim (set_env h.shell) [
  | no_env ↦ returns_code minus_one
  | overflow ↦ breaks
  | undefined ↦ breaks
  | environment env ↦
      execve shell
        (shell
          ∷ (if contains shell (codes "csh")
              then codes "-l"
              else if set_beh h.shell.conf
              then codes "-l"
              else codes "-")
          ∷ [])
        env
]

-- What main does behind setuid.
unfoldable pub start : Host → Bytes → List Bytes → Exit
unfolding login
start h shell [] = breaks
start h shell (name ∷ []) = login h shell
start h shell (name ∷ command ∷ args) = execvp (command ∷ args)

-- main behind getpwuid.
unfoldable pub enter : Host → Option Bytes → Bytes → List Bytes → Cmd Exit
unfolding update_link start
enter h os shell argv = do
  stop ← update_link h os
  elim stop [ some exit ↦ pure exit | none ↦ h.setuid >> pure (start h shell argv) ]

unfoldable pub main : Host → List Bytes → Cmd Exit
unfolding chos_parse_args requested enter
main h argv = elim (chos_parse_args h argv) [
  | some text ↦ pure (informs text)
  | none ↦ elim (h.shell.getenv (codes "CHOS")) [
    | none ↦ pure (returns_code minus_two)
    | some osenv ↦ elim h.pw_shell [
      | none ↦ pure (returns_code minus_two)
      | some shell ↦ enter h (requested h osenv) shell argv
    ]
  ]
]
