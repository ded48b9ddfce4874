-- ===== src/Pam/Session.antt =====
-- pam_chos/pam_chos.c: pam_sm_open_session and pam_sm_close_session; set_multi of
-- pam_chos/pam_chos_util.c. The parent waits for the child, so the child runs first.
use chos.Pam.Args.{max_len}
use chos.Pam.Info.{crash, sent, error, Surroundings, get_chos_info, received, retrieve_from_child}
pub mod Login
pub mod Deliver
pub mod Enter
use chos.Prelude.{
  length, ◌+◌, [], ◌||◌, take, ltb, false, ◌==◌, ◌++◌, not, true, codes, if◌then◌else◌, some, List,
  Bool, Bytes, none, Option, ℕ, ◌≡◌,
}
use chos.Text.{starts_with}

-- The fields of `struct passwd` that are read; `pw_uid` decides, and the child changes to it.
pub record Passwd : Type 0 where
  pub uid : ℕ
  pub dir : Bytes

pub data Fork : Type 0 where
  no_fork forked : Fork

-- The results of the library and system calls on both sides; `printed` is what fprintf writes for a
-- format with no arguments, or none if it returns -1.
pub record Calls : Type 0 where
  pub user : Option Bytes
  pub passwd : Bytes → Option Passwd
  pub pipe : Bool
  pub fork : Fork
  pub child_close : Bool
  pub setgroups : Bool
  pub setresgid : Bool
  pub setresuid : Bool
  pub surroundings : Surroundings
  pub parent_close : Bool
  pub fdopens : Bool
  pub fcloses : Bool
  pub opens_setchos : Bool
  pub printed : Bytes → Option Bytes
  pub putenv : Bool

-- What the child leaves: its exit status is 0 or not, and the bytes on the pipe.
pub record Child : Type 0 where
  pub exits_0 : Bool
  pub pipe : Bytes

unfoldable pub run_child : Calls → List Bytes → Passwd → Child
unfolding get_chos_info
run_child c args pw =
    if not c.child_close || (not c.setgroups || (not c.setresgid || not c.setresuid))
    then record { exits_0 = false; pipe = [] }
    else elim (get_chos_info c.surroundings args pw.dir) [
      | error ↦ record { exits_0 = false; pipe = [] }
      | crash ↦ record { exits_0 = false; pipe = [] }
      | sent bytes ↦ record { exits_0 = true; pipe = bytes }
    ]

-- The value that PAM gets: PAM_SUCCESS, or -1.
pub data PamResult : Type 0 where
  pam_success minus_one : PamResult

-- That value, the bytes written to /proc/chos/setchos, and the variable given to
-- pam_putenv.
pub record Session : Type 0 where
  pub ret : PamResult
  pub setchos : Option Bytes
  pub variable : Option Bytes

-- `ONERR`
abbrev pub onerr : Session
onerr = record { ret = pam_success; setchos = none; variable = none }

-- none is a result other than 0.
unfoldable pub set_multi : Calls → Bytes → Option Bytes
set_multi c os = if not c.opens_setchos then none else c.printed os

-- `snprintf(envvar,MAXLINE+1,"CHOS=%.40s",osenv)`
abbrev pub envvar : Bytes → Bytes
envvar osenv = codes "CHOS=" ++ take 40 osenv

-- The parent behind the wait: link and variable.
unfoldable pub finish_session : Calls → Bytes × Bytes → Session
unfolding received set_multi
finish_session c lines =
    let env_path = received lines.0 true in
    let osenv = received lines.1 false in
    elim (set_multi c env_path) [
      | none ↦ onerr
      | some written ↦
          if ltb (max_len + 1) (length (envvar osenv))
          then record { ret = minus_one; setchos = some written; variable = none }
          else record {
            ret = pam_success;
            setchos = some written;
            variable = if c.putenv then some (envvar osenv) else none;
          }
    ]

unfoldable pub run_parent : Calls → Child → Session
unfolding retrieve_from_child finish_session
run_parent c child =
    if not c.parent_close
    then onerr
    else elim (retrieve_from_child c.fdopens c.fcloses child.pipe) [
      | none ↦ onerr
      | some lines ↦ if not child.exits_0 then onerr else finish_session c lines
    ]

unfoldable pub open_session : Calls → List Bytes → Passwd → Session
unfolding run_child run_parent
open_session c args pw =
    if pw.uid == 0
    then record { ret = pam_success; setchos = none; variable = none }
    else if not c.pipe
    then onerr
    else elim c.fork [ no_fork ↦ onerr | forked ↦ run_parent c (run_child c args pw) ]

unfoldable pub pam_sm_open_session : Calls → List Bytes → Session
unfolding open_session
pam_sm_open_session c args = elim c.user [
  | none ↦ onerr
  | some user ↦ elim (c.passwd user) [ none ↦ onerr | some pw ↦ open_session c args pw ]
]

abbrev pub pam_sm_close_session : PamResult
pam_sm_close_session = pam_success
