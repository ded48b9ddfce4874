-- ===== src/Pam/Session/Deliver.antt =====
-- The write to /proc/chos/setchos that a session makes, in the kernel module.
use chos.Kernel.Buffer.{Write}
use chos.Kernel.Links.Way.{pid_of}
use chos.Kernel.Paths.{is_valid_path}
use chos.Kernel.Proc.{Services, slash}
use chos.Kernel.Proc.Assign.{path_of}
use chos.Kernel.State.{Machine, Ptr, State, null}
use chos.Kernel.State.Returns.{Returns}
use chos.Kernel.System.{Call, Fits, idle, run, setchos}
use chos.Kernel.System.Held.{Held}
use chos.Kernel.System.Heirs.{setchos-Held}
use chos.Kernel.System.Safe.{Safe}
use chos.Pam.Info.{answer, sent, get_chos_info}
use chos.Pam.Sanitize.Clean.{AllValid}
use chos.Pam.Args.{maxline}
use chos.Pam.Session.{false, Calls, Passwd, Session}
use chos.Pam.Session.Login.{AllWell, PrintsPlain}
use chos.Kernel.Buffer.{is_line}
use chos.Prelude.{
  false, Bytes, List, length, ◌+◌, ◌<◌, none, some, str_eq, subst, true, ◌||◌, ◌≡◌, ◌≢◌,
}

-- The session module finds the path and the name for a user that is not root, and no call fails.
pub record Sends (c : Calls) (args : List Bytes) (pw : Passwd) (path name : Bytes) : Type 0 where
  pub well : AllWell c
  pub plain : PrintsPlain c
  pub user : pw.uid ≢ 0
  pub info : get_chos_info c.surroundings args pw.dir ≡ sent (answer path name)
  pub path_line : is_line path ≡ true
  pub name_line : is_line name ≡ true
  pub path_valid : AllValid true path
  pub name_valid : AllValid false name
  pub path_short : length path + 1 < maxline
  pub name_short : length name + 1 < maxline

-- The process that opens the session (`machine`) writes to setchos when the stream of set_multi is
-- closed.
pub record Writer : Type 0 where
  pub services : Services
  pub machine : Machine
  pub write : Bytes → Write

-- The write of the session, if it makes one.
abbrev pub delivered : Writer → Session → Call
delivered o session = elim session.setchos [
  | none ↦ idle
  | some bytes ↦ setchos o.services o.machine (o.write bytes)
]

-- The write holds the path, which the module accepts and has memory for.
pub record Accepts (o : Writer) (path : Bytes) (s : State) : Type 0 where
  pub written : path_of (o.write path) ≡ path
  pub text : (o.write path).text ≢ null
  pub object : (o.write path).object ≢ null
  pub accepted : (str_eq path slash || is_valid_path s.valid_paths path) ≡ true

-- The process has an entry of its own, with the text `path`.
abbrev pub Owned : Writer → Bytes → Ptr → State → Type 0
Owned o path a s =
    Held (pid_of o.machine o.machine.current) (o.machine.task o.machine.current).start_time a path s

pub written-Owned :
    {P : Bytes → Type 0} (o : Writer) (path : Bytes) {s : State}
    → Accepts o path s
    → Safe P s
    → Fits P (setchos o.services o.machine (o.write path)) s
    → Returns
        (λ _ s'. Owned o path (o.write path).object s')
        (run (setchos o.services o.machine (o.write path)) s)
written-Owned o path {s} q h f =
    subst
      (λ t.
        Returns (λ _ s'. Owned o t (o.write path).object s')
          (run (setchos o.services o.machine (o.write path)) s))
      q.written
      (setchos-Held o.services o.machine (o.write path) h f q.text q.object
        (rw q.written q.accepted))
