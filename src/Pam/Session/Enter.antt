-- ===== src/Pam/Session/Enter.antt =====
-- A login on top of the kernel module: pam_sm_open_session writes to setchos, and the login program
-- forks the user's process.
use chos.Pam.Session.{Calls, Passwd, Session, open_session}
use chos.Pam.Session.Login.{open_session-sets}
use chos.Kernel.Fork.{child}
use chos.Kernel.Links.Way.{pid_of, is_top}
use chos.Kernel.Proc.{link_readlink}
use chos.Kernel.State.{Machine, State, null, ok, Ptr}
use chos.Kernel.State.Returns.{Returns}
use chos.Kernel.State.Returns
use chos.Kernel.System.{Call, setchos, fork, sequence, Fits, Elsewhere, run}
use chos.Kernel.System.Held.{Held}
use chos.Kernel.System.Heirs.{run-sequence, fork-Held}
use chos.Kernel.System.Isolation.{run-lasting}
use chos.Kernel.System.Policy.{run-Kept}
use chos.Kernel.System.Safe.{Safe}
use chos.Pam.Session.Deliver.{Sends, Writer, delivered, Accepts, written-Owned}
use chos.Prelude.{ℕ, suc, Bytes, List, false, ◌≡◌, ◌≢◌, subst, sym}

-- The kernel's side of a login: the login program (`machine`) writes to setchos when the stream of
-- set_multi is closed, and forks the process `pid`; `before`, `during` and `after` are what other
-- processes do before the fork, while it runs and behind it.
pub record Login : Type 0 where
  pub writer : Writer
  pub before : Call
  pub fuel : ℕ
  pub during : Call
  pub pid : ℕ
  pub behind : Machine
  pub after : Call

abbrev pub calls_of : Login → Session → Call
calls_of l session = sequence (delivered l.writer session) (
    sequence l.before
      (sequence (fork l.writer.machine l.fuel l.during (child l.pid) l.behind) l.after))

-- The write holds the path, which the module accepts and has memory for; the child is found, and the
-- processes of the login make none of the others' writes.
pub record Serves (l : Login) (path : Bytes) (s : State) : Type 0 where
  pub accepts : Accepts l.writer path s
  pub low : is_top l.writer.machine l.writer.machine.current ≡ false
  pub before :
      Elsewhere l.before
        (pid_of l.writer.machine l.writer.machine.current)
        (l.writer.machine.task l.writer.machine.current).start_time
  pub found : l.behind.find_task l.pid ≢ null
  pub after :
      Elsewhere l.after
        (pid_of l.behind (l.behind.find_task l.pid))
        (l.behind.task (l.behind.find_task l.pid)).start_time

-- The process that a machine runs is the child of the login.
pub record IsHeir (l : Login) (m : Machine) : Type 0 where
  pub low : is_top m m.current ≡ false
  pub pid : pid_of m m.current ≡ pid_of l.behind (l.behind.find_task l.pid)
  pub start_time :
      (m.task m.current).start_time ≡ (l.behind.task (l.behind.find_task l.pid)).start_time

-- The child has an entry of its own, with the text `path`.
abbrev Inherited : Login → Bytes → Ptr → State → Type 0
Inherited l path a s =
    Held (pid_of l.behind (l.behind.find_task l.pid))
      (l.behind.task (l.behind.find_task l.pid)).start_time a path s

-- The process that `m` runs reads `path` from /proc/chos/link, and the read changes nothing.
abbrev pub ReadsPath : {R : Type 0} → (Bytes → R) → Machine → ℕ → Bytes → State → Type 0
ReadsPath vfs_readlink m fuel path s =
    (link_readlink vfs_readlink m (suc fuel) s ≡ ok (vfs_readlink path) s)

module _ {P : Bytes → Type 0} (l : Login) (path : Bytes) {s : State} (q : Serves l path s) where
  module _ {R : Type 0} (vfs_readlink : Bytes → R) (m : Machine) (fuel : ℕ)
      (heir : IsHeir l m) where
    after-ReadsPath :
        {a : Ptr} {s1 : State}
        → Safe P s1
        → Fits P l.after s1
        → Inherited l path a s1
        → Returns (λ _ s'. ReadsPath vfs_readlink m fuel path s') (run l.after s1)
    after-ReadsPath {a} {s1} h f g =
        let own : Held (pid_of m m.current) (m.task m.current).start_time a path s1 =
          rw (heir.pid, heir.start_time) g in
        Returns.mono
          (run-lasting vfs_readlink l.after m fuel h f heir.low own
            (rw (heir.pid, heir.start_time) q.after))
          λ _ s' (g', e). e

    -- The four parts of a login in a row.
    parts-ReadsPath :
        Safe P s
        → Fits P
            (sequence (setchos l.writer.services l.writer.machine (l.writer.write path)) (
              sequence l.before
                (sequence (fork l.writer.machine l.fuel l.during (child l.pid) l.behind) l.after)))
            s
        → Returns
            (λ _ s'. ReadsPath vfs_readlink m fuel path s')
            (run
              (sequence (setchos l.writer.services l.writer.machine (l.writer.write path)) (
                sequence l.before (
                  sequence (fork l.writer.machine l.fuel l.during (child l.pid) l.behind) l.after)))
              s)
    parts-ReadsPath h f =
        run-sequence _ _ h f (written-Owned l.writer path q.accepts h f.0) λ s1 h1 g1 f1.
          run-sequence _ _ h1 f1
            (Returns.mono (run-Kept l.before h1 f1.0)
              λ _ s2 k. k.held _ _ (l.writer.write path).object path q.before g1)
            λ s2 h2 g2 f2.
              run-sequence _ _ h2 f2
                (fork-Held l.writer.machine l.behind l.fuel l.pid l.during h2 f2.0 q.found q.low g2)
                λ s3 h3 g3 f3. after-ReadsPath h3 f3 g3

-- If the session module sends a path and a name for a user that is not root and no call fails, as
-- `Sends` describes it, and the kernel module serves the login program as `Serves` describes it, in
-- a safe state and with calls of other processes, allowed by the kernel's guarantees and the
-- policy, behind the write to setchos, while the login program forks, and behind the fork: then the
-- child of the login program, if it writes to neither setchos nor resetchos behind the fork, reads
-- just that path from /proc/chos/link, and the read changes nothing.
pub login-reads :
    {R : Type 0} (vfs_readlink : Bytes → R) {P : Bytes → Type 0} (c : Calls) (args : List Bytes)
    (pw : Passwd) (path name : Bytes) (l : Login) (m : Machine) (fuel : ℕ) {s : State}
    → Sends c args pw path name
    → Serves l path s
    → IsHeir l m
    → Safe P s
    → Fits P (calls_of l (open_session c args pw)) s
    → Returns
        (λ _ s'. ReadsPath vfs_readlink m fuel path s')
        (run (calls_of l (open_session c args pw)) s)
login-reads vfs_readlink {P} c args pw path name l m fuel {s} sends q heir h f =
    let session =
      open_session-sets c args pw path name sends.well sends.plain sends.user sends.info
        sends.path_line sends.name_line sends.path_valid sends.name_valid sends.path_short
        sends.name_short in
    subst
      (λ (x : Session).
        Fits P (calls_of l x) s
        → Returns (λ _ s'. ReadsPath vfs_readlink m fuel path s') (run (calls_of l x) s))
      (sym session) (λ f'. parts-ReadsPath l path q vfs_readlink m fuel heir h f') f
