-- ===== src/Jobs/Gate/Enter.antt =====
-- utils/pam_job_starter.c with the session of pam_chos/pam_chos.c, on top of the kernel module: the
-- starter itself writes to setchos, and becomes the job by execvp.
use chos.Jobs.Gate.{PamCalls, execvp, pam_job_starter, pam_name}
use chos.Jobs.Gate.{pam_job_starter-Granted}
use chos.Kernel.Links.Way.{pid_of, is_top}
use chos.Kernel.Proc.{link_readlink}
use chos.Kernel.State.{State, ok}
use chos.Kernel.State.Returns.{Returns}
use chos.Kernel.State.Returns
use chos.Kernel.System.{Call, Elsewhere, Fits, run, sequence}
use chos.Kernel.System.Heirs.{run-sequence}
use chos.Kernel.System.Isolation.{run-lasting}
use chos.Kernel.System.Safe.{Safe}
use chos.Pam.Session.{Calls, Passwd, PamResult, Session, minus_one, open_session, pam_success}
use chos.Pam.Session.Deliver.{Accepts, Sends, Writer, delivered, written-Owned}
use chos.Pam.Session.Login.{open_session-sets}
use chos.Prelude.{refl, Bool, Bytes, List, some, false, true, ℕ, suc, ◌∷◌, ◌≡◌, subst, sym}

abbrev pub is_success : PamResult → Bool
is_success pam_success = true
is_success minus_one = false

-- PAM hands the session on to the module, which is the only one there is for a session, and grants the
-- rest.
pub record Stacks (c : PamCalls) (user : Bytes) (session : Session) : Type 0 where
  pub known : c.pw_name ≡ some user
  pub started : c.pam_start pam_name user ≡ true
  pub account : c.pam_acct_mgmt ≡ true
  pub module_only : c.pam_open_session ≡ is_success session.ret
  pub ended : c.pam_end true ≡ true

-- Take a user that is not root, for whom the session module finds a path and a name without a
-- failed call, a PAM whose answer for the session is the result of pam_sm_open_session and which
-- grants the rest, a starter that is not process 0 or 1 and whose write to setchos the module
-- accepts in a safe state, and calls of other processes behind it. Then pam_job_starter runs the
-- command with its arguments, and the kernel's side of it ends without a fault in a state in which
-- the job, which is the same process, reads the path from /proc/chos/link, and the read changes
-- nothing.
pub job-reads :
    {R : Type 0} (vfs_readlink : Bytes → R) {P : Bytes → Type 0} (c : Calls) (args : List Bytes)
    (pw : Passwd) (path name : Bytes) (pam : PamCalls) (user starter command : Bytes)
    (rest : List Bytes) (o : Writer) (others : Call) (fuel : ℕ) {s : State}
    → Sends c args pw path name
    → Stacks pam user (open_session c args pw)
    → Accepts o path s
    → is_top o.machine o.machine.current ≡ false
    → Elsewhere others
        (pid_of o.machine o.machine.current)
        (o.machine.task o.machine.current).start_time
    → Safe P s
    → Fits P (sequence (delivered o (open_session c args pw)) others) s
    → ((pam_job_starter pam (starter ∷ command ∷ rest)).1 ≡ execvp (command ∷ rest))
      × Returns
          (λ _ s'. link_readlink vfs_readlink o.machine (suc fuel) s' ≡ ok (vfs_readlink path) s')
          (run (sequence (delivered o (open_session c args pw)) others) s)
job-reads vfs_readlink {P} c args pw path name pam user starter command rest o others fuel {s} sends
      stacks q low apart h f =
    let session =
      open_session-sets c args pw path name sends.well sends.plain sends.user sends.info
        sends.path_line sends.name_line sends.path_valid sends.name_valid sends.path_short
        sends.name_short in
    let opened : pam.pam_open_session ≡ true = rw (stacks.module_only, session) refl in
    (
      (pam_job_starter-Granted pam user starter command rest (command ∷ rest) stacks.known).1
          (record {
            started = stacks.started;
            account = stacks.account;
            session = opened;
            ended = stacks.ended;
          }),
      subst
          (λ (x : Session).
            Fits P (sequence (delivered o x) others) s
            → Returns
                (λ _ s'.
                  link_readlink vfs_readlink o.machine (suc fuel) s' ≡ ok (vfs_readlink path) s')
                (run (sequence (delivered o x) others) s))
          (sym session)
          (λ f'. run-sequence _ _ h f' (written-Owned o path q h f'.0) λ s1 h1 g1 f1.
            Returns.mono (run-lasting vfs_readlink others o.machine fuel h1 f1 low g1 apart)
              λ _ s2 (g2, e). e)
          f,
    )
