-- ===== src/Tests/Login.antt =====
-- A login on the machine of Tests/World: the login program is process 3, the user's process 4.
use chos.Pam.Session.{open_session}
use chos.Pam.Session.Enter.{Login, Serves, IsHeir, ReadsPath, calls_of, login-reads}
use chos.Kernel.Fork.{child}
use chos.Kernel.Links.{cleanup_links}
use chos.Kernel.Buffer.{text_length}
use chos.Kernel.Paths.{is_valid_path}
use chos.Kernel.Paths.Reload.{line_write}
use chos.Kernel.Links.Way.{below, top}
use chos.Kernel.State.{ok, State, Run}
use chos.Kernel.State.Returns.{Returns}
use chos.Kernel.State.Returns
use chos.Kernel.System.{sequence, Fits, fork, resetchos, run, savestate, setchos}
use chos.Kernel.System.Policy.{run-Kept}
use chos.Tests.Kernel.{links_of}
use chos.Tests.Pam.{
  a, calls, calls-AllWell, calls-PrintsPlain, home, os_a, sends_a, valid_a, valid_os_a,
}
use chos.Tests.System.{Approved, child_3, enable, shell, state0-Safe}
use chos.Tests.World.{machine, services, state0, choose_b}
use chos.Pam.Session.Deliver.{Sends, Writer, Accepts, delivered}
use chos.Jobs.Gate.{PamCalls, execvp, pam_job_starter}
use chos.Jobs.Gate.Enter.{Stacks, job-reads}
use chos.Kernel.Proc.{link_readlink}
use chos.Prelude.{some, true, codes, [], ◌∷◌, Bytes, ◌≡◌, refl, arith, ap, sym, ◌∙◌}

abbrev writer : Writer
writer = record { services = services; machine = child_3; write = line_write 70 30 }

abbrev login : Login
login = record {
  writer = writer;
  before = savestate enable;
  fuel = 4;
  during = savestate enable;
  pid = 4;
  behind = child_3;
  after = resetchos shell choose_b;
}

login-Sends : Sends calls [] (record { uid = 500; dir = home }) os_a a
login-Sends = record {
  well = calls-AllWell;
  plain = calls-PrintsPlain;
  user = λ e. omega (arith, e);
  info = sends_a;
  path_line = refl;
  name_line = refl;
  path_valid = valid_os_a;
  name_valid = valid_a;
  path_short = omega arith;
  name_short = omega arith;
}

writer-Accepts : Accepts writer os_a state0
unfolding text_length is_valid_path
writer-Accepts = record {
  written = refl;
  text = ground arith;
  object = ground arith;
  accepted = refl;
}

login-Serves : Serves login os_a state0
login-Serves = record {
  accepts = writer-Accepts;
  low = refl;
  before = tt;
  found = ground arith;
  after = ((λ e. omega (arith, e), refl), λ e. omega (arith, e));
}

user-IsHeir : IsHeir login machine
user-IsHeir = record { low = refl; pid = refl; start_time = refl }

write-Fits : Fits Approved (setchos services child_3 (line_write 70 30 os_a)) state0
unfolding cleanup_links text_length
write-Fits = (
  record {
    text_new = λ ne. refl;
    object_new = λ ne s1 e. sym (ap (λ (r : Run (Unit {0})). links_of r 30) e);
  },
  λ e. omega (arith, e),
  omega arith,
)

fork-Fits :
    (s : State)
    → s.pid_max ≡ 6
    → Fits Approved (fork child_3 4 (savestate enable) (child 4) child_3) s
fork-Fits s e = (
  record {
    pids = 3 ∷ 2 ∷ [];
    way =
        below refl refl (omega (arith, e)) refl
          (below refl refl (omega (arith, e)) refl (top refl));
    enough = omega arith;
  },
  λ ne. (omega (arith, e), λ o. omega (arith, o)),
  tt,
  λ b s1 e1. tt,
)

login-Fits :
    Fits Approved (calls_of login (open_session calls [] (record { uid = 500; dir = home }))) state0
unfolding open_session
login-Fits = (
  write-Fits,
  λ s1 e1.
      let k1 = Returns.holds (run-Kept _ state0-Safe write-Fits) e1 in
      (
        tt,
        λ s2 e2.
            let k2 = Returns.holds (run-Kept (savestate enable) k1.safe tt) e2 in
            let f = fork-Fits s2 (k2.pid_max ∙ k1.pid_max) in
            (
              f,
              λ s3 e3.
                  let k3 = Returns.holds (run-Kept _ k2.safe f) e3 in
                  omega (arith, k1.pid_max, k2.pid_max, k3.pid_max),
            ),
      ),
)

login-reads_example :
    Returns
      (λ _ s'. ReadsPath {R = Bytes} (λ t. t) machine 0 os_a s')
      (run (calls_of login (open_session calls [] (record { uid = 500; dir = home }))) state0)
login-reads_example =
    login-reads (λ t. t) calls [] (record { uid = 500; dir = home }) os_a a login machine 0
      login-Sends login-Serves user-IsHeir state0-Safe login-Fits

-- The starter is process 3, and another process resets its link before the job reads.
abbrev pam : PamCalls
pam = record {
  pw_name = some (codes "joe");
  pam_start = λ service user. true;
  pam_acct_mgmt = true;
  pam_open_session = true;
  pam_end = λ r. r;
}

pam-Stacks : Stacks pam (codes "joe") (open_session calls [] (record { uid = 500; dir = home }))
unfolding open_session
pam-Stacks = record {
  known = refl;
  started = refl;
  account = refl;
  module_only = refl;
  ended = refl;
}

job-Fits :
    Fits Approved
      (sequence
        (delivered writer (open_session calls [] (record { uid = 500; dir = home })))
        (resetchos shell choose_b))
      state0
unfolding open_session
job-Fits = (
  write-Fits,
  λ s1 e1.
      let k1 = Returns.holds (run-Kept _ state0-Safe write-Fits) e1 in omega (arith, k1.pid_max),
)

job-reads_example :
    ((pam_job_starter pam (codes "starter" ∷ codes "job" ∷ [])).1 ≡ execvp (codes "job" ∷ []))
    × Returns
        (λ _ s'. link_readlink {R = Bytes} (λ t. t) child_3 1 s' ≡ ok os_a s')
        (run
          (sequence
            (delivered writer (open_session calls [] (record { uid = 500; dir = home })))
            (resetchos shell choose_b))
          state0)
job-reads_example =
    job-reads (λ t. t) calls [] (record { uid = 500; dir = home }) os_a a pam (codes "joe")
      (codes "starter") (codes "job") [] writer (resetchos shell choose_b) 0 login-Sends pam-Stacks
      writer-Accepts refl ((λ e. omega (arith, e), refl), λ e. omega (arith, e)) state0-Safe
      job-Fits
