-- ===== src/Tests/Jobs.antt =====
-- The job starters.
use chos.Jobs.Start.{Wants, under_chos, job_starter-Started}
use chos.Jobs.{
  limit_memory, job_starter, Site, Calls, limits, logs, execvp, breaks, mb_factor, rlimit_as,
}
use chos.Jobs.Gate
use chos.Jobs.Gate.{
  pam_job_starter-Granted, pam_job_starter, PamCalls, Granted, all_calls, pam_name,
}
use chos.Prelude.{
  some, none, true, false, Bytes, codes, List, [], ◌∷◌, str_eq, if◌then◌else◌, refl, ◌≡◌, ◌*◌,
}

abbrev argv : List Bytes
argv = codes "job_starter" ∷ codes "sim" ∷ codes "-n" ∷ []

abbrev pub site : Site
site = record {
  limit_mb = some 1024;
  limit_proc = none;
  log = some (codes "/var/log/job_starter.log");
  chos = some (codes "CHOS");
}

abbrev pub calls : Calls
calls = record {
  setrlimit = λ r n. true;
  opens = λ file. true;
  getenv = λ name. if str_eq name (codes "CHOS") then some (codes "b") else none;
  malloc = λ n. some λ i. some (codes "garbage");
}

-- The job runs under the command chos, with its own arguments.
runs_under_chos : job_starter site calls argv ≡ (
  limits rlimit_as (1024 * mb_factor)
      ∷ logs (codes "/var/log/job_starter.log") (codes "job_starter sim -n \n")
      ∷ [],
  execvp (codes "/usr/bin/chos" ∷ codes "sim" ∷ codes "-n" ∷ []),
)
unfolding job_starter
runs_under_chos = refl

-- The product of the limit does not fit in an int from 2048 MB on.
limit_overflows : job_starter (record site { limit_mb = some 2048 }) calls argv ≡ ([], breaks)
unfolding job_starter
limit_overflows = refl

abbrev granting : PamCalls
granting = record {
  pw_name = some (codes "joe");
  pam_start = λ service user. true;
  pam_acct_mgmt = true;
  pam_open_session = true;
  pam_end = λ done. true;
}

-- A user whose account has expired.
expired :
    pam_job_starter (record granting { pam_acct_mgmt = false }) argv
    ≡ (Gate.asks_start ∷ Gate.asks_account ∷ Gate.asks_end ∷ [], Gate.ninety_nine)
unfolding pam_job_starter
expired = refl

pam_job_starter-Granted_example :
    ((pam_job_starter granting argv).1 ≡ Gate.execvp (codes "sim" ∷ codes "-n" ∷ [])
      → Granted granting (codes "joe")
        × ((codes "sim" ∷ codes "-n" ∷ []) ≡ codes "sim" ∷ codes "-n" ∷ [])
        × ((pam_job_starter granting argv).0 ≡ all_calls))
    × (Granted granting (codes "joe")
        → (pam_job_starter granting argv).1 ≡ Gate.execvp (codes "sim" ∷ codes "-n" ∷ []))
pam_job_starter-Granted_example =
    pam_job_starter-Granted granting (codes "joe") (codes "job_starter") (codes "sim")
      (codes "-n" ∷ []) (codes "sim" ∷ codes "-n" ∷ []) refl

job_starter-Started_example :
    (Wants site calls
      → (job_starter site calls argv).1 ≡ execvp (under_chos (codes "sim" ∷ codes "-n" ∷ [])))
    × (¬ Wants site calls
        → (job_starter site calls argv).1 ≡ execvp (codes "sim" ∷ codes "-n" ∷ []))
unfolding limit_memory
job_starter-Started_example =
    job_starter-Started site calls (codes "job_starter") (codes "sim") (codes "-n" ∷ []) refl refl

-- A variable that is set to nothing.
abbrev blank : Calls
blank = record calls { getenv = λ name. some [] }

runs_alone : (job_starter site blank argv).1 ≡ execvp (codes "sim" ∷ codes "-n" ∷ [])
unfolding job_starter
runs_alone = refl
