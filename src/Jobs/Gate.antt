-- ===== src/Jobs/Gate.antt =====
-- utils/pam_job_starter.c, which asks PAM before it runs a job. The macro LOG is not defined: the code
-- that it guards names variables that do not exist.
pub mod Enter
use chos.Prelude.{
  Bool, true, false, Option, none, some, List, [], ◌∷◌, ◌++◌, Bytes, codes, if◌then◌else◌, ◌≡◌,
  arith, refl, Bool-cases, inl, inr, ◌⊎◌,
}

-- `PAM_NAME`
abbrev pub pam_name : Bytes
pam_name = codes "jobstarter"

-- The name of the user, if getpwuid finds it, and whether each call of PAM returns PAM_SUCCESS;
-- pam_end gets the last result, as success or not.
pub record PamCalls : Type 0 where
  pub pw_name : Option Bytes
  pub pam_start : Bytes → Bytes → Bool
  pub pam_acct_mgmt : Bool
  pub pam_open_session : Bool
  pub pam_end : Bool → Bool

pub data PamCall : Type 0 where
  asks_start asks_account asks_session asks_end : PamCall

-- How the program ends: a return, exit(1), execvp, or a break of a rule of C, as the read of a null
-- pointer.
pub data End : Type 0 where
  minus_one ninety_nine exit_one breaks : End
  execvp : List Bytes → End

-- One step: the calls so far, and whether `retval` is PAM_SUCCESS.
abbrev pub Retval : Type 0
Retval = List PamCall × Bool

-- `if (retval == PAM_SUCCESS) retval = ...`
unfoldable pub if_success : PamCall → Bool → Retval → Retval
if_success call result (made, retval) =
    if retval then (made ++ call ∷ [], result) else (made, false)

-- The steps up to the open session.
unfoldable pub permission : PamCalls → Bytes → Retval
unfolding if_success
permission c user =
    if_success asks_session c.pam_open_session
      (if_success asks_account c.pam_acct_mgmt (asks_start ∷ [], c.pam_start pam_name user))

-- pam_end and what follows it.
unfoldable pub finish : PamCalls → List Bytes → Retval → List PamCall × End
finish c args (made, retval) = (
  made ++ asks_end ∷ [],
  if c.pam_end retval then (if retval then execvp args else ninety_nine) else exit_one,
)

unfoldable pub pam_job_starter : PamCalls → List Bytes → List PamCall × End
unfolding permission finish
pam_job_starter c [] = ([], breaks)
pam_job_starter c (name ∷ []) = ([], minus_one)
pam_job_starter c (name ∷ command ∷ args) = elim c.pw_name [
  | none ↦ ([], breaks)
  | some user ↦ finish c (command ∷ args) (permission c user)
]

-- Everything that PAM has to grant, in the order of the calls.
pub record Granted (c : PamCalls) (user : Bytes) : Type 0 where
  pub started : c.pam_start pam_name user ≡ true
  pub account : c.pam_acct_mgmt ≡ true
  pub session : c.pam_open_session ≡ true
  pub ended : c.pam_end true ≡ true

abbrev pub all_calls : List PamCall
all_calls = asks_start ∷ asks_account ∷ asks_session ∷ asks_end ∷ []

module _ (c : PamCalls) (user : Bytes) where
  abbrev started : Bool
  started = c.pam_start pam_name user

  permission-cases :
      ((started ≡ true)
        × (c.pam_acct_mgmt ≡ true)
        × (c.pam_open_session ≡ true)
        × (permission c user ≡ (asks_start ∷ asks_account ∷ asks_session ∷ [], true)))
      ⊎ ((permission c user).1 ≡ false)
  unfolding permission if_success
  permission-cases = elim (Bool-cases started) [
    | inr missed ↦ inr (rw missed refl)
    | inl began ↦ elim (Bool-cases c.pam_acct_mgmt) [
      | inr missed ↦ inr (rw (began, missed) refl)
      | inl account ↦ elim (Bool-cases c.pam_open_session) [
        | inr missed ↦ inr (rw (began, account, missed) refl)
        | inl session ↦ inl (began, account, session, rw (began, account, session) refl)
      ]
    ]
  ]

  finish-execvp :
      (args job : List Bytes) (made : List PamCall) (retval : Bool)
      → (finish c args (made, retval)).1 ≡ execvp job
      → (retval ≡ true) × (c.pam_end true ≡ true) × (job ≡ args)
  unfolding finish
  finish-execvp args job made retval e = elim (Bool-cases (c.pam_end retval)) [
    | inr missed ↦ absurd (ground (arith, e, missed))
    | inl ended ↦ elim (Bool-cases retval) [
      | inr missed ↦ absurd (ground (arith, e, missed, ended))
      | inl done ↦ (done, ground (arith, ended, done), ground (arith, e, ended, done))
    ]
  ]

-- For a user that getpwuid finds and a command with arguments, pam_job_starter runs something
-- exactly if pam_start, pam_acct_mgmt, pam_open_session and the pam_end behind them succeed; it
-- then made these four calls in this order, and runs the command with its arguments.
pub pam_job_starter-Granted :
    (c : PamCalls) (user name command : Bytes) (args job : List Bytes)
    → c.pw_name ≡ some user
    → ((pam_job_starter c (name ∷ command ∷ args)).1 ≡ execvp job
        → Granted c user
          × (job ≡ command ∷ args)
          × ((pam_job_starter c (name ∷ command ∷ args)).0 ≡ all_calls))
      × (Granted c user → (pam_job_starter c (name ∷ command ∷ args)).1 ≡ execvp (command ∷ args))
unfolding pam_job_starter permission if_success finish
pam_job_starter-Granted c user name command args job e = (
  (λ h.
      let (done, ended, ej) =
        finish-execvp c user (command ∷ args) job (permission c user).0 (permission c user).1
          (ran h) in
      elim (permission-cases c user) [
        | inl (began, account, session, calls) ↦ (
          record { started = began; account = account; session = session; ended = ended },
          ej,
          rw (e, calls) refl,
        )
        | inr missed ↦ absurd (cc)
      ]),
  λ g. rw (e, g.started, g.account, g.session, g.ended) refl,
)
  where
    ran :
        (pam_job_starter c (name ∷ command ∷ args)).1 ≡ execvp job
        → (finish c (command ∷ args) (permission c user)).1 ≡ execvp job
    ran h = ground (arith, e, h)
