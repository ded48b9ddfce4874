-- ===== src/Jobs.antt =====
-- utils/job_starter.c: what a batch system runs in place of a job. Its variant with PAM is in
-- Jobs/Gate.antt.
pub mod Gate
pub mod Start
pub mod Enter
use chos.Prelude.{
  update, length, zero, suc, ◌+◌, ℕ, ◌*◌, ◌^◌, Bool, true, false, not, Option, none, some, List, [],
  ◌∷◌, ◌++◌, Bytes, codes, ltb, head_or, ◌==◌, ◌||◌, if◌then◌else◌,
}

-- `MB_FACTOR`
abbrev pub mb_factor : ℕ
mb_factor = 1048580

pub data Resource : Type 0 where
  rlimit_as rlimit_nproc : Resource

-- The macros that a site may define: LIMIT_MB, LIMIT_PROC, LOG and CHOS.
pub record Site : Type 0 where
  pub limit_mb : Option ℕ
  pub limit_proc : Option ℕ
  pub log : Option Bytes
  pub chos : Option Bytes

-- The results of the library calls: whether setrlimit returns 0, whether fopen opens the log, the
-- environment, and what malloc gives for a number of bytes: null, or pointers of any value.
pub record Calls : Type 0 where
  pub setrlimit : Resource → ℕ → Bool
  pub opens : Bytes → Bool
  pub getenv : Bytes → Option Bytes
  pub malloc : ℕ → Option (ℕ → Option Bytes)

-- What the program does before it ends.
pub data Action : Type 0 where
  limits : Resource → ℕ → Action
  complains : Action
  logs : Bytes → Bytes → Action

-- How it ends: it returns a negative code, it calls execvp, or it breaks a rule of C.
pub data End : Type 0 where
  minus_one : End
  execvp : List Bytes → End
  breaks : End

-- Both limits of a resource, and the message if that fails.
unfoldable pub set_limit : Calls → Resource → ℕ → List Action
set_limit c r n = if c.setrlimit r n then limits r n ∷ [] else complains ∷ []

-- The limit of memory; the product is an int, and none is its overflow.
unfoldable pub limit_memory : Calls → Option ℕ → Option (List Action)
unfolding set_limit
limit_memory c none = some []
limit_memory c (some mb) =
    if ltb (mb * mb_factor) (2 ^ 31) then some (set_limit c rlimit_as (mb * mb_factor)) else none

unfoldable pub limit_processes : Calls → Option ℕ → List Action
unfolding set_limit
limit_processes c none = []
limit_processes c (some n) = set_limit c rlimit_nproc n

-- The loop over the arguments, and the end of the line.
abbrev pub log_line : List Bytes → Bytes
log_line [] = codes "\n"
log_line (arg ∷ args) = arg ++ (codes " " ++ log_line args)

unfoldable pub log_job : Calls → Option Bytes → List Bytes → List Action
log_job c none argv = []
log_job c (some file) argv = if c.opens file then logs file (log_line argv) ∷ [] else []

-- `chos!=NULL && chos[0]!=0`, if the macro CHOS is defined.
unfoldable pub wants_chos : Calls → Option Bytes → Bool
wants_chos c none = false
wants_chos c (some variable) = elim (c.getenv variable) [
  | none ↦ false
  | some value ↦ not (head_or 0 value == 0)
]

-- `char **args`: an array of pointers, none of them is NULL.
pub record Array : Type 0 where
  pub size : ℕ
  pub at : ℕ → Option Bytes

-- `args[i]=p`; none is a write outside of the array.
unfoldable pub put : Array → ℕ → Option Bytes → Option Array
put a i p = if ltb i a.size then some (record a { at = update a.at i p }) else none

-- The loop from `i` on over the arguments that are left, and `args[i]=NULL` behind it.
unfoldable pub fill : List Bytes → ℕ → Array → Option Array
unfolding put
fill [] i a = put a i none
fill (arg ∷ args) i a = elim (put a i (some arg)) [ none ↦ none | some b ↦ fill args (i + 1) b ]

-- The arguments that execvp reads from the place `i` on, up to NULL, with `n` places left; none is a
-- read behind the array.
unfoldable pub vector : ℕ → ℕ → Array → Option (List Bytes)
vector zero i a = none
vector (suc n) i a = elim (a.at i) [
  | none ↦ some []
  | some arg ↦ elim (vector n (i + 1) a) [ none ↦ none | some args ↦ some (arg ∷ args) ]
]

unfoldable pub exec_array : Array → End
unfolding vector
exec_array a = elim (vector a.size 0 a) [ none ↦ breaks | some args ↦ execvp args ]

-- The array for the command chos; `args` are the arguments behind the name of the program, so that
-- argc is one more.
unfoldable pub run_chos : Calls → List Bytes → End
unfolding fill put exec_array
run_chos c args = elim (c.malloc ((length args + 2) * 8)) [
  | none ↦ breaks
  | some old ↦ elim (fill args 1 (record { size = length args + 2; at = old })) [
    | none ↦ breaks
    | some a ↦ elim (put a 0 (some (codes "/usr/bin/chos"))) [
      | none ↦ breaks
      | some b ↦ exec_array b
    ]
  ]
]

-- The arguments of execvp, and its call; without chos they are the program's own, `&argv[1]`.
unfoldable pub run_job : Site → Calls → List Bytes → End
unfolding wants_chos run_chos
run_job site c args = if wants_chos c site.chos then run_chos c args else execvp args

unfoldable pub job_starter : Site → Calls → List Bytes → List Action × End
unfolding limit_memory limit_processes log_job run_job
job_starter site c [] = ([], breaks)
job_starter site c (name ∷ []) = ([], minus_one)
job_starter site c (name ∷ command ∷ args) = elim (limit_memory c site.limit_mb) [
  | none ↦ ([], breaks)
  | some memory ↦ (
    memory ++ (limit_processes c site.limit_proc ++ log_job c site.log (name ∷ command ∷ args)),
    run_job site c (command ∷ args),
  )
]
