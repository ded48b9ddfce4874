-- ===== src/Jobs/Start.antt =====
-- What job_starter of utils/job_starter.c executes.
use chos.Jobs.{
  Action, Array, Calls, Site, exec_array, execvp, fill, job_starter, limit_memory, put, run_chos,
  run_job, vector, wants_chos,
}
use chos.Prelude.{
  subst, sym, ◌≢◌, ◌<◌, ◌≤◌, ◌≡◌, ◌+◌, ◌*◌, ◌==◌, ℕ, zero, suc, Bool-cases, inl, inr, true, false,
  not, Option, Option-cases, none, some, List, [], ◌∷◌, Bytes, codes, head_or, ltb, length, update,
  arith, refl, ◌∙◌,
}

vector-agree :
    (n i : ℕ) (a b : Array) → ((j : ℕ) → i ≤ j → a.at j ≡ b.at j) → vector n i a ≡ vector n i b
unfolding vector
vector-agree zero i a b h = refl
vector-agree (suc n) i a b h =
    let here = h i (omega arith) in
    let rest = vector-agree n (i + 1) a b λ j k. h j (omega (arith, k)) in
    elim (Option-cases (b.at i)) [
      | inl ends ↦ rw (vector, here, ends) refl
      | inr (arg, more) ↦ rw (vector, here, more, rest) refl
    ]

-- The array behind the loop: it holds the arguments from `i` on, and what it held below.
record Filled (args : List Bytes) (i : ℕ) (a b : Array) : Type 0 where
  size : b.size ≡ a.size
  below : (j : ℕ) → j < i → b.at j ≡ a.at j
  reads : (n : ℕ) → length args < n → vector n i b ≡ some args

vector-nil :
    (n i : ℕ) (a : Array) → 0 < n → vector n i (record a { at = update a.at i none }) ≡ some []
unfolding vector
vector-nil zero i a h = absurd (omega (arith, h))
vector-nil (suc n) i a h = ground arith

vector-cons :
    (n i : ℕ) (a : Array) {arg : Bytes} {args : List Bytes}
    → a.at i ≡ some arg
    → vector n (i + 1) a ≡ some args
    → vector (suc n) i a ≡ some (arg ∷ args)
unfolding vector
vector-cons n i a e h = rw (vector, e, h) refl

fill-Filled :
    (args : List Bytes) (i : ℕ) (a : Array)
    → i + length args < a.size
    → (b : Array) × (fill args i a ≡ some b) × Filled args i a b
unfolding fill put
fill-Filled [] i a h = (
  record a { at = update a.at i none },
  ground (arith, h),
  record { size = refl; below = λ j k. ground (arith, k); reads = λ n k. vector-nil n i a k },
)
fill-Filled (arg ∷ args) i a h =
    let a1 : Array = record a { at = update a.at i (some arg) } in
    let (b, e, q) = fill-Filled args (i + 1) a1 (omega (arith, h)) in
    let room : ltb i a.size ≡ true = ground (arith, h) in
    let kept : b.at i ≡ some arg = q.below i (omega arith) ∙ ground arith in
    (
      b,
      rw (fill, put, room, e) refl,
      record {
        size = q.size;
        below = λ j k. q.below j (omega (arith, k)) ∙ ground (arith, k);
        reads = reads b kept q;
      },
    )
  where
    reads :
        (b : Array)
        → b.at i ≡ some arg
        → Filled args (i + 1) (record a { at = update a.at i (some arg) }) b
        → (n : ℕ) → suc (length args) < n
        → vector n i b ≡ some (arg ∷ args)
    reads b kept q zero k = absurd (omega (arith, k))
    reads b kept q (suc n) k = vector-cons n i b kept (q.reads n (omega (arith, k)))

-- What the starter executes for a job.
abbrev pub under_chos : List Bytes → List Bytes
under_chos job = codes "/usr/bin/chos" ∷ job

run_chos-under_chos :
    (c : Calls) (args : List Bytes) {old : ℕ → Option Bytes}
    → c.malloc ((length args + 2) * 8) ≡ some old
    → run_chos c args ≡ execvp (under_chos args)
unfolding run_chos put exec_array
run_chos-under_chos c args {old} e =
    let a : Array = record { size = length args + 2; at = old } in
    let (b, f, q) = fill-Filled args 1 a (omega arith) in
    let room : ltb 0 b.size ≡ true = ground (arith, q.size) in
    let chos = codes "/usr/bin/chos" in
    let b0 : Array = record b { at = update b.at 0 (some chos) } in
    let rest : vector (length args + 1) 1 b0 ≡ some args =
      vector-agree (length args + 1) 1 b0 b (λ j k. ground (arith, k))
      ∙ q.reads (length args + 1) (omega arith) in
    let count : length args + 2 ≡ suc (length args + 1) = omega arith in
    let all : vector b.size 0 b0 ≡ some (under_chos args) =
      subst (λ n. vector n 0 b0 ≡ some (under_chos args)) (sym (q.size ∙ count))
        (vector-cons (length args + 1) 0 b0 refl rest) in
    rw (run_chos, e, f, put, room, exec_array, all) refl

-- The starter is built with a variable, and its value is not empty.
pub data Wants (site : Site) (c : Calls) : Type 0 where
  wants :
      {variable rest : Bytes} {first : ℕ}
      → site.chos ≡ some variable
      → c.getenv variable ≡ some (first ∷ rest)
      → first ≢ 0
      → Wants site c

Wants-wants_chos : (site : Site) (c : Calls) → Wants site c → wants_chos c site.chos ≡ true
unfolding wants_chos
Wants-wants_chos site c (wants {variable} {rest} {first} e f ne) =
    let more : (first == 0) ≡ false = ground (arith, ne) in rw (wants_chos, e, f, more) refl

wants_chos-Wants : (site : Site) (c : Calls) → wants_chos c site.chos ≡ true → Wants site c
unfolding wants_chos
wants_chos-Wants site c h = elim (Option-cases site.chos) [
  | inl absent ↦ absurd (ground (arith, rw (wants_chos, absent) at h))
  | inr (variable, e) ↦ elim (Option-cases (c.getenv variable)) [
    | inl unset ↦ absurd (ground (arith, rw (wants_chos, e, unset) at h))
    | inr (value, f) ↦ go variable value e f (rw (wants_chos, e, f) at h)
  ]
]
  where
    go :
        (variable value : Bytes)
        → site.chos ≡ some variable
        → c.getenv variable ≡ some value
        → not (head_or 0 value == 0) ≡ true
        → Wants site c
    go variable [] e f h = absurd (ground (arith, h))
    go variable (first ∷ rest) e f h = wants e f (ground (arith, h))

-- For a limit of memory that fits in an int, a command with arguments, and an array from malloc
-- with any pointers in it: if the starter is built with a variable whose value is not empty,
-- job_starter writes only inside the array and executes /usr/bin/chos with the command and its
-- arguments, ended by NULL; otherwise it executes the command itself with its arguments.
pub job_starter-Started :
    (site : Site) (c : Calls) {memory : List Action} {old : ℕ → Option Bytes}
    (starter command : Bytes) (args : List Bytes)
    → limit_memory c site.limit_mb ≡ some memory
    → c.malloc ((length (command ∷ args) + 2) * 8) ≡ some old
    → (Wants site c
        → (job_starter site c (starter ∷ command ∷ args)).1 ≡ execvp (under_chos (command ∷ args)))
      × (¬ Wants site c
          → (job_starter site c (starter ∷ command ∷ args)).1 ≡ execvp (command ∷ args))
unfolding job_starter run_job
job_starter-Started site c starter command args limit array = (
  λ q.
      rw (job_starter, limit, run_job, Wants-wants_chos site c q)
        (run_chos-under_chos c (command ∷ args) array),
  λ q. elim (Bool-cases (wants_chos c site.chos)) [
    | inl wanted ↦ absurd (q (wants_chos-Wants site c wanted))
    | inr unwanted ↦ rw (job_starter, limit, run_job, unwanted) refl
  ],
)
