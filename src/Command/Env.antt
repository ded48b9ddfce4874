-- ===== src/Command/Env.antt =====
-- The environment that set_env builds, and the switch that set_beh reads.
use chos.Conf.{is_skipped}
use chos.Text.{until_end, read_lines}
use chos.Conf.Section.{section, texts, until_section}
use chos.Prelude.{
  append_assoc, length-append, ◌==◌, head_or, ◌||◌, Option, ◌∙◌, refl, Bool, append-nil, sym, ap,
  Option-cases, inr, inl, Bool-cases, ◌++◌, ◌<◌, length, ◌≡◌, ℕ, ◌+◌, ◌≤◌, arith, true, false, none,
  some, List, [], ◌∷◌, Bytes, codes, str_eq, if◌then◌else◌,
}
use chos.Command.{
  line_size, behhead, fill_env, set_env, beh_lines, set_beh, environment, kept, put_var, terminate,
  defpath, envhead, Shell, count_vars, assignment,
}

-- The entries for the variables of a section: PATH has its default, others their values, and those
-- that are not set are left out.
abbrev pub entries : Shell → List Bytes → List Bytes
entries sh [] = []
entries sh (t ∷ ts) =
    if str_eq t (codes "PATH") then defpath ∷ entries sh ts else elim (sh.getenv t) [
      | none ↦ entries sh ts
      | some value ↦ assignment t value ∷ entries sh ts
    ]

-- As many pointers as there are lines in the section, and one more.
abbrev pub lines_of : List Bytes → List Bytes
lines_of lines = until_section (texts lines)

abbrev pub count_of : List Bytes → ℕ
count_of [] = 0
count_of (t ∷ ts) = 1 + count_of ts

count_vars-in_section :
    (count : ℕ) (lines : List Bytes)
    → count + count_of (lines_of lines) ≤ count_vars true count lines
unfolding count_vars
count_vars-in_section count [] = omega arith
count_vars-in_section count (line ∷ lines) =
    ground (arith, count_vars-in_section count lines, count_vars-in_section (count + 1) lines)

pub count_vars-section :
    (count : ℕ) (lines : List Bytes)
    → count + count_of (section envhead lines) ≤ count_vars false count lines
unfolding count_vars
count_vars-section count [] = omega arith
count_vars-section count (line ∷ lines) =
    ground (arith, count_vars-section count lines, count_vars-in_section count lines)

-- Every malloc succeeds.
pub record HasMemory (sh : Shell) : Type 0 where
  pub array : sh.array ≡ true
  pub room : (entry : Bytes) → sh.room entry ≡ true

put_var-entries :
    (sh : Shell) (size count : ℕ) (name : Bytes) (env : List Bytes)
    → HasMemory sh
    → length env < size
    → size ≤ count
    → put_var sh size count name env ≡ kept (env ++ entries sh (name ∷ []))
unfolding put_var
put_var-entries sh size count name env mem h k = elim (Bool-cases (str_eq name (codes "PATH"))) [
  | inl hit ↦ ground (arith, hit)
  | inr miss ↦ elim (Option-cases (sh.getenv name)) [
    | inl e ↦ rw (miss, e) (ap kept (sym (append-nil env)))
    | inr (value, e) ↦ rw (miss, e) (ground (arith, mem.room (assignment name value)))
  ]
]

entries-cons :
    (sh : Shell) (name : Bytes) (ts : List Bytes)
    → entries sh (name ∷ ts) ≡ entries sh (name ∷ []) ++ entries sh ts
entries-cons sh name ts = elim (Bool-cases (str_eq name (codes "PATH"))) [
  | inl hit ↦ rw hit refl
  | inr miss ↦ elim (Option-cases (sh.getenv name)) [
    | inl e ↦ rw (miss, e) refl
    | inr (value, e) ↦ rw (miss, e) refl
  ]
]

length-entries : (sh : Shell) (name : Bytes) → length (entries sh (name ∷ [])) ≤ 1
length-entries sh name = ground arith

terminate-environment :
    (size count : ℕ) (env : List Bytes)
    → length env < size
    → size ≤ count
    → terminate size count env ≡ environment env
unfolding terminate
terminate-environment size count env h k = ground arith

fill_env-more :
    (sh : Shell) (size count : ℕ) (env : List Bytes) (line : Bytes) (lines ts : List Bytes)
    → HasMemory sh
    → length env < size
    → size ≤ count
    → is_skipped line ≡ false
    → (head_or 0 (until_end line) == b'%') ≡ false
    → fill_env sh size true (count + 1) (env ++ entries sh (until_end line ∷ [])) lines
      ≡ environment ((env ++ entries sh (until_end line ∷ [])) ++ entries sh ts)
    → fill_env sh size true count env (line ∷ lines)
      ≡ environment (env ++ entries sh (until_end line ∷ ts))
unfolding fill_env
fill_env-more sh size count env line lines ts mem h k counts more later =
    let name = until_end line in
    let one = put_var-entries sh size (count + 1) name env mem h (omega arith) in
    let all : (env ++ entries sh (name ∷ [])) ++ entries sh ts ≡ env ++ entries sh (name ∷ ts) =
      append_assoc env (entries sh (name ∷ [])) (entries sh ts)
      ∙ ap (◌++◌ env) (sym (entries-cons sh name ts)) in
    rw (counts, more, fill_env, one) (later ∙ ap environment all)

fill_env-in_section :
    (sh : Shell) (size count : ℕ) (env lines : List Bytes)
    → HasMemory sh
    → length env + count_of (lines_of lines) < size
    → size ≤ count
    → fill_env sh size true count env lines ≡ environment (env ++ entries sh (lines_of lines))
unfolding fill_env
fill_env-in_section sh size count env [] mem h k =
    terminate-environment size count env (omega arith) k ∙ ap environment (sym (append-nil env))
fill_env-in_section sh size count env (line ∷ lines) mem h k = elim (Bool-cases (is_skipped line)) [
  | inl skipped ↦
      rw (skipped, fill_env, fill_env-in_section sh size count env lines mem (ground arith) k) refl
  | inr counts ↦ elim (Bool-cases (head_or 0 (until_end line) == b'%')) [
    | inl end ↦
        rw
          (
            counts,
            end,
            fill_env,
            terminate-environment size (count + 1) env (omega arith) (omega arith),
          )
          (ap environment (sym (append-nil env)))
    | inr more ↦
        let env' = env ++ entries sh (until_end line ∷ []) in
        let len : length env + (1 + count_of (lines_of lines)) < size = ground arith in
        let room : length env' + count_of (lines_of lines) < size = omega (
          arith,
          length-append env (entries sh (until_end line ∷ [])),
          length-entries sh (until_end line),
        ) in
        rw (counts, more)
          (fill_env-more sh size count env line lines (lines_of lines) mem (omega arith) k counts
            more (fill_env-in_section sh size (count + 1) env' lines mem room (omega arith)))
  ]
]

fill_env-section :
    (sh : Shell) (size count : ℕ) (lines : List Bytes)
    → HasMemory sh
    → count_of (section envhead lines) < size
    → size ≤ count
    → fill_env sh size false count [] lines ≡ environment (entries sh (section envhead lines))
unfolding fill_env
fill_env-section sh size count [] mem h k = terminate-environment size count [] h k
fill_env-section sh size count (line ∷ lines) mem h k = ground (
  arith,
  fill_env-section sh size count lines mem,
  fill_env-in_section sh size count [] lines mem,
)

-- If the file opens and every malloc succeeds, set_env never writes behind the array whose size it
-- counted before, and builds just the entries that the section %ENV asks for: the default PATH, and
-- the value of each other variable that is set.
pub set_env-entries :
    (sh : Shell) (bytes : Bytes)
    → HasMemory sh
    → sh.conf ≡ some bytes
    → set_env sh ≡ environment (entries sh (section envhead (read_lines line_size bytes)))
unfolding set_env
set_env-entries sh bytes mem e =
    let lines = read_lines line_size bytes in
    let size : ℕ = count_vars false 1 lines in
    rw (e, mem.array, set_env)
      (fill_env-section sh size size lines mem (omega (arith, count_vars-section 1 lines))
        (omega arith))

abbrev pub asks : List Bytes → Bool
asks [] = false
asks (t ∷ ts) = str_eq t (codes "BASHLOGIN") || asks ts

beh_lines-in_section :
    (dobashlog : Bool) (lines : List Bytes)
    → beh_lines true dobashlog lines ≡ (dobashlog || asks (lines_of lines))
unfolding beh_lines
beh_lines-in_section dobashlog [] = ground arith
beh_lines-in_section dobashlog (line ∷ lines) =
    ground (arith, beh_lines-in_section dobashlog lines, beh_lines-in_section true lines)

beh_lines-section :
    (lines : List Bytes) → beh_lines false false lines ≡ asks (section behhead lines)
unfolding beh_lines
beh_lines-section [] = refl
beh_lines-section (line ∷ lines) =
    ground (arith, beh_lines-section lines, beh_lines-in_section false lines)

-- set_beh asks for a login shell exactly if the file opens and its section %BEH has a line
-- BASHLOGIN.
set_beh-section :
    (conf : Option Bytes)
    → set_beh conf ≡ elim conf [
      | none ↦ false
      | some bytes ↦ asks (section behhead (read_lines line_size bytes))
    ]
unfolding set_beh
set_beh-section none = refl
set_beh-section (some bytes) = beh_lines-section (read_lines line_size bytes)
