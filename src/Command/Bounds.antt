-- ===== src/Command/Bounds.antt =====
-- The array of set_env in utils/chos.c.
use chos.Command.Env.{count_of, count_vars-section, lines_of}
use chos.Conf.{is_skipped}
use chos.Conf.Section.{section}
use chos.Text.{read_lines, until_end}
use chos.Prelude.{
  Option-cases, head_or, ℕ, ◌+◌, ◌≤◌, ◌<◌, ◌≡◌, refl, arith, Bool, true, false, Bool-cases, inl,
  inr, List, [], ◌∷◌, Bytes, codes, length, length-append, str_eq, ◌==◌,
}
use chos.Command.{
  assignment, put, defpath, line_size, envhead, Shell, Envp, no_env, environment, overflow,
  undefined, count_vars, Entry, kept, stop, put_var, terminate, fill_env, set_env,
}

abbrev pub overflows : Envp → Bool
overflows no_env = false
overflows (environment env) = false
overflows overflow = true
overflows undefined = false

-- One round keeps room for the rest of the section, or stops without an overflow.
abbrev Fits : ℕ → Entry → Type 0
Fits n (kept env) = length env ≤ n
Fits n (stop result) = overflows result ≡ false

put-Fits :
    (size : ℕ) (entry : Bytes) (env : List Bytes)
    → length env < size
    → Fits (length env + 1) (put size entry env)
put-Fits size entry env h = ground (arith, length-append env (entry ∷ []))

put_var-Fits :
    (sh : Shell) (size count : ℕ) (name : Bytes) (env : List Bytes)
    → length env < size
    → Fits (length env + 1) (put_var sh size count name env)
unfolding put_var
put_var-Fits sh size count name env h = elim (Bool-cases (str_eq name (codes "PATH"))) [
  | inl hit ↦ rw hit (put-Fits size defpath env h)
  | inr miss ↦ elim (Option-cases (sh.getenv name)) [
    | inl e ↦ rw (miss, e) (omega arith)
    | inr (value, e) ↦ rw (miss, e) (ground (arith, put-Fits size (assignment name value) env h))
  ]
]

terminate-overflows :
    (size count : ℕ) (env : List Bytes)
    → length env < size
    → overflows (terminate size count env) ≡ false
unfolding terminate
terminate-overflows size count env h = ground arith

-- The round behind put_var; `rest` is the loop from there on.
fill_env-round :
    (sh : Shell) (size count : ℕ) (env : List Bytes) (line : Bytes) (lines : List Bytes)
    → length env < size
    → is_skipped line ≡ false
    → (head_or 0 (until_end line) == b'%') ≡ false
    → ((env' : List Bytes)
        → length env' ≤ length env + 1
        → overflows (fill_env sh size true (count + 1) env' lines) ≡ false)
    → overflows (fill_env sh size true count env (line ∷ lines)) ≡ false
unfolding fill_env
fill_env-round sh size count env line lines h counts more rest =
    rw (counts, more, fill_env)
      (go (put_var sh size (count + 1) (until_end line) env)
        (put_var-Fits sh size (count + 1) (until_end line) env h))
  where
    go :
        (r : Entry)
        → Fits (length env + 1) r
        → overflows (elim r [
          | kept env' ↦ fill_env sh size true (count + 1) env' lines
          | stop result ↦ result
        ])
          ≡ false
    go (kept env') fits = rest env' fits
    go (stop result) safe = safe

fill_env-overflows :
    (sh : Shell) (size count : ℕ) (env lines : List Bytes)
    → length env + count_of (lines_of lines) < size
    → overflows (fill_env sh size true count env lines) ≡ false
unfolding fill_env
fill_env-overflows sh size count env [] h = terminate-overflows size count env (omega arith)
fill_env-overflows sh size count env (line ∷ lines) h = elim (Bool-cases (is_skipped line)) [
  | inl skipped ↦ rw (skipped, fill_env) (fill_env-overflows sh size count env lines (ground arith))
  | inr counts ↦ elim (Bool-cases (head_or 0 (until_end line) == b'%')) [
    | inl end ↦ rw (counts, end, fill_env) (terminate-overflows size (count + 1) env (omega arith))
    | inr more ↦
        let room : length env + (1 + count_of (lines_of lines)) < size = ground arith in
        fill_env-round sh size count env line lines (omega arith) counts more
          λ env' fits. fill_env-overflows sh size (count + 1) env' lines (omega arith)
  ]
]

fill_env-start :
    (sh : Shell) (size count : ℕ) (lines : List Bytes)
    → count_of (section envhead lines) < size
    → overflows (fill_env sh size false count [] lines) ≡ false
unfolding fill_env
fill_env-start sh size count [] h = terminate-overflows size count [] h
fill_env-start sh size count (line ∷ lines) h =
    ground (arith, fill_env-start sh size count lines, fill_env-overflows sh size count [] lines)

-- Whatever the file says, the environment holds and malloc returns, set_env never writes behind the
-- array whose size its first loop counted.
pub set_env-overflows : (sh : Shell) → overflows (set_env sh) ≡ false
unfolding set_env
set_env-overflows sh = elim (Option-cases sh.conf) [
  | inl e ↦ rw (e, set_env) refl
  | inr (bytes, e) ↦
      let lines = read_lines line_size bytes in
      let size : ℕ = count_vars false 1 lines in
      let safe = fill_env-start sh size size lines (omega (arith, count_vars-section 1 lines)) in
      rw (e, set_env) (ground (arith, safe))
]
