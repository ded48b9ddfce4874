-- ===== src/Pam/Args/Config.antt =====
-- The configuration that the arguments give.
use chos.Prelude.{
  ap, ◌∙◌, subst, Option-cases, refl, inr, inl, Bool-cases, Option, ◌==◌, head_or, some, not, [],
  zero, suc, ◌||◌, ◌&&◌, drop, if◌then◌else◌, ◌≤◌, take, none, false, Bool, arith, length, true,
  Bytes, List, ℕ, ◌≡◌, ◌∷◌,
}
use chos.Pam.Args.{
  parse_pam_chos_args, switch_fail, copy_max_len, user_conf_arg, max_len, fail_arg, parse_user_conf,
  PamChosConfig, parse_fail, argmatch,
}

-- The file name fits its array with the terminator, and the flag is 0 or 1.
pub record FitsConfig (cfg : PamChosConfig) : Type 0 where
  pub fits : length cfg.user_conf_file ≤ max_len
  pub flag : cfg.fail_to_default ≤ 1

-- An argument that sets the flag to something else than 0 or 1.
abbrev pub is_bad : Bytes → Bool
is_bad arg =
    argmatch arg fail_arg
    && (let val = head_or 0 (drop (length fail_arg) arg) in not (val == b'0' || val == b'1'))

abbrev pub any_bad : List Bytes → Bool
any_bad [] = false
any_bad (arg ∷ args) = is_bad arg || any_bad args

-- The last argument that sets the file name, shortened to its array.
abbrev pub last_user_conf : Bytes → List Bytes → Bytes
last_user_conf name [] = name
last_user_conf name (arg ∷ args) =
    last_user_conf
      (if argmatch arg user_conf_arg then copy_max_len (drop (length user_conf_arg) arg) else name)
      args

-- The flag behind an argument: 1 for a value that begins with '1', 0 for one that begins with '0'.
abbrev pub flag_of : ℕ → Bytes → ℕ
flag_of flag arg =
    if argmatch arg fail_arg
    then (if head_or 0 (drop (length fail_arg) arg) == b'1' then 1 else 0)
    else flag

-- The last argument that sets the flag.
abbrev pub last_flag : ℕ → List Bytes → ℕ
last_flag flag [] = flag
last_flag flag (arg ∷ args) = last_flag (flag_of flag arg) args

length-take_le : (n : ℕ) (xs : Bytes) → length (take n xs) ≤ n
length-take_le zero xs = omega arith
length-take_le (suc n) [] = omega arith
length-take_le (suc n) (x ∷ xs) = omega (arith, length-take_le n xs)

-- The same file name, and the flag `flag`.
abbrev Outcome : PamChosConfig → ℕ → Option PamChosConfig → Type 0
Outcome cfg flag none = ⊥
Outcome cfg flag (some cfg') =
    (cfg'.user_conf_file ≡ cfg.user_conf_file) × (cfg'.fail_to_default ≡ flag)

switch_fail-bad :
    (cfg : PamChosConfig) (val : ℕ)
    → not (val == b'0' || val == b'1') ≡ true
    → switch_fail cfg val ≡ none
unfolding switch_fail
switch_fail-bad cfg val h = ground arith

switch_fail-good :
    (cfg : PamChosConfig) (val : ℕ)
    → not (val == b'0' || val == b'1') ≡ false
    → Outcome cfg (if val == b'1' then 1 else 0) (switch_fail cfg val)
unfolding switch_fail
switch_fail-good cfg val h = ground arith

parse_fail-bad : (cfg : PamChosConfig) (arg : Bytes) → is_bad arg ≡ true → parse_fail cfg arg ≡ none
unfolding parse_fail
parse_fail-bad cfg arg h = elim (Bool-cases (argmatch arg fail_arg)) [
  | inl hit ↦ rw hit (switch_fail-bad cfg (head_or 0 (drop (length fail_arg) arg)) (rw hit at h))
  | inr miss ↦ absurd (absurd_test (rw miss at h))
]
  where
    absurd_test : false ≡ true → ⊥
    absurd_test e = cc

parse_fail-good :
    (cfg : PamChosConfig) (arg : Bytes)
    → is_bad arg ≡ false
    → Outcome cfg (flag_of cfg.fail_to_default arg) (parse_fail cfg arg)
unfolding parse_fail
parse_fail-good cfg arg h = elim (Bool-cases (argmatch arg fail_arg)) [
  | inl hit ↦ rw hit (switch_fail-good cfg (head_or 0 (drop (length fail_arg) arg)) (rw hit at h))
  | inr miss ↦ rw miss (refl, refl)
]

parse_user_conf-Fits :
    (cfg : PamChosConfig) (arg : Bytes) → FitsConfig cfg → FitsConfig (parse_user_conf cfg arg)
unfolding parse_user_conf
parse_user_conf-Fits cfg arg h =
    ground (arith, length-take_le max_len (drop (length user_conf_arg) arg))

parse_user_conf-name :
    (cfg : PamChosConfig) (arg : Bytes)
    → ((parse_user_conf cfg arg).user_conf_file ≡ (
        if argmatch arg user_conf_arg
        then copy_max_len (drop (length user_conf_arg) arg)
        else cfg.user_conf_file))
      × ((parse_user_conf cfg arg).fail_to_default ≡ cfg.fail_to_default)
unfolding parse_user_conf
parse_user_conf-name cfg arg = ground arith

-- The result of parse_pam_chos_args, by what the arguments say.
abbrev pub Parsed : PamChosConfig → List Bytes → Option PamChosConfig → Type 0
Parsed cfg args none = any_bad args ≡ true
Parsed cfg args (some cfg') =
    (any_bad args ≡ false)
    × FitsConfig cfg'
    × (cfg'.user_conf_file ≡ last_user_conf cfg.user_conf_file args)
    × (cfg'.fail_to_default ≡ last_flag cfg.fail_to_default args)

parse_pam_chos_args-none :
    (cfg : PamChosConfig) (arg : Bytes) (args : List Bytes)
    → parse_fail (parse_user_conf cfg arg) arg ≡ none
    → parse_pam_chos_args cfg (arg ∷ args) ≡ none
unfolding parse_pam_chos_args
parse_pam_chos_args-none cfg arg args e = rw (e, parse_pam_chos_args)

parse_pam_chos_args-some :
    (cfg cfg2 : PamChosConfig) (arg : Bytes) (args : List Bytes)
    → parse_fail (parse_user_conf cfg arg) arg ≡ some cfg2
    → parse_pam_chos_args cfg (arg ∷ args) ≡ parse_pam_chos_args cfg2 args
unfolding parse_pam_chos_args
parse_pam_chos_args-some cfg cfg2 arg args e = rw (e, parse_pam_chos_args)

Parsed-cons :
    (cfg cfg2 : PamChosConfig) (arg : Bytes) (args : List Bytes) (o : Option PamChosConfig)
    → is_bad arg ≡ false
    → cfg2.user_conf_file ≡ (
        if argmatch arg user_conf_arg
        then copy_max_len (drop (length user_conf_arg) arg)
        else cfg.user_conf_file)
    → cfg2.fail_to_default ≡ flag_of cfg.fail_to_default arg
    → Parsed cfg2 args o
    → Parsed cfg (arg ∷ args) o
Parsed-cons cfg cfg2 arg args none good same flag h = rw good h
Parsed-cons cfg cfg2 arg args (some c) good same flag h = (
  rw good h.0,
  h.1,
  h.2 ∙ ap (λ n. last_user_conf n args) same,
  h.3 ∙ ap (λ n. last_flag n args) flag,
)

-- From a configuration that fits its array and has the flag 0 or 1, parse_pam_chos_args fails
-- exactly when some value of fail_to_default begins with something else than 0 or 1; otherwise the
-- last file name counts, cut to its array, and the last value of fail_to_default, which sets the
-- flag to 1 if it begins with 1 and to 0 if it begins with 0.
pub parse_pam_chos_args-Parsed :
    (cfg : PamChosConfig) (args : List Bytes)
    → FitsConfig cfg
    → Parsed cfg args (parse_pam_chos_args cfg args)
parse_pam_chos_args-Parsed cfg [] h = unfold parse_pam_chos_args in (refl, h, refl, refl)
parse_pam_chos_args-Parsed cfg (arg ∷ args) h =
    let cfg1 = parse_user_conf cfg arg in
    let h1 = parse_user_conf-Fits cfg arg h in
    let named = (parse_user_conf-name cfg arg).0 in
    let flagged = (parse_user_conf-name cfg arg).1 in
    elim (Bool-cases (is_bad arg)) [
      | inl bad ↦ rw (parse_pam_chos_args-none cfg arg args (parse_fail-bad cfg1 arg bad), bad) refl
      | inr good ↦ elim (Option-cases (parse_fail cfg1 arg)) [
        | inl e ↦ absurd (
            subst (Outcome cfg1 (flag_of cfg1.fail_to_default arg)) e
              (parse_fail-good cfg1 arg good))
        | inr (cfg2, e) ↦
            let out : Outcome cfg1 (flag_of cfg1.fail_to_default arg) (some cfg2) =
              subst (Outcome cfg1 (flag_of cfg1.fail_to_default arg)) e
                (parse_fail-good cfg1 arg good) in
            let h2 : FitsConfig cfg2 = ground (arith, h1, out.0, out.1) in
            let flag = out.1 ∙ ap (λ n. flag_of n arg) flagged in
            let same : cfg2.user_conf_file ≡ (
                if argmatch arg user_conf_arg
                then copy_max_len (drop (length user_conf_arg) arg)
                else cfg.user_conf_file) =
              out.0 ∙ named in
            rw (parse_pam_chos_args-some cfg cfg2 arg args e) (
              Parsed-cons cfg cfg2 arg args (parse_pam_chos_args cfg2 args) good same flag
                (parse_pam_chos_args-Parsed cfg2 args h2))
      ]
    ]
