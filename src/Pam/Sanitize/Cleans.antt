-- ===== src/Pam/Sanitize/Cleans.antt =====
-- A string behind sanitize_name, by what the string says.
use chos.Text.{until_end, until_nul}
use chos.Pam.Sanitize.Clean.{is_listed}
use chos.Pam.Sanitize.{is_valid_char, sanitize_loop}
use chos.Prelude.{
  ◌∙◌, ◌∙◌, ◌≢◌, ◌&&◌, [], ◌∷◌, Bool, length, inr, inl, Bool-cases, ◌==◌, zero, ap, if◌then◌else◌,
  suc, false, arith, refl, true, Bytes, ℕ, ◌≡◌,
}

-- What becomes of a string from outside: it ends at the first newline or 0, and every character
-- that the comment in is_valid_char does not list becomes '_'.
pub data Cleans : Bytes → Bytes → Type 0 where
  at_end : Cleans [] []
  at_nul : {cs : Bytes} → Cleans (0 ∷ cs) []
  at_newline : {cs : Bytes} → Cleans (b'\n' ∷ cs) []
  keeps :
      {c : ℕ} {cs ds : Bytes} → c ≢ 0 → is_listed c ≡ true → Cleans cs ds → Cleans (c ∷ cs) (c ∷ ds)
  replaces :
      {c : ℕ} {cs ds : Bytes}
      → c ≢ b'\n'
      → is_listed c ≡ false
      → Cleans cs ds
      → Cleans (c ∷ cs) (b'_' ∷ ds)

-- One character of sanitize_name, whatever the flag is.
char_of : ℕ → ℕ
char_of c = if c == b'\n' then 0 else if is_listed c then c else b'_'

-- The same as the loop has it.
looped : ℕ → ℕ
looped c = let d : ℕ = if c == b'\n' then 0 else c in if is_valid_char d false then d else b'_'

looped_lem : (c : ℕ) → looped c ≡ char_of c
unfolding looped char_of is_valid_char
looped_lem c = ground arith

sanitize_loop-flag :
    (n : ℕ) (s : Bytes) (b d : Bool) → (sanitize_loop false n s b).0 ≡ (sanitize_loop false n s d).0
unfolding sanitize_loop looped
sanitize_loop-flag zero s b d = refl
sanitize_loop-flag (suc n) [] b d = refl
sanitize_loop-flag (suc n) (c ∷ cs) b d =
    let v = is_valid_char (if c == b'\n' then 0 else c) false in
    ap (λ r. looped c ∷ r) (sanitize_loop-flag n cs (b && v) (d && v))

sanitize_loop-cons :
    (c : ℕ) (cs : Bytes) (b : Bool)
    → (sanitize_loop false (suc (length cs)) (c ∷ cs) b).0
      ≡ char_of c ∷ (sanitize_loop false (length cs) cs b).0
unfolding sanitize_loop looped
sanitize_loop-cons c cs b =
    let v = is_valid_char (if c == b'\n' then 0 else c) false in
    ap (λ r. looped c ∷ r) (sanitize_loop-flag (length cs) cs (b && v) b)
    ∙ ap (λ d. d ∷ (sanitize_loop false (length cs) cs b).0) (looped_lem c)

-- The string in an array that sanitize_name has gone through.
pub Cleans-unique :
    {raw name : Bytes} (b : Bool)
    → Cleans raw name
    → until_nul (sanitize_loop false (length raw) raw b).0 ≡ name
unfolding char_of
Cleans-unique b at_end = unfold sanitize_loop in refl
Cleans-unique b (at_nul {cs}) = rw (sanitize_loop-cons 0 cs b) refl
Cleans-unique b (at_newline {cs}) = rw (sanitize_loop-cons b'\n' cs b) refl
Cleans-unique b (keeps {c} {cs} ne h q) =
    rw (sanitize_loop-cons c cs b) (ground (arith, ne, h, Cleans-unique b q))
Cleans-unique b (replaces {c} {cs} ne h q) =
    rw (sanitize_loop-cons c cs b) (ground (arith, ne, h, Cleans-unique b q))

pub sanitize_loop-Cleans :
    (raw : Bytes) (b : Bool)
    → Cleans raw (sanitize_loop false (length (until_end raw)) (until_end raw) b).0
unfolding char_of
sanitize_loop-Cleans [] b = unfold sanitize_loop in at_end
sanitize_loop-Cleans (c ∷ cs) b = elim (Bool-cases (c == 0)) [
  | inl nul ↦ let e : c ≡ 0 = ground (arith, nul) in rw e (unfold sanitize_loop in at_nul)
  | inr not_nul ↦ elim (Bool-cases (c == b'\n')) [
    | inl newline ↦
        let e : c ≡ b'\n' = ground (arith, newline) in rw e (unfold sanitize_loop in at_newline)
    | inr more ↦
        let rest = sanitize_loop-Cleans cs b in
        rw (not_nul, more, sanitize_loop-cons c (until_end cs) b)
          (elim (Bool-cases (is_listed c)) [
            | inl listed ↦ rw (more, listed) (keeps (ground (arith, not_nul)) listed rest)
            | inr other ↦ rw (more, other) (replaces (ground (arith, more)) other rest)
          ])
  ]
]
