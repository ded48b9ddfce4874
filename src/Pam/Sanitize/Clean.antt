-- ===== src/Pam/Sanitize/Clean.antt =====
-- What the sanitize functions leave.
use chos.Prelude.{
  inr, inl, ltb, Bool-cases, if◌then◌else◌, [], ◌&&◌, zero, leb, refl, arith, drop, suc, ◌||◌, ◌==◌,
  true, All, take, false, Bool, Bytes, ℕ, ◌≡◌, ◌∷◌,
}
use chos.Pam.Sanitize.{sanitize_str, is_valid_char, sanitize_loop}

-- The characters that the comment in is_valid_char lists, and the terminator.
abbrev pub is_listed : ℕ → Bool
is_listed c =
    c == 0
    || (c == b'-'
        || (c == b'.'
            || (c == b'_'
                || (leb b'0' c && leb c b'9'
                    || (leb b'a' c && leb c b'z' || leb b'A' c && leb c b'Z')))))

-- In names exactly the listed characters are valid; in paths every ASCII character from '/' on is
-- valid besides.
pub is_valid_char-listed :
    (c : ℕ)
    → (is_valid_char c false ≡ is_listed c)
      × (is_valid_char c true ≡ (is_listed c || (leb b'/' c && ltb c 128)))
unfolding is_valid_char
is_valid_char-listed c = ground arith

abbrev pub AllValid : Bool → Bytes → Type 0
AllValid is_path = All (λ c. is_valid_char c is_path ≡ true)

abbrev pub clean_of : Bytes × Bool → Bytes
clean_of r = r.0

underscore : (is_path : Bool) → is_valid_char b'_' is_path ≡ true
unfolding is_valid_char
underscore true = refl
underscore false = refl

valid_newline : (c : ℕ) (is_path : Bool) → is_valid_char c is_path ≡ true → (c == b'\n') ≡ false
unfolding is_valid_char
valid_newline c is_path h = ground arith

pub valid_percent : (c : ℕ) (is_path : Bool) → is_valid_char c is_path ≡ true → (c == b'%') ≡ false
unfolding is_valid_char
valid_percent c is_path h = ground arith

sanitize_loop-AllValid :
    (is_path : Bool) (n : ℕ) (s : Bytes) (b : Bool)
    → AllValid is_path (take n (sanitize_loop is_path n s b).0)
      × (drop n (sanitize_loop is_path n s b).0 ≡ drop n s)
unfolding sanitize_loop
sanitize_loop-AllValid is_path zero s b = (tt, refl)
sanitize_loop-AllValid is_path (suc n) [] b = (tt, refl)
sanitize_loop-AllValid is_path (suc n) (c ∷ cs) b =
    let d : ℕ = if c == b'\n' then 0 else c in
    let ih = sanitize_loop-AllValid is_path n cs (b && is_valid_char d is_path) in
    elim (Bool-cases (is_valid_char d is_path)) [
      | inl valid ↦ ((ground arith, ih.0), ih.1)
      | inr bad ↦ ((ground (arith, underscore is_path), ih.0), ih.1)
    ]

sanitize_loop-valid :
    (is_path : Bool) (n : ℕ) (s : Bytes) (b : Bool)
    → AllValid is_path (take n s)
    → sanitize_loop is_path n s b ≡ (s, b)
unfolding sanitize_loop
sanitize_loop-valid is_path zero s b h = refl
sanitize_loop-valid is_path (suc n) [] b h = refl
sanitize_loop-valid is_path (suc n) (c ∷ cs) b h =
    ground (arith, valid_newline c is_path h.0, sanitize_loop-valid is_path n cs b h.1)

-- sanitize_str makes every one of the first `n` bytes valid, which leaves no '%' and no newline
-- there, touches no byte behind them, and on its own result changes nothing and reports it clean.
pub sanitize_str-AllValid :
    (s : Bytes) (n : ℕ) (is_path : Bool)
    → AllValid is_path (take n (sanitize_str s n is_path).0)
      × All
          (λ c. ((c == b'%') ≡ false) × ((c == b'\n') ≡ false))
          (take n (sanitize_str s n is_path).0)
      × (drop n (sanitize_str s n is_path).0 ≡ drop n s)
      × (sanitize_str (sanitize_str s n is_path).0 n is_path ≡ ((sanitize_str s n is_path).0, true))
unfolding sanitize_str
sanitize_str-AllValid s n is_path =
    let (valid, rest) = sanitize_loop-AllValid is_path n s true in
    (valid, plain _ valid, rest, sanitize_loop-valid is_path n _ true valid)
  where
    plain :
        (t : Bytes)
        → AllValid is_path t
        → All (λ c. ((c == b'%') ≡ false) × ((c == b'\n') ≡ false)) t
    plain [] h = tt
    plain (c ∷ cs) h = ((valid_percent c is_path h.0, valid_newline c is_path h.0), plain cs h.1)

-- A string whose first `n` bytes are valid is left alone, and reported clean.
pub sanitize_str-valid :
    (s : Bytes) (n : ℕ) (is_path : Bool)
    → AllValid is_path (take n s)
    → sanitize_str s n is_path ≡ (s, true)
unfolding sanitize_str
sanitize_str-valid s n is_path h = sanitize_loop-valid is_path n s true h
