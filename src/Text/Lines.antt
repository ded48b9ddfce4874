-- ===== src/Text/Lines.antt =====
-- The lines of a loop over fgets.
use chos.Prelude.{
  refl, zero, ap, ◌∙◌, length-append, inr, sym, inl, ◌==◌, ◌+◌, Bool-cases, ◌-◌, ◌≤◌, [], suc,
  arith, ◌∷◌, ◌++◌, length, All, Bytes, List, ℕ, ◌≡◌, ◌<◌,
}
use chos.Text.{lines_from, read_lines, fgets_upto, fgets}

fgets_upto-append : (n : ℕ) (bs : Bytes) → (fgets_upto n bs).0 ++ (fgets_upto n bs).1 ≡ bs
unfolding fgets_upto
fgets_upto-append zero bs = refl
fgets_upto-append (suc n) [] = refl
fgets_upto-append (suc n) (c ∷ cs) = elim (Bool-cases (c == b'\n')) [
  | inl end ↦ rw (end, fgets_upto) refl
  | inr more ↦ rw (more, fgets_upto) (ap (◌∷◌ c) (fgets_upto-append n cs))
]

fgets_upto-le : (n : ℕ) (bs : Bytes) → length (fgets_upto n bs).0 ≤ n
unfolding fgets_upto
fgets_upto-le zero bs = omega arith
fgets_upto-le (suc n) [] = omega arith
fgets_upto-le (suc n) (c ∷ cs) = elim (Bool-cases (c == b'\n')) [
  | inl end ↦ rw (end, fgets_upto) (omega arith)
  | inr more ↦ rw (more, fgets_upto) (omega (arith, fgets_upto-le n cs))
]

fgets_upto-pos : (n c : ℕ) (cs : Bytes) → 0 < n → 0 < length (fgets_upto n (c ∷ cs)).0
unfolding fgets_upto
fgets_upto-pos zero c cs h = absurd (omega arith)
fgets_upto-pos (suc n) c cs h = elim (Bool-cases (c == b'\n')) [
  | inl end ↦ rw (end, fgets_upto) (omega arith)
  | inr more ↦ rw (more, fgets_upto) (omega arith)
]

pub concat : List Bytes → Bytes
concat [] = []
concat (l ∷ ls) = l ++ concat ls

lines_from-concat :
    (fuel size : ℕ) (bs : Bytes)
    → 1 < size
    → length bs ≤ fuel
    → (concat (lines_from fuel size bs) ≡ bs)
      × All (λ l. (0 < length l) × (length l < size)) (lines_from fuel size bs)
unfolding lines_from fgets concat
lines_from-concat zero size [] h k = (refl, tt)
lines_from-concat zero size (c ∷ cs) h k = absurd (omega arith)
lines_from-concat (suc fuel) size [] h k = (refl, tt)
lines_from-concat (suc fuel) size (c ∷ cs) h k =
    let line = (fgets_upto (size - 1) (c ∷ cs)).0 in
    let rest = (fgets_upto (size - 1) (c ∷ cs)).1 in
    let whole : line ++ rest ≡ c ∷ cs = fgets_upto-append (size - 1) (c ∷ cs) in
    let pos : 0 < length line = fgets_upto-pos (size - 1) c cs (omega arith) in
    let fits : length line < size = omega (arith, fgets_upto-le (size - 1) (c ∷ cs)) in
    let total : length line + length rest ≡ suc (length cs) =
      sym (length-append line rest) ∙ ap length whole in
    let ih = lines_from-concat fuel size rest h (omega arith) in
    (ap (◌++◌ line) ih.0 ∙ whole, ((pos, fits), ih.1))

-- For a buffer of two bytes or more, the lines that the loops over fgets see, put together, are the
-- file; none is empty, and each is shorter than the buffer, so that its terminator fits too.
read_lines-concat :
    (size : ℕ) (bs : Bytes)
    → 1 < size
    → (concat (read_lines size bs) ≡ bs)
      × All (λ l. (0 < length l) × (length l < size)) (read_lines size bs)
unfolding read_lines
read_lines-concat size bs h = lines_from-concat (length bs) size bs h (omega arith)
