-- ===== src/Text.antt =====
-- The functions of the C library on strings and streams that pam_chos/ and utils/ call, on lists of
-- bytes: a string ends at its first 0, a stream is what is left to read.
pub mod Lines
use chos.Prelude.{
  zero, ◌&&◌, ◌||◌, ◌-◌, some, false, ◌==◌, suc, none, true, if◌then◌else◌, length, ◌∷◌, Option, [],
  List, Bool, Bytes, ℕ, ◌≡◌, ◌<◌,
}

-- The string that an array holds.
abbrev pub until_nul : Bytes → Bytes
until_nul [] = []
until_nul (c ∷ cs) = if c == 0 then [] else c ∷ until_nul cs

-- `while(*p!=0 && *p!='\n') p++; *p=0;` on a buffer: what is left of it as a string.
abbrev pub until_end : Bytes → Bytes
until_end [] = []
until_end (c ∷ cs) = if c == 0 || c == b'\n' then [] else c ∷ until_end cs

-- At most `n` bytes, up to and with the first newline; and the rest of the stream.
unfoldable pub fgets_upto : ℕ → Bytes → Bytes × Bytes
fgets_upto zero bs = ([], bs)
fgets_upto (suc n) [] = ([], [])
fgets_upto (suc n) (c ∷ cs) = elim (c == b'\n') [
  | true ↦ (c ∷ [], cs)
  | false ↦ let (line, rest) = fgets_upto n cs in (c ∷ line, rest)
]

-- `fgets(buffer, size, stream)`; `none` is a null result, at the end of the stream.
unfoldable pub fgets : ℕ → Bytes → Option (Bytes × Bytes)
unfolding fgets_upto
fgets size [] = none
fgets size (c ∷ cs) = some (fgets_upto (size - 1) (c ∷ cs))

-- The lines that a loop over fgets gets. Each takes a byte or more, so the length of the stream
-- is enough fuel.
unfoldable pub lines_from : ℕ → ℕ → Bytes → List Bytes
unfolding fgets
lines_from zero size bs = []
lines_from (suc fuel) size bs = elim (fgets size bs) [
  | none ↦ []
  | some (line, rest) ↦ line ∷ lines_from fuel size rest
]

unfoldable pub read_lines : ℕ → Bytes → List Bytes
unfolding lines_from
read_lines size bs = lines_from (length bs) size bs

-- `strncmp(arg, match, strlen(match)) == 0`
abbrev pub starts_with : Bytes → Bytes → Bool
starts_with arg [] = true
starts_with [] (m ∷ ms) = false
starts_with (a ∷ as') (m ∷ ms) = a == m && starts_with as' ms
