-- ===== src/Pam/Info/Answer.antt =====
-- What the parent reads from the pipe: get_chos_info and retrieve_from_child together.
use chos.Pam.Args.{maxline}
use chos.Pam.Sanitize.Clean.{AllValid}
use chos.Kernel.Buffer.{is_line}
use chos.Pam.Info.{answer, read_line_from_file, received, retrieve_from_child}
use chos.Text.{until_nul, fgets_upto, fgets}
use chos.Pam.Sanitize.{sanitize_str, is_valid_char, sanitize_loop}
use chos.Prelude.{
  some, [], length, Bool, zero, ◌==◌, ◌-◌, suc, refl, ap, arith, ◌∷◌, ◌+◌, false, ◌++◌, ◌<◌, true,
  Bytes, ℕ, ◌≡◌,
}

fgets_upto-line :
    (n : ℕ) (p rest : Bytes)
    → is_line p ≡ true
    → length p < n
    → fgets_upto n (p ++ b'\n' ∷ rest) ≡ (p ++ b'\n' ∷ [], rest)
unfolding fgets_upto
fgets_upto-line zero p rest h k = absurd (omega arith)
fgets_upto-line (suc n) [] rest h k = refl
fgets_upto-line (suc n) (c ∷ cs) rest h k =
    let ne : (c == b'\n') ≡ false = ground arith in
    rw (ne, fgets_upto, fgets_upto-line n cs rest (ground arith) (omega arith)) refl

fgets-line :
    (size : ℕ) (p rest : Bytes)
    → is_line p ≡ true
    → length p + 1 < size
    → fgets size (p ++ b'\n' ∷ rest) ≡ some (p ++ b'\n' ∷ [], rest)
unfolding fgets
fgets-line size [] rest h k = ap some (fgets_upto-line (size - 1) [] rest h (omega arith))
fgets-line size (c ∷ cs) rest h k =
    ap some (fgets_upto-line (size - 1) (c ∷ cs) rest h (omega arith))

sanitize_line :
    (p : Bytes) (is_path : Bool) (b : Bool)
    → AllValid is_path p
    → (sanitize_loop is_path (length (p ++ b'\n' ∷ [])) (p ++ b'\n' ∷ []) b).0 ≡ p ++ 0 ∷ []
unfolding sanitize_loop is_valid_char
sanitize_line [] is_path b h = refl
sanitize_line (c ∷ cs) is_path b h = ground (arith, sanitize_line cs is_path b h.1)

until_nul-line : (p : Bytes) → is_line p ≡ true → until_nul (p ++ 0 ∷ []) ≡ p
until_nul-line [] h = refl
until_nul-line (c ∷ cs) h = ground (arith, until_nul-line cs (ground arith))

received-line :
    (p : Bytes) (is_path : Bool)
    → is_line p ≡ true
    → AllValid is_path p
    → received (p ++ b'\n' ∷ []) is_path ≡ p
unfolding received sanitize_str
received-line p is_path h v = rw (sanitize_line p is_path true v) (until_nul-line p h)

-- For a path and a name that are lines of valid characters with room in the buffers, and an fdopen
-- and fclose that succeed: what the child writes for them, the parent reads back as the same path
-- and the same name.
pub retrieve-answer :
    (path name : Bytes)
    → is_line path ≡ true
    → is_line name ≡ true
    → AllValid true path
    → AllValid false name
    → length path + 1 < maxline
    → length name + 1 < maxline
    → (lines : Bytes × Bytes) × (retrieve_from_child true true (answer path name) ≡ some lines)
      × (received lines.0 true ≡ path)
      × (received lines.1 false ≡ name)
unfolding retrieve_from_child read_line_from_file
retrieve-answer path name lp ln vp vn hp hn = (
  (path ++ b'\n' ∷ [], name ++ b'\n' ∷ []),
  rw (fgets-line maxline path (name ++ b'\n' ∷ []) lp hp, fgets-line maxline name [] ln hn) refl,
  received-line path true lp vp,
  received-line name false ln vn,
)
