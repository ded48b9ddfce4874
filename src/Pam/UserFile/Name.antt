-- ===== src/Pam/UserFile/Name.antt =====
-- The names that read_chos_file gives.
use chos.Text.{until_end}
use chos.Pam.Args.{maxline, max_len}
use chos.Pam.Sanitize.Cleans.{Cleans, Cleans-unique, sanitize_loop-Cleans}
use chos.Pam.Sanitize.Clean.{sanitize_str-AllValid, AllValid}
use chos.Pam.Sanitize.{sanitize_name, sanitize_loop, sanitize_str}
use chos.Pam.UserFile.{
  not_opened, user_path, default_env_name, opened, clean_name, Opened, read_opened, read_chos_file,
  name_or_default,
}
use chos.Prelude.{
  ◌∙◌, ◌∙◌, [], ◌∷◌, ltb, Option, Bool, take, length, inr, inl, sym, Bool-cases, ◌==◌, subst,
  length-append, zero, none, ap, if◌then◌else◌, ◌≤◌, not, suc, false, some, arith, refl, true, ◌<◌,
  Bytes, ℕ, ◌≡◌,
}

length-until_end : (bs : Bytes) → length (until_end bs) ≤ length bs
length-until_end [] = omega arith
length-until_end (c ∷ cs) = ground (arith, length-until_end cs)

length-take_le : (n : ℕ) (xs : Bytes) → length (take n xs) ≤ n
length-take_le zero xs = omega arith
length-take_le (suc n) [] = omega arith
length-take_le (suc n) (x ∷ xs) = omega (arith, length-take_le n xs)

pub take_all : (xs : Bytes) → take (length xs) xs ≡ xs
take_all [] = refl
take_all (x ∷ xs) = ap (◌∷◌ x) (take_all xs)

length-sanitize_loop :
    (p : Bool) (n : ℕ) (s : Bytes) (b : Bool) → length (sanitize_loop p n s b).0 ≡ length s
unfolding sanitize_loop
length-sanitize_loop p zero s b = refl
length-sanitize_loop p (suc n) [] b = refl
length-sanitize_loop p (suc n) (c ∷ cs) b = ap suc (length-sanitize_loop p n cs _)

-- A whole string, sanitized: all of it is valid, and it is as long as before.
pub sanitized_whole :
    (s : Bytes) (p : Bool)
    → AllValid p (sanitize_str s (length s) p).0
      × (length (sanitize_str s (length s) p).0 ≡ length s)
unfolding sanitize_str
sanitized_whole s p =
    let r = (sanitize_loop p (length s) s true).0 in
    let len : length r ≡ length s = length-sanitize_loop p (length s) s true in
    let valid : AllValid p (take (length s) r) =
      unfold sanitize_str in (sanitize_str-AllValid s (length s) p).0 in
    (subst (AllValid p) (take_all r) (subst (λ n. AllValid p (take n r)) (sym len) valid), len)

-- A name that read_chos_file or $CHOS may give: valid characters only, and at most MAXLINE.
pub record IsName (name : Bytes) : Type 0 where
  pub valid : AllValid false name
  pub fits : length name ≤ maxline

clean_name-IsName : (osenv : Bytes) → length osenv ≤ maxline → IsName (clean_name osenv)
unfolding clean_name sanitize_name
clean_name-IsName osenv h =
    let (valid, len) = sanitized_whole (until_end osenv) false in
    record { valid = valid; fits = omega (arith, len, length-until_end osenv) }

name_or_default-IsName : (osenv : Bytes) → length osenv ≤ maxline → IsName (name_or_default osenv).1
unfolding name_or_default
name_or_default-IsName osenv h = elim (Bool-cases (length osenv == 0)) [
  | inl empty ↦ rw empty (clean_name-IsName default_env_name (omega arith))
  | inr bytes ↦ rw bytes (clean_name-IsName osenv h)
]

-- The environment that the file names: the default if it cannot be read or is empty.
abbrev pub file_name : Opened → Bytes
file_name (opened none closes) = default_env_name
file_name (opened (some bytes) closes) =
    if length (take maxline bytes) == 0 then default_env_name else clean_name (take maxline bytes)
file_name (not_opened errno) = default_env_name

-- close failed
abbrev pub close_fails : Opened → Bool
close_fails (opened r closes) = not closes
close_fails (not_opened errno) = false

abbrev pub opened_at : (Bytes → Opened) → Bytes → Bytes → Opened
opened_at open_file user_conf_file dir = open_file (take max_len (user_path dir user_conf_file))

abbrev pub Reads : Opened → Option (ℕ × Bytes) → Type 0
Reads o none = close_fails o ≡ true
Reads o (some (count, name)) =
    (close_fails o ≡ false) × (name ≡ file_name o) × IsName name × (0 < count)

default_clean : clean_name default_env_name ≡ default_env_name
unfolding clean_name
default_clean = refl

name_or_default-pos : (osenv : Bytes) → 0 < (name_or_default osenv).0
unfolding name_or_default
name_or_default-pos osenv = ground arith

read_opened-Reads : (o : Opened) → Reads o (read_opened o)
unfolding read_opened
read_opened-Reads (opened none true) = (
  refl,
  unfold name_or_default in default_clean,
  name_or_default-IsName [] (omega arith),
  name_or_default-pos [],
)
read_opened-Reads (opened none false) = refl
read_opened-Reads (opened (some bytes) true) = (
  refl,
  unfold name_or_default in ground (arith, default_clean),
  name_or_default-IsName (take maxline bytes) (length-take_le maxline bytes),
  name_or_default-pos (take maxline bytes),
)
read_opened-Reads (opened (some bytes) false) = refl
read_opened-Reads (not_opened errno) = (
  refl,
  unfold name_or_default in default_clean,
  name_or_default-IsName [] (omega arith),
  name_or_default-pos [],
)

length-append-le :
    (dir file : Bytes) → (0 < length (user_path dir file)) × (length (user_path dir file) < 257)
length-append-le dir file = (
  omega (arith, length-append (take 100 dir) (b'/' ∷ take 20 file)),
  omega (
    arith,
    length-append (take 100 dir) (b'/' ∷ take 20 file),
    length-take_le 100 dir,
    length-take_le 20 file,
  ),
)

-- The result by the functions above.
pub read_chos_file-Reads :
    (open_file : Bytes → Opened) (user_conf_file dir : Bytes)
    → Reads (opened_at open_file user_conf_file dir) (read_chos_file open_file user_conf_file dir)
unfolding read_chos_file
read_chos_file-Reads open_file user_conf_file dir =
    let (low, high) = length-append-le dir user_conf_file in
    let a : ltb (length (user_path dir user_conf_file)) 1 ≡ false = ground arith in
    let b : ltb 257 (length (user_path dir user_conf_file)) ≡ false = ground arith in
    rw (a, b) (read_opened-Reads (opened_at open_file user_conf_file dir))

-- The name that the file gives.
abbrev pub Names : Opened → Bytes → Type 0
Names (opened none closes) name = (name ≡ default_env_name)
Names (opened (some []) closes) name = (name ≡ default_env_name)
Names (opened (some (c ∷ cs)) closes) name = Cleans (take maxline (c ∷ cs)) name
Names (not_opened errno) name = (name ≡ default_env_name)

clean_name-Cleans : (raw : Bytes) → Cleans raw (clean_name raw)
unfolding clean_name sanitize_name sanitize_str
clean_name-Cleans raw = sanitize_loop-Cleans raw true

not_empty : (c : ℕ) (cs : Bytes) → (length (take maxline (c ∷ cs)) == 0) ≡ false
not_empty c cs = ground arith

file_name-Names : (o : Opened) → Names o (file_name o)
file_name-Names (opened none closes) = refl
file_name-Names (opened (some []) closes) = refl
file_name-Names (opened (some (c ∷ cs)) closes) =
    rw (not_empty c cs) (clean_name-Cleans (take maxline (c ∷ cs)))
file_name-Names (not_opened errno) = refl

pub Names-unique : (o : Opened) {name : Bytes} → Names o name → name ≡ file_name o
Names-unique (opened none closes) h = h
Names-unique (opened (some []) closes) h = h
Names-unique (opened (some (c ∷ cs)) closes) h =
    rw (not_empty c cs)
      (sym (Cleans-unique true h) ∙ Cleans-unique true (clean_name-Cleans (take maxline (c ∷ cs))))
Names-unique (not_opened errno) h = h

-- The result of read_chos_file, by what the file holds.
abbrev pub NamesFrom : Opened → Option (ℕ × Bytes) → Type 0
NamesFrom o none = close_fails o ≡ true
NamesFrom o (some (count, name)) =
    (close_fails o ≡ false) × Names o name × IsName name × (0 < count)

Reads-NamesFrom : (o : Opened) (r : Option (ℕ × Bytes)) → Reads o r → NamesFrom o r
Reads-NamesFrom o none h = h
Reads-NamesFrom o (some (count, name)) h =
    (h.0, subst (Names o) (sym h.1) (file_name-Names o), h.2, h.3)

-- read_chos_file fails exactly when the file was opened and close fails. Otherwise the name is the
-- default if the file cannot be opened or read or is empty; else it is what the first 80 bytes of
-- the file say before the first newline or 0, with '_' for every character but digits, letters,
-- '-', '.' and '_' (so it is empty for a file that begins with a newline); it fits the buffer, and
-- the count is positive.
pub read_chos_file-Names :
    (open_file : Bytes → Opened) (user_conf_file dir : Bytes)
    → NamesFrom
        (opened_at open_file user_conf_file dir)
        (read_chos_file open_file user_conf_file dir)
read_chos_file-Names open_file user_conf_file dir =
    Reads-NamesFrom (opened_at open_file user_conf_file dir) _
      (read_chos_file-Reads open_file user_conf_file dir)
