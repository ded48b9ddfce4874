-- ===== src/Kernel/Paths/Reload.antt =====
-- Writing the list that /proc/chos/valid prints back to it.
use chos.Kernel.Buffer.Scan.{slice-bytes_at, scan_line, text_length-longest}
use chos.Kernel.State.Returns.{returns, Returns}
use chos.Kernel.Paths.Accepted.{reset_loop-nil, is_root}
use chos.Kernel.State.{null, ◌>>◌, ok, Cmd, State, Ptr, ValidPath, Machine}
use chos.Kernel.Paths.{print_valid, write_valid}
use chos.Prelude.{
  [], ◌∷◌, true, false, List, Bool, All-append, inr, zero, refl, inl, append_assoc, ◌∙◌, ◌+◌, sym,
  arith, Bool-cases, append-nil, map, ap, ◌≢◌, All, ◌++◌, suc, ◌==◌, Bytes, length, ℕ, ◌≡◌,
}
use chos.Kernel.Buffer.{written, is_line, slice, text_length, bytes_at, CopiesAll, Write}

abbrev starts_with_dash : Bytes → Bool
starts_with_dash [] = false
starts_with_dash (c ∷ cs) = c == b'-'

-- A stored path is one line that does not begin with '-', and its length is right.
pub record IsClean (v : ValidPath) : Type 0 where
  pub line : is_line v.path ≡ true
  pub no_dash : starts_with_dash v.path ≡ false
  pub length_is : v.length ≡ length v.path

length-slice : (buf : ℕ → ℕ) (i n : ℕ) → length (slice buf i n) ≡ n
length-slice buf i zero = refl
length-slice buf i (suc n) = ap suc (length-slice buf (i + 1) n)

taken-IsClean :
    (w : Write)
    → CopiesAll w
    → (w.buf 0 == b'-') ≡ false
    → IsClean (record { path = w.copy w.buf (text_length w); length = text_length w })
taken-IsClean w all dash = record {
  line = rw (all (text_length w)) (text_length-longest w).1;
  no_dash = rw (all (text_length w)) (first (text_length w));
  length_is = rw (all (text_length w)) (sym (length-slice w.buf 0 (text_length w)));
}
  where
    first : (n : ℕ) → starts_with_dash (slice w.buf 0 n) ≡ false
    first zero = refl
    first (suc n) = dash

-- Every write keeps the stored paths clean.
write_valid-IsClean :
    (m : Machine) (w : Write) (s : State)
    → CopiesAll w
    → All IsClean s.valid_paths
    → Returns (λ _ s'. All IsClean s'.valid_paths) (write_valid m w s)
unfolding write_valid
write_valid-IsClean m w s all h = elim (Bool-cases (is_root m s)) [
  | inl root ↦ elim (Bool-cases (w.buf 0 == b'-')) [
    | inl dash ↦ rw (root, dash) (returns (rw (reset_loop-nil s.valid_paths) tt))
    | inr other ↦ elim (Bool-cases (w.text == null)) [
      | inl no_text ↦ rw (root, other, no_text) (returns h)
      | inr text ↦ elim (Bool-cases (w.object == null)) [
        | inl no_object ↦ rw (root, other, text, no_object) (returns h)
        | inr object ↦
            rw (root, other, text, object)
              (returns (All-append IsClean s.valid_paths _ h (taken-IsClean w all other, tt)))
      ]
    ]
  ]
  | inr user ↦ rw user (returns h)
]

-- The lines of a text; what follows the last newline is dropped.
split_lines_from : Bytes → Bytes → List Bytes
split_lines_from line [] = []
split_lines_from line (c ∷ cs) = elim (c == b'\n') [
  | true ↦ line ∷ split_lines_from [] cs
  | false ↦ split_lines_from (line ++ c ∷ []) cs
]

pub split_lines : Bytes → List Bytes
unfolding split_lines_from
split_lines = split_lines_from []

split_lines_from-line :
    (line p rest : Bytes)
    → is_line p ≡ true
    → split_lines_from line (p ++ b'\n' ∷ rest) ≡ (line ++ p) ∷ split_lines_from [] rest
unfolding split_lines_from
split_lines_from-line line [] rest h = rw append-nil refl
split_lines_from-line line (c ∷ p) rest h =
    let ne : (c == b'\n') ≡ false = ground arith in
    let rec = split_lines_from-line (line ++ c ∷ []) p rest (ground arith) in
    rw (ne, split_lines_from)
      (rec ∙ ap (λ x. x ∷ split_lines_from [] rest) (append_assoc line (c ∷ []) p))

split_lines-print_valid :
    (vs : List ValidPath) → All IsClean vs → split_lines (print_valid vs) ≡ map (λ v. v.path) vs
unfolding split_lines print_valid split_lines_from
split_lines-print_valid [] h = refl
split_lines-print_valid (v ∷ vs) h =
    split_lines_from-line [] v.path (print_valid vs) h.0.line
    ∙ ap (◌∷◌ v.path) (split_lines-print_valid vs h.1)

-- One line, written with its newline by `echo`, and copied whole.
abbrev pub line_write : Ptr → Ptr → Bytes → Write
line_write text object p = record {
  buf = bytes_at (p ++ b'\n' ∷ []);
  count = suc (length p);
  text = text;
  object = object;
  copy = λ buf n. slice buf 0 n;
}

-- The lines written back, one after the other.
pub write_lines : Machine → Ptr → Ptr → List Bytes → Cmd (Unit {0})
unfolding write_valid
write_lines m text object [] s = ok tt s
write_lines m text object (p ∷ ps) s =
    (write_valid m (line_write text object p) >> write_lines m text object ps) s

write_valid-line :
    (m : Machine) (text object : Ptr) (v : ValidPath) (s : State)
    → is_root m s ≡ true
    → text ≢ null
    → object ≢ null
    → IsClean v
    → write_valid m (line_write text object v.path) s
      ≡ ok (written (suc (length v.path))) (record s { valid_paths = s.valid_paths ++ v ∷ [] })
unfolding write_valid text_length
write_valid-line m text object v s root nt nobj c =
    let dash : (bytes_at (v.path ++ b'\n' ∷ []) 0 == b'-') ≡ false = first v.path c.no_dash in
    let nt' : (text == null) ≡ false = ground arith in
    let nobj' : (object == null) ≡ false = ground arith in
    rw
      (
        root,
        dash,
        nt',
        nobj',
        scan_line v.path c.line,
        slice-bytes_at v.path (b'\n' ∷ []),
        ← c.length_is,
      )
      refl
  where
    first :
        (p : Bytes) → starts_with_dash p ≡ false → (bytes_at (p ++ b'\n' ∷ []) 0 == b'-') ≡ false
    first [] h = refl
    first (x ∷ xs) h = h

write_lines-append :
    (m : Machine) (text object : Ptr) (vs : List ValidPath) (s : State)
    → is_root m s ≡ true
    → text ≢ null
    → object ≢ null
    → All IsClean vs
    → write_lines m text object (map (λ v. v.path) vs) s
      ≡ ok tt (record s { valid_paths = s.valid_paths ++ vs })
unfolding write_lines
write_lines-append m text object [] s root nt nobj h = rw append-nil refl
write_lines-append m text object (v ∷ vs) s root nt nobj h =
    rw (write_valid-line m text object v s root nt nobj h.0) (
      write_lines-append m text object vs _ root nt nobj h.1
      ∙ ap (λ x. ok tt (record s { valid_paths = x })) (append_assoc s.valid_paths (v ∷ []) vs))

-- If the caller is root, kmalloc succeeds, and every stored path is a line that does not start with
-- '-' and has its length stored with it: the lines that print_valid prints, written back to an
-- empty list, give the same list, lengths included, and change nothing else.
pub write_lines-print_valid :
    (m : Machine) (text object : Ptr) (s : State)
    → is_root m s ≡ true
    → text ≢ null
    → object ≢ null
    → All IsClean s.valid_paths
    → write_lines m text object
        (split_lines (print_valid s.valid_paths))
        (record s { valid_paths = [] })
      ≡ ok tt s
write_lines-print_valid m text object s root nt nobj h =
    rw (split_lines-print_valid s.valid_paths h) (
      write_lines-append m text object s.valid_paths (record s { valid_paths = [] }) root nt nobj h)
