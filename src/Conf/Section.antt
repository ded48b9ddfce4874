-- ===== src/Conf/Section.antt =====
-- The meaning of a configuration file: its sections, and the entries of a section.
use chos.Text.{read_lines, until_end}
use chos.Prelude.{
  ◌==◌, refl, [], some, str_eq, head_or, if◌then◌else◌, none, arith, true, false, Option, List,
  Bytes, ℕ, ◌≡◌, ◌∷◌,
}
use chos.Conf.{is_skipped, split_colon, ConfFile, shellhead, check_chos, check_lines}

-- The lines that count, without their newlines.
abbrev pub texts : List Bytes → List Bytes
texts [] = []
texts (line ∷ lines) = if is_skipped line then texts lines else until_end line ∷ texts lines

-- The lines behind the first one that is the header.
abbrev pub after_header : Bytes → List Bytes → List Bytes
after_header header [] = []
after_header header (t ∷ ts) = if str_eq t header then ts else after_header header ts

-- The lines before the next section.
abbrev pub until_section : List Bytes → List Bytes
until_section [] = []
until_section (t ∷ ts) = if head_or 0 t == b'%' then [] else t ∷ until_section ts

abbrev pub section : Bytes → List Bytes → List Bytes
section header lines = until_section (after_header header (texts lines))

-- The path of the first entry with that name; lines with no ':' are no entries.
abbrev pub first_entry : Bytes → List Bytes → Option Bytes
first_entry name [] = none
first_entry name (t ∷ ts) = elim (split_colon t) [
  | none ↦ first_entry name ts
  | some (key, path) ↦ if str_eq key name then some path else first_entry name ts
]

check_lines-in_section :
    (name : Bytes) (lines : List Bytes)
    → check_lines name true lines ≡ first_entry name (until_section (texts lines))
unfolding check_lines
check_lines-in_section name [] = refl
check_lines-in_section name (line ∷ lines) = ground (arith, check_lines-in_section name lines)

check_lines-section :
    (name : Bytes) (lines : List Bytes)
    → check_lines name false lines ≡ first_entry name (section shellhead lines)
unfolding check_lines
check_lines-section name [] = refl
check_lines-section name (line ∷ lines) =
    ground (arith, check_lines-section name lines, check_lines-in_section name lines)

-- check_chos finds what the file means: the path of the first entry of that name in the section
-- %SHELLS, and nothing if the file cannot be opened, fstat fails, or the file is not root's.
pub check_chos-section :
    (size : ℕ) (file : Option ConfFile) (name : Bytes)
    → check_chos size file name ≡ elim file [
      | none ↦ none
      | some f ↦ elim f.owner [
        | none ↦ none
        | some uid ↦
            if uid == 0
            then first_entry name (section shellhead (read_lines size f.bytes))
            else none
      ]
    ]
unfolding check_chos
check_chos-section size none name = refl
check_chos-section size (some f) name =
    ground (arith, check_lines-section name (read_lines size f.bytes))
