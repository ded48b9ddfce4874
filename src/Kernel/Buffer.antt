-- ===== src/Kernel/Buffer.antt =====
-- The buffer of a write to a file under /proc/chos, and what the module takes from it:
-- the loops of write_setchos and write_valid in kernel/chos_lkm.c.
pub mod Scan
use chos.Prelude.{
  ◌&&◌, not, zero, ◌+◌, ◌∷◌, ◌||◌, [], ◌==◌, if◌then◌else◌, true, suc, Bytes, Bool, ℕ, ◌≡◌,
}
use chos.Kernel.State.{Ptr}

-- The arguments `buf` and `count`, with what the kernel does for the call: the addresses that
-- kmalloc returns for the text and for the object that holds it, and the C string that
-- __copy_from_user leaves in the text, of which the byte behind the copy is set to 0.
pub record Write : Type 0 where
  pub buf : ℕ → ℕ
  pub count : ℕ
  pub text : Ptr
  pub object : Ptr
  pub copy : (ℕ → ℕ) → ℕ → Bytes

-- What a write handler returns: a number of bytes, or a negated error number.
pub data Ssize : Type 0 where
  written : ℕ → Ssize
  errno : ℕ → Ssize

abbrev pub eperm : ℕ
eperm = 1

abbrev pub enoent : ℕ
enoent = 2

abbrev pub enomem : ℕ
enomem = 12

abbrev pub ends_text : ℕ → Bool
ends_text c = c == b'\n' || c == 0

-- `while (i<(count) && buf[i]!='\n' && buf[i]!=0) i++;` with `n` bytes left.
unfoldable pub scan : (ℕ → ℕ) → ℕ → ℕ → ℕ
scan buf zero i = i
scan buf (suc n) i = if ends_text (buf i) then i else scan buf n (i + 1)

unfoldable pub text_length : Write → ℕ
unfolding scan
text_length w = scan w.buf w.count 0

-- The bytes `buf[i]` to `buf[i + n - 1]`.
abbrev pub slice : (ℕ → ℕ) → ℕ → ℕ → Bytes
slice buf i zero = []
slice buf i (suc n) = buf i ∷ slice buf (i + 1) n

-- A complete copy: __copy_from_user returned 0.
abbrev pub CopiesAll : Write → Type 0
CopiesAll w = (n : ℕ) → w.copy w.buf n ≡ slice w.buf 0 n

-- A text of one line: no newline and no terminator in it.
abbrev pub is_line : Bytes → Bool
is_line [] = true
is_line (c ∷ cs) = not (ends_text c) && is_line cs

-- The bytes that a user writes, with zeros behind them.
abbrev pub bytes_at : Bytes → ℕ → ℕ
bytes_at [] i = 0
bytes_at (c ∷ cs) zero = c
bytes_at (c ∷ cs) (suc i) = bytes_at cs i
