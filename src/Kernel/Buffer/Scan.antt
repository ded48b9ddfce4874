-- ===== src/Kernel/Buffer/Scan.antt =====
-- The text of a write.
use chos.Prelude.{
  inr, ◌∙◌, add-zero, refl, zero, ap, inl, [], add-one, Bool-cases, length, true, ◌∷◌, suc, ◌++◌,
  ◌≤◌, ◌+◌, arith, Bytes, ℕ, ◌≡◌, ◌<◌,
}
use chos.Kernel.Buffer.{ends_text, bytes_at, slice, is_line, scan, text_length, Write}

-- `k` bytes from `i` make a line, and the scan of `n` bytes stops behind them.
record Taken (buf : ℕ → ℕ) (n i k : ℕ) : Type 0 where
  stop : scan buf n i ≡ i + k
  bound : k ≤ n
  line : is_line (slice buf i k) ≡ true
  ended : k < n → ends_text (buf (i + k)) ≡ true

scan-Taken : (buf : ℕ → ℕ) (n i : ℕ) → (k : ℕ) × Taken buf n i k
unfolding scan
scan-Taken buf zero i = (
  0,
  record {
    stop = omega arith;
    bound = omega arith;
    line = refl;
    ended = λ h. absurd (omega arith);
  },
)
scan-Taken buf (suc n) i = elim (Bool-cases (ends_text (buf i))) [
  | inl stop ↦ (
    0,
    record { stop = ground arith; bound = omega arith; line = refl; ended = λ h. rw add-zero stop },
  )
  | inr more ↦
      let (k, t) = scan-Taken buf n (i + 1) in
      let shift : i + 1 + k ≡ i + suc k = omega arith in
      (
        suc k,
        record {
          stop = ground (arith, t.stop);
          bound = omega (arith, t.bound);
          line = ground (arith, t.line);
          ended = λ h. rw (← shift) (t.ended (omega arith));
        },
      )
]

-- The text that the scan loop measures stops within the buffer, holds no newline and no 0, and ends
-- at the first of these or at the end of the buffer.
pub text_length-longest :
    (w : Write)
    → (text_length w ≤ w.count)
      × (is_line (slice w.buf 0 (text_length w)) ≡ true)
      × (text_length w < w.count → ends_text (w.buf (text_length w)) ≡ true)
unfolding text_length
text_length-longest w =
    let (k, t) = scan-Taken w.buf w.count 0 in
    let e : scan w.buf w.count 0 ≡ k = omega (arith, t.stop) in
    let z : 0 + k ≡ k = omega arith in rw e (t.bound, t.line, λ h. rw z at (t.ended h))

slice_shift :
    (c : ℕ) (cs : Bytes) (i n : ℕ) → slice (bytes_at (c ∷ cs)) (i + 1) n ≡ slice (bytes_at cs) i n
slice_shift c cs i zero = refl
slice_shift c cs i (suc n) = ground (arith, slice_shift c cs (i + 1) n, bytes_suc i)
  where
    bytes_suc : (j : ℕ) → bytes_at (c ∷ cs) (j + 1) ≡ bytes_at cs j
    bytes_suc j = rw add-one refl

pub slice-bytes_at : (p rest : Bytes) → slice (bytes_at (p ++ rest)) 0 (length p) ≡ p
slice-bytes_at [] rest = refl
slice-bytes_at (c ∷ p) rest =
    ap (◌∷◌ c) (slice_shift c (p ++ rest) 0 (length p) ∙ slice-bytes_at p rest)

scan_shift :
    (c : ℕ) (cs : Bytes) (n i : ℕ) → scan (bytes_at (c ∷ cs)) n (i + 1) ≡ scan (bytes_at cs) n i + 1
unfolding scan
scan_shift c cs zero i = refl
scan_shift c cs (suc n) i = ground (arith, scan_shift c cs n (i + 1), bytes_suc i)
  where
    bytes_suc : (j : ℕ) → bytes_at (c ∷ cs) (j + 1) ≡ bytes_at cs j
    bytes_suc j = rw add-one refl

-- The scan of a line with its newline stops at the newline.
pub scan_line :
    (p : Bytes) → is_line p ≡ true → scan (bytes_at (p ++ b'\n' ∷ [])) (suc (length p)) 0 ≡ length p
unfolding scan
scan_line [] h = refl
scan_line (c ∷ p) h = ground (arith, scan_shift c (p ++ b'\n' ∷ []) (suc (length p)) 0, scan_line p)
