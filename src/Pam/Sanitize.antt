-- ===== src/Pam/Sanitize.antt =====
-- pam_chos/pam_chos_util.c: is_valid_char and the sanitize functions. `char` is signed, as on the
-- platforms of the kernel module: a byte from 128 on is negative.
pub mod Clean
pub mod Cleans
use chos.Prelude.{
  [], zero, ltb, if◌then◌else◌, ◌∷◌, ◌&&◌, ◌||◌, true, suc, leb, false, ◌==◌, Bytes, Bool, ℕ, ◌≡◌,
}

-- `c >= k` for a positive `k`.
abbrev pub char_ge : ℕ → ℕ → Bool
char_ge c k = leb k c && ltb c 128

-- `c <= k` for a positive `k`.
abbrev pub char_le : ℕ → ℕ → Bool
char_le c k = leb c k || leb 128 c

unfoldable pub is_valid_char : ℕ → Bool → Bool
is_valid_char c is_path =
    c == 0
    || (c == b'-'
        || (c == b'.'
            || (char_ge c b'0' && char_le c b'9'
                || (char_ge c b'/' && is_path
                    || (char_ge c b'a' && char_le c b'z'
                        || (c == b'_' || char_ge c b'A' && char_le c b'Z'))))))

-- The first `length` bytes of the array, and the flag `was_clean`.
unfoldable pub sanitize_loop : Bool → ℕ → Bytes → Bool → Bytes × Bool
unfolding is_valid_char
sanitize_loop is_path zero s was_clean = (s, was_clean)
sanitize_loop is_path (suc n) [] was_clean = ([], was_clean)
sanitize_loop is_path (suc n) (c ∷ cs) was_clean =
    let d : ℕ = if c == b'\n' then 0 else c in
    let valid = is_valid_char d is_path in
    let (rest, clean) = sanitize_loop is_path n cs (was_clean && valid) in
    ((if valid then d else b'_') ∷ rest, clean)

-- `length` is at most the array's.
unfoldable pub sanitize_str : Bytes → ℕ → Bool → Bytes × Bool
unfolding sanitize_loop
sanitize_str s length is_path = sanitize_loop is_path length s true

unfoldable pub sanitize_name : Bytes → ℕ → Bytes × Bool
unfolding sanitize_str
sanitize_name s length = sanitize_str s length false

unfoldable pub sanitize_path : Bytes → ℕ → Bytes × Bool
unfolding sanitize_str
sanitize_path s length = sanitize_str s length true
