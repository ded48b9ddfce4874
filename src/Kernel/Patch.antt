-- ===== src/Kernel/Patch.antt =====
-- The wrapper's installation: set_pteval, init_do_fork and cleanup_do_fork of kernel/chos_lkm.c.
pub mod Restore
use chos.Prelude.{
  ℕ, zero, suc, ◌+◌, ◌-◌, ◌/◌, ◌%◌, ◌^◌, Bool, true, false, not, ◌&&◌, ◌||◌, ltb, leb, ◌==◌, update,
  if◌then◌else◌,
}
use Prim.Native.Nat.{bit_or, bit_and}

-- The constants of the build: START_ADD, LENGTH, `opcode`, and the addresses of `jumper`,
-- jumper_func and chos_do_fork.
pub record Target : Type 0 where
  pub start : ℕ
  pub length : ℕ
  pub opcode : ℕ → ℕ
  pub jumper : ℕ
  pub jumper_func : ℕ
  pub wrapper : ℕ

-- The memory, byte by byte, and the value of the page table entry for START_ADD.
pub record Memory : Type 0 where
  pub bytes : ℕ → ℕ
  pub pte : ℕ

-- `_PAGE_RW`
abbrev pub page_rw : ℕ
page_rw = 2

-- The new value of the entry; the function returns the old one.
unfoldable pub set_pteval : ℕ → ℕ → ℕ
set_pteval pteval pte =
    if pteval == page_rw
    then (if bit_and pte page_rw == 0 then bit_or pte page_rw else pte)
    else (if not (pte == pteval) then pteval else pte)

-- The first loop of init_do_fork, with `n` bytes left.
unfoldable pub matches : (ℕ → ℕ) → (ℕ → ℕ) → ℕ → ℕ → ℕ → Bool
matches bytes opcode zero ptr i = true
matches bytes opcode (suc n) ptr i =
    bytes ptr == opcode i && matches bytes opcode n (ptr + 1) (i + 1)

-- The loops that copy `n` bytes from `src` to `dst`, and memcpy.
unfoldable pub copy : ℕ → ℕ → ℕ → (ℕ → ℕ) → ℕ → ℕ
copy zero dst src f = f
copy (suc n) dst src f = copy n (dst + 1) (src + 1) (update f dst (f src))

-- `*lptr=diff` for a long: eight bytes, the lowest first.
unfoldable pub store_bytes : ℕ → ℕ → ℕ → (ℕ → ℕ) → ℕ → ℕ
store_bytes zero a v f = f
store_bytes (suc n) a v f = store_bytes n (a + 1) (v / 256) (update f a (v % 256))

-- The difference of two addresses, as a 64-bit number.
abbrev pub diff : ℕ → ℕ → ℕ
diff a b = (a + (2 ^ 64 - b)) % 2 ^ 64

-- `diff<0xffffff` for a signed number.
abbrev pub is_near : ℕ → Bool
is_near d = ltb d 16777215 || leb (2 ^ 63) d

-- A jump at `ptr` to `target`, with the displacement from the next instruction.
unfoldable pub write_jump : ℕ → ℕ → (ℕ → ℕ) → ℕ → ℕ
unfolding store_bytes
write_jump ptr target f = store_bytes 8 (ptr + 1) (diff target (ptr + 5)) (update f ptr 233)

-- The jumper: the first bytes of the original function.
unfoldable pub copy_to_jumper : Target → (ℕ → ℕ) → ℕ → ℕ
unfolding copy
copy_to_jumper c f = copy c.length c.jumper c.start (copy c.length c.jumper c.jumper_func f)

-- The result is true for the return of 0, and false for -1.
unfoldable pub init_do_fork : Target → Memory → Bool × Memory
unfolding matches copy_to_jumper write_jump set_pteval
init_do_fork c m =
    if not (matches m.bytes c.opcode c.length c.start 0)
    then (false, m)
    else (let f = copy_to_jumper c m.bytes in
        let back = c.jumper + c.length in
        let pte = set_pteval page_rw m.pte in
        if not (is_near (diff (c.start + c.length) (back + 5)))
        then (false, record { bytes = update f back 233; pte = pte })
        else (
          true,
          record {
            bytes = write_jump c.start c.wrapper (write_jump back (c.start + c.length) f);
            pte = set_pteval m.pte pte;
          },
        ))

unfoldable pub cleanup_do_fork : Target → Memory → Memory
unfolding copy set_pteval
cleanup_do_fork c m = record {
  bytes = copy c.length c.start c.jumper m.bytes;
  pte = set_pteval m.pte (set_pteval page_rw m.pte);
}
