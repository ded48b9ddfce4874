-- ===== src/Tests/Patch.antt =====
-- The wrapper put over a function of 16 bytes, and taken away.
use chos.Kernel.Patch.{Target, Memory, init_do_fork, cleanup_do_fork}
use chos.Kernel.Patch.Restore.{cleanup_do_fork-restores}
use chos.Prelude.{ℕ, ◌+◌, ◌%◌, ◌≤◌, ◌<◌, ◌≡◌, ◌⊎◌, inl, refl, arith, true}

abbrev pub target : Target
target = record {
  start = 1000;
  length = 16;
  opcode = λ i. (1000 + i) % 256;
  jumper = 5000;
  jumper_func = 7000;
  wrapper = 3000;
}

abbrev pub kernel : Memory
kernel = record { bytes = λ a. a % 256; pte = 1 }

abbrev after : Memory
after = (init_do_fork target kernel).1

installs : init_do_fork target kernel ≡ (true, after)
unfolding init_do_fork
installs = refl

-- A jump by 3000 - 1005, and then it is gone.
jumps :
    (after.bytes 1000 ≡ 233)
    × (after.bytes 1001 ≡ 203)
    × (after.bytes 1002 ≡ 7)
    × ((cleanup_do_fork target after).bytes 1002 ≡ 234)
unfolding init_do_fork cleanup_do_fork
jumps = (refl, refl, refl, refl)

cleanup_do_fork-restores_example :
    ((a : ℕ) → (a < 5000) ⊎ (5025 ≤ a) → (cleanup_do_fork target after).bytes a ≡ a % 256)
    × ((cleanup_do_fork target after).pte ≡ 1)
cleanup_do_fork-restores_example =
    cleanup_do_fork-restores target kernel after (omega arith) (inl (omega arith)) installs
