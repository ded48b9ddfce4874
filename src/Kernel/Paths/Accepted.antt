-- ===== src/Kernel/Paths/Accepted.antt =====
-- The loop of resetvalid, and the test on the user of write_valid.
use chos.Kernel.State.{ValidPath, State, Machine}
use chos.Kernel.Paths.{reset_loop}
use chos.Prelude.{[], length, Bool, List, refl, ◌∷◌, ◌==◌, ◌≡◌}

pub reset_loop-nil : (vs : List ValidPath) → reset_loop (length vs) vs ≡ []
unfolding reset_loop
reset_loop-nil [] = refl
reset_loop-nil (v ∷ vs) = reset_loop-nil vs

abbrev pub is_root : Machine → State → Bool
is_root m s = s.euid (m.task m.current).cred == 0
