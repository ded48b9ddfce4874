-- ===== src/Kernel/Proc/Chroot.antt =====
-- my_chroot: the root, the capabilities and the address limit.
use chos.Kernel.Proc.{cap_sys_chroot, Services, my_chroot}
use Prim.Native.Nat.{bit_or}
use chos.Prelude.{
  inr, inl, Option-cases, true, none, arith, some, Bytes, false, fun_ext, Bool, Option, update, ℕ,
  ◌≡◌,
}
use chos.Kernel.State.{ok, Dir, Machine, State}

restore : (f : ℕ → ℕ) (c x : ℕ) → update (update f c x) c (f c) ≡ f
restore f c x = fun_ext λ j. ground arith

-- The root directory behind my_chroot, given what sys_chroot found.
abbrev pub moved : Machine → State → Option Dir → State
moved m s none = s
moved m s (some d) = record s { root = update s.root (m.task m.current).fs d }

abbrev pub is_some {ℓ} : {A : Type ℓ} → Option A → Bool
is_some none = false
is_some (some a) = true

-- my_chroot calls sys_chroot with CAP_SYS_CHROOT raised; whether that succeeds or fails, it leaves
-- the capabilities and the address limit as they were, and moves only the root of the caller.
pub my_chroot-moved :
    (k : Services) (m : Machine) (path : Bytes) (s : State)
    → let found = k.sys_chroot path (bit_or (s.caps (m.task m.current).cred) cap_sys_chroot) in
      my_chroot k m path s ≡ ok (is_some found) (moved m s found)
unfolding my_chroot
my_chroot-moved k m path s =
    elim (Option-cases
      (k.sys_chroot path (bit_or (s.caps (m.task m.current).cred) cap_sys_chroot))) [
        | inl e ↦ ground (
          arith,
          e,
          restore s.caps (m.task m.current).cred
              (bit_or (s.caps (m.task m.current).cred) cap_sys_chroot),
        )
        | inr (d, e) ↦ ground (
          arith,
          e,
          restore s.caps (m.task m.current).cred
              (bit_or (s.caps (m.task m.current).cred) cap_sys_chroot),
        )
      ]
