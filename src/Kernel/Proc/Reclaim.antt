-- ===== src/Kernel/Proc/Reclaim.antt =====
-- Which links a write to setchos or resetchos leaves.
use chos.Kernel.Buffer.{Write}
use chos.Kernel.Links.Inv.{Inv}
use chos.Kernel.Links.Cleanup.{cleanup_links-Cleaned}
use chos.Kernel.Links.Reclaim.{AllHeld, AllHeld-live, Cleaned-alive}
use chos.Kernel.Links.Reset.{reset_link-Cleared}
use chos.Kernel.Links.Way.{pid_of}
use chos.Kernel.Paths.{is_valid_path}
use chos.Kernel.Proc.{Services, write_setchos, write_resetchos, slash}
use chos.Kernel.Proc.Assign.{Request, Switched, path_of}
use chos.Kernel.Proc.Resetchos.{write_resetchos-reset}
use chos.Kernel.Proc.Setchos.{write_setchos-Switched}
use chos.Kernel.State.{State, Machine, null}
use chos.Kernel.State.Returns.{Returns, returns}
use chos.Kernel.State.Returns
use chos.Prelude.{◌<◌, ◌≡◌, ◌≢◌, ◌==◌, ◌||◌, true, str_eq, arith, Bool-cases, inl, inr}

module _ {s : State} (m : Machine) (w : Write) (v : Inv null s) where
  write_resetchos-AllHeld :
      pid_of m m.current < s.pid_max → Returns (λ _ s'. AllHeld m s') (write_resetchos m w s)
  write_resetchos-AllHeld low = rw (write_resetchos-reset m w s low) (
      Returns.bind (reset_link-Cleared (pid_of m m.current) v low) λ _ s1 (v1, c).
        Returns.bind (cleanup_links-Cleaned m v1) λ _ s2 (v2, d).
          returns (AllHeld-live m v2 λ i k o. Cleaned-alive i d (omega (arith, d.frame.pid_max)) o))

  Switched-AllHeld :
      {k : Services} {s' : State}
      → m.find_task (pid_of m m.current) ≡ m.current
      → m.current ≢ null
      → Switched k m w s s'
      → AllHeld m s'
  Switched-AllHeld {s'} found ne z = AllHeld-live m z.inv λ i k o.
      elim (Bool-cases (i == pid_of m m.current)) [
        | inl own ↦ (ground (arith, found, ne), ground (arith, found, z.chosen.own))
        | inr other ↦ (
          ground (arith, z.chosen.others i, z.pid_max),
          ground (arith, z.chosen.others i, z.pid_max),
        )
      ]

-- In a state that satisfies the invariant, for a write as `Request` describes it by a caller that
-- find_task finds: behind a write of "/" or of a valid path to setchos, and likewise behind a write
-- to resetchos, every link that is allocated is held by the entry of a process that is alive, by
-- its pid and start time; so a link whose holders have all ended is freed by the next such write.
pub writes-AllHeld :
    (k : Services) {s : State} (m : Machine) (w : Write)
    → Inv null s
    → Request m w s
    → m.find_task (pid_of m m.current) ≡ m.current
    → (str_eq (path_of w) slash || is_valid_path s.valid_paths (path_of w)) ≡ true
    → Returns (λ _ s'. AllHeld m s') (write_setchos k m w s)
      × Returns (λ _ s'. AllHeld m s') (write_resetchos m w s)
writes-AllHeld k m w v q found accepted = (
  Returns.mono (write_setchos-Switched k v q accepted)
      λ r s' (er, z). Switched-AllHeld m w v found q.current_ne z,
  write_resetchos-AllHeld m w v q.in_range,
)
