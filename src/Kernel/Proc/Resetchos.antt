-- ===== src/Kernel/Proc/Resetchos.antt =====
-- write_resetchos, and what its caller resolves to.
use chos.Kernel.Links.Cleanup.{cleanup_links-Cleaned}
use chos.Kernel.Links.Reset.{reset_link-Cleared}
use chos.Kernel.State.Returns.{returns, Returns}
use chos.Kernel.Links.Resolve.{at_parent, Resolves, pid_of, is_top}
use chos.Kernel.Links.{is_dead, cleanup_links, reset_link}
use chos.Kernel.Links.Inv.{blank, Inv}
use chos.Kernel.Buffer.{written, Write}
use chos.Kernel.Proc.{write_resetchos}
use chos.Prelude.{refl, ◌&&◌, ltb, if◌then◌else◌, ◌≢◌, arith, false, ℕ, ◌≡◌, ◌<◌}
use chos.Kernel.State.Returns
use chos.Kernel.State.{pure, ◌>>◌, null, Machine, State, Ptr}

pub write_resetchos-reset :
    (m : Machine) (w : Write) (s : State)
    → (m.task m.current).pid < s.pid_max
    → write_resetchos m w s
      ≡ (reset_link (m.task m.current).pid >> (cleanup_links m >> pure (written w.count))) s
unfolding write_resetchos
write_resetchos-reset m w s h = ground arith

-- In a state that satisfies the invariant, for a caller in range that is not process 0 or 1: a
-- write to resetchos returns `count`, empties the caller's entry and the dead ones, touches no
-- other, and keeps the invariant; whatever the caller's parent resolves to then, the caller
-- resolves to as well.
pub write_resetchos-inherits :
    {s : State} (m : Machine) (w : Write) {a : Ptr}
    → Inv null s
    → is_top m m.current ≡ false
    → (m.task m.current).pid < s.pid_max
    → Returns
        (λ r s'.
          (r ≡ written w.count)
          × Inv null s'
          × (s'.procs (pid_of m m.current) ≡ blank)
          × ((j : ℕ)
              → j ≢ pid_of m m.current
              → s'.procs j
                ≡ (if ltb j s.pid_max && is_dead m j (s.procs j) then blank else s.procs j))
          × (Resolves m s' (m.task m.current).parent a → Resolves m s' m.current a))
        (write_resetchos m w s)
write_resetchos-inherits {s} m w v low h = rw (write_resetchos-reset m w s h) (
    Returns.bind (reset_link-Cleared (pid_of m m.current) v h) λ _ s1 (v1, c).
      Returns.bind (cleanup_links-Cleaned m v1) λ _ s2 (v2, d).
        let empty : s2.procs (pid_of m m.current) ≡ blank =
          ground (arith, c.procs, d.entries (pid_of m m.current)) in
        returns (
          refl,
          v2,
          empty,
          λ j o. ground (arith, c.procs, d.entries j, c.frame.pid_max),
          λ r. at_parent low (rw empty refl) r,
        ))
