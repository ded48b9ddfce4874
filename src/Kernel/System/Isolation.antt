-- ===== src/Kernel/System/Isolation.antt =====
-- What the calls of other processes leave a process with.
use chos.Kernel.System.{Call, Fits, Elsewhere, run}
use chos.Kernel.System.Held.{Held}
use chos.Kernel.System.Safe.{Safe}
use chos.Kernel.System.Policy.{run-Kept}
use chos.Kernel.Links.Way.{pid_of, is_top}
use chos.Kernel.Proc.{link_readlink}
use chos.Kernel.Proc.Readlink.{link_readlink-own}
use chos.Kernel.State.{Machine, State, Ptr, ok}
use chos.Kernel.State.Returns.{Returns}
use chos.Kernel.State.Returns
use chos.Prelude.{ℕ, suc, Bytes, false, ◌≡◌}

-- In a safe state, for a process that is not process 0 or 1 and whose own entry holds a link: after
-- any sequence of calls that the kernel's guarantees and the policy allow, through which the
-- process lives and in which it makes no write to setchos or resetchos and is no child of a fork,
-- its entry still holds that link with the same text, and it reads that text from /proc/chos/link,
-- which changes nothing.
pub run-lasting :
    {R : Type 0} (vfs_readlink : Bytes → R) {P : Bytes → Type 0} (c : Call) (m : Machine) (fuel : ℕ)
    {a : Ptr} {b : Bytes} {s : State}
    → Safe P s
    → Fits P c s
    → is_top m m.current ≡ false
    → Held (pid_of m m.current) (m.task m.current).start_time a b s
    → Elsewhere c (pid_of m m.current) (m.task m.current).start_time
    → Returns
        (λ _ s'.
          Held (pid_of m m.current) (m.task m.current).start_time a b s'
          × (link_readlink vfs_readlink m (suc fuel) s' ≡ ok (vfs_readlink b) s'))
        (run c s)
run-lasting vfs_readlink c m fuel {a} {b} h f low g e = Returns.mono (run-Kept c h f) λ _ s' k.
    let g' = k.held _ _ a b e g in
    (
      g',
      link_readlink-own vfs_readlink m fuel a b low g'.low g'.entry g'.is_link k.safe.inv.null_text
          g'.text,
    )
