-- ===== src/Kernel/Links/Invisible.antt =====
-- lookup_link as a cache: what it changes for the searches that follow.
use chos.Kernel.State.Returns
use chos.Kernel.State.Returns.{Returns}
use chos.Kernel.Links.Inv.{Inv}
use chos.Kernel.Links.Way.{Resolves, SameResolves, Lineage, Distinct}
use chos.Kernel.State.{null, Ptr, State, Machine}
use chos.Prelude.{refl, ◌<◌, length, List, ℕ}
use chos.Kernel.Links.{lookup_link}
use chos.Kernel.Links.Lookup.{lookup_link-Found}

-- If the invariant holds, no two tasks have one pid, and the way up is in range and free of
-- repetitions, with enough fuel for it: lookup_link ends in a state in which every process, on the
-- way or not, resolves to just the links that it resolved to before, and the process itself to the
-- result.
lookup_link-SameResolves :
    (fuel : ℕ) {m : Machine} {s : State} (t : Ptr) {ps : List ℕ}
    → Distinct m
    → Lineage m s.pid_max t ps
    → length ps < fuel
    → Inv null s
    → Returns (λ a s'. SameResolves m s s' × Resolves m s' t a) (lookup_link m fuel t s)
lookup_link-SameResolves fuel t d line h v =
    Returns.mono (lookup_link-Found fuel t line refl h v)
      λ a s' (v', found). (found.same d, (found.same d t a).0 found.resolves)
