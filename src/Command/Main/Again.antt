-- ===== src/Command/Main/Again.antt =====
-- Reads of /proc/chos/link behind a step that does not touch the links.
use chos.Kernel.Proc.{link_readlink}
use chos.Kernel.Proc.Assign.{same-Inv}
use chos.Kernel.Proc.Readlink.{Target, link_readlink-Found}
use chos.Kernel.Links.Inv.{Inv, text_of}
use chos.Kernel.Links.Way.{
  Resolves, at_top, at_entry, at_parent, Resolves-unique, Lineage, Distinct,
}
use chos.Kernel.Links.Resolve.{Found}
use chos.Kernel.State.{State, Machine, Ptr, null}
use chos.Kernel.State.Returns.{Returns, returns}
use chos.Kernel.State.Returns
use chos.Prelude.{ℕ, some, List, Bytes, length, ◌==◌, ◌≡◌, ◌<◌, refl, arith, Bool-cases, inl, inr}

-- The state that the module can see is unchanged, but for the credentials.
pub record Kept (s s' : State) : Type 0 where
  pub pid_max : s'.pid_max ≡ s.pid_max
  pub procs : s'.procs ≡ s.procs
  pub links : s'.links ≡ s.links
  pub texts : s'.texts ≡ s.texts

Resolves-procs :
    {m : Machine} {s s' : State} {t a : Ptr}
    → s'.procs ≡ s.procs
    → Resolves m s t a
    → Resolves m s' t a
Resolves-procs e (at_top h ea) = at_top h ea
Resolves-procs e (at_entry low c ea) = at_entry low (ground arith) (ground arith)
Resolves-procs e (at_parent low c r) = at_parent low (ground arith) (Resolves-procs e r)

module _ {R : Type 0} (vfs_readlink : Bytes → R) {m : Machine} (fuel : ℕ) {ps : List ℕ} where
  -- A read in a state in which the caller resolves to a link with the text `os`.
  pub reads :
      {s : State} {a : Ptr} {os : Bytes}
      → Inv null s
      → Lineage m s.pid_max m.current ps
      → length ps < fuel
      → Resolves m s m.current a
      → ((t : Bytes) → Target s a t → t ≡ os)
      → Returns (λ r s'. r ≡ vfs_readlink os) (link_readlink vfs_readlink m fuel s)
  reads {s} {a} {os} v line h res target =
      Returns.mono (link_readlink-Found vfs_readlink m fuel v line h)
        λ r s' (v', (a', t', found, target', e)).
          let ea : a' ≡ a = Resolves-unique found.resolves res in
          rw (e, target t' (ground arith)) refl

  -- A second read gives what a first one found.
  pub reads_again :
      {s s1 s2 : State} {a : Ptr} {t : Bytes}
      → Distinct m
      → Lineage m s.pid_max m.current ps
      → length ps < fuel
      → Inv null s1
      → Found m m.current ps a s s1
      → Target s a t
      → Kept s1 s2
      → Returns (λ r s'. r ≡ vfs_readlink t) (link_readlink vfs_readlink m fuel s2)
  reads_again {s} {s1} {s2} {a} {t} d line h v found target kept =
      reads (same-Inv v kept.pid_max kept.procs kept.links kept.texts)
        (rw (kept.pid_max, found.frame.pid_max) line) h
        (Resolves-procs kept.procs ((found.same d m.current a).0 found.resolves))
        λ t' e. elim (Bool-cases (a == null)) [
          | inl is_null ↦ ground (arith, target, e)
          | inr is_link ↦
              let now : text_of s1 a ≡ some t' = ground (arith, e, kept.links, kept.texts) in
              let before = found.texts a t' now in ground (arith, before, target)
        ]
