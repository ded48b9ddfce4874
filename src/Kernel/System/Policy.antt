-- ===== src/Kernel/System/Policy.antt =====
-- Every call in a safe state, and the states that they lead to.
use chos.Kernel.Fork.Exit.{lookup_children-Looked}
use chos.Kernel.System.Switch.{write_setchos-Kept}
use chos.Kernel.Fork.{my_sys_exit}
use chos.Kernel.System.{
  setchos, resetchos, idle, sequence, Others, Elsewhere, valid, savestate, readlink, fork, exit,
  start, later, Call, Fits, Reach, run, HasWay,
}
use chos.Kernel.Proc.Readlink.{Target, link_readlink-Found}
use chos.Kernel.Links.Inv.{Frame-trans}
use chos.Kernel.Links.Cleanup.{cleanup_links-Cleaned}
use chos.Kernel.Links.Reset.{reset_link-Cleared}
use chos.Kernel.Proc.Resetchos.{write_resetchos-reset}
use chos.Kernel.Proc.Assign.{path_of}
use chos.Kernel.State.Returns.{returns, Returns}
use chos.Kernel.Links.Way.{pid_of, Dated}
use chos.Kernel.Paths.Accepted.{reset_loop-nil, is_root}
use chos.Kernel.Buffer.{Write}
use chos.Kernel.Proc.{link_readlink, slash, write_resetchos, write_savestate}
use chos.Kernel.Paths.{write_valid}
use chos.Kernel.State.{Proc, and_then, pure, Run, null, Ptr, ValidPath, Machine, State}
use chos.Prelude.{
  arith, sym, subst, ◌∙◌, All-append, [], ◌==◌, inr, inl, ◌⊎◌, refl, ltb, true, ◌<◌, ◌≡◌,
  Bool-cases, All, ℕ, List, Bytes,
}
use chos.Kernel.State.Returns
use chos.Kernel.System.Forks.{Found-Held, chos_do_fork-Kept}
use chos.Kernel.System.Safe.{Safe, Kept, Kept-trans, Kept-narrow, kept, kept_same}

module _ {P : Bytes → Type 0} {s : State} (h : Safe P s) where
  write_resetchos-Kept :
      (m : Machine) (w : Write)
      → pid_of m m.current < s.pid_max
      → Returns (λ _ s'. Kept P (Others m) s s') (write_resetchos m w s)
  write_resetchos-Kept m w low = rw (write_resetchos-reset m w s low) (
      Returns.bind (reset_link-Cleared (pid_of m m.current) h.inv low) λ _ s1 (v1, c).
        Returns.bind (cleanup_links-Cleaned m v1) λ _ s2 (v2, d). returns (
          kept h v2 (Frame-trans c.frame d.frame) (λ a t e. c.texts a t (d.texts a t e))
            λ i time a b e g.
              ground (arith, c.procs, d.entries i, g.entry, g.is_link, e.0.0, e.0.1, e.1)))

  with_valid :
      {E : ℕ → ℕ → Type 0} (vs : List ValidPath)
      → All (λ v. P v.path) vs
      → Kept P E s (record s { valid_paths = vs })
  with_valid vs all = kept_same h refl refl refl refl all

  write_valid-Kept :
      {E : ℕ → ℕ → Type 0} (m : Machine) (w : Write)
      → (is_root m s ≡ true → P (path_of w))
      → Returns (λ _ s'. Kept P E s s') (write_valid m w s)
  unfolding write_valid
  write_valid-Kept m w approved = elim (Bool-cases (is_root m s)) [
    | inr other ↦ rw other (returns (with_valid _ h.valid))
    | inl root ↦ rw root (elim (Bool-cases (w.buf 0 == b'-')) [
      | inl reset ↦ rw (reset, reset_loop-nil s.valid_paths) (returns (with_valid [] tt))
      | inr path ↦ rw path (elim (Bool-cases (w.text == null)) [
        | inl no_room ↦ rw no_room (returns (with_valid _ h.valid))
        | inr room ↦ rw room (elim (Bool-cases (w.object == null)) [
          | inl no_node ↦ rw no_node (returns (with_valid _ h.valid))
          | inr node ↦ rw node (
              returns (
                with_valid _
                  (All-append (λ v. P v.path) s.valid_paths _ h.valid (approved root, tt))))
        ])
      ])
    ])
  ]

  write_savestate-Kept :
      {E : ℕ → ℕ → Type 0} (w : Write) → Returns (λ _ s'. Kept P E s s') (write_savestate w s)
  unfolding write_savestate
  write_savestate-Kept w = elim (Bool-cases (ltb 1 w.count)) [
    | inl long ↦ rw long (returns (kept_same h refl refl refl refl h.valid))
    | inr short ↦ rw short (returns (kept_same h refl refl refl refl h.valid))
  ]

  link_readlink-Kept :
      (m : Machine) (fuel : ℕ)
      → HasWay m fuel s
      → Returns
          (λ t s'. Kept P (Dated m) s s' × ((t ≡ slash) ⊎ P t))
          (link_readlink {R = Bytes} (λ t. t) m fuel s)
  link_readlink-Kept m fuel q =
      Returns.mono
        (link_readlink-Found {R = Bytes} (λ t. t) m fuel h.inv q.way (omega (arith, q.enough)))
        λ r s' (v', (a, t, found, target, e)). (
          kept h v' found.frame found.texts (λ i time x b dated g. Found-Held found dated g),
          approved r a t target e,
        )
    where
      approved : (r : Bytes) (a : Ptr) (t : Bytes) → Target s a t → r ≡ t → (r ≡ slash) ⊎ P r
      approved r a t target e = elim (Bool-cases (a == null)) [
        | inl is_null ↦ inl (e ∙ rw is_null at target)
        | inr is_link ↦ subst (λ x. (x ≡ slash) ⊎ P x) (sym e) (h.texts a t (rw is_link at target))
      ]

  my_sys_exit-Kept :
      (m : Machine) (fuel : ℕ) (children : List Ptr)
      → Fits P (exit m fuel children) s
      → Returns (λ _ s'. Kept P (Dated m) s s') (my_sys_exit m fuel children (pure tt) s)
  unfolding my_sys_exit
  my_sys_exit-Kept m fuel children (q, d, c) =
      Returns.bind (lookup_children-Looked d fuel children q.way c refl q.enough h.inv) λ _ s1 l.
        returns (
          kept h l.inv l.frame l.texts λ i time x b dated g.
            l.pinned i (ground (arith, g.entry, g.is_link))
              (subst (λ (p : Proc). Dated m i p.start_time) (sym g.entry) dated))

quiet :
    {A : Type 0} {Q : State → Type 0} {r : Run A}
    → Returns (λ _ s'. Q s') r
    → Returns (λ _ s'. Q s') (and_then r (λ _. pure tt))
quiet g = Returns.bind g λ _ s1 g1. returns g1

-- Every call that fits keeps the state safe, and the entries of the processes elsewhere.
pub run-Kept :
    {P : Bytes → Type 0} (c : Call) {s : State}
    → Safe P s
    → Fits P c s
    → Returns (λ _ s'. Kept P (Elsewhere c) s s') (run c s)
unfolding run
run-Kept (setchos k m w) h (new, ne, low) = quiet (write_setchos-Kept h k m w new ne low)
run-Kept (resetchos m w) h low = quiet (write_resetchos-Kept h m w low)
run-Kept (valid m w) h approved = quiet (write_valid-Kept h m w approved)
run-Kept (savestate w) h f = quiet (write_savestate-Kept h w)
run-Kept (readlink m fuel) h q =
    quiet (Returns.mono (link_readlink-Kept h m fuel q) λ t s' (g, e). g)
run-Kept (fork m fuel during r behind) h f =
    quiet (chos_do_fork-Kept m behind fuel during r h f (λ s1 h1 f1. run-Kept during h1 f1))
run-Kept (exit m fuel children) h f = my_sys_exit-Kept h m fuel children f
run-Kept idle h f = returns (kept_same h refl refl refl refl h.valid)
run-Kept (sequence c d) {s} h (f, fits) =
    let (u, s1, e, k) = Returns.run (run-Kept c h f) in
    rw e (
      Returns.mono (run-Kept d k.safe (fits s1 e))
        λ _ s2 l. Kept-trans (Kept-narrow (λ i time o. o.0) k) (Kept-narrow (λ i time o. o.1) l))

-- In a safe state, one that satisfies the invariant and has only approved texts, every call or
-- sequence of calls that the kernel's guarantees and the policy allow ends without a fault, in a
-- safe state; a fork may be interrupted by other processes' calls between its search for the
-- parent's link and the use of what it found.
pub run-Safe :
    {P : Bytes → Type 0} (c : Call) {s : State}
    → Safe P s
    → Fits P c s
    → Returns (λ _ s'. Safe P s') (run c s)
run-Safe c h f = Returns.mono (run-Kept c h f) λ _ s' k. k.safe

Reach-Safe : {P : Bytes → Type 0} {s0 s : State} → Safe P s0 → Reach P s0 s → Safe P s
Reach-Safe h start = h
Reach-Safe {P} {s} h (later c r f e) =
    let (a, s1, e1, g) = Returns.run (run-Safe c (Reach-Safe h r) f) in
    let same : s1 ≡ s = cc in subst (Safe P) same g

-- From a safe state, one that satisfies the invariant and has only approved texts, and after any
-- calls in any order, forks with calls of other processes in the middle among them, that the
-- kernel's guarantees and the policy allow (root writes only approved paths to /proc/chos/valid): a
-- read of /proc/chos/link by a process whose way up is in range and free of repetitions, with
-- enough fuel for it, ends without a fault in a safe state, and its text is "/" or an approved
-- path.
pub Reach-approved :
    {P : Bytes → Type 0} {s0 s : State} (m : Machine) (fuel : ℕ)
    → Safe P s0
    → Reach P s0 s
    → HasWay m fuel s
    → Returns
        (λ t s'. Safe P s' × ((t ≡ slash) ⊎ P t))
        (link_readlink {R = Bytes} (λ t. t) m fuel s)
Reach-approved m fuel h r q =
    Returns.mono (link_readlink-Kept (Reach-Safe h r) m fuel q) λ t s' (k, e). (k.safe, e)
