-- ===== src/Kernel/Fork/Inherit.antt =====
-- chos_do_fork: what a child starts with.
use chos.Kernel.State.Returns
use chos.Kernel.Links.Create.{text_of-live}
use chos.Kernel.Links.Lookup.{lookup_link-Found, holder-CanHold}
use chos.Kernel.Proc.{slash}
use chos.Kernel.Proc.Readlink.{Target}
use chos.Kernel.State.Returns.{returns, Returns}
use chos.Kernel.Links.{lookup_link, set_link}
use chos.Kernel.Links.Set.{set_link-Bound, CanHold, entry_of}
use chos.Kernel.Links.Resolve.{is_top, below, Resolves-top, top, Found, Lineage, pid_of, Resolves}
use chos.Kernel.Links.Inv.{Bound, text_of, Inv}
use chos.Kernel.Fork.{Forked, chos_do_fork, child, after_fork}
use chos.Prelude.{
  List, ◌∙◌, some, inr, Bool-cases, false, inl, ◌==◌, refl, Bytes, ◌<◌, length, arith, ◌≢◌, ℕ, ◌≡◌,
}
use chos.Kernel.State.{pure, Cmd, ok, ◌>>◌, ◌>>=◌, null, Machine, State, Ptr}

-- What do_fork may do to the table while it runs, other processes included: it keeps the invariant
-- and, if the caller is not process 0 or 1 and its entry holds a link, that entry and the text of the
-- link.
pub record Undisturbed (m : Machine) (s s' : State) : Type 0 where
  pub inv : Inv null s'
  pub pid_max : s'.pid_max ≡ s.pid_max
  pub own :
      is_top m m.current ≡ false
      → (s.procs (pid_of m m.current)).link ≢ null
      → (s'.procs (pid_of m m.current) ≡ s.procs (pid_of m m.current))
        × (text_of s' (s.procs (pid_of m m.current)).link
            ≡ text_of s (s.procs (pid_of m m.current)).link)

pub after_fork-child :
    (m : Machine) (fuel pid : ℕ) (a : Ptr)
    → m.find_task pid ≢ null
    → after_fork m fuel a (child pid) ≡ set_link m a (m.find_task pid)
unfolding after_fork
after_fork-child m fuel pid a ne = ground arith

pub chos_do_fork-lookup :
    (m : Machine) (fuel : ℕ) (do_fork : Cmd (Forked × Machine)) (s : State)
    → chos_do_fork m fuel do_fork s
      ≡ (lookup_link m fuel m.current >>= λ a.
            do_fork >>= λ r. after_fork r.1 fuel a r.0 >> pure r.0)
          s
unfolding chos_do_fork
chos_do_fork-lookup m fuel do_fork s = refl

-- The parent's entry holds the link that it found, so the child's can hold it too.
pub Undisturbed-CanHold :
    (m : Machine) {pid_max : ℕ} {ps : List ℕ} {a : Ptr} {s s1 s2 : State} (i : ℕ)
    → Lineage m pid_max m.current ps
    → Found m m.current ps a s s1
    → Undisturbed m s1 s2
    → s2.pid_max ≡ pid_max
    → i < pid_max
    → i ≢ pid_of m m.current
    → CanHold s2 i a
Undisturbed-CanHold m i (top h) found u e k ne = inl (Resolves-top h found.resolves)
Undisturbed-CanHold m {a} {s2} i (below low ep k' fresh rest) found u e k ne =
    elim (Bool-cases (a == null)) [
      | inl is_null ↦ inl (ground arith)
      | inr is_link ↦
          let held = found.own low in
          let kept = (u.own low (ground arith)).0 in
          let own : (s2.procs (pid_of m m.current)).link ≡ a = ground arith in
          holder-CanHold i (pid_of m m.current) u.inv (omega arith) (omega arith) ne own
            (ground arith)
    ]

-- The text of the found link is the same behind do_fork and set_link.
same-Target :
    (m m' : Machine) (t : Ptr) {pid_max : ℕ} {ps : List ℕ} {a : Ptr} {s s1 s2 s3 : State}
    → Lineage m pid_max m.current ps
    → Found m m.current ps a s s1
    → Undisturbed m s1 s2
    → Bound (pid_of m' t) (entry_of m' a t) s2 s3
    → Inv null s3
    → pid_of m' t < s3.pid_max
    → (b : Bytes) × Target s a b × Target s3 a b
same-Target m m' t {a} {s} {s1} {s3} line found u b v h = elim (Bool-cases (a == null)) [
  | inl is_null ↦ (slash, rw is_null refl, rw is_null refl)
  | inr is_link ↦
      let link : (s3.procs (pid_of m' t)).link ≡ a = ground (arith, b.procs) in
      let (x, ex) = text_of-live (pid_of m' t) v h (ground arith) in
      let ex' : text_of s3 a ≡ some x = rw link at ex in
      let (low, own) = found_link line found is_link in
      let kept = (u.own low (ground arith)).1 in
      let e1 : text_of s1 a ≡ some x = ground (arith, b.texts a x ex') in
      (x, rw is_link (found.texts a x e1), rw is_link ex')
]
  where
    found_link :
        {pid_max : ℕ} {ps : List ℕ}
        → Lineage m pid_max m.current ps
        → Found m m.current ps a s s1
        → (a == null) ≡ false
        → (is_top m m.current ≡ false) × ((s1.procs (pid_of m m.current)).link ≡ a)
    found_link (top k) f o = absurd (ground (arith, Resolves-top k f.resolves))
    found_link (below low ep k fresh rest) f o = (low, ground (arith, f.own low))

-- If the invariant holds, the caller's way up is as in lookup_link-Found, do_fork succeeds and
-- keeps the invariant and, if the caller is not process 0 or 1 and its entry holds a link, that
-- entry and text, and the child is found, in range and not the caller: then the child's own entry
-- holds the link that its parent resolved to before (none, if that is none) with the child's start
-- time, whatever it held when do_fork returned; that link has the text it had, the pid is returned,
-- and the invariant still holds.
pub chos_do_fork-inherits :
    (fuel : ℕ) (m m' : Machine) (do_fork : Cmd (Forked × Machine)) (pid : ℕ) {s : State}
    {ps : List ℕ}
    → Inv null s
    → Lineage m s.pid_max m.current ps
    → length ps < fuel
    → ((a : Ptr) (s1 : State)
        → lookup_link m fuel m.current s ≡ ok a s1
        → Inv null s1
        → Returns (λ r s2. (r ≡ (child pid, m')) × Undisturbed m s1 s2) (do_fork s1))
    → m'.find_task pid ≢ null
    → pid_of m' (m'.find_task pid) < s.pid_max
    → pid_of m' (m'.find_task pid) ≢ pid_of m m.current
    → Returns
        (λ r s'.
          (r ≡ child pid)
          × Inv null s'
          × (s'.pid_max ≡ s.pid_max)
          × ((a : Ptr) × (Resolves m s m.current a)
              × (s'.procs (pid_of m' (m'.find_task pid)) ≡ entry_of m' a (m'.find_task pid))
              × ((b : Bytes) × Target s a b × Target s' a b)))
        (chos_do_fork m fuel do_fork s)
chos_do_fork-inherits fuel m m' do_fork pid {s} v line h runs ne k other =
    let (a, s1, e, (v1, found)) = Returns.run (lookup_link-Found fuel m.current line refl h v) in
    rw (chos_do_fork-lookup m fuel do_fork s, e)
      (Returns.bind (runs a s1 e v1) λ r s2 (er, u).
        rw (er, after_fork-child m' fuel pid a ne)
          (Returns.bind
            (set_link-Bound m' a (m'.find_task pid) u.inv (inl refl) ne
              (omega (arith, u.pid_max, found.frame.pid_max))
              (Undisturbed-CanHold m (pid_of m' (m'.find_task pid)) line found u
                (u.pid_max ∙ found.frame.pid_max) k other))
            λ _ s3 (v3, b). returns (
              refl,
              v3,
              b.frame.pid_max ∙ u.pid_max ∙ found.frame.pid_max,
              (
                a,
                found.resolves,
                ground (arith, b.procs),
                same-Target m m' (m'.find_task pid) line found u b v3
                    (omega (arith, u.pid_max, found.frame.pid_max, b.frame.pid_max)),
              ),
            )))
