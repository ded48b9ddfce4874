-- ===== src/Kernel/Proc/Readlink.antt =====
-- What /proc/chos/link points to.
use chos.Kernel.Proc.Setchos.{write_setchos-Switched}
use chos.Kernel.Links.Create.{text_of-live}
use chos.Kernel.Paths.{is_valid_path}
use chos.Kernel.Links.Lookup.{lookup_link-Found}
use chos.Kernel.State.Returns.{returns, Returns}
use chos.Kernel.Proc.Assign.{path_of, Request}
use chos.Kernel.Buffer.{written, Write}
use chos.Kernel.Links.Inv.{text_of, Inv}
use chos.Kernel.Links.Resolve.{
  lookup_link-cached, pid_of, below, Resolves-top, top, Resolves, is_top, Found, Lineage,
}
use chos.Kernel.Links.Set.{entry_of}
use chos.Kernel.Links.{lookup_link}
use chos.Kernel.Proc.{write_setchos, slash, Services, link_readlink, link_text}
use chos.Prelude.{
  suc, inr, true, inl, ◌||◌, Bool-cases, arith, str_eq, some, false, none, length, refl, ◌≢◌, ◌==◌,
  List, if◌then◌else◌, Bytes, ℕ, ◌≡◌, ◌<◌,
}
use chos.Kernel.State.Returns
use chos.Kernel.State.{ok, null, pure, load_text, ◌>>=◌, load_link, Machine, State, Ptr}

-- The text that a found link stands for: `DEFAULT` if there is none.
abbrev pub Target : State → Ptr → Bytes → Type 0
Target s a t = if a == null then (t ≡ slash) else (text_of s a ≡ some t)

link_text-ok :
    (s : State) (a : Ptr) (t : Bytes)
    → a ≢ null
    → s.texts null ≡ none
    → text_of s a ≡ some t
    → link_text a s ≡ ok t s
unfolding link_text load_link load_text
link_text-ok s a t ne nt e = ground arith

link_readlink-walk :
    {R : Type 0} (vfs_readlink : Bytes → R) (m : Machine) (fuel : ℕ) (s : State)
    → link_readlink vfs_readlink m fuel s
      ≡ (lookup_link m fuel m.current >>= λ link.
            link_text link >>= λ text. pure (vfs_readlink text))
          s
unfolding link_readlink
link_readlink-walk vfs_readlink m fuel s = refl

-- A process with a link of its own reads its text, and the read changes nothing.
pub link_readlink-own :
    {R : Type 0} (vfs_readlink : Bytes → R) (m : Machine) (fuel : ℕ) (a : Ptr) (t : Bytes)
    {s : State}
    → is_top m m.current ≡ false
    → pid_of m m.current < s.pid_max
    → s.procs (pid_of m m.current) ≡ entry_of m a m.current
    → a ≢ null
    → s.texts null ≡ none
    → text_of s a ≡ some t
    → link_readlink vfs_readlink m (suc fuel) s ≡ ok (vfs_readlink t) s
link_readlink-own vfs_readlink m fuel a t {s} low k own ne nt e =
    let link : (s.procs (pid_of m m.current)).link ≡ a = ground (arith, own) in
    rw (
      link_readlink-walk vfs_readlink m (suc fuel) s,
      lookup_link-cached m fuel m.current s low k (ground (arith, own, ne)),
      link,
      link_text-ok s a t ne nt e,
    )

-- What a search found is a live link, if it is one.
Found-live :
    (m : Machine) {pid_max : ℕ} {t : Ptr} {ps : List ℕ} {a : Ptr} {s s1 : State}
    → Lineage m pid_max t ps
    → Inv null s1
    → Found m t ps a s s1
    → s1.pid_max ≡ pid_max
    → a ≢ null
    → (b : Bytes) × (text_of s1 a ≡ some b)
Found-live m (top h) v found e ne = absurd (ne (Resolves-top h found.resolves))
Found-live m {t} {a} {s1} (below low ep k fresh rest) v found e ne =
    let own : (s1.procs (pid_of m t)).link ≡ a = ground (arith, found.own low) in
    let (b, eb) = text_of-live (pid_of m t) v (omega arith) (ground arith) in (b, rw own at eb)

-- The read and what its search leaves behind.
pub link_readlink-Found :
    {R : Type 0} (vfs_readlink : Bytes → R) (m : Machine) (fuel : ℕ) {s : State} {ps : List ℕ}
    → Inv null s
    → Lineage m s.pid_max m.current ps
    → length ps < fuel
    → Returns
        (λ r s'.
          Inv null s'
          × ((a : Ptr) × (t : Bytes) × Found m m.current ps a s s'
              × Target s a t
              × (r ≡ vfs_readlink t)))
        (link_readlink vfs_readlink m fuel s)
unfolding link_text
link_readlink-Found vfs_readlink m fuel {s} v line h =
    rw (link_readlink-walk vfs_readlink m fuel s) (
      Returns.bind (lookup_link-Found fuel m.current line refl h v) λ a s1 (v1, found).
        elim (Bool-cases (a == null)) [
          | inl is_null ↦
              let ea : a ≡ null = ground arith in
              rw ea (returns (v1, (a, slash, found, rw is_null refl, refl)))
          | inr is_link ↦
              let ne : a ≢ null = ground arith in
              let (b, eb) = Found-live m line v1 found found.frame.pid_max ne in
              rw (link_text-ok s1 a b ne v1.null_text eb)
                (returns (v1, (a, b, found, rw is_link (found.texts a b eb), refl)))
        ])

-- If the invariant holds and the caller's way up is in range and free of repetitions, with enough
-- fuel for it: a read of /proc/chos/link gives the text of the link that the caller's entries
-- resolve to, or "/" if they resolve to none, and keeps the invariant.
link_readlink-Resolves :
    {R : Type 0} (vfs_readlink : Bytes → R) (m : Machine) (fuel : ℕ) {s : State} {ps : List ℕ}
    → Inv null s
    → Lineage m s.pid_max m.current ps
    → length ps < fuel
    → Returns
        (λ r s'.
          Inv null s'
          × ((a : Ptr) × (t : Bytes) × (Resolves m s m.current a)
              × Target s a t
              × (r ≡ vfs_readlink t)))
        (link_readlink vfs_readlink m fuel s)
link_readlink-Resolves vfs_readlink m fuel v line h =
    Returns.mono (link_readlink-Found vfs_readlink m fuel v line h)
      λ r s' (v', (a, t, found, target, e)). (v', (a, t, found.resolves, target, e))

-- In a state that satisfies the invariant, for a caller that is not process 0 or 1 and a write as
-- `Request` describes it (new objects from kmalloc, a caller in range): after a write of "/" or of
-- a valid path to setchos, the same process reads just that path from /proc/chos/link, and the read
-- changes nothing.
pub readlink-setchos :
    {R : Type 0} (vfs_readlink : Bytes → R) (k : Services) {m : Machine} {w : Write} {s : State}
    (fuel : ℕ)
    → Inv null s
    → Request m w s
    → is_top m m.current ≡ false
    → (str_eq (path_of w) slash || is_valid_path s.valid_paths (path_of w)) ≡ true
    → Returns
        (λ r s'.
          (r ≡ written w.count)
          × (link_readlink vfs_readlink m (suc fuel) s' ≡ ok (vfs_readlink (path_of w)) s'))
        (write_setchos k m w s)
readlink-setchos vfs_readlink k {m} {w} fuel v q low h =
    Returns.mono (write_setchos-Switched k v q h) λ r s' (er, z). (
      er,
      link_readlink-own vfs_readlink m fuel w.object (path_of w) low
          (omega (arith, q.in_range, z.pid_max)) z.chosen.own q.object_ne z.inv.null_text
          z.chosen.target,
    )
