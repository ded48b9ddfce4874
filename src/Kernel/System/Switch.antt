-- ===== src/Kernel/System/Switch.antt =====
-- write_setchos in a safe state, whatever kmalloc returns.
use Prim.Native.Nat.{bit_or}
use chos.Kernel.Proc.Path.{set_path-slash, set_path-valid, enter-moved}
use chos.Kernel.Paths.{is_valid_path}
use chos.Kernel.Links.Set.{set_link-Bound}
use chos.Kernel.Links.Cleanup.{cleanup_links-Cleaned, Cleaned}
use chos.Kernel.Proc.Chroot.{moved}
use chos.Kernel.State.Returns.{returns, Returns}
use chos.Kernel.Links.Inv.{Frame-trans, KeepsTexts, Frame, Inv}
use chos.Kernel.Buffer.{enomem, errno, Write}
use chos.Kernel.State.{ok, Dir, null, Machine, State, Ptr}
use chos.Kernel.Links.{create_link}
use chos.Kernel.Proc.{
  is_chrooted, cap_sys_chroot, chosroot, slash, write_setchos, Services, assign_current,
}
use chos.Prelude.{
  false, update, if◌then◌else◌, inr, Bool, refl, true, none, inl, some, ◌||◌, ◌==◌, Bool-cases,
  arith, Option, str_eq, ◌≡◌, ◌<◌, ◌≢◌, Bytes, ℕ,
}
use chos.Kernel.State.Returns
use chos.Kernel.System.Safe.{kept, Switched-Safe, Safe, Kept, Kept-trans, kept_same, copied-Kept}
use chos.Kernel.Proc.Setchos.{write_setchos-Switched, write_setchos-refused}
use chos.Kernel.Proc.Assign.{
  copied, copied-Inv, entered, Switched, write_setchos-set_path, same-Inv, path_of, Request,
}
use chos.Kernel.System.Held.{Held, Held-kept}
use chos.Kernel.System.{Others, Alive, FreshObjects}

-- A cleanup keeps the entry of a process that is alive.
pub Cleaned-Held :
    {m : Machine} {i time : ℕ} {a : Ptr} {b : Bytes} {s s1 : State}
    → Cleaned m s s1
    → Alive m i time
    → Held i time a b s
    → s1.procs i ≡ s.procs i
Cleaned-Held {i} c alive g = ground (arith, c.entries i, g.entry, g.is_link, alive.0, alive.1)

-- With no room for a link, the caller is left without one.
assign_null :
    {s : State} (m : Machine) (w : Write)
    → Inv null s
    → w.object ≡ null
    → m.current ≢ null
    → (m.task m.current).pid < s.pid_max
    → Returns
        (λ _ s'.
          Inv null s'
          × Frame s s'
          × KeepsTexts s s'
          × ((i time : ℕ) (a : Ptr) (b : Bytes)
              → Others m i time
              → Held i time a b s
              → s'.procs i ≡ s.procs i))
        (assign_current m w s)
unfolding assign_current create_link
assign_null m w v e ne h = Returns.bind (cleanup_links-Cleaned m v) λ _ s1 (v1, c). rw e (
    Returns.mono
      (set_link-Bound m null m.current v1 (inl refl) ne (omega (arith, c.frame.pid_max)) (inl refl))
      λ _ s2 (v2, b). (
        v2,
        Frame-trans c.frame b.frame,
        λ a t q. c.texts a t (b.texts a t q),
        λ i time a t o g. ground (arith, b.procs, Cleaned-Held c o.0 g, o.1),
      ))

write_setchos_no_room :
    (k : Services) (m : Machine) (w : Write) (s : State)
    → (w.text == null) ≡ true
    → write_setchos k m w s ≡ ok (errno enomem) s
unfolding write_setchos
write_setchos_no_room k m w s e = rw e refl

-- The new object is not the link that another process holds.
module _ {m : Machine} {w : Write} {i time : ℕ} {a : Ptr} {b : Bytes} {s : State} (v : Inv null s)
    (q : Request m w s) (alive : Alive m i time) (g : Held i time a b s) where
  apart_at :
      (s0 : State)
      → entered m w s ≡ s0
      → s0.procs ≡ s.procs
      → s0.pid_max ≡ s.pid_max
      → Inv null s0
      → a ≢ w.object
  apart_at s0 es ep em v0 e =
      let (u, s1, ec, (v1, c)) = Returns.run (cleanup_links-Cleaned m v0) in
      let own : s1.procs i ≡ record { link = a; start_time = time } =
        ground (arith, c.entries i, g.entry, g.is_link, alive.0, alive.1) in
      let (l, el) = v1.live i (omega (arith, g.low, c.frame.pid_max)) (ground (arith, g.is_link)) in
      let gone = q.object_new s1 (rw es ec) in ground arith

  object-apart : a ≢ w.object
  object-apart =
      let v0 = copied-Inv w v q.text_ne q.text_new in
      elim (Bool-cases (str_eq (path_of w) slash)) [
        | inl out ↦
            apart_at (record (copied w s) { root = update s.root (m.task m.current).fs s.nochroot })
              (rw out) refl refl (same-Inv v0 refl refl refl refl)
        | inr into ↦ apart_at (copied w s) (rw into) refl refl v0
      ]

module _ {P : Bytes → Type 0} {s : State} (h : Safe P s) (k : Services) (m : Machine) (w : Write)
    (new : FreshObjects m w s) (ne : m.current ≢ null)
    (low : (m.task m.current).pid < s.pid_max) where
  Switched-Kept :
      {s' : State}
      → (str_eq (path_of w) slash || is_valid_path s.valid_paths (path_of w)) ≡ true
      → Request m w s
      → Switched k m w s s'
      → Kept P (Others m) s s'
  Switched-Kept {s'} accepted q z = record {
    safe = Switched-Safe h k m w accepted z;
    pid_max = z.pid_max;
    held = λ i time a b e g.
        let apart = object-apart h.inv q e.0 g in
        Held-kept g z.inv z.pid_max
          (ground (arith, z.chosen.others i, g.entry, g.is_link, e.0, e.1))
          λ t et. elim (z.chosen.texts a t et) [ inl own ↦ absurd (apart own) | inr old ↦ old ];
  }

  moved-Kept :
      {s1 : State} (o : Option Dir) → Kept P (Others m) s s1 → Kept P (Others m) s (moved m s1 o)
  moved-Kept none g = g
  moved-Kept (some d) g = Kept-trans g (kept_same g.safe refl refl refl refl g.safe.valid)

  -- The two ways of an accepted path when create_link fails.
  no_link-Kept :
      (s0 : State)
      → Kept P (Others m) s s0
      → w.object ≡ null
      → Returns (λ _ s'. Kept P (Others m) s s') (assign_current m w s0)
  no_link-Kept s0 g none_left =
      Returns.mono (assign_null m w g.safe.inv none_left ne (omega (arith, g.pid_max)))
        λ _ s1 (v1, f, t, entries). Kept-trans g (kept g.safe v1 f t entries)

  write_setchos_no_link :
      w.text ≢ null
      → w.object ≡ null
      → (str_eq (path_of w) slash || is_valid_path s.valid_paths (path_of w)) ≡ true
      → Returns (λ _ s'. Kept P (Others m) s s') (write_setchos k m w s)
  write_setchos_no_link nt none_left e =
      let g : Kept P (Others m) s (copied w s) = copied-Kept h w nt (new.text_new nt) in
      rw (write_setchos-set_path k m w s nt) (elim (Bool-cases (str_eq (path_of w) slash)) [
        | inl same ↦
            let s0 : State = record (copied w s) {
              root = update s.root (m.task m.current).fs s.nochroot;
            } in
            let g0 : Kept P (Others m) s s0 =
              Kept-trans g (kept_same g.safe refl refl refl refl g.safe.valid) in
            rw (set_path-slash k m w (path_of w) (copied w s) same)
              (Returns.bind (no_link-Kept s0 g0 none_left) λ _ s1 g1. returns g1)
        | inr other ↦ rw (set_path-valid k m w (path_of w) (copied w s) other (ground arith)) (
            Returns.bind (no_link-Kept (copied w s) g none_left) λ _ s1 g1.
              rw (enter-moved k m w s1) (returns (entered_Kept s1 g1 (is_chrooted m s1))))
      ])
    where
      entered_Kept :
          (s1 : State)
          → Kept P (Others m) s s1
          → (inside : Bool)
          → Kept P (Others m) s (
              if inside
              then s1
              else moved m s1
                  (k.sys_chroot chosroot (bit_or (s1.caps (m.task m.current).cred) cap_sys_chroot)))
      entered_Kept s1 g1 true = g1
      entered_Kept s1 g1 false = moved-Kept _ g1

  pub write_setchos-Kept : Returns (λ _ s'. Kept P (Others m) s s') (write_setchos k m w s)
  write_setchos-Kept = elim (Bool-cases (w.text == null)) [
    | inl no_room ↦
        rw (write_setchos_no_room k m w s no_room)
          (returns (kept_same h refl refl refl refl h.valid))
    | inr room ↦
        let nt : w.text ≢ null = ground arith in
        elim (Bool-cases (str_eq (path_of w) slash || is_valid_path s.valid_paths (path_of w))) [
          | inr bad ↦
              rw ((write_setchos-refused k m w h.inv (new.text_new nt) bad).1 nt).0
                (returns (copied-Kept h w nt (new.text_new nt)))
          | inl good ↦ elim (Bool-cases (w.object == null)) [
            | inl none_left ↦ write_setchos_no_link nt (ground arith) good
            | inr link ↦
                let q : Request m w s = record {
                  text_ne = nt;
                  text_new = new.text_new nt;
                  object_ne = ground arith;
                  object_new = new.object_new (ground arith);
                  current_ne = ne;
                  in_range = low;
                } in
                Returns.mono (write_setchos-Switched k h.inv q good)
                  λ r s' (er, z). Switched-Kept good q z
          ]
        ]
  ]
