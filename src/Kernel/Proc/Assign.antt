-- ===== src/Kernel/Proc/Assign.antt =====
-- The steps of write_setchos that a switch to any path shares.
use Prim.Native.Nat.{bit_or}
use chos.Kernel.Proc.Chroot.{moved}
use chos.Kernel.Links.{cleanup_links, is_dead}
use chos.Kernel.Links.Create.{assign-Assigned}
use chos.Kernel.Links.Cleanup.{cleanup_links-Cleaned}
use chos.Kernel.State.Returns.{returns, Returns}
use chos.Kernel.Links.Set.{entry_of}
use chos.Kernel.Proc.{
  cap_sys_chroot, chosroot, is_chrooted, slash, set_path, Services, write_setchos, assign_current,
}
use chos.Kernel.Buffer.{text_length, Write}
use chos.Kernel.Links.Inv.{KeepsOthers, KeepsTexts, Frame-trans, text_of, blank, Loose, Frame, Inv}
use chos.Prelude.{
  inr, inl, Option-cases, ⊎_map, str_eq, update, some, arith, ◌&&◌, ltb, none, if◌then◌else◌, ◌≢◌,
  Bytes, ℕ, ◌≡◌, ◌<◌,
}
use chos.Kernel.State.Returns
use chos.Kernel.State.{Dir, load_text, ok, null, Machine, State, Ptr}

-- The caller has a link of its own to the text `b`; the dead entries are empty, and no other
-- entry is touched.
pub record Chosen (m : Machine) (a : Ptr) (b : Bytes) (s s' : State) : Type 0 where
  pub own : s'.procs (m.task m.current).pid ≡ entry_of m a m.current
  pub others :
      (j : ℕ)
      → j ≢ (m.task m.current).pid
      → s'.procs j ≡ (if ltb j s.pid_max && is_dead m j (s.procs j) then blank else s.procs j)
  pub target : text_of s' a ≡ some b
  pub texts : KeepsOthers a s s'

-- What kmalloc guarantees: the text is a new object that holds the path, and so is the link, when
-- create_link asks for it.
pub record Ready (m : Machine) (w : Write) (b : Bytes) (s : State) : Type 0 where
  pub object_ne : w.object ≢ null
  pub unused : (s1 : State) → cleanup_links m s ≡ ok tt s1 → s1.links w.object ≡ none
  pub loose : Loose w.text b s

pub assign_current-Chosen :
    {s : State} (m : Machine) (w : Write) (b : Bytes)
    → Inv null s
    → Ready m w b s
    → m.current ≢ null
    → (m.task m.current).pid < s.pid_max
    → Returns (λ _ s'. Inv null s' × Frame s s' × Chosen m w.object b s s') (assign_current m w s)
unfolding assign_current
assign_current-Chosen {s} m w b v r ne h =
    let (_, s1, e, (v1, c)) = Returns.run (cleanup_links-Cleaned m v) in
    rw e (
      Returns.mono
        (assign-Assigned m m.current w.object w.text b v1 r.object_ne (r.unused s1 e)
          (c.loose _ _ r.loose) ne (omega (arith, c.frame.pid_max)))
        λ _ s2 (v2, a). (
          v2,
          Frame-trans c.frame a.frame,
          record {
            own = ground (arith, a.procs);
            others = λ j o. ground (arith, a.procs, c.entries j);
            target = a.target;
            texts = λ x y q. ⊎_map (λ o. o) (c.texts x y) (a.texts x y q);
          },
        ))

-- The state behind the copy of the text, and what the handler then knows of the path.
abbrev pub copied : Write → State → State
copied w s = record s { texts = update s.texts w.text (some (w.copy w.buf (text_length w))) }

abbrev pub path_of : Write → Bytes
path_of w = w.copy w.buf (text_length w)

pub copied-Inv :
    {s : State} (w : Write)
    → Inv null s
    → w.text ≢ null
    → s.texts w.text ≡ none
    → Inv null (copied w s)
copied-Inv w v ne e = record {
  small = v.small;
  null_link = v.null_link;
  null_text = ground (arith, v.null_text);
  counted = v.counted;
  held = v.held;
  live = v.live;
  owned = λ a l q. let (t, et) = v.owned a l q in (t, ground arith);
  unique = v.unique;
}

pub same-Inv :
    {x : Ptr} {s s' : State}
    → Inv x s
    → s'.pid_max ≡ s.pid_max
    → s'.procs ≡ s.procs
    → s'.links ≡ s.links
    → s'.texts ≡ s.texts
    → Inv x s'
same-Inv v ep ec el et = record {
  small = rw ep v.small;
  null_link = rw el v.null_link;
  null_text = rw et v.null_text;
  counted = rw (ep, ec, el) v.counted;
  held = rw el v.held;
  live = rw (ep, ec, el) v.live;
  owned = rw (el, et) v.owned;
  unique = rw el v.unique;
}

pub copied-KeepsTexts :
    {s : State} (w : Write) → Inv null s → s.texts w.text ≡ none → KeepsTexts s (copied w s)
copied-KeepsTexts {s} w v new a t e = elim (Option-cases (s.links a)) [
  | inl free ↦ cc
  | inr (l, el) ↦ let (u, eu) = v.owned a l el in ground arith
]

pub copied-Loose :
    {s : State} (w : Write)
    → Inv null s
    → s.texts w.text ≡ none
    → Loose w.text (path_of w) (copied w s)
copied-Loose w v e = record {
  text = ground arith;
  unowned = λ a l q p. let (t, et) = v.owned a l q in ground arith;
}

pub write_setchos-set_path :
    (k : Services) (m : Machine) (w : Write) (s : State)
    → w.text ≢ null
    → write_setchos k m w s ≡ set_path k m w (path_of w) (copied w s)
unfolding write_setchos load_text
write_setchos-set_path k m w s ne = ground arith

-- The state in which the handler begins to change the table: a switch to "/" has left the chroot.
abbrev pub entered : Machine → Write → State → State
entered m w s =
    if str_eq (path_of w) slash
    then record (copied w s) { root = update s.root (m.task m.current).fs s.nochroot }
    else copied w s

-- The root directories behind a switch to the path.
abbrev pub root_after : Services → Machine → Bytes → State → Ptr → Dir
root_after k m path s =
    if str_eq path slash
    then update s.root (m.task m.current).fs s.nochroot
    else if is_chrooted m s
    then s.root
    else (moved m s
        (k.sys_chroot chosroot (bit_or (s.caps (m.task m.current).cred) cap_sys_chroot))).root

-- The whole effect of an accepted write.
pub record Switched (k : Services) (m : Machine) (w : Write) (s s' : State) : Type 0 where
  pub inv : Inv null s'
  pub chosen : Chosen m w.object (path_of w) s s'
  pub root : s'.root ≡ root_after k m (path_of w) s
  pub caps : s'.caps ≡ s.caps
  pub addr_limit : s'.addr_limit ≡ s.addr_limit
  pub valid_paths : s'.valid_paths ≡ s.valid_paths
  pub save_state : s'.save_state ≡ s.save_state
  pub pid_max : s'.pid_max ≡ s.pid_max

-- What the caller and kmalloc bring.
pub record Request (m : Machine) (w : Write) (s : State) : Type 0 where
  pub text_ne : w.text ≢ null
  pub text_new : s.texts w.text ≡ none
  pub object_ne : w.object ≢ null
  pub object_new :
      (s1 : State) → cleanup_links m (entered m w s) ≡ ok tt s1 → s1.links w.object ≡ none
  pub current_ne : m.current ≢ null
  pub in_range : (m.task m.current).pid < s.pid_max
