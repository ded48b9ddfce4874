-- ===== src/Kernel/Links/Create.antt =====
-- create_link and the set_link behind it.
use chos.Kernel.Links.{set_link, create_link}
use chos.Kernel.State.Returns.{Returns}
use chos.Kernel.Links.Refs.{refs_none, refs}
use chos.Kernel.Links.Set.{set_link-Bound, CanHold, entry_of}
use chos.Kernel.Links.Inv.{KeepsOthers, Loose, Frame, text_of, Inv}
use chos.Prelude.{
  refl, inl, ◌==◌, Bool-cases, inr, arith, update, some, none, Bytes, ◌≢◌, ℕ, ◌≡◌, ◌<◌,
}
use chos.Kernel.State.Returns
use chos.Kernel.State.{◌>>=◌, ok, null, Machine, State, Ptr}

module _ {s : State} (v : Inv null s) (fresh p : Ptr) (t : Bytes) (ne : fresh ≢ null)
    (unused : s.links fresh ≡ none) (own : Loose p t s) where
  abbrev created : State
  created = record s { links = update s.links fresh (some (record { text = p; count = 0 })) }

  unreferred : refs fresh s.pid_max s.procs ≡ 0
  unreferred =
      refs_none fresh s.pid_max s.procs
        λ i k e. let (l, el) = v.live i k (ground arith) in ground arith

  created-Inv : Inv fresh created
  created-Inv = record {
    small = v.small;
    null_link = ground (arith, v.null_link);
    null_text = v.null_text;
    counted = λ a l q. ground (arith, v.counted a l, unreferred);
    held = λ a l q o. ground (arith, v.held a l, v.null_link);
    live = λ i k o. let (l, el) = v.live i k o in (l, ground arith);
    owned = λ a l q. elim (Bool-cases (a == fresh)) [
      | inl same ↦ (t, ground (arith, own.text))
      | inr other ↦ let (u, e) = v.owned a l (ground arith) in (u, e)
    ];
    unique = λ a b k m q r e. ground (arith, v.unique a b k m, own.unowned a k, own.unowned b m);
  }

  created-KeepsOthers : KeepsOthers fresh s created
  created-KeepsOthers a u e = elim (Bool-cases (a == fresh)) [
    | inl same ↦ inl (ground arith)
    | inr other ↦ inr (rw (other, text_of) at e)
  ]

  create_link-ok : create_link fresh p s ≡ ok fresh created
  unfolding create_link
  create_link-ok = ground arith

  created-CanHold : (i : ℕ) → i < s.pid_max → CanHold created i fresh
  created-CanHold i h = inr (
    record { text = p; count = 0 },
    ground arith,
    inl (λ e. let (l, el) = v.live i h (ground arith) in ground arith),
  )

-- The entry of `t` now has a link of its own, to the text `b`; the other entries are as before.
pub record Assigned (m : Machine) (t : Ptr) (a : Ptr) (b : Bytes) (s s' : State) : Type 0 where
  pub frame : Frame s s'
  pub procs : s'.procs ≡ update s.procs (m.task t).pid (entry_of m a t)
  pub target : text_of s' a ≡ some b
  pub texts : KeepsOthers a s s'

pub text_of-live :
    {x : Ptr} {s : State} (i : ℕ)
    → Inv x s
    → i < s.pid_max
    → (s.procs i).link ≢ null
    → (t : Bytes) × (text_of s (s.procs i).link ≡ some t)
text_of-live {s} i v h ne =
    let (l, el) = v.live i h ne in let (t, et) = v.owned _ l el in (t, ground arith)

-- create_link and set_link together give the process a link of its own.
pub assign-Assigned :
    {s : State} (m : Machine) (t fresh p : Ptr) (b : Bytes)
    → Inv null s
    → fresh ≢ null
    → s.links fresh ≡ none
    → Loose p b s
    → t ≢ null
    → (m.task t).pid < s.pid_max
    → Returns
        (λ _ s'. Inv null s' × Assigned m t fresh b s s')
        ((create_link fresh p >>= λ link. set_link m link t) s)
assign-Assigned {s} m t fresh p b v ne unused own nt h =
    rw (create_link-ok v fresh p b ne unused own) (
      Returns.mono
        (set_link-Bound m fresh t (created-Inv v fresh p b ne unused own) (inr refl) nt h
          (created-CanHold v fresh p b ne unused own (m.task t).pid h))
        λ _ s' (v', bound).
          let (u, eu) =
            text_of-live (m.task t).pid v' (omega (arith, bound.frame.pid_max))
              (ground (arith, bound.procs)) in
          (
            v',
            record {
              frame = ground (arith, bound.frame);
              procs = bound.procs;
              target = ground (arith, bound.procs, bound.texts fresh u, own.text);
              texts =
                  λ x y e. created-KeepsOthers v fresh p b ne unused own x y (bound.texts x y e);
            },
          ))
