-- ===== src/Kernel/Links/Set.antt =====
-- What set_link does to the table and the links.
pub mod Race
use chos.Kernel.Links.Reset.{reset_link-Cleared}
use chos.Kernel.State.Returns
use chos.Kernel.Links.{acquire, set_link, reset_link}
use chos.Kernel.Links.Refs.{refs-le, refs-update}
use chos.Kernel.State.Returns.{returns, Returns}
use chos.Kernel.Links.Inv.{KeepsLoose, Frame-trans, Bound, KeepsTexts, Inv, Frame}
use chos.Prelude.{
  ◌∙◌, ◌^◌, refl, fun_ext, inr, ◌+◌, inl, some, arith, update, ◌==◌, not, ◌⊎◌, Bool-cases,
  if◌then◌else◌, ℕ, ◌≡◌, ◌<◌, ◌≢◌,
}
use chos.Kernel.State.{
  fault, out_of_bounds, ok, Machine, load_proc, ◌>>◌, store_proc, pure, Link, Proc, null, Cmd,
  State, Ptr,
}

-- The entry `i` holds no link any more, or never did.
record Vacated (i : ℕ) (s s' : State) : Type 0 where
  frame : Frame s s'
  empty : (s'.procs i).link ≡ null
  others : (p : Proc) → update s'.procs i p ≡ update s.procs i p
  texts : KeepsTexts s s'
  loose : KeepsLoose s s'
  survives :
      (a : Ptr) (l : Link)
      → s.links a ≡ some l
      → (a ≢ (s.procs i).link) ⊎ (1 < l.count)
      → (k : Link) × (s'.links a ≡ some k)

vacate : ℕ → Ptr → Cmd (Unit {0})
vacate i link = if not (link == null) then reset_link i else pure tt

vacate-Vacated :
    {x : Ptr} {s : State} (i : ℕ)
    → Inv x s
    → i < s.pid_max
    → Returns (λ _ s'. Inv x s' × Vacated i s s') (vacate i (s.procs i).link s)
unfolding vacate
vacate-Vacated {s} i v h = elim (Bool-cases ((s.procs i).link == null)) [
  | inl e ↦ rw e (
      returns (
        v,
        record {
          frame = ground arith;
          empty = ground arith;
          others = λ p. refl;
          texts = λ a t e. e;
          loose = λ q b o. o;
          survives = λ a l e o. (l, e);
        },
      ))
  | inr o ↦ rw o (
      Returns.mono (reset_link-Cleared i v h) λ _ s' (v', c). (
        v',
        record {
          frame = c.frame;
          empty = ground (arith, c.procs);
          others = λ p. fun_ext λ j. ground (arith, c.procs);
          texts = c.texts;
          loose = c.loose;
          survives = c.survives;
        },
      ))
]

-- The states behind set_link: without a link, and with one more reference to `l`.
abbrev stored : State → ℕ → Proc → State
stored s i p = record s { procs = update s.procs i p }

abbrev counted_again : State → ℕ → Proc → Ptr → Link → State
counted_again s i p link l = record s {
  procs = update s.procs i p;
  links = update s.links link (some (record l { count = l.count + 1 }));
}

module _ {x link : Ptr} {s : State} (v : Inv x s) (held : (x ≡ null) ⊎ (x ≡ link)) (i : ℕ)
    (p : Proc) (h : i < s.pid_max) (empty : (s.procs i).link ≡ null) (is : p.link ≡ link) where
  stored-null-Inv : link ≡ null → Inv null (stored s i p)
  stored-null-Inv e = record {
    small = v.small;
    null_link = v.null_link;
    null_text = v.null_text;
    counted =
        λ a l q. ground (arith, v.counted a l q, v.null_link, refs-update a s.pid_max i s.procs p);
    held = λ a l q o. ground (arith, v.held a l);
    live = λ j k o. ground (arith, v.live j);
    owned = v.owned;
    unique = v.unique;
  }

  counted_again-Inv : (l : Link) → s.links link ≡ some l → Inv null (counted_again s i p link l)
  counted_again-Inv l el = record {
    small = v.small;
    null_link = ground (arith, v.null_link);
    null_text = v.null_text;
    counted = λ a k q.
        ground
          (arith, v.counted a k, v.counted a l, v.null_link, refs-update a s.pid_max i s.procs p);
    held = λ a k q o. ground (arith, v.held a k, v.null_link);
    live = λ j k o. elim (Bool-cases ((update s.procs i p j).link == link)) [
      | inl same ↦ (record l { count = l.count + 1 }, ground arith)
      | inr other ↦ let (m, e) = v.live j k (ground arith) in (m, ground arith)
    ];
    owned = λ a k q. let (t, e) = v.owned _ l el in ground (arith, v.owned a k);
    unique = λ a b k m q r e.
        ground (arith, v.unique a b k m, v.unique a b l m, v.unique a b k l, v.unique a b l l);
  }

finish : Ptr → ℕ → Proc → Cmd (Unit {0})
finish link i p = acquire link >> store_proc i p

finish-null :
    (s : State) (i : ℕ) (p : Proc) → i < s.pid_max → finish null i p s ≡ ok tt (stored s i p)
unfolding finish acquire store_proc
finish-null s i p h = ground arith

finish-some :
    (s : State) (link : Ptr) (i : ℕ) (p : Proc) (l : Link)
    → i < s.pid_max
    → link ≢ null
    → s.links link ≡ some l
    → l.count < 2 ^ 31
    → finish link i p s ≡ ok tt (counted_again s i p link l)
unfolding finish acquire store_proc
finish-some s link i p l h ne el k = ground arith

set_link-vacate :
    (m : Machine) (link t : Ptr) (s : State)
    → t ≢ null
    → (m.task t).pid < s.pid_max
    → set_link m link t s
      ≡ (vacate (m.task t).pid (s.procs (m.task t).pid).link
            >> finish link
                (m.task t).pid
                (record { link = link; start_time = (m.task t).start_time }))
          s
unfolding set_link load_proc vacate finish
set_link-vacate m link t s ne h = ground arith

-- A link that set_link can be given: null, or one that the entry `i` is not the last to hold.
abbrev pub CanHold : State → ℕ → Ptr → Type 0
CanHold s i link =
    (link ≡ null)
    ⊎ ((l : Link) × (s.links link ≡ some l) × (((s.procs i).link ≢ link) ⊎ (1 < l.count)))

module _ {x link : Ptr} {s : State} (v : Inv x s) (held : (x ≡ null) ⊎ (x ≡ link)) (i : ℕ)
    (p : Proc) (h : i < s.pid_max) (is : p.link ≡ link) where
  finish-Bound :
      (s.procs i).link ≡ null
      → (link ≡ null) ⊎ ((l : Link) × (s.links link ≡ some l))
      → Returns (λ _ s'. Inv null s' × Bound i p s s') (finish link i p s)
  finish-Bound empty (inl e) =
      rw (e, finish-null s i p h)
        (returns (
          stored-null-Inv v held i p h empty is e,
          record {
            frame = ground arith;
            procs = refl;
            texts = λ a t q. q;
            loose = λ q b o. record { text = o.text; unowned = o.unowned };
          },
        ))
  finish-Bound empty (inr (l, e)) =
      rw
        (finish-some s link i p l h (ground (arith, v.null_link)) e
          (omega (arith, v.counted _ l e, refs-le link s.pid_max s.procs, v.small)))
        (returns (
          counted_again-Inv v held i p h empty is l e,
          record {
            frame = ground arith;
            procs = refl;
            texts = λ a t q. ground arith;
            loose = λ q b o. record {
              text = o.text;
              unowned = λ a k r. ground (arith, o.unowned a k, o.unowned a l);
            };
          },
        ))

Bound-Vacated : {s t u : State} {i : ℕ} {p : Proc} → Vacated i s t → Bound i p t u → Bound i p s u
Bound-Vacated {p} w b = record {
  frame = Frame-trans w.frame b.frame;
  procs = b.procs ∙ w.others p;
  texts = λ a q e. w.texts a q (b.texts a q e);
  loose = λ a q e. b.loose a q (w.loose a q e);
}

-- The entry that set_link writes for the task `t`.
abbrev pub entry_of : Machine → Ptr → Ptr → Proc
entry_of m link t = record { link = link; start_time = (m.task t).start_time }

-- In a state whose invariant exempts at most the link handed over, for a task that is not null and
-- in range, and a link that is null or lives on when the task's entry is emptied: set_link ends,
-- writes the entry of its task and no other, keeps every text, and leaves the invariant without the
-- exemption.
pub set_link-Bound :
    {x : Ptr} {s : State} (m : Machine) (link t : Ptr)
    → Inv x s
    → (x ≡ null) ⊎ (x ≡ link)
    → t ≢ null
    → (m.task t).pid < s.pid_max
    → CanHold s (m.task t).pid link
    → Returns
        (λ _ s'. Inv null s' × Bound (m.task t).pid (entry_of m link t) s s')
        (set_link m link t s)
set_link-Bound {s} m link t v held ne h can = rw (set_link-vacate m link t s ne h) (
    Returns.bind (vacate-Vacated (m.task t).pid v h) λ _ s1 (v1, w).
      Returns.mono
        (finish-Bound v1 held (m.task t).pid (entry_of m link t) (omega (arith, w.frame.pid_max))
          refl w.empty (still w can))
        λ _ s2 (v2, b). (v2, Bound-Vacated w b))
  where
    still :
        {s1 : State}
        → Vacated (m.task t).pid s s1
        → CanHold s (m.task t).pid link
        → (link ≡ null) ⊎ ((l : Link) × (s1.links link ≡ some l))
    still w (inl e) = inl e
    still w (inr (l, e, o)) = inr (w.survives link l e (ground arith))

-- A task whose pid is `pid_max` passes BUG_ON, and set_link then reads one past the end of the
-- table, whatever the table holds.
set_link_at_pid_max :
    (m : Machine) (link t : Ptr) (s : State)
    → t ≢ null
    → (m.task t).pid ≡ s.pid_max
    → set_link m link t s ≡ fault out_of_bounds
unfolding set_link load_proc
set_link_at_pid_max m link t s ne h = ground arith
