-- ===== src/Kernel/Links/Reset.antt =====
-- What reset_link does to the table and the links.
pub mod Race
use chos.Kernel.Links.Release.{release-null, release-shared, release-last}
use chos.Prelude.{
  refl, ℕ, ◌-◌, ◌<◌, ◌^◌, ◌≡◌, ◌≢◌, inl, inr, none, some, Bool-cases, ◌==◌, arith, update,
}
use chos.Kernel.State.Returns.{Returns, returns}
use chos.Kernel.State.{Ptr, null, Link, State, load_proc, store_proc}
use chos.Kernel.Links.{release, reset_link}
use chos.Kernel.Links.Refs.{refs-update, refs-le, refs-pos}
use chos.Kernel.Links.Inv.{Cleared, Inv, blank}

abbrev cleared : ℕ → State → State
cleared i s = record s { procs = update s.procs i blank }

reset_link-release :
    (i : ℕ) (s : State) → i < s.pid_max → reset_link i s ≡ release (s.procs i).link (cleared i s)
unfolding reset_link load_proc store_proc
reset_link-release i s h = ground arith

module _ {x : Ptr} {s : State} (v : Inv x s) (i : ℕ) (h : i < s.pid_max) where
  empty-Inv : (s.procs i).link ≡ null → Inv x (cleared i s)
  empty-Inv e = record {
    small = v.small;
    null_link = v.null_link;
    null_text = v.null_text;
    counted = λ a l q.
        ground (arith, v.counted a l q, v.null_link, refs-update a s.pid_max i s.procs blank);
    held = v.held;
    live = λ j k ne. ground (arith, v.live j);
    owned = v.owned;
    unique = v.unique;
  }

module _ {x : Ptr} {s : State} (v : Inv x s) (i : ℕ) (h : i < s.pid_max) (l : Link)
    (ne : (s.procs i).link ≢ null) (el : s.links (s.procs i).link ≡ some l) where
  abbrev shared : State
  shared = record s {
    procs = update s.procs i blank;
    links = update s.links (s.procs i).link (some (record l { count = l.count - 1 }));
  }

  abbrev freed : State
  freed = record s {
    procs = update s.procs i blank;
    links =
        update (update s.links (s.procs i).link (some (record l { count = 0 }))) (s.procs i).link
          none;
    texts = update s.texts l.text none;
  }

  count_pos : 0 < l.count
  count_pos = omega (arith, v.counted _ l el, refs-pos s.pid_max i s.procs h)

  count_bound : l.count < 2 ^ 31
  count_bound = omega (arith, v.counted _ l el, refs-le (s.procs i).link s.pid_max s.procs, v.small)

  shared-Inv : 1 < l.count → Inv x shared
  shared-Inv many = record {
    small = v.small;
    null_link = ground (arith, v.null_link);
    null_text = v.null_text;
    counted = λ a k q.
        ground (
          arith,
          v.counted a k,
          v.counted a l,
          v.null_link,
          refs-update a s.pid_max i s.procs blank,
        );
    held = λ a k q o. ground (arith, v.held a k);
    live = λ j k o. elim (Bool-cases ((s.procs j).link == (s.procs i).link)) [
      | inl same ↦ (record l { count = l.count - 1 }, ground arith)
      | inr other ↦ let (m, e) = v.live j k (ground arith) in (m, ground arith)
    ];
    owned = λ a k q. let (t, e) = v.owned _ l el in ground (arith, v.owned a k);
    unique = λ a b k m q r e.
        ground (arith, v.unique a b k m, v.unique a b l m, v.unique a b k l, v.unique a b l l);
  }

  freed-Inv : l.count ≡ 1 → Inv x freed
  freed-Inv one = record {
    small = v.small;
    null_link = ground (arith, v.null_link);
    null_text = ground (arith, v.null_text);
    counted = λ a k q.
        ground (arith, v.counted a k, v.null_link, refs-update a s.pid_max i s.procs blank);
    held = λ a k q o. ground (arith, v.held a k);
    live = λ j k o.
        let (m, e) = v.live j k (ground arith) in
        (
          m,
          ground (
            arith,
            v.counted _ l el,
            refs-update (s.procs i).link s.pid_max i s.procs blank,
            refs-pos s.pid_max j (update s.procs i blank) k,
          ),
        );
    owned = λ a k q.
        let (t, e) = v.owned a k (ground arith) in
        (t, ground (arith, v.unique a (s.procs i).link k l));
    unique = λ a b k m q r e. ground (arith, v.unique a b k m);
  }

  shared-Cleared : Cleared i s shared
  shared-Cleared = record {
    frame = ground arith;
    procs = refl;
    texts = λ a t e. ground arith;
    loose = λ q b o. record {
      text = o.text;
      unowned = λ a k e. ground (arith, o.unowned a k, o.unowned a l);
    };
    survives = λ a k e o. elim (Bool-cases (a == (s.procs i).link)) [
      | inl same ↦ (record l { count = l.count - 1 }, ground arith)
      | inr other ↦ (k, ground arith)
    ];
  }

  freed-Cleared : l.count ≡ 1 → Cleared i s freed
  freed-Cleared one = record {
    frame = ground arith;
    procs = refl;
    texts = λ a t e. ground arith;
    loose = λ q b o. record {
      text = ground (arith, o.text, o.unowned _ l el);
      unowned = λ a k e. ground (arith, o.unowned a k);
    };
    survives = λ a k e o. (k, ground arith);
  }

module _ {x : Ptr} {s : State} (v : Inv x s) (i : ℕ) (h : i < s.pid_max) where
  release-Cleared :
      (s.procs i).link ≢ null
      → Returns (λ _ s'. Inv x s' × Cleared i s s') (release (s.procs i).link (cleared i s))
  release-Cleared ne =
      let (l, el) = v.live i h ne in
      let (t, et) = v.owned _ l el in
      let pos = count_pos v i h l ne el in
      let bound = count_bound v i h l ne el in
      elim (Bool-cases (l.count == 1)) [
        | inl one ↦
            let one' : l.count ≡ 1 = ground arith in
            let nt : l.text ≢ null = ground (arith, v.null_text) in
            rw (release-last (cleared i s) _ l t ne el one' nt et)
              (returns (freed-Inv v i h l ne el one', freed-Cleared v i h l ne el one'))
        | inr more ↦
            let many : 1 < l.count = ground arith in
            rw (release-shared (cleared i s) _ l ne el many (omega arith))
              (returns (shared-Inv v i h l ne el many, shared-Cleared v i h l ne el))
      ]

-- In a state that satisfies the invariant and for an index in range, reset_link ends, empties the
-- entry and no other, frees a link with its text only with its last reference, and keeps the
-- invariant.
pub reset_link-Cleared :
    {x : Ptr} {s : State} (i : ℕ)
    → Inv x s
    → i < s.pid_max
    → Returns (λ _ s'. Inv x s' × Cleared i s s') (reset_link i s)
reset_link-Cleared {s} i v h =
    rw (reset_link-release i s h) (elim (Bool-cases ((s.procs i).link == null)) [
      | inl e ↦
          let e' : (s.procs i).link ≡ null = ground arith in
          rw (e', release-null)
            (returns (
              empty-Inv v i h e',
              record {
                frame = ground arith;
                procs = refl;
                texts = λ a t e. e;
                loose = λ q b o. record { text = o.text; unowned = o.unowned };
                survives = λ a l e o. (l, e);
              },
            ))
      | inr o ↦ release-Cleared v i h (ground arith)
    ])
