-- ===== src/Kernel/Links/Reset/Race.antt =====
-- Two processors in reset_link, on entries with one link: the count goes down and is read again in
-- two steps.
use chos.Kernel.Links.Reset.{reset_link-Cleared}
use chos.Kernel.State.Returns.{Returns}
use chos.Kernel.State.Returns
use chos.Kernel.Links.Refs.{refs-update, refs}
use chos.Kernel.Links.{destroy_unused, drop_reference, reset_link}
use chos.Kernel.Links.Inv.{Inv, blank}
use chos.Kernel.State.{
  Cmd, Link, Ptr, State, null, fault, ok, use_after_free, load_proc, store_proc, pure, ◌>>=◌, ◌>>◌,
}
use chos.Prelude.{
  inr, inl, Option-cases, refl, Bytes, ℕ, ◌-◌, ◌^◌, ◌<◌, ◌≡◌, ◌≢◌, none, some, arith, update,
}

-- The first half of reset_link for an entry with a link: the entry is emptied and the count goes
-- down.
unfoldable pub unlink : ℕ → Cmd Ptr
unfolding load_proc store_proc drop_reference
unlink i = do p ← load_proc i; store_proc i blank; drop_reference p.link; pure p.link

-- Without an interruption, the second half makes it whole.
reset_link-unlink :
    (i : ℕ) (s : State)
    → i < s.pid_max
    → (s.procs i).link ≢ null
    → reset_link i s ≡ (unlink i >>= destroy_unused) s
unfolding reset_link unlink
reset_link-unlink i s h ne = ground (arith, ne)

-- The state behind it.
abbrev unlinked : ℕ → Ptr → Link → State → State
unlinked i a l s = record s {
  procs = update s.procs i blank;
  links = update s.links a (some (record l { count = l.count - 1 }));
}

unlink-some :
    (i : ℕ) (s : State) {a : Ptr} {l : Link}
    → i < s.pid_max
    → (s.procs i).link ≡ a
    → a ≢ null
    → s.links a ≡ some l
    → 0 < l.count
    → l.count < 2 ^ 32
    → unlink i s ≡ ok a (unlinked i a l s)
unfolding unlink
unlink-some i s h own ne e pos k = ground arith

destroy_unused-last :
    (a : Ptr) (s : State) {l : Link} {t : Bytes}
    → a ≢ null
    → s.links a ≡ some l
    → l.count ≡ 0
    → l.text ≢ null
    → s.texts l.text ≡ some t
    → (s1 : State) × (destroy_unused a s ≡ ok tt s1) × (s1.links a ≡ none)
unfolding destroy_unused
destroy_unused-last a s {l} ne e z nt et = (
  record s { links = update s.links a none; texts = update s.texts l.text none },
  ground arith,
  ground arith,
)

destroy_unused-none :
    (a : Ptr) (s : State) → a ≢ null → s.links a ≡ none → destroy_unused a s ≡ fault use_after_free
unfolding destroy_unused
destroy_unused-none a s ne e = ground arith

-- Two entries hold the last two references to a link.
pub record LastTwo (i j : ℕ) (a : Ptr) (l : Link) (s : State) : Type 0 where
  pub first_in_range : i < s.pid_max
  pub second_in_range : j < s.pid_max
  pub apart : i ≢ j
  pub link : a ≢ null
  pub first : (s.procs i).link ≡ a
  pub second : (s.procs j).link ≡ a
  pub allocated : s.links a ≡ some l
  pub two : l.count ≡ 2

module _ {i j : ℕ} {a : Ptr} {l : Link} {s : State} (v : Inv null s) (q : LastTwo i j a l s) where
  -- Behind the two first halves the count is 0.
  both_unlinked :
      (s1 : State) × ((unlink i >> unlink j) s ≡ ok a s1)
      × (s1.links a ≡ some (record l { count = 0 }))
      × (s1.texts ≡ s.texts)
  both_unlinked =
      let l1 : Link = record l { count = l.count - 1 } in
      let s1 = unlinked i a l s in
      let first : unlink i s ≡ ok a s1 =
        unlink-some i s q.first_in_range q.first q.link q.allocated (omega (arith, q.two))
          (omega (arith, q.two)) in
      let second : unlink j s1 ≡ ok a (unlinked j a l1 s1) =
        unlink-some j s1 q.second_in_range (ground (arith, q.apart, q.second)) q.link (ground arith)
          (omega (arith, q.two)) (omega (arith, q.two)) in
      (unlinked j a l1 s1, rw (first, second) refl, ground (arith, q.two), refl)

  emptied :
      (s1 s2 : State)
      → s1.procs ≡ update s.procs i blank
      → s1.pid_max ≡ s.pid_max
      → s2.procs ≡ update s1.procs j blank
      → s2.pid_max ≡ s1.pid_max
      → refs a s2.pid_max s2.procs ≡ 0
  emptied s1 s2 e1 m1 e2 m2 =
      let once = refs-update a s.pid_max i s.procs blank q.first_in_range in
      let twice = refs-update a s.pid_max j (update s.procs i blank) blank q.second_in_range in
      let all : l.count ≡ refs a s.pid_max s.procs = v.counted a l q.allocated in
      rw (m2, m1, e2, e1)
        (ground (arith, once, twice, all, q.two, q.first, q.second, q.apart, q.link))

  -- Take two entries that hold the last two references to a link, in a state that satisfies the
  -- invariant. reset_link is the decrement (with the entry emptied) and then the look at the count.
  -- If both decrements come before both looks, the second look is a use of freed memory; if one
  -- call of reset_link follows the other, both end without a fault, the link is freed, and the
  -- invariant is kept.
  pub reset_link-races :
      (reset_link i s ≡ (unlink i >>= destroy_unused) s)
      × ((unlink i >> unlink j >> destroy_unused a >> destroy_unused a) s ≡ fault use_after_free)
      × Returns (λ _ s'. Inv null s' × (s'.links a ≡ none)) ((reset_link i >> reset_link j) s)
  reset_link-races =
      (reset_link-unlink i s q.first_in_range (ground (arith, q.first, q.link)), raced, in_turn)
    where
      raced :
          (unlink i >> unlink j >> destroy_unused a >> destroy_unused a) s ≡ fault use_after_free
      raced =
          let (s1, e1, el, et) = both_unlinked in
          let (t, has_text) = v.owned a l q.allocated in
          let (s2, e2, gone) =
            destroy_unused-last a s1 {l = record l { count = 0 }} {t = t} q.link el refl
              (ground (arith, has_text, v.null_text)) (rw et has_text) in
          rw (e1, e2) (destroy_unused-none a s2 q.link gone)

      in_turn :
          Returns (λ _ s'. Inv null s' × (s'.links a ≡ none)) ((reset_link i >> reset_link j) s)
      in_turn = Returns.bind (reset_link-Cleared i v q.first_in_range) λ _ s1 (v1, c1).
          Returns.mono
            (reset_link-Cleared j v1 (omega (arith, q.second_in_range, c1.frame.pid_max)))
            λ _ s2 (v2, c2).
              let zero_left = emptied s1 s2 c1.procs c1.frame.pid_max c2.procs c2.frame.pid_max in
              (
                v2,
                elim (Option-cases (s2.links a)) [
                  | inl gone ↦ gone
                  | inr (k, e) ↦
                      absurd (omega (arith, v2.counted a k e, zero_left, v2.held a k e q.link))
                ],
              )
