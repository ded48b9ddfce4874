-- ===== src/Kernel/Links/Set/Race.antt =====
-- lookup_link against a reset_link on another processor: no lock and no reference protects the link
-- between the read of the parent's entry and the write of the own.
use chos.Kernel.Links.Reset.{reset_link-Cleared}
use chos.Kernel.Links.Lookup.{remember-set}
use chos.Kernel.Links.Resolve.{lookup_link-cached}
use chos.Kernel.Links.{not_cached, lookup_entry, acquire, lookup_link, reset_link, set_link}
use chos.Kernel.Links.Inv.{Cleared, Inv}
use chos.Kernel.Links.Refs.{refs, refs-two, refs_none}
use chos.Kernel.Links.Set.{set_link-Bound, CanHold, vacate-Vacated, finish, set_link-vacate}
use chos.Kernel.Links.Way.{is_top, pid_of}
use chos.Kernel.State.{
  ok, Link, Cmd, Machine, Proc, Ptr, State, null, fault, use_after_free, pure, ◌>>=◌, ◌>>◌,
}
use chos.Kernel.State.Returns.{Returns, returns}
use chos.Kernel.State.Returns
use chos.Prelude.{
  some, false, suc, true, ◌∙◌, ◌⊎◌, sym, ap, ℕ, ◌<◌, ◌==◌, ◌≡◌, ◌≢◌, refl, none, arith, inl, inr,
  Bool-cases, Option-cases, update,
}

-- No entry holds the link at `a`.
abbrev Unheld : Ptr → State → Type 0
Unheld a s = (j : ℕ) → j < s.pid_max → (s.procs j).link ≢ a

-- Such a link is not allocated.
Unheld-none : {s : State} {a : Ptr} → Inv null s → a ≢ null → Unheld a s → s.links a ≡ none
Unheld-none {s} {a} v ne h = elim (Option-cases (s.links a)) [
  | inl gone ↦ gone
  | inr (l, e) ↦
      absurd (omega (arith, v.counted a l e, refs_none a s.pid_max s.procs h, v.held a l e ne))
]

acquire-none :
    (a : Ptr) (s : State) → a ≢ null → s.links a ≡ none → acquire a s ≡ fault use_after_free
unfolding acquire
acquire-none a s ne e = ground arith

set_link-Unheld :
    (m : Machine) (a t : Ptr) {s : State}
    → Inv null s
    → t ≢ null
    → pid_of m t < s.pid_max
    → a ≢ null
    → Unheld a s
    → set_link m a t s ≡ fault use_after_free
unfolding finish
set_link-Unheld m a t {s} v nt h ne un =
    let (_, s1, e, (v1, w)) = Returns.run (vacate-Vacated (pid_of m t) v h) in
    let still : Unheld a s1 = λ j k. elim (Bool-cases (j == pid_of m t)) [
      | inl own ↦ ground (arith, w.empty)
      | inr other ↦
          let same : update s1.procs (pid_of m t) (s.procs j) j
              ≡ update s.procs (pid_of m t) (s.procs j) j =
            ap (λ (procs : ℕ → Proc). procs j) (w.others (s.procs j)) in
          ground (arith, same, un j, w.frame.pid_max)
    ] in
    rw (set_link-vacate m a t s nt h, e, acquire-none a s1 ne (Unheld-none v1 ne still)) refl

-- lookup_link for the parent of `t`, and then the reset_link that the parent itself runs.
abbrev pub interrupted_walk : Machine → ℕ → Ptr → Cmd Ptr
interrupted_walk m fuel t =
    lookup_link m fuel (m.task t).parent >>= λ a. reset_link (pid_of m (m.task t).parent) >> pure a

-- A task whose entry does not hold, below a parent whose entry does, with the link `l`.
pub record Below (m : Machine) (t : Ptr) (l : Link) (s : State) : Type 0 where
  pub task : t ≢ null
  pub in_range : pid_of m t < s.pid_max
  pub stale : not_cached m t (s.procs (pid_of m t)) ≡ true
  pub low : is_top m (m.task t).parent ≡ false
  pub parent_in_range : pid_of m (m.task t).parent < s.pid_max
  pub cached : not_cached m (m.task t).parent (s.procs (pid_of m (m.task t).parent)) ≡ false
  pub link : s.links (s.procs (pid_of m (m.task t).parent)).link ≡ some l

module _ {m : Machine} {t : Ptr} {l : Link} {s : State} (v : Inv null s) (q : Below m t l s)
    (fuel : ℕ) where
  abbrev parent : ℕ
  parent = pid_of m (m.task t).parent

  abbrev found : Ptr
  found = (s.procs parent).link

  found_ne : found ≢ null
  found_ne = ground (arith, q.cached)

  -- The entry is read, the walk ends, and remember runs where the parent's entry is empty.
  interrupted :
      {s1 : State}
      → reset_link parent s ≡ ok tt s1
      → lookup_entry m t (interrupted_walk m (suc fuel) t) s ≡ (set_link m found t >> pure found) s1
  unfolding lookup_entry
  interrupted {s1} e =
      let walked : lookup_link m (suc fuel) (m.task t).parent s ≡ ok found s =
        lookup_link-cached m fuel (m.task t).parent s q.low q.parent_in_range q.cached in
      rw (sym (remember-set m t found s1 found_ne)) (ground (arith, q.in_range, q.stale, walked, e))

  own-CanHold :
      {s1 : State}
      → Cleared parent s s1
      → (s.procs (pid_of m t)).link ≢ found
      → 1 < l.count
      → CanHold s1 (pid_of m t) found
  own-CanHold c apart many =
      let (k, e) = c.survives found l q.link (inr many) in
      inr (k, e, inl (ground (arith, c.procs, found_ne)))

  last-Unheld : {s1 : State} → Cleared parent s s1 → l.count ≡ 1 → Unheld found s1
  last-Unheld c one j h own = elim (Bool-cases (j == parent)) [
    | inl same ↦ ground (arith, c.procs, found_ne)
    | inr other ↦
        let hj : j < s.pid_max = omega (arith, h, c.frame.pid_max) in
        let held : (s.procs j).link ≡ found = ground (arith, c.procs, own) in
        let two : 1 < refs found s.pid_max s.procs =
          refs-two found s.pid_max j parent s.procs hj q.parent_in_range (ground (arith, other))
            held refl found_ne in
        let once : l.count ≡ refs found s.pid_max s.procs = v.counted found l q.link in
        omega (arith, two, once, one)
  ]

  -- Take a task whose entry holds no valid link, and not the one of its parent, below a parent
  -- whose entry holds a valid one, in a state that satisfies the invariant. If the parent's entry
  -- is emptied by reset_link after lookup_link has read it and before the own entry is written,
  -- then there are two cases: with one reference to the link, the search ends in a use of freed
  -- memory, and with more it returns the link and keeps the invariant.
  pub lookup_entry-races :
      (s.procs (pid_of m t)).link ≢ (s.procs (pid_of m (m.task t).parent)).link
      → ((l.count ≡ 1)
          × (lookup_entry m t (interrupted_walk m (suc fuel) t) s ≡ fault use_after_free))
        ⊎ ((1 < l.count)
            × Returns
                (λ a s'. Inv null s' × (a ≡ (s.procs (pid_of m (m.task t).parent)).link))
                (lookup_entry m t (interrupted_walk m (suc fuel) t) s))
  lookup_entry-races apart =
      let (_, s1, e, (v1, c)) = Returns.run (reset_link-Cleared parent v q.parent_in_range) in
      let h1 : pid_of m t < s1.pid_max = omega (arith, q.in_range, c.frame.pid_max) in
      elim (Bool-cases (l.count == 1)) [
        | inl one ↦ inl (
          ground (arith, one),
          interrupted e
              ∙ rw
                  (set_link-Unheld m found t v1 q.task h1 found_ne
                    (last-Unheld c (ground (arith, one))))
                  refl,
        )
        | inr more ↦
            let many : 1 < l.count = ground (arith, more, v.held found l q.link found_ne) in
            inr (
              many,
              rw (interrupted e) (
                  Returns.bind
                    (set_link-Bound m found t v1 (inl refl) q.task h1 (own-CanHold c apart many))
                    λ _ s2 (v2, b). returns (v2, refl)),
            )
      ]
