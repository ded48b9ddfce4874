-- ===== src/Kernel/Locks/Processors/Progress.antt =====
-- The processors of Kernel/Locks/Processors.antt do not wait for each other in a circle.
use chos.Prelude.{
  ℕ, zero, suc, ◌<◌, ◌≡◌, ◌≢◌, ◌⊎◌, inl, inr, Bool, true, false, not, Bool-cases, arith, refl,
  subst,
}
use chos.Kernel.Locks.{
  Lock, tasklist_lock, reader, writer, Locks, no_locks, is_free, is_reading, is_writing, in_order,
  free, reading, writing, Hold,
}
use chos.Kernel.Locks.Processors.Move.{Kept, next-Kept}
use chos.Kernel.Locks.Processors.Apart.{Sound, Reached-Sound}
use chos.Kernel.Locks.Processors.{Processor, lets, granted, over, waits, Smp, next_of, Reached}

-- One of the first `n` processors holds locks as `b` says, or none does.
search :
    (b : Locks → Bool) (n : ℕ) (ps : ℕ → Processor)
    → ((i : ℕ) × (i < n) × (b (ps i).locks ≡ true)) ⊎ ((i : ℕ) → i < n → b (ps i).locks ≡ false)
search b zero ps = inr λ i k. absurd (omega (arith, k))
search b (suc n) ps = elim (Bool-cases (b (ps n).locks)) [
  | inl e ↦ inl (n, omega arith, e)
  | inr e ↦ elim (search b n ps) [
    | inl (i, k, h) ↦ inl (i, omega (arith, k), h)
    | inr h ↦ inr λ i k. ground (arith, e, k, h i)
  ]
]

pub granted-all :
    (n : ℕ) (ps : ℕ → Processor) (h : Lock)
    → ((i : ℕ) → i < n → lets h (ps i).locks ≡ true)
    → granted n ps h ≡ true
unfolding granted
granted-all zero ps h k = refl
granted-all (suc n) ps h k =
    rw (k n (omega arith)) (granted-all n ps h λ i l. k i (omega (arith, l)))

clear :
    (i : ℕ) (e : Hold)
    → not (is_free e) ≡ false
    → (is_writing i e ≡ false) × (is_reading i e ≡ false)
clear i free h = (refl, refl)
clear i (reading j) h = absurd (ground (arith, h))
clear i (writing j) h = absurd (ground (arith, h))

-- A processor without the lock of an entry lets every such lock be taken.
pub lets_lem :
    (h : Lock) (l : Locks)
    → not (is_free l.entry) ≡ false
    → (h ≡ tasklist_lock → l.tasklist ≡ false)
    → lets h l ≡ true
lets_lem tasklist_lock l e t = rw (t refl) refl
lets_lem (reader i) l e t = rw ((clear i l.entry e).0) refl
lets_lem (writer i) l e t = rw ((clear i l.entry e).0, (clear i l.entry e).1) refl

entry_out : (h : Lock) (l : Locks) → in_order h l ≡ true → not (is_free l.entry) ≢ true
entry_out tasklist_lock l o e = ground (arith, o, e)
entry_out (reader i) l o e = ground (arith, o, e)
entry_out (writer i) l o e = ground (arith, o, e)

tasklist_out : (h : Lock) (l : Locks) → in_order h l ≡ true → l.tasklist ≡ true → h ≢ tasklist_lock
tasklist_out tasklist_lock l o e d = ground (arith, o, e)
tasklist_out (reader i) l o e d = ground (arith, d)
tasklist_out (writer i) l o e d = ground (arith, d)

module _ (n : ℕ) {c : Smp} (v : Sound n c) (i : ℕ) (k : i < n) where
  pub over_lem : next_of n i c ≡ over → (c.at i).locks ≡ no_locks
  unfolding next_of
  over_lem e =
      subst (Kept (granted n c.at) (c.at i).locks) e
        (next-Kept (granted n c.at) (c.at i).locks (c.at i).rest c.memory (v.ordered i k))

  waits_lem :
      next_of n i c ≡ waits
      → (h : Lock) × (in_order h (c.at i).locks ≡ true) × (granted n c.at h ≡ false)
  unfolding next_of
  waits_lem e =
      subst (Kept (granted n c.at) (c.at i).locks) e
        (next-Kept (granted n c.at) (c.at i).locks (c.at i).rest c.memory (v.ordered i k))

  -- One that holds the lock of an entry does not wait, and its call is not over.
  holder_acts :
      not (is_free (c.at i).locks.entry) ≡ true → (next_of n i c ≢ over) × (next_of n i c ≢ waits)
  holder_acts h = (
    λ e. ground (arith, h, over_lem e),
    λ e. let (a, o, g) = waits_lem e in entry_out a (c.at i).locks o h,
  )

  -- Where none holds the lock of an entry, one that holds tasklist_lock does not wait either.
  tasklist_acts :
      ((j : ℕ) → j < n → not (is_free (c.at j).locks.entry) ≡ false)
      → (c.at i).locks.tasklist ≡ true
      → (next_of n i c ≢ over) × (next_of n i c ≢ waits)
  tasklist_acts f h = (
    λ e. ground (arith, h, over_lem e),
    λ e.
        let (a, o, g) = waits_lem e in
        ground (
          arith,
          g,
          granted-all n c.at a λ j kj.
              lets_lem a (c.at j).locks (f j kj) λ d. absurd (tasklist_out a (c.at i).locks o h d),
        ),
  )

  -- And where none holds anything, none waits.
  none_waits :
      ((j : ℕ) → j < n → not (is_free (c.at j).locks.entry) ≡ false)
      → ((j : ℕ) → j < n → (c.at j).locks.tasklist ≡ false)
      → next_of n i c ≢ waits
  none_waits f t e =
      let (a, o, g) = waits_lem e in
      ground (arith, g, granted-all n c.at a λ j kj. lets_lem a (c.at j).locks (f j kj) λ _. t j kj)

-- For any number of processors on one memory, each of which makes calls of any kind with their
-- locks, one step of one processor after another in any order, from a point where none is in a
-- call: whenever the call of one processor is not over, some processor can make its next step,
-- which may be a fault, without a wait. So they never all wait for locks that others hold.
pub Reached-progresses :
    (n : ℕ) {c : Smp} (j : ℕ)
    → Reached n c
    → j < n
    → next_of n j c ≢ over
    → (i : ℕ) × (i < n) × (next_of n i c ≢ over) × (next_of n i c ≢ waits)
Reached-progresses n {c} j r k ne =
    let v = Reached-Sound n r in
    elim (search (λ l. not (is_free l.entry)) n c.at) [
      | inl (i, ki, h) ↦ let q = holder_acts n v i ki h in (i, ki, q.0, q.1)
      | inr f ↦ elim (search (λ l. l.tasklist) n c.at) [
        | inl (i, ki, h) ↦ let q = tasklist_acts n v i ki f h in (i, ki, q.0, q.1)
        | inr t ↦ (j, k, ne, none_waits n v j k f t)
      ]
    ]
