-- ===== src/Kernel/Links/Refs.antt =====
-- How many entries of the process table refer to a link.
use chos.Prelude.{◌≢◌, ℕ, zero, suc, ◌+◌, ◌≤◌, ◌<◌, ◌≡◌, refl, arith, ◌==◌, if◌then◌else◌, update}
use chos.Kernel.State.{Ptr, Proc}

abbrev pub one_if : Ptr → Proc → ℕ
one_if a p = if p.link == a then 1 else 0

-- The references to `a` among the first `n` entries.
unfoldable pub refs : Ptr → ℕ → (ℕ → Proc) → ℕ
refs a zero procs = 0
refs a (suc n) procs = one_if a (procs n) + refs a n procs

pub refs-update_ge :
    (a : Ptr) (n i : ℕ) (procs : ℕ → Proc) (p : Proc)
    → n ≤ i
    → refs a n (update procs i p) ≡ refs a n procs
unfolding refs
refs-update_ge a zero i procs p h = refl
refs-update_ge a (suc n) i procs p h = ground (arith, refs-update_ge a n i procs p)

-- A write to one entry moves one reference.
pub refs-update :
    (a : Ptr) (n i : ℕ) (procs : ℕ → Proc) (p : Proc)
    → i < n
    → refs a n (update procs i p) + one_if a (procs i) ≡ refs a n procs + one_if a p
unfolding refs
refs-update a zero i procs p h = absurd (omega arith)
refs-update a (suc n) i procs p h =
    ground (arith, refs-update a n i procs p, refs-update_ge a n i procs p)

pub refs-le : (a : Ptr) (n : ℕ) (procs : ℕ → Proc) → refs a n procs ≤ n
unfolding refs
refs-le a zero procs = omega arith
refs-le a (suc n) procs = ground (arith, refs-le a n procs)

pub refs-pos : (n i : ℕ) (procs : ℕ → Proc) → i < n → 0 < refs (procs i).link n procs
unfolding refs
refs-pos zero i procs h = absurd (omega arith)
refs-pos (suc n) i procs h = ground (arith, refs-pos n i procs)

pub refs-two :
    (a : Ptr) (n i j : ℕ) (procs : ℕ → Proc)
    → i < n
    → j < n
    → i ≢ j
    → (procs i).link ≡ a
    → (procs j).link ≡ a
    → a ≢ 0
    → 1 < refs a n procs
refs-two a n i j procs hi hj ne ei ej na =
    let empty : Proc = record { link = 0; start_time = 0 } in
    ground (arith, refs-update a n i procs empty hi, refs-pos n j (update procs i empty) hj)

pub refs_none :
    (a : Ptr) (n : ℕ) (procs : ℕ → Proc)
    → ((i : ℕ) → i < n → (procs i).link ≢ a)
    → refs a n procs ≡ 0
unfolding refs
refs_none a zero procs h = refl
refs_none a (suc n) procs h = ground (arith, h n, refs_none a n procs (λ i k. h i (omega arith)))
