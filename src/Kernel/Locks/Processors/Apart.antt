-- ===== src/Kernel/Locks/Processors/Apart.antt =====
-- What the locks of Kernel/Locks/Processors.antt keep apart, in every order of the steps.
use chos.Kernel.Locks.Processors.Compatible.{
  Compatible-gave, Compatible-took, Compatible-sym, holds_entry, Compatible,
}
use chos.Kernel.Locks.Processors.Move.{gave, next-Kept, took, Kept, Change, same}
use chos.Kernel.Locks.Balanced.{run-Erases}
use chos.Kernel.Locks.Calls.{run_locked}
use chos.Prelude.{
  Bool-cases, inl, inr, sym, ◌==◌, subst, zero, update, suc, ◌<◌, ◌≢◌, if◌then◌else◌, ℕ, ◌≡◌, Bool,
  true, false, ◌&&◌, arith, refl,
}
use chos.Kernel.Locks.{
  Lock, Locks, no_locks, Locked, result, access, taking, giving, loading, storing, is_writing,
}
use chos.Kernel.Locks.Discipline.{Disciplined}
use chos.Kernel.Locks.Processors.{
  moves, at_rest, run_locked, further, begins, Step, Reached, next_of, granted, Processor, Smp,
  lets,
}
use chos.Kernel.State.{State}

granted-lets :
    (n : ℕ) (ps : ℕ → Processor) (h : Lock) (i : ℕ)
    → granted n ps h ≡ true
    → i < n
    → lets h (ps i).locks ≡ true
unfolding granted
granted-lets zero ps h i e k = absurd (omega (arith, k))
granted-lets (suc n) ps h i e k = ground (arith, e, k, granted-lets n ps h i)

-- Each processor keeps to the discipline in what is left of its call, and no two exclude each
-- other.
pub record Sound (n : ℕ) (c : Smp) : Type 0 where
  pub ordered : (i : ℕ) → i < n → Disciplined (c.at i).locks (c.at i).rest no_locks
  pub apart : (i j : ℕ) → i < n → j < n → i ≢ j → Compatible (c.at i).locks (c.at j).locks

either :
    {A : Type 1} (P : A → Type 0) (b : Bool) (x y : A)
    → (b ≡ true → P x)
    → (b ≡ false → P y)
    → P (if b then x else y)
either P true x y h k = h refl
either P false x y h k = k refl

pub replaced :
    (P : Processor → Type 0) (f : ℕ → Processor) (i j : ℕ) (p : Processor)
    → (j ≡ i → P p)
    → (j ≢ i → P (f j))
    → P (update f i p j)
replaced P f i j p h k =
    either P (j == i) p (f j) (λ e. h (ground (arith, e))) (λ e. k (ground (arith, e)))

-- One processor is replaced.
module _ (n : ℕ) {c : Smp} (v : Sound n c) (i : ℕ) (k : i < n) (p : Processor) (s : State)
    (o : Disciplined p.locks p.rest no_locks)
    (a : (j : ℕ) → j < n → i ≢ j → Compatible p.locks (c.at j).locks) where
  replaced-Sound : Sound n (record { at = update c.at i p; memory = s })
  replaced-Sound = record {
    ordered = λ j kj.
        replaced (λ q. Disciplined q.locks q.rest no_locks) c.at i j p (λ _. o)
          (λ _. v.ordered j kj);
    apart = λ j l kj kl ne.
        replaced (λ q. Compatible q.locks (update c.at i p l).locks) c.at i j p
          (λ e.
            replaced (λ q. Compatible p.locks q.locks) c.at i l p
              (λ d. absurd (ground (arith, ne, e, d))) (λ d. a l kl (λ f. d (sym f))))
          (λ e.
            replaced (λ q. Compatible (c.at j).locks q.locks) c.at i l p
              (λ d. Compatible-sym (a j kj (λ f. e (sym f)))) (λ d. v.apart j l kj kl ne));
  }

changed :
    (n : ℕ) {c : Smp} (v : Sound n c) (i : ℕ)
    → i < n
    → {l : Locks} → Change (granted n c.at) (c.at i).locks l
    → (j : ℕ) → j < n
    → i ≢ j
    → Compatible l (c.at j).locks
changed n v i k same j kj ne = v.apart i j k kj ne
changed n {c} v i k (took h o e) j kj ne =
    Compatible-took h o (granted-lets n c.at h j e kj) (v.apart i j k kj ne)
changed n v i k (gave h) j kj ne = Compatible-gave h (v.apart i j k kj ne)

Step-Sound : (n : ℕ) {c d : Smp} → Sound n c → Step n c d → Sound n d
unfolding next_of
Step-Sound n {c} v (begins i call k e) =
    let ended =
      subst (Kept (granted n c.at) (c.at i).locks) e
        (next-Kept (granted n c.at) (c.at i).locks (c.at i).rest c.memory (v.ordered i k)) in
    replaced-Sound n v i k _ c.memory
      (subst (λ l. Disciplined l (run_locked call) no_locks) (sym ended) (run-Erases call).steps)
      (λ j kj ne. v.apart i j k kj ne)
Step-Sound n {c} v (moves i p s k e) =
    let kept =
      subst (Kept (granted n c.at) (c.at i).locks) e
        (next-Kept (granted n c.at) (c.at i).locks (c.at i).rest c.memory (v.ordered i k)) in
    replaced-Sound n v i k p s kept.0 (changed n v i k kept.1)

pub Reached-Sound : (n : ℕ) {c : Smp} → Reached n c → Sound n c
unfolding Disciplined
Reached-Sound n (at_rest s) = record {
  ordered = λ i k. refl;
  apart = λ i j k h ne. record {
    tasklists = refl;
    first_writes = λ _ _. refl;
    second_writes = λ _ _. refl;
  };
}
Reached-Sound n (further r t) = Step-Sound n (Reached-Sound n r) t

-- The next step of a call is a write to the entry `k`.
abbrev pub stores : ℕ → Locked (Unit {0}) → Bool
stores k (result a) = false
stores k (access f p) = false
stores k (taking h p) = false
stores k (giving h p) = false
stores k (loading i p) = false
stores k (storing i q p) = k == i

-- It is a read or a write of it.
abbrev pub touches : ℕ → Locked (Unit {0}) → Bool
touches k (result a) = false
touches k (access f p) = false
touches k (taking h p) = false
touches k (giving h p) = false
touches k (loading i p) = k == i
touches k (storing i q p) = k == i

equal : (k i : ℕ) → (k == i) ≡ true → k ≡ i
equal k i e = ground (arith, e)

unlike : (P : ℕ → Bool) (k i : ℕ) → P i ≡ true → P k ≡ false → (k == i) ≡ false
unlike P k i w h = elim (Bool-cases (k == i)) [
  | inl e ↦ absurd (ground (arith, h, subst (λ x. P x ≡ true) (sym (equal k i e)) w))
  | inr e ↦ e
]

stores-writing :
    (k : ℕ) (l e : Locks) (p : Locked (Unit {0}))
    → Disciplined l p e
    → stores k p ≡ true
    → is_writing k l.entry ≡ true
unfolding Disciplined
stores-writing k l e (result a) o h = ground (arith, h)
stores-writing k l e (access f p) o h = ground (arith, h)
stores-writing k l e (taking c p) o h = ground (arith, h)
stores-writing k l e (giving c p) o h = ground (arith, h)
stores-writing k l e (loading i p) o h = ground (arith, h)
stores-writing k l e (storing i q p) (w, o) h = rw (equal k i h) w

touches-holds :
    (k : ℕ) (l e : Locks) (p : Locked (Unit {0}))
    → Disciplined l p e
    → holds_entry k l.entry ≡ false
    → touches k p ≡ false
unfolding Disciplined
touches-holds k l e (result a) o h = refl
touches-holds k l e (access f p) o h = refl
touches-holds k l e (taking c p) o h = refl
touches-holds k l e (giving c p) o h = refl
touches-holds k l e (loading i p) (w, o) h = unlike (λ x. holds_entry x l.entry) k i w h
touches-holds k l e (storing i q p) (w, o) h =
    unlike (λ x. holds_entry x l.entry) k i (ground (arith, w)) h

-- For any number of processors on one memory, each of which makes calls of any kind with their
-- locks, one step of one processor after another in any order, from a point where none is in a
-- call: no two of them ever hold tasklist_lock at one time, and when the next step of one writes an
-- entry, the next step of another is no read or write of that entry under its lock (the loop of
-- cleanup_links reads the entries without one).
pub Reached-apart :
    (n : ℕ) {c : Smp} (i j k : ℕ)
    → Reached n c
    → i < n
    → j < n
    → i ≢ j
    → (((c.at i).locks.tasklist && (c.at j).locks.tasklist) ≡ false)
      × (stores k (c.at i).rest ≡ true → touches k (c.at j).rest ≡ false)
Reached-apart n {c} i j k r ki kj ne =
    let v = Reached-Sound n r in
    let q = v.apart i j ki kj ne in
    (
      q.tasklists,
      λ h. touches-holds k (c.at j).locks no_locks (c.at j).rest (v.ordered j kj) (
          q.first_writes k
            (stores-writing k (c.at i).locks no_locks (c.at i).rest (v.ordered i ki) h)),
    )
