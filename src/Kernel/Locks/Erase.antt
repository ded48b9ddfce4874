-- ===== src/Kernel/Locks/Erase.antt =====
-- A call with its locks beside the same without them.
pub mod Links
use chos.Kernel.Links.{
  not_cached, drop_reference, destroy_link, reset_link, set_link, is_dead, cleanup_from,
  cleanup_links, remember, lookup_entry, lookup_link, release, acquire,
}
use chos.Kernel.Locks.{
  ◌>>◌, unlock_tasklist, write_unlock, store_entry, load_entry, write_lock, read_lock, read_unlock,
  pure, Locks, Locked, ◌>>=◌, free, reading, erase, lift, result, access, taking, giving, loading,
  storing,
}
use chos.Kernel.Locks.Discipline.{Disciplined, steps_bind}
use chos.Kernel.Locks.Links.{
  reset_link_locked, set_link_locked, cleanup_from_locked, cleanup_links_locked, remember_locked,
  lookup_entry_locked, lookup_link_locked, release_locked,
}
use chos.Kernel.State.{
  out_of_fuel, load_link, Ptr, null, Machine, Proc, State, Cmd, Run, ok, fault, load_proc,
  store_proc, get, assert_not,
}
use chos.Kernel.State
use chos.Prelude.{
  ◌||◌, ltb, false, true, ℕ, zero, suc, ◌+◌, not, ◌==◌, if◌then◌else◌, ◌≡◌, refl, arith, Bool,
}

-- No lock of an entry, and tasklist_lock or not.
abbrev pub no_entry : Bool → Locks
no_entry b = record { tasklist = b; entry = free }

-- From the locks `l`, the call `f` keeps to the discipline of the locks, ends without the lock of
-- an entry, and does what `g` does.
pub record Ends {A : Type 0} (l : Locks) (b : Bool) (f : Locked A) (g : Cmd A) : Type 0 where
  pub steps : Disciplined l f (no_entry b)
  pub same : (s : State) → erase f s ≡ g s

-- From a point without the lock of an entry.
abbrev pub Erases : {A : Type 0} → Bool → Locked A → Cmd A → Type 0
Erases b f g = Ends (no_entry b) b f g

and_then_twice :
    {X A B : Type 0} (r : Run X) (k : X → Cmd A) (f : A → Cmd B) (h : X → Cmd B)
    → ((x : X) (s : State) → h x s ≡ State.and_then (k x s) f)
    → State.and_then r h ≡ State.and_then (State.and_then r k) f
and_then_twice (ok x s) k f h e = e x s
and_then_twice (fault b) k f h e = refl

pub and_then-pure : {A : Type 0} (r : Run A) → State.and_then r State.pure ≡ r
and_then-pure (ok a s) = refl
and_then-pure (fault b) = refl

pub erase_bind :
    {A B : Type 0} (p : Locked A) (f : A → Locked B) (s : State)
    → erase (p >>= f) s ≡ State.and_then (erase p s) λ a. erase (f a)
unfolding erase ◌>>=◌
erase_bind (result a) f s = refl
erase_bind (access g k) f s = and_then_twice (g s) _ _ _ λ x. erase_bind (k x) f
erase_bind (taking h p) f s = erase_bind p f s
erase_bind (giving h p) f s = erase_bind p f s
erase_bind (loading i k) f s = and_then_twice (load_proc i s) _ _ _ λ q. erase_bind (k q) f
erase_bind (storing i q p) f s = and_then_twice (store_proc i q s) _ _ _ λ _. erase_bind p f

pub and_then_same :
    {A B : Type 0} (r : Run A) {f g : A → Cmd B}
    → ((a : A) (s : State) → f a s ≡ g a s)
    → State.and_then r f ≡ State.and_then r g
and_then_same (ok a s) h = h a s
and_then_same (fault e) h = refl

pub Erases-bind :
    {A B : Type 0} {l : Locks} {b : Bool} {f : Locked A} {g : Cmd A} {f' : A → Locked B}
    {g' : A → Cmd B}
    → Ends l b f g
    → ((a : A) → Erases b (f' a) (g' a))
    → Ends l b (f >>= f') (λ s. State.and_then (g s) g')
Erases-bind {l} {b} {f} {g} {f'} {g'} h k = record {
  steps = steps_bind l (no_entry b) (no_entry b) f f' h.steps λ a. (k a).steps;
  same = λ s. rw (erase_bind f f' s, h.same s) (and_then_same (g s) λ a. (k a).same);
}

pub Erases-if :
    {A : Type 0} {l : Locks} {b : Bool} {f f' : Locked A} {g g' : Cmd A} (c : Bool)
    → Ends l b f g
    → Ends l b f' g'
    → Ends l b (if c then f else f') (if c then g else g')
Erases-if true h k = h
Erases-if false h k = k

-- The same where the test stands under the state.
pub Erases-branch :
    {A : Type 0} {l : Locks} {b : Bool} {f f' : Locked A} {g g' : Cmd A} (c : Bool)
    → Ends l b f g
    → Ends l b f' g'
    → Ends l b (if c then f else f') (λ s. if c then g s else g' s)
Erases-branch true h k = h
Erases-branch false h k = k

-- A test on the state.
pub Erases-get :
    {A : Type 0} {b : Bool} {f : State → Locked A} {g : State → Cmd A}
    → ((s : State) → Erases b (f s) (g s))
    → Erases b (lift get >>= f) (λ s. g s s)
unfolding Disciplined erase ◌>>=◌
Erases-get h = record { steps = λ s. (h s).steps; same = λ s. (h s).same s }

pub Erases-lift : {A : Type 0} {b : Bool} (g : Cmd A) → Erases b (lift g) g
unfolding Disciplined erase
Erases-lift g = record { steps = λ x. refl; same = λ s. and_then-pure (g s) }

pub Erases-pure : {A : Type 0} {b : Bool} (a : A) → Erases b (pure a) (State.pure a)
unfolding Disciplined erase
Erases-pure a = record { steps = refl; same = λ s. refl }

-- An access to an entry from the lock on.
module _ {A : Type 0} {b : Bool} (i : ℕ) where
  pub Erases-read :
      {k : Proc → Locked A} {g : Proc → Cmd A}
      → ((p : Proc) → Ends (record { tasklist = b; entry = reading i }) b (k p) (g p))
      → Erases b (read_lock i >>= λ _. load_entry i >>= k) (State.◌>>=◌ (load_proc i) g)
  unfolding Disciplined erase ◌>>=◌
  Erases-read h = record {
    steps = (refl, (ground arith, λ p. (h p).steps));
    same = λ s. and_then_same (load_proc i s) λ p. (h p).same;
  }

  pub Ends-unlock :
      {f : Locked A} {g : Cmd A}
      → Erases b f g
      → Ends (record { tasklist = b; entry = reading i }) b (read_unlock i >>= λ _. f) g
  unfolding Disciplined erase ◌>>=◌
  Ends-unlock h = record { steps = (ground arith, h.steps); same = h.same }
