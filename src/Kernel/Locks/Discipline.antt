-- ===== src/Kernel/Locks/Discipline.antt =====
-- The order of the locks, at every step of a call and whatever the memory holds by then.
use chos.Prelude.{◌≡◌, true, ◌||◌, refl}
use chos.Kernel.Locks.{
  and_then, Proc, Locked, result, access, taking, giving, loading, storing, Locks, in_order, holds,
  with_lock, without_lock, reader, writer, ◌>>=◌, Outcome, settle, alone, resume, erase,
}
use chos.Kernel.State.{and_then, Proc, State, Run, ok, fault, Cmd, load_proc, store_proc}

-- From the locks `l`, the call takes every lock in order, gives back only what it holds, reads and
-- writes entries only under their locks, and ends with the locks `e`.
unfoldable pub Disciplined : {A : Type 0} → Locks → Locked A → Locks → Type 0
Disciplined l (result a) e = (l ≡ e)
Disciplined l (access {X} f k) e = (x : X) → Disciplined l (k x) e
Disciplined l (taking h p) e = (in_order h l ≡ true) × Disciplined (with_lock h l) p e
Disciplined l (giving h p) e = (holds h l ≡ true) × Disciplined (without_lock h l) p e
Disciplined l (loading i k) e =
    ((holds (reader i) l || holds (writer i) l) ≡ true) × ((q : Proc) → Disciplined l (k q) e)
Disciplined l (storing i q p) e = (holds (writer i) l ≡ true) × Disciplined l p e

-- One call in order after another.
pub steps_bind :
    {A B : Type 0} (l e d : Locks) (p : Locked A) (f : A → Locked B)
    → Disciplined l p e
    → ((a : A) → Disciplined e (f a) d)
    → Disciplined l (p >>= f) d
unfolding Disciplined ◌>>=◌
steps_bind l e d (result a) f h k = rw h (k a)
steps_bind l e d (access g k) f h r = λ x. steps_bind l e d (k x) f (h x) r
steps_bind l e d (taking c p) f (o, h) r = (o, steps_bind (with_lock c l) e d p f h r)
steps_bind l e d (giving c p) f (o, h) r = (o, steps_bind (without_lock c l) e d p f h r)
steps_bind l e d (loading i k) f (o, h) r = (o, λ q. steps_bind l e d (k q) f (h q) r)
steps_bind l e d (storing i q p) f (o, h) r = (o, steps_bind l e d p f h r)

resume-settle :
    {X A : Type 0} (l : Locks) (r : Run X) (f : X → State → Outcome A) (g : X → Cmd A)
    → ((x : X) (s : State) → f x s ≡ settle l (g x s))
    → resume r f ≡ settle l (and_then r g)
resume-settle l (ok x s) f g h = h x s
resume-settle l (fault b) f g h = refl

-- A call in order runs by itself as it does without its locks.
pub alone-erase :
    {A : Type 0} (l e : Locks) (p : Locked A) (s : State)
    → Disciplined l p e
    → alone p l s ≡ settle e (erase p s)
unfolding Disciplined alone erase
alone-erase l e (result a) s h = rw h refl
alone-erase l e (access g k) s h = resume-settle e (g s) _ _ λ x s'. alone-erase l e (k x) s' (h x)
alone-erase l e (taking c p) s (o, h) = rw o (alone-erase (with_lock c l) e p s h)
alone-erase l e (giving c p) s (o, h) = rw o (alone-erase (without_lock c l) e p s h)
alone-erase l e (loading i k) s (o, h) =
    rw o (resume-settle e (load_proc i s) _ _ λ q s'. alone-erase l e (k q) s' (h q))
alone-erase l e (storing i q p) s (o, h) =
    rw o (resume-settle e (store_proc i q s) _ _ λ _ s'. alone-erase l e p s' h)
