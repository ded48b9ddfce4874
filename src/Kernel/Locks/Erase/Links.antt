-- ===== src/Kernel/Locks/Erase/Links.antt =====
-- reset_link to lookup_link with their locks, beside those without.
use chos.Kernel.Locks.Erase.{
  Ends, Erases, no_entry, erase_bind, and_then_same, and_then-pure, Erases-bind, Erases-if,
  Erases-branch, Erases-lift, Erases-pure, Erases-read, Ends-unlock,
}
use chos.Kernel.Links.{
  not_cached, drop_reference, destroy_link, reset_link, set_link, is_dead, cleanup_from,
  cleanup_links, remember, lookup_entry, lookup_link, release, acquire,
}
use chos.Kernel.Locks.{
  ◌>>◌, unlock_tasklist, write_unlock, store_entry, write_lock, read_unlock, Locked, ◌>>=◌, reading,
  erase,
}
use chos.Kernel.Locks.Discipline.{Disciplined, steps_bind}
use chos.Kernel.Locks.Links.{
  destroy_link_locked, reset_link_locked, set_link_locked, cleanup_from_locked,
  cleanup_links_locked, remember_locked, lookup_entry_locked, lookup_link_locked, release_locked,
}
use chos.Kernel.State.{
  free_text, free_link, out_of_fuel, load_link, Ptr, null, Machine, Proc, State, Cmd, Run, ok,
  fault, load_proc, store_proc, get, assert_not,
}
use chos.Kernel.State
use chos.Prelude.{◌||◌, ltb, false, true, ℕ, zero, suc, ◌+◌, not, ◌==◌, refl, arith, Bool}

destroy_link-Erases : {b : Bool} (a : Ptr) → Erases b (destroy_link_locked a) (destroy_link a)
unfolding destroy_link_locked destroy_link
destroy_link-Erases a = Erases-if (a == null) (Erases-pure tt) (
    Erases-bind (Erases-lift (load_link a)) λ l.
      Erases-if (l.count == 0)
        (Erases-bind (Erases-lift (free_text l.text)) λ _. Erases-lift (free_link a))
        (Erases-pure tt))

release-Erases : {b : Bool} (a : Ptr) → Erases b (release_locked a) (release a)
unfolding release_locked release
release-Erases a = Erases-if (a == null) (Erases-pure tt) (
    Erases-bind (Erases-lift (drop_reference a)) λ _.
      Erases-bind (Erases-lift (load_link a))
        λ left. Erases-if (left.count == 0) (destroy_link-Erases a) (Erases-pure tt))

module _ {b : Bool} where
  pub reset_link-Erases : (i : ℕ) → Erases b (reset_link_locked i) (reset_link i)
  unfolding reset_link_locked reset_link Disciplined erase
  reset_link-Erases i = record {
    steps =
        (refl, (ground arith, λ p. (ground arith, (ground arith, (release-Erases p.link).steps))));
    same = λ s.
        and_then_same (load_proc i s)
          λ p s1. and_then_same (store_proc i _ s1) λ _. (release-Erases {b = b} p.link).same;
  }

  Ends-unlocked :
      (i : ℕ) → Ends (record { tasklist = b; entry = reading i }) b (read_unlock i) (State.pure tt)
  unfolding Disciplined erase
  Ends-unlocked i = record { steps = (ground arith, refl); same = λ s. refl }

  put_entry-Erases :
      (i : ℕ) (q : Proc)
      → Erases b (do write_lock i; store_entry i q; write_unlock i) (store_proc i q)
  unfolding Disciplined erase ◌>>=◌
  put_entry-Erases i q = record {
    steps = (refl, (ground arith, (ground arith, refl)));
    same = λ s. and_then-pure (store_proc i q s);
  }

  pub set_link-Erases :
      (m : Machine) (link t : Ptr) → Erases b (set_link_locked m link t) (set_link m link t)
  unfolding set_link_locked set_link
  set_link-Erases m link t = Erases-bind (Erases-lift (assert_not (t == null))) λ _.
      Erases-bind (Erases-lift get) λ s.
        Erases-bind (Erases-lift (assert_not (ltb s.pid_max (m.task t).pid))) λ _.
          Erases-read (m.task t).pid λ p.
            Erases-bind
              (Erases-if (not (p.link == null))
                (Ends-unlock (m.task t).pid (reset_link-Erases (m.task t).pid))
                (Ends-unlocked (m.task t).pid))
              λ _. Erases-bind (Erases-lift (acquire link)) λ _. put_entry-Erases (m.task t).pid _

  cleanup_from-Erases :
      (m : Machine) (n i : ℕ) → Erases b (cleanup_from_locked m n i) (cleanup_from m n i)
  unfolding cleanup_from_locked cleanup_from
  cleanup_from-Erases m zero i = Erases-pure tt
  cleanup_from-Erases m (suc n) i = Erases-bind (Erases-lift (load_proc i)) λ p.
      Erases-bind (Erases-if (is_dead m i p) (reset_link-Erases i) (Erases-pure tt))
        λ _. cleanup_from-Erases m n (i + 1)

  remember-Erases : (m : Machine) (t a : Ptr) → Erases b (remember_locked m t a) (remember m t a)
  unfolding remember_locked remember
  remember-Erases m t a =
      Erases-if (not (a == null)) (Erases-bind (set_link-Erases m a t) λ _. Erases-pure a)
        (Erases-bind (reset_link-Erases (m.task t).pid) λ _. Erases-pure a)

  lookup_entry-Erases :
      (m : Machine) (t : Ptr) {walk : Locked Ptr} {bare : Cmd Ptr}
      → Erases b walk bare
      → Erases b (lookup_entry_locked m t walk) (lookup_entry m t bare)
  unfolding lookup_entry_locked lookup_entry
  lookup_entry-Erases m t w = Erases-bind (Erases-lift get) λ s.
      Erases-bind (Erases-lift (assert_not (ltb s.pid_max (m.task t).pid))) λ _.
        Erases-read (m.task t).pid λ p.
          Erases-if (not_cached m t p)
            (Ends-unlock (m.task t).pid (Erases-bind w (remember-Erases m t)))
            (Ends-unlock (m.task t).pid (Erases-pure p.link))

  pub lookup_link-Erases :
      (m : Machine) (fuel : ℕ) (t : Ptr)
      → Erases b (lookup_link_locked m fuel t) (lookup_link m fuel t)
  unfolding lookup_link_locked lookup_link
  lookup_link-Erases m zero t = Erases-lift λ s. fault out_of_fuel
  lookup_link-Erases m (suc fuel) t = Erases-branch (t == null) (Erases-pure null) (
      Erases-branch ((m.task t).pid == 0 || (m.task t).pid == 1) (Erases-pure null)
        (lookup_entry-Erases m t (lookup_link-Erases m fuel (m.task t).parent)))

-- The loop runs under tasklist_lock.
pub cleanup_links-Erases : (m : Machine) → Erases false (cleanup_links_locked m) (cleanup_links m)
unfolding cleanup_links_locked cleanup_links Disciplined erase
cleanup_links-Erases m =
    let loop = λ (s : State). cleanup_from-Erases {b = true} m s.pid_max 0 in
    let all = no_entry true in
    record {
      steps = (
        refl,
        λ s.
            steps_bind all all (no_entry false) (cleanup_from_locked m s.pid_max 0)
              (λ _. unlock_tasklist) (loop s).steps (λ _. (refl, refl)),
      );
      same = λ s.
          rw
            (
              erase_bind (cleanup_from_locked m s.pid_max 0) (λ _. unlock_tasklist) s,
              (loop s).same s,
            )
            (and_then-pure (cleanup_from m s.pid_max 0 s));
    }
