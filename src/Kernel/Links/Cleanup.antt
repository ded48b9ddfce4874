-- ===== src/Kernel/Links/Cleanup.antt =====
-- What cleanup_links does to the table.
use chos.Kernel.Links.Reset.{reset_link-Cleared}
use chos.Kernel.State.Returns.{returns, Returns}
use chos.Kernel.Links.Inv.{KeepsLoose, blank, Frame-trans, KeepsTexts, Frame, Inv}
use chos.Kernel.Links.{true, reset_link, is_dead, cleanup_from, cleanup_links}
use chos.Prelude.{
  ◌==◌, true, ◌≢◌, ◌&&◌, ltb, leb, if◌then◌else◌, zero, inr, inl, arith, Bool-cases, ◌≤◌, suc, ◌+◌,
  ℕ, ◌≡◌, ◌<◌,
}
use chos.Kernel.State.Returns
use chos.Kernel.State.{pure, ◌>>◌, Cmd, null, load_proc, Proc, Machine, State}

-- The entry `j` after the loop over the `n` indices from `i`.
abbrev swept : Machine → ℕ → ℕ → ℕ → Proc → Proc
swept m n i j p = if leb i j && ltb j (i + n) && is_dead m j p then blank else p

record Swept (m : Machine) (n i : ℕ) (s s' : State) : Type 0 where
  frame : Frame s s'
  entries : (j : ℕ) → s'.procs j ≡ swept m n i j (s.procs j)
  texts : KeepsTexts s s'
  loose : KeepsLoose s s'

sweep_one : Machine → ℕ → Proc → Cmd (Unit {0})
sweep_one m i p = if is_dead m i p then reset_link i else pure tt

sweep_one-Swept :
    {s : State} (m : Machine) (i : ℕ)
    → Inv null s
    → i < s.pid_max
    → Returns (λ _ s'. Inv null s' × Swept m 1 i s s') (sweep_one m i (s.procs i) s)
unfolding sweep_one
sweep_one-Swept {s} m i v h = elim (Bool-cases (is_dead m i (s.procs i))) [
  | inl dead ↦ rw dead (
      Returns.mono (reset_link-Cleared i v h) λ _ s' (v', c). (
        v',
        record {
          frame = c.frame;
          entries = λ j. ground (arith, c.procs, dead);
          texts = c.texts;
          loose = c.loose;
        },
      ))
  | inr alive ↦ rw alive (
      returns (
        v,
        record {
          frame = ground arith;
          entries = λ j. ground (arith, alive);
          texts = λ a t e. e;
          loose = λ q b o. o;
        },
      ))
]

Swept-trans :
    {s t u : State} (m : Machine) (n i : ℕ)
    → Swept m 1 i s t
    → Swept m n (i + 1) t u
    → Swept m (suc n) i s u
Swept-trans {s} {t} {u} m n i a b = record {
  frame = Frame-trans a.frame b.frame;
  entries = λ j. ground (arith, a.entries j, b.entries j);
  texts = λ x q e. a.texts x q (b.texts x q e);
  loose = λ x q e. b.loose x q (a.loose x q e);
}

cleanup_from-sweep :
    (m : Machine) (n i : ℕ) (s : State)
    → i < s.pid_max
    → cleanup_from m (suc n) i s ≡ (sweep_one m i (s.procs i) >> cleanup_from m n (i + 1)) s
unfolding cleanup_from load_proc sweep_one
cleanup_from-sweep m n i s h = ground arith

cleanup_from-Swept :
    (n : ℕ) {s : State} (m : Machine) (i : ℕ)
    → Inv null s
    → i + n ≤ s.pid_max
    → Returns (λ _ s'. Inv null s' × Swept m n i s s') (cleanup_from m n i s)
cleanup_from-Swept zero m i v h =
    unfold cleanup_from in
    returns (
      v,
      record {
        frame = ground arith;
        entries = λ j. ground arith;
        texts = λ a t e. e;
        loose = λ q b o. o;
      },
    )
cleanup_from-Swept (suc n) {s} m i v h = rw (cleanup_from-sweep m n i s (omega arith)) (
    Returns.bind (sweep_one-Swept m i v (omega arith)) λ _ s1 (v1, a).
      Returns.mono (cleanup_from-Swept n m (i + 1) v1 (omega (arith, a.frame.pid_max)))
        λ _ s2 (v2, b). (v2, Swept-trans m n i a b))

-- What cleanup_links leaves: of the table, the entries that are not dead.
pub record Cleaned (m : Machine) (s s' : State) : Type 0 where
  pub frame : Frame s s'
  pub entries :
      (j : ℕ)
      → s'.procs j ≡ (if ltb j s.pid_max && is_dead m j (s.procs j) then blank else s.procs j)
  pub texts : KeepsTexts s s'
  pub loose : KeepsLoose s s'

-- The start time `time` is that of the task with the pid `i`, if there is one.
abbrev pub IsTimeOf : Machine → ℕ → ℕ → Type 0
IsTimeOf m i time = (m.find_task i ≢ null) × ((m.task (m.find_task i)).start_time ≡ time)

-- The entries behind cleanup_links, by the tasks that there are.
pub record Purged (m : Machine) (s s' : State) : Type 0 where
  pub gone :
      (i : ℕ)
      → i < s.pid_max
      → (s.procs i).link ≢ null
      → ¬ IsTimeOf m i (s.procs i).start_time
      → s'.procs i ≡ blank
  pub alive : (i : ℕ) → IsTimeOf m i (s.procs i).start_time → s'.procs i ≡ s.procs i
  pub empty : (i : ℕ) → (s.procs i).link ≡ null → s'.procs i ≡ s.procs i
  pub outside : (i : ℕ) → s.pid_max ≤ i → s'.procs i ≡ s.procs i

dead_lem :
    (m : Machine) (i : ℕ) (p : Proc)
    → p.link ≢ null
    → ¬ IsTimeOf m i p.start_time
    → is_dead m i p ≡ true
dead_lem m i p ne h = elim (Bool-cases (m.find_task i == null)) [
  | inl gone ↦ ground (arith, gone, ne)
  | inr task ↦ elim (Bool-cases (p.start_time == (m.task (m.find_task i)).start_time)) [
    | inl same ↦ absurd (h (ground (arith, task), ground (arith, same)))
    | inr other ↦ ground (arith, task, other, ne)
  ]
]

Cleaned-Purged : (m : Machine) {s s' : State} → Cleaned m s s' → Purged m s s'
Cleaned-Purged m {s} c = record {
  gone = λ i k ne h. ground (arith, c.entries i, k, dead_lem m i (s.procs i) ne h);
  alive = λ i q. ground (arith, c.entries i, q.0, q.1);
  empty = λ i e. ground (arith, c.entries i, e);
  outside = λ i k. ground (arith, c.entries i, k);
}

-- The loop as a whole.
pub cleanup_links-Cleaned :
    {s : State} (m : Machine)
    → Inv null s
    → Returns (λ _ s'. Inv null s' × Cleaned m s s') (cleanup_links m s)
unfolding cleanup_links
cleanup_links-Cleaned {s} m v =
    Returns.mono (cleanup_from-Swept s.pid_max m 0 v (omega arith)) λ _ s' (v', w). (
      v',
      record {
        frame = w.frame;
        entries = λ j. ground (arith, w.entries j);
        texts = w.texts;
        loose = w.loose;
      },
    )

-- In a state that satisfies the invariant, cleanup_links ends and keeps the invariant. Of the
-- entries in range that hold a link it empties each whose index is no task's pid or that of a task
-- with another start time; it leaves alone each whose index is the pid of a task with that start
-- time, those without a link, and those out of range.
pub cleanup_links-Purged :
    {s : State} (m : Machine)
    → Inv null s
    → Returns (λ _ s'. Inv null s' × Purged m s s') (cleanup_links m s)
cleanup_links-Purged m v =
    Returns.mono (cleanup_links-Cleaned m v) λ _ s' (v', c). (v', Cleaned-Purged m c)
