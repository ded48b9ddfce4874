-- ===== src/Tests/Locks.antt =====
-- Calls with their locks, by themselves and on two processors, on the machine of Tests/World.antt.
use chos.Kernel.State.{fault, State, ok}
use chos.Kernel.Locks.{
  no_locks, stopped, out_of_order, settle, write_lock, lock_tasklist, ◌>>=◌, alone,
}
use chos.Kernel.Locks.Links.{reset_link_locked, lookup_link_locked}
use chos.Kernel.Locks.Calls.{
  write_resetchos_locked, my_sys_exit_locked, lookup_children_locked, run_locked,
}
use chos.Kernel.Locks.Balanced.{run_locked-run}
use chos.Kernel.Locks.Processors.{
  begun, Smp, Reached, at_rest, further, begins, moves, next_of, Next, goes, over, waits, breaks,
}
use chos.Kernel.Locks.Processors.Apart.{replaced, Reached-apart, stores, touches}
use chos.Kernel.Locks.Processors.Alone.{OthersFree, Completes, Reached-Completes}
use chos.Kernel.Locks.Processors.Progress.{Reached-progresses}
use chos.Kernel.System.{Call, exit, resetchos, setchos, run}
use chos.Tests.World.{choose_b, machine, services, state0}
use chos.Prelude.{some, update, sym, ◌≡◌, ◌≢◌, ◌<◌, ℕ, refl, true, false, ◌&&◌, [], ◌∷◌, arith}

-- tasklist_lock is not taken under the lock of an entry, and that is not taken twice.
entry_first : alone (write_lock 3 >>= λ _. lock_tasklist) no_locks state0 ≡ stopped out_of_order
unfolding alone ◌>>=◌
entry_first = refl

entry_twice : alone (write_lock 3 >>= λ _. write_lock 3) no_locks state0 ≡ stopped out_of_order
unfolding alone ◌>>=◌
entry_twice = refl

run_locked-run_example :
    alone (run_locked (setchos services machine choose_b)) no_locks state0
    ≡ settle no_locks (run (setchos services machine choose_b) state0)
run_locked-run_example = run_locked-run (setchos services machine choose_b) state0

-- Two processors behind some steps.
abbrev Two : Type 1
Two = (c : Smp) × Reached 2 c

at_first : Two
at_first = (_, at_rest state0)

move : (i : ℕ) → i < 2 → (c : Smp) → Reached 2 c → (x : Next) → next_of 2 i c ≡ x → Two
move i k c r over e = (c, r)
move i k c r waits e = (c, r)
move i k c r breaks e = (c, r)
move i k c r (goes p s) e = (_, further r (moves i p s k e))

-- The next step of a processor, and the begin of a call.
abbrev advance : (i : ℕ) → i < 2 → Two → Two
unfolding move
advance i k (c, r) = move i k c r (next_of 2 i c) refl

begin_call : (i : ℕ) → i < 2 → Call → (c : Smp) → Reached 2 c → (x : Next) → next_of 2 i c ≡ x → Two
begin_call i k call c r over e = (_, further r (begins i call k e))
begin_call i k call c r waits e = (c, r)
begin_call i k call c r breaks e = (c, r)
begin_call i k call c r (goes p s) e = (c, r)

abbrev call_on : (i : ℕ) → i < 2 → Call → Two → Two
unfolding begin_call
call_on i k call (c, r) = begin_call i k call c r (next_of 2 i c) refl

-- Task 4 is about to empty its entry, and its parent, task 3, ends and waits for that entry.
abbrev emptying : Two
unfolding at_first
emptying =
    let first = λ (t : Two). advance 0 (omega arith) t in
    let second = λ (t : Two). advance 1 (omega arith) t in
    second (
      second (
        call_on 1 (omega arith) (exit (record machine { current = 3 }) 6 (4 ∷ [])) (
          first (
            first
              (first (first (call_on 0 (omega arith) (resetchos machine choose_b) at_first)))))))

about_to_store : stores 4 (emptying.0.at 0).rest ≡ true
unfolding emptying run_locked next_of advance call_on write_resetchos_locked reset_link_locked
    my_sys_exit_locked lookup_children_locked lookup_link_locked
about_to_store = refl

about_to_wait : next_of 2 1 emptying.0 ≡ waits
unfolding emptying run_locked next_of advance call_on write_resetchos_locked reset_link_locked
    my_sys_exit_locked lookup_children_locked lookup_link_locked
about_to_wait = refl

waits-over : waits ≢ over
waits-over e = ground (arith, e)

Reached-apart_example :
    (((emptying.0.at 0).locks.tasklist && (emptying.0.at 1).locks.tasklist) ≡ false)
    × (stores 4 (emptying.0.at 0).rest ≡ true → touches 4 (emptying.0.at 1).rest ≡ false)
Reached-apart_example = Reached-apart 2 0 1 4 emptying.1 (omega arith) (omega arith) (ground arith)

Reached-progresses_example :
    (i : ℕ) × (i < 2) × (next_of 2 i emptying.0 ≢ over) × (next_of 2 i emptying.0 ≢ waits)
Reached-progresses_example =
    Reached-progresses 2 1 emptying.1 (omega arith) (λ e. waits-over (rw (sym about_to_wait) e))

-- Processor 1 has begun a call and made no step yet.
abbrev other_begun : Two
unfolding at_first
other_begun = call_on 1 (omega arith) (resetchos (record machine { current = 3 }) choose_b) at_first

others_free : OthersFree 2 0 other_begun.0
unfolding at_first call_on next_of
others_free j k ne = replaced (λ p. p.locks ≡ no_locks) at_first.0.at 1 j _ (λ _. refl) (λ _. refl)

abbrev with_b : State
unfolding run
with_b = elim (run (setchos services machine choose_b) state0) [ ok x s ↦ s | fault b ↦ state0 ]

ends_with_b : run (setchos services machine choose_b) other_begun.0.memory ≡ ok tt with_b
unfolding run at_first call_on with_b other_begun next_of
ends_with_b = refl

is_between : next_of 2 0 other_begun.0 ≡ over
unfolding next_of at_first call_on other_begun
is_between = refl

Reached-Completes_example :
    Completes 2 0 (begun 0 (setchos services machine choose_b) other_begun.0) with_b
Reached-Completes_example =
    Reached-Completes 2 0 (setchos services machine choose_b) with_b other_begun.1 (omega arith)
      is_between others_free ends_with_b

-- Tasks 2 and 3 hold the two references to a link, and both write to resetchos at one time: behind
-- both decrements each finds the count 0, and one of them reads the link that the other has freed.
abbrev sharing : State
sharing = record state0 {
  procs = update state0.procs 3 (record { link = 10; start_time = 103 });
  links = update state0.links 10 (some (record { text = 50; count = 2 }));
}

both_at_first : Two
both_at_first = (_, at_rest sharing)

abbrev racing : Two
unfolding both_at_first
racing =
    let one = λ (t : Two). advance 0 (omega arith) t in
    let two = λ (t : Two). advance 1 (omega arith) t in
    let dropped = λ (f : Two → Two) (t : Two). f (f (f (f (f (f (f t)))))) in
    let start = call_on 1 (omega arith) (resetchos (record machine { current = 3 }) choose_b) (
      call_on 0 (omega arith) (resetchos (record machine { current = 2 }) choose_b)
        both_at_first) in
    one (one (one (two (one (dropped two (dropped one start))))))

frees_twice : next_of 2 1 racing.0 ≡ breaks
unfolding racing run_locked next_of advance call_on write_resetchos_locked reset_link_locked
frees_twice = refl
