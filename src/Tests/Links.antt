-- ===== src/Tests/Links.antt =====
-- The search for a link on the machine of Tests/World.antt.
use chos.Kernel.Links.{lookup_entry, lookup_link, destroy_unused, reset_link}
use chos.Kernel.Links.Inv.{Inv}
use chos.Kernel.Links.Set.Race.{Below, interrupted_walk, lookup_entry-races}
use chos.Kernel.Links.Tree.{Tree, lookup_link-total}
use chos.Kernel.Links.Way.{Resolves, SameResolves}
use chos.Kernel.Links.Reset.Race.{LastTwo, unlink, reset_link-races}
use chos.Kernel.Links.Refs.{refs}
use chos.Kernel.State.{Ptr, Link, State, ◌>>=◌, ◌>>◌, Task, Machine, null, fault, use_after_free}
use chos.Prelude.{
  codes, update, some, none, Bool-cases, inl, inr, ◌==◌, ℕ, ◌<◌, ◌≡◌, ◌⊎◌, refl, arith, ap, ltb,
  if◌then◌else◌,
}
use chos.Kernel.State.Returns.{Returns}
use chos.Tests.World.{machine, state0, state0-Inv, task_of}

-- No tasks but those with an entry in the table.
abbrev small_task_of : ℕ → Task
small_task_of p = if ltb p 6 then task_of p else task_of 0

abbrev small_machine : Machine
small_machine = record machine { task = small_task_of }

small_machine-Tree : Tree small_machine 6
small_machine-Tree = record {
  rank = λ t. t;
  down = λ t low. ground arith;
  in_range = λ t low. ground arith;
  distinct = λ t u lt lu e. ap small_task_of (ground arith);
}

lookup_link-total_example :
    Returns
      (λ a s'.
        Inv null s'
        × SameResolves small_machine state0 s'
        × Resolves small_machine state0 4 a
        × ((b : Ptr) → Resolves small_machine state0 4 b → a ≡ b))
      (lookup_link small_machine 7 4 state0)
lookup_link-total_example = lookup_link-total 7 4 small_machine-Tree state0-Inv (omega arith)

-- The shell resets its link while the search from its child is under way.
child-Below : Below machine 3 (record { text = 50; count = 1 }) state0
child-Below = record {
  task = λ e. omega (arith, e);
  in_range = omega arith;
  stale = refl;
  low = refl;
  parent_in_range = omega arith;
  cached = refl;
  link = refl;
}

lookup_entry-races_example :
    ((◌≡◌ {A = ℕ} 1 1)
      × (lookup_entry machine 3 (interrupted_walk machine 2 3) state0 ≡ fault use_after_free))
    ⊎ ((1 < 1)
        × Returns
            (λ a s'. Inv null s' × (a ≡ 10))
            (lookup_entry machine 3 (interrupted_walk machine 2 3) state0))
lookup_entry-races_example = lookup_entry-races state0-Inv child-Below 1 (ground arith)

-- Processes 2 and 3 share the link.
abbrev shared : Link
shared = record { text = 50; count = 2 }

abbrev state_shared : State
state_shared = record state0 {
  procs = update state0.procs 3 (record { link = 10; start_time = 103 });
  links = update state0.links 10 (some shared);
}

state_shared-Inv : Inv null state_shared
unfolding refs
state_shared-Inv = record {
  small = omega arith;
  null_link = refl;
  null_text = refl;
  counted = λ a l e. ground arith;
  held = λ a l e o. ground arith;
  live = λ i h o. elim (Bool-cases (i == 5)) [
    | inl five ↦ (record { text = 60; count = 1 }, ground arith)
    | inr other ↦ (shared, ground arith)
  ];
  owned = λ a l e. elim (Bool-cases (a == 10)) [
    | inl ten ↦ (codes "/os/a", ground arith)
    | inr other ↦ (codes "/os/b", ground arith)
  ];
  unique = λ a b l k e f g. ground arith;
}

shared-LastTwo : LastTwo 2 3 10 shared state_shared
shared-LastTwo = record {
  first_in_range = omega arith;
  second_in_range = omega arith;
  apart = λ e. omega (arith, e);
  link = λ e. omega (arith, e);
  first = refl;
  second = refl;
  allocated = refl;
  two = refl;
}

reset_link-races_example :
    (reset_link 2 state_shared ≡ (unlink 2 >>= destroy_unused) state_shared)
    × ((unlink 2 >> unlink 3 >> destroy_unused 10 >> destroy_unused 10) state_shared
        ≡ fault use_after_free)
    × Returns
        (λ _ s'. Inv null s' × (s'.links 10 ≡ none))
        ((reset_link 2 >> reset_link 3) state_shared)
reset_link-races_example = reset_link-races state_shared-Inv shared-LastTwo
