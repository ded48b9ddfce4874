-- ===== src/Tests/System.antt =====
-- Sequences of calls on the machine of Tests/World.antt, and its processes that fork and end.
use chos.Kernel.State.{fault, Run, ok, null, Ptr, Machine, State}
use chos.Kernel.System.Isolation.{run-lasting}
use chos.Kernel.System.Held.{Held}
use chos.Kernel.Proc.Reclaim.{writes-AllHeld}
use chos.Kernel.Links.Reclaim.{AllHeld}
use chos.Kernel.Fork.{child, my_sys_exit}
use chos.Kernel.Links.{cleanup_links, lookup_link}
use chos.Tests.Kernel.{choose_b-new, choose_b-Request, choose_b-accepted, links_of}
use chos.Kernel.System.Policy.{Reach-approved, run-Safe}
use chos.Kernel.Proc.{link_readlink, write_setchos, write_resetchos, slash}
use chos.Kernel.Links.Inv.{text_of, Inv}
use chos.Kernel.Paths.Reload.{line_write}
use chos.Tests.World.{state0-Inv, caller-Lineage, choose_b, state0, services, task_of, machine}
use chos.Kernel.Fork.Exit.{my_sys_exit-orphans, Reaped}
use chos.Kernel.Buffer.{text_length, Write}
use chos.Kernel.System.Safe.{Safe}
use chos.Kernel.State.Returns.{returns, Returns}
use chos.Kernel.Links.Way.{top, below, Resolves, Lineage, Distinct}
use chos.Kernel.System.{
  Call, Others, fork, sequence, resetchos, savestate, Reach, run, Fits, HasWay, setchos, start,
  later,
}
use chos.Prelude.{
  ℕ, Option, none, subst, sym, inr, inl, Bool-cases, arith, ◌-◌, some, ◌⊎◌, All, ◌==◌, ap,
  if◌then◌else◌, true, [], codes, ◌≡◌, ◌∷◌, Bytes, refl,
}

pub machine-Distinct : Distinct machine
machine-Distinct t u h k e = ap task_of e

-- The shell ends, and its child becomes a child of init.
abbrev pub shell : Machine
shell = record machine { current = 2 }

abbrev without_shell : Machine
without_shell = record shell {
  task = λ p. record (task_of p) { parent = if p == 3 then 1 else p - 1 };
}

pub shell-Lineage : Lineage shell 6 2 (2 ∷ [])
shell-Lineage = below refl refl (omega arith) refl (top refl)

child-Reaped : Reaped shell without_shell 3
child-Reaped = record { low = refl; pid = refl; start_time = refl; parent = refl }

my_sys_exit-orphans_example :
    Returns
      (λ _ s'.
        Inv null s'
        × All (λ t. (a : Ptr) × Resolves shell state0 t a × Resolves without_shell s' t a) (3 ∷ []))
      (my_sys_exit shell 3 (3 ∷ []) (ok tt) state0)
my_sys_exit-orphans_example =
    my_sys_exit-orphans 3 without_shell (3 ∷ []) (ok tt) state0-Inv machine-Distinct shell-Lineage
      (refl, refl, omega arith, refl, refl, tt) (omega arith) (λ s1 v. returns (v, refl))
      (child-Reaped, tt)

-- The paths that the administrator approves.
abbrev pub Approved : Bytes → Type 0
Approved p = (p ≡ codes "/os/a") ⊎ (p ≡ codes "/os/b")

pub state0-Safe : Safe Approved state0
state0-Safe = record { inv = state0-Inv; texts = texts; valid = (inl refl, (inr refl, tt)) }
  where
    texts : (a : Ptr) (t : Bytes) → text_of state0 a ≡ some t → (t ≡ slash) ⊎ Approved t
    texts a t e = elim (Bool-cases (a == 10)) [
      | inl ten ↦ inr (inl (ground arith))
      | inr other ↦ elim (Bool-cases (a == 20)) [
        | inl twenty ↦ inr (inr (ground arith))
        | inr none_there ↦ absurd (ground arith)
      ]
    ]

choose_b-Fits : Fits Approved (setchos services machine choose_b) state0
choose_b-Fits = (
  record { text_new = λ ne. refl; object_new = λ ne s1 e. choose_b-new s1 e },
  λ e. omega (arith, e),
  omega arith,
)

way : HasWay machine 5 state0
way = record { pids = 4 ∷ 3 ∷ 2 ∷ []; way = caller-Lineage; enough = omega arith }

-- The shell forks process 3, which chooses /os/b before do_fork returns.
abbrev pub child_3 : Machine
child_3 = record machine { current = 3 }

abbrev hasty : Call
hasty = fork shell 4 (setchos services child_3 choose_b) (child 3) shell

abbrev text_in : Run (Unit {0}) → ℕ → Option Bytes
text_in (ok a s) i = text_of s (s.procs i).link
text_in (fault f) i = none

-- The parent's link is put in the place of what the child chose.
child_overwritten : text_in (run hasty state0) 3 ≡ some (codes "/os/a")
unfolding run
child_overwritten = refl

abbrev FitsThen : Run Ptr → Type 0
FitsThen (ok a s) = Fits Approved (setchos services child_3 choose_b) s
FitsThen (fault f) = Unit

child_3-FitsThen : FitsThen (lookup_link shell 4 2 state0)
unfolding lookup_link cleanup_links text_length
child_3-FitsThen = (
  record {
    text_new = λ ne. refl;
    object_new = λ ne s1 e. sym (ap (λ (r : Run (Unit {0})). links_of r 30) e);
  },
  λ e. omega (arith, e),
  omega arith,
)

hasty-Fits : Fits Approved hasty state0
hasty-Fits = (
  record { pids = 2 ∷ []; way = shell-Lineage; enough = omega arith },
  λ ne. (omega arith, λ e. omega (arith, e)),
  ((λ e. omega (arith, e), refl), λ e. omega (arith, e)),
  λ a s1 e. subst FitsThen e child_3-FitsThen,
)

run-Safe_example : Returns (λ _ s'. Safe Approved s') (run hasty state0)
run-Safe_example = run-Safe hasty state0-Safe hasty-Fits

-- The grandchild chooses /os/b and gives it up again; the shell keeps what it has.
abbrev fickle : Call
fickle = sequence (setchos services machine choose_b) (resetchos machine choose_b)

abbrev size_in : Run (Unit {0}) → ℕ
size_in (ok a s) = s.pid_max
size_in (fault f) = 0

fickle_size :
    (s1 : State) → run (setchos services machine choose_b) state0 ≡ ok tt s1 → 6 ≡ s1.pid_max
unfolding run
fickle_size s1 e = ap size_in e

fickle-Fits : Fits Approved fickle state0
fickle-Fits = (choose_b-Fits, λ s1 e. omega (arith, fickle_size s1 e))

shell-Held : Held 2 102 10 (codes "/os/a") state0
shell-Held = record { low = omega arith; entry = refl; is_link = ground arith; text = refl }

shell-Alive : Others machine 2 102
shell-Alive = ((λ e. omega (arith, e), refl), λ e. omega (arith, e))

run-lasting_example :
    Returns
      (λ _ s'.
        Held 2 102 10 (codes "/os/a") s'
        × (link_readlink {R = Bytes} (λ t. t) shell 1 s' ≡ ok (codes "/os/a") s'))
      (run fickle state0)
run-lasting_example =
    run-lasting (λ t. t) fickle shell 0 state0-Safe fickle-Fits refl shell-Held
      (shell-Alive, shell-Alive)

writes-AllHeld_example :
    Returns (λ _ s'. AllHeld machine s') (write_setchos services machine choose_b state0)
    × Returns (λ _ s'. AllHeld machine s') (write_resetchos machine choose_b state0)
writes-AllHeld_example =
    writes-AllHeld services machine choose_b state0-Inv choose_b-Request refl choose_b-accepted

-- The state behind a write to savestate.
abbrev state1 : State
state1 = record state0 { save_state = true }

abbrev pub enable : Write
enable = line_write 71 31 (codes "1")

state1-Reach : Reach Approved state0 state1
unfolding run
state1-Reach = later (savestate enable) start tt refl

Reach-approved_example :
    Returns
      (λ t s'. Safe Approved s' × ((t ≡ slash) ⊎ Approved t))
      (link_readlink {R = Bytes} (λ t. t) machine 5 state1)
Reach-approved_example =
    Reach-approved machine 5 state0-Safe state1-Reach
      (record { pids = 4 ∷ 3 ∷ 2 ∷ []; way = caller-Lineage; enough = omega arith })
