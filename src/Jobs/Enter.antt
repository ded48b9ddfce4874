-- ===== src/Jobs/Enter.antt =====
-- utils/job_starter.c with main of utils/chos.c, which it executes for a job with an environment.
use chos.Command.Main.{Host, execvp, main, max_os, start}
use chos.Command.Main.Enter.{AllFit, Asks, Served, main-reads}
use chos.Jobs
use chos.Jobs.Start.{Wants, wants, under_chos, job_starter-Started}
use chos.Jobs.{Action, Calls, Site, job_starter, limit_memory, run_job, wants_chos}
use chos.Kernel.Buffer.{Write}
use chos.Kernel.Links.Inv.{Inv}
use chos.Kernel.Links.Way.{Distinct, Lineage, is_top}
use chos.Kernel.Paths.{is_valid_path}
use chos.Kernel.Proc.{Services, link_readlink, slash}
use chos.Kernel.State.{Machine, State, null}
use chos.Kernel.State.Returns.{Returns}
use chos.Prelude.{
  [], Option, ◌+◌, ◌*◌, arith, Bytes, List, codes, false, head_or, length, some, str_eq, true, ℕ,
  ◌<◌, ◌==◌, ◌||◌, ◌∷◌, ◌≡◌,
}

-- The starter is built with CHOS as the variable, which is set, its limit of memory fits in an int, and
-- malloc gives an array for the job.
pub record Granted (site : Site) (c : Calls) (osenv : Bytes) (job : List Bytes) : Type 0 where
  pub macro : site.chos ≡ some (codes "CHOS")
  pub variable : c.getenv (codes "CHOS") ≡ some osenv
  pub nonempty : (head_or 0 osenv == 0) ≡ false
  pub actions : List Action
  pub limit : limit_memory c site.limit_mb ≡ some actions
  pub old : ℕ → Option Bytes
  pub array : c.malloc ((length job + 2) * 8) ≡ some old

Granted-Wants :
    {site : Site} {c : Calls} {osenv : Bytes} {job : List Bytes}
    → Granted site c osenv job
    → Wants site c
Granted-Wants {osenv = []} q = absurd (ground (arith, q.nonempty))
Granted-Wants {osenv = first ∷ rest} q = wants q.macro q.variable (ground (arith, q.nonempty))

-- For a starter that is built with CHOS as its variable, with the variable set and not empty, a
-- limit of memory that fits in an int and an array from malloc: if main of chos runs with what
-- job_starter gives to execvp, as in the result on main-reads (the environment has a path that is
-- "/" or valid and fits the array, no option is given, the files are those of the module in a state
-- that satisfies the invariant, the caller has a way up), it ends without a fault of the module in
-- execvp of the command with its arguments, and the job reads just that path from /proc/chos/link.
pub job_starter-reads :
    {R : Type 0} (vfs_readlink : Bytes → R) {h : Host} {k : Services} {m : Machine} {fuel : ℕ}
    {w : Write} {os : Bytes} {s : State} {ps : List ℕ} (site : Site) (c : Calls)
    (starter command shell : Bytes) (args : List Bytes)
    → (asks : Asks h (under_chos (command ∷ args)) shell os)
    → Granted site c asks.osenv (command ∷ args)
    → Inv null s
    → Distinct m
    → Lineage m s.pid_max m.current ps
    → length ps < fuel
    → is_top m m.current ≡ false
    → AllFit s
    → Served h k m fuel w os s
    → length os < max_os
    → (str_eq os slash || is_valid_path s.valid_paths os) ≡ true
    → (argv : List Bytes) × ((job_starter site c (starter ∷ command ∷ args)).1 ≡ Jobs.execvp argv)
      × Returns
          (λ exit s'.
            (exit ≡ execvp (command ∷ args))
            × Returns (λ r s2. r ≡ vfs_readlink os) (link_readlink vfs_readlink m fuel s'))
          (main h argv s)
unfolding start
job_starter-reads vfs_readlink site c starter command shell args asks q v d line enough low fit
      served short listed =
    (
      under_chos (command ∷ args),
      (job_starter-Started site c starter command args q.limit q.array).0 (Granted-Wants q),
      main-reads vfs_readlink (under_chos (command ∷ args)) shell v d line enough low fit served
          asks short listed,
    )
