-- ===== src/Tests/Main.antt =====
-- The command chos on the machine of Tests/World: the grandchild (4), which inherits /os/a, asks for
-- the environment `b` and a program.
use chos.Command.Main.{Host, main, execvp, informs, breaks, max_os, chos_print_version, start, Exit}
use chos.Command.Main.Enter.{main-reads, Served, Asks, AllFit}
use chos.Tests.Command.{shell}
use chos.Tests.Kernel.{links_of}
use chos.Tests.System.{machine-Distinct}
use chos.Kernel.Buffer.{text_length}
use chos.Tests.World.{machine, state0, state0-Inv, services, choose_b, caller-Lineage}
use chos.Kernel.Paths.{is_valid_path}
use chos.Kernel.Proc.{link_readlink, write_setchos, slash}
use chos.Kernel.Proc.Assign.{Request}
use chos.Kernel.Links.{cleanup_links}
use chos.Kernel.State.{Run, ok, fault, pure, ◌>>◌}
use chos.Kernel.State.Returns.{Returns, returns}
use chos.Jobs
use chos.Jobs.{job_starter, limits, mb_factor, rlimit_as}
use chos.Jobs.Enter.{Granted, job_starter-reads}
use chos.Jobs.Start.{under_chos}
use chos.Tests.Jobs.{calls, site}
use chos.Prelude.{
  List, ◌*◌, ℕ, zero, suc, Option, some, none, true, Bytes, codes, List, [], ◌∷◌, str_eq, ◌||◌,
  if◌then◌else◌, take, refl, ◌≡◌, update, subst, sym, ap, arith, Bool-cases, inl, inr, ◌==◌,
}

abbrev joe : Host
joe = record {
  shell = record shell {
    getenv = λ name. if str_eq name (codes "CHOS") then some (codes "b") else none;
  };
  chosconf = some (record { owner = some 0; bytes = codes "%SHELLS\nb:/os/b\n" });
  pw_shell = some (codes "/bin/bash");
  readlink = λ n. link_readlink (λ t. some (take n t)) machine 4;
  opens_setchos = true;
  printed = λ text. some text;
  close_setchos = λ text. write_setchos services machine choose_b >> pure tt;
  setuid = λ s. ok tt (record s { euid = update s.euid 4 500 });
  kernel_version = some (codes "chos 0.13.2 Fork trapped\n");
  strerror = [];
  version = codes "0.13.2";
}

abbrev argv : List Bytes
argv = codes "chos" ∷ codes "ls" ∷ codes "/" ∷ []

abbrev ends : Run Exit → Option Exit
ends (ok exit s) = some exit
ends (fault f) = none

runs_ls : ends (main joe argv state0) ≡ some (execvp (codes "ls" ∷ codes "/" ∷ []))
unfolding main link_readlink write_setchos
runs_ls = refl

-- An option is told by how it begins.
prints_version :
    ends (main joe (codes "chos" ∷ codes "--versions" ∷ []) state0)
    ≡ some (informs (chos_print_version joe))
unfolding main
prints_version = refl

-- A link of 80 bytes: the terminator falls behind the array.
repeated : ℕ → Bytes
repeated zero = []
repeated (suc n) = b'x' ∷ repeated n

link_too_long :
    ends (main (record joe { readlink = λ n s. ok (some (take n (repeated 90))) s }) argv state0)
    ≡ some breaks
unfolding main repeated
link_too_long = refl

-- A kernel that refuses the write is not noticed: the program starts in the old environment.
refusal_unnoticed :
    ends (main (record joe { close_setchos = λ text. pure tt }) argv state0)
    ≡ some (execvp (codes "ls" ∷ codes "/" ∷ []))
unfolding main link_readlink
refusal_unnoticed = refl

abbrev Requests : Run (Option Bytes) → Type 0
Requests (ok r s) = Request machine choose_b s
Requests (fault f) = Unit

joe-Requests : Requests (joe.readlink max_os state0)
unfolding link_readlink cleanup_links text_length
joe-Requests = record {
  text_ne = ground arith;
  text_new = refl;
  object_ne = ground arith;
  object_new = λ s1 e. sym (ap (λ (r : Run (Unit {0})). links_of r 30) e);
  current_ne = ground arith;
  in_range = omega arith;
}

joe-Served : Served joe services machine 4 choose_b (codes "/os/b") state0
unfolding text_length
joe-Served = record {
  readlink = λ n s. refl;
  opens = refl;
  printed = refl;
  close = λ s. refl;
  path = refl;
  request = λ r s1 e. subst Requests e joe-Requests;
  setuid = λ s. returns (record { pid_max = refl; procs = refl; links = refl; texts = refl });
}

joe-Asks : Asks joe argv (codes "/bin/bash") (codes "/os/b")
unfolding main
joe-Asks = record { osenv = codes "b"; parsed = refl; variable = refl; chosen = refl; user = refl }

joe-AllFit : AllFit state0
joe-AllFit a t e = elim (Bool-cases (a == 10)) [
  | inl ten ↦
      let et : t ≡ codes "/os/a" = ground arith in
      rw et (record { some_bytes = omega arith; short = omega arith; string = refl })
  | inr other ↦
      let et : t ≡ codes "/os/b" = ground arith in
      rw et (record { some_bytes = omega arith; short = omega arith; string = refl })
]

b_accepted :
    (str_eq (codes "/os/b") slash || is_valid_path state0.valid_paths (codes "/os/b")) ≡ true
unfolding is_valid_path
b_accepted = refl

main-reads_example :
    Returns
      (λ exit s'.
        (exit ≡ start joe (codes "/bin/bash") argv)
        × Returns (λ r s2. r ≡ codes "/os/b") (link_readlink {R = Bytes} (λ t. t) machine 4 s'))
      (main joe argv state0)
main-reads_example =
    main-reads (λ t. t) argv (codes "/bin/bash") state0-Inv machine-Distinct caller-Lineage
      (omega arith) refl joe-AllFit joe-Served joe-Asks (omega arith) b_accepted

-- The same under the job starter.
starter-Asks :
    Asks joe (under_chos (codes "ls" ∷ codes "/" ∷ [])) (codes "/bin/bash") (codes "/os/b")
unfolding main
starter-Asks = record {
  osenv = codes "b";
  parsed = refl;
  variable = refl;
  chosen = refl;
  user = refl;
}

starter-Granted : Granted site calls (codes "b") (codes "ls" ∷ codes "/" ∷ [])
unfolding job_starter
starter-Granted = record {
  macro = refl;
  variable = refl;
  nonempty = refl;
  actions = limits rlimit_as (1024 * mb_factor) ∷ [];
  limit = refl;
  old = λ i. some (codes "garbage");
  array = refl;
}

job_starter-reads_example :
    (argv : List Bytes) × ((job_starter site calls
        (codes "starter" ∷ codes "ls" ∷ codes "/" ∷ [])).1
      ≡ Jobs.execvp argv)
    × Returns
        (λ exit s'.
          (exit ≡ execvp (codes "ls" ∷ codes "/" ∷ []))
          × Returns (λ r s2. r ≡ codes "/os/b") (link_readlink {R = Bytes} (λ t. t) machine 4 s'))
        (main joe argv state0)
unfolding starter-Asks
job_starter-reads_example =
    job_starter-reads (λ t. t) site calls (codes "starter") (codes "ls") (codes "/bin/bash")
      (codes "/" ∷ []) starter-Asks starter-Granted state0-Inv machine-Distinct caller-Lineage
      (omega arith) refl joe-AllFit joe-Served (omega arith) b_accepted
