-- ===== src/Tests/Kernel.antt =====
-- The kernel module on the machine of Tests/World.antt.
use chos.Kernel.Proc.Resetchos.{write_resetchos-inherits}
use chos.Kernel.Links.Lookup.{lookup_link-Found}
use chos.Kernel.Links.Reset.{reset_link-Cleared}
use chos.Kernel.Proc.Readlink.{readlink-setchos, Target}
use chos.Kernel.Proc.Setchos.{write_setchos-Switched}
use chos.Kernel.Links.Set.{entry_of}
use chos.Kernel.Links.Cleanup.{cleanup_links-Purged, Purged}
use chos.Kernel.Links.Resolve.{top, below, Found, Resolves}
use chos.Kernel.Fork.Inherit.{chos_do_fork-inherits, Undisturbed}
use chos.Kernel.Paths.{print_valid, is_valid_path}
use chos.Tests.World.{
  caller-Lineage, state0-Inv, procs0, task_of, state0, machine, choose_b, services,
}
use chos.Kernel.Proc.Assign.{path_of, entered, Switched, Request}
use chos.Kernel.Links.{is_dead, lookup_link, reset_link, set_link, cleanup_links}
use chos.Kernel.Links.Inv.{Cleared, blank, Inv}
use chos.Kernel.Buffer.{text_length, written, Write}
use chos.Kernel.Paths.Reload.{write_lines-print_valid, line_write, split_lines, write_lines}
use chos.Kernel.Fork.{chos_do_fork, Forked, child}
use chos.Kernel.Proc.{write_resetchos, slash, write_setchos, link_readlink}
use chos.Prelude.{
  false, ap, ◌&&◌, ◌||◌, ltb, sym, refl, true, some, if◌then◌else◌, arith, none, [], str_eq, ◌≢◌,
  codes, ◌∷◌, Bytes, Option, ℕ, ◌≡◌,
}
use chos.Kernel.State.Returns.{returns, Returns}
use chos.Kernel.State.{fault, ok, Link, null, Machine, Run, Cmd, State, Ptr}

-- Runs.

abbrev pub links_of : {A : Type 0} → Run A → Ptr → Option Link
links_of (ok a s) p = s.links p
links_of (fault f) p = none

abbrev result : {A : Type 0} → Run A → Option A
result (ok a s) = some a
result (fault f) = none

-- The grandchild sees the shell's environment.
readlink_inherited :
    result (link_readlink {R = Bytes} (λ t. t) machine 4 state0) ≡ some (codes "/os/a")
unfolding link_readlink
readlink_inherited = refl

-- The stale link of pid 5 is freed by a cleanup, the shell's is kept.
cleanup_frees :
    (links_of (cleanup_links machine state0) 20 ≡ none)
    × (links_of (cleanup_links machine state0) 10 ≡ some (record { text = 50; count = 1 }))
unfolding cleanup_links
cleanup_frees = (refl, refl)

setchos_writes : result (write_setchos services machine choose_b state0) ≡ some (written 6)
unfolding write_setchos
setchos_writes = refl

-- A pid equal to `pid_max` passes BUG_ON and is outside of the table.
past_the_table :
    result (set_link (record machine { task = λ p. record (task_of p) { pid = 6 } }) 10 4 state0)
    ≡ none
unfolding set_link
past_the_table = refl

-- The theorems at these inputs.

pub choose_b-new :
    (s1 : State)
    → cleanup_links machine (entered machine choose_b state0) ≡ ok tt s1
    → s1.links 30 ≡ none
unfolding cleanup_links text_length
choose_b-new s1 e = sym (ap (λ (r : Run (Unit {0})). links_of r 30) e)

pub choose_b-Request : Request machine choose_b state0
choose_b-Request = record {
  text_ne = ground arith;
  text_new = refl;
  object_ne = ground arith;
  object_new = choose_b-new;
  current_ne = ground arith;
  in_range = omega arith;
}

pub choose_b-accepted :
    (str_eq (path_of choose_b) slash || is_valid_path state0.valid_paths (path_of choose_b)) ≡ true
unfolding text_length is_valid_path
choose_b-accepted = refl

readlink-setchos_example :
    Returns
      (λ r s'.
        (r ≡ written 6)
        × (link_readlink {R = Bytes} (λ t. t) machine 1 s' ≡ ok (path_of choose_b) s'))
      (write_setchos services machine choose_b state0)
readlink-setchos_example =
    readlink-setchos (λ t. t) services 0 state0-Inv choose_b-Request refl choose_b-accepted

write_setchos-Switched_example :
    Returns
      (λ r s'. (r ≡ written 6) × Switched services machine choose_b state0 s')
      (write_setchos services machine choose_b state0)
write_setchos-Switched_example =
    write_setchos-Switched services state0-Inv choose_b-Request choose_b-accepted

lookup_link-Found_example :
    Returns
      (λ a s'. Inv null s' × Found machine 4 (4 ∷ 3 ∷ 2 ∷ []) a state0 s')
      (lookup_link machine 4 4 state0)
lookup_link-Found_example = lookup_link-Found 4 4 caller-Lineage refl (omega arith) state0-Inv

-- do_fork makes process 3, a child of 2, appear; nothing else happens while it runs.
abbrev shell : Machine
shell = record machine { current = 2 }

abbrev fork_3 : Cmd (Forked × Machine)
fork_3 s = ok (child 3, shell) s

fork_3-Undisturbed :
    (s1 : State)
    → Inv null s1
    → Returns (λ r s2. (r ≡ (child 3, shell)) × Undisturbed shell s1 s2) (fork_3 s1)
fork_3-Undisturbed s1 v =
    returns (refl, record { inv = v; pid_max = refl; own = λ low held. (refl, refl) })

chos_do_fork-inherits_example :
    Returns
      (λ r s'.
        (r ≡ child 3)
        × Inv null s'
        × (s'.pid_max ≡ 6)
        × ((a : Ptr) × (Resolves shell state0 2 a)
            × (s'.procs 3 ≡ entry_of shell a 3)
            × ((b : Bytes) × Target state0 a b × Target s' a b)))
      (chos_do_fork shell 4 fork_3 state0)
chos_do_fork-inherits_example =
    chos_do_fork-inherits 4 shell shell fork_3 3 state0-Inv
      (below refl refl (omega arith) refl (top refl)) (omega arith)
      (λ a s1 e v. fork_3-Undisturbed s1 v) (ground arith) (omega arith) (ground arith)

reset_link-Cleared_example :
    Returns (λ _ s'. Inv null s' × Cleared 2 state0 s') (reset_link 2 state0)
reset_link-Cleared_example = reset_link-Cleared 2 state0-Inv (omega arith)

cleanup_links-Purged_example :
    Returns (λ _ s'. Inv null s' × Purged machine state0 s') (cleanup_links machine state0)
cleanup_links-Purged_example = cleanup_links-Purged machine state0-Inv

-- `echo /os/c > /proc/chos/setchos`, which root has not registered.
abbrev choose_c : Write
choose_c = line_write 70 30 (codes "/os/c")

choose_c-refused :
    (str_eq (path_of choose_c) slash || is_valid_path state0.valid_paths (path_of choose_c)) ≡ false
unfolding text_length is_valid_path
choose_c-refused = refl

write_resetchos-inherits_example :
    Returns
      (λ r s'.
        (r ≡ written 6)
        × Inv null s'
        × (s'.procs 4 ≡ blank)
        × ((j : ℕ)
            → j ≢ 4
            → s'.procs j ≡ (if ltb j 6 && is_dead machine j (procs0 j) then blank else procs0 j))
        × (Resolves machine s' 3 10 → Resolves machine s' 4 10))
      (write_resetchos machine choose_b state0)
write_resetchos-inherits_example =
    write_resetchos-inherits machine choose_b state0-Inv refl (omega arith)

abbrev by_root : Machine
by_root = record machine { current = 1 }

write_lines-print_valid_example :
    write_lines by_root 70 30
      (split_lines (print_valid state0.valid_paths))
      (record state0 { valid_paths = [] })
    ≡ ok tt state0
write_lines-print_valid_example =
    write_lines-print_valid by_root 70 30 state0 refl (ground arith) (ground arith) (
      record { line = refl; no_dash = refl; length_is = refl },
      (record { line = refl; no_dash = refl; length_is = refl }, tt),
    )
