-- ===== src/Kernel/Module/Fresh.antt =====
-- The table of a module that is loaded for the first time, and a load that fails.
use chos.Kernel.Module.Unload.{init_module-loaded}
use chos.Kernel.Patch.Restore.{init_do_fork-jumps}
use chos.Kernel.System.Safe.{Safe}
use chos.Prelude.{
  List, Bytes, [], Bool, ap, refl, some, ◌∙◌, none, ◌^◌, arith, ◌<◌, false, true, ◌≢◌, ◌≡◌, ℕ,
}
use chos.Kernel.Patch.{init_do_fork}
use chos.Kernel.Links.Way.{at_parent, pid_of, at_entry, at_top, Resolves}
use chos.Kernel.World.{zero_ok, minus_one, done, World, Loading, Build}
use chos.Kernel.Module.{new_chos, init_module, size_of, unused, seen, make_entries}
use chos.Kernel.State.{ValidPath, null, Ptr, State, Machine}
use chos.Kernel.Module.Load.{
  seen-some, set_up-save_state, set_up-valid_paths, set_up-arrays, set_up-current, with_files,
  trapped, set_up-table, init_module-set_up, set_up-memory, Grants, set_up,
}

abbrev EmptyTable : State → Type 0
EmptyTable s = (i : ℕ) → s.procs i ≡ unused

Resolves-unused : {m : Machine} {s : State} {t a : Ptr} → EmptyTable s → Resolves m s t a → a ≡ null
Resolves-unused h (at_top k e) = e
Resolves-unused {m} {t} h (at_entry low c e) = absurd (ground (arith, h (pid_of m t)))
Resolves-unused h (at_parent low c r) = Resolves-unused h r

-- If everything that a first load asks for is granted, in a kernel with no links yet, with an empty
-- list of valid paths in the module and a table of less than 2^31 entries, then init_module
-- succeeds, and the module sees a state that is safe for every policy (it satisfies the invariant
-- and has only approved texts) and in which every process resolves to no link.
pub init_module-Safe :
    (P : Bytes → Type 0) (b : Build) (l : Loading) {w : World} (s : State)
    → Grants b l w
    → l.proc_mkdir ≡ true
    → size_of b l < 2 ^ 31
    → ((p : Ptr) → s.links p ≡ none)
    → s.texts null ≡ none
    → w.valid_paths ≡ []
    → (w' : World) × (s' : State) × (init_module b l w ≡ done zero_ok w')
      × (seen w' s ≡ some s')
      × Safe P s'
      × ((m : Machine) (t a : Ptr) → Resolves m s' t a → a ≡ null)
unfolding seen
init_module-Safe P b l {w} s g mkdir small no_links no_text no_paths =
    let s' : State = record s {
      pid_max = size_of b l;
      procs = λ i. unused;
      named = (new_chos b l).named;
      nochroot = (new_chos b l).nochroot;
      fork_wrapped = trapped b w;
      save_state = w.save_state;
      valid_paths = w.valid_paths;
    } in
    (
      with_files (set_up b l w),
      s',
      init_module-loaded g mkdir,
      seen-some (with_files (set_up b l w)) s (set_up-current b l w)
            (rw (set_up-arrays b l w) (ground arith))
          ∙ ap
              (λ (saved : Bool).
                some (record s' { save_state = saved; valid_paths = (set_up b l w).valid_paths }))
              (set_up-save_state b l w)
          ∙ ap (λ (vs : List ValidPath). some (record s' { valid_paths = vs }))
              (set_up-valid_paths b l w),
      record {
        inv = record {
          small = small;
          null_link = no_links null;
          null_text = no_text;
          counted = λ a k e. ground (arith, no_links a);
          held = λ a k e o. ground (arith, no_links a);
          live = λ i h o. ground arith;
          owned = λ a k e. absurd (ground (arith, no_links a));
          unique = λ a b' k k' e e' o. ground (arith, no_links a);
        };
        texts = λ a t e. ground (arith, no_links a);
        valid = rw no_paths tt;
      },
      λ m t a r. Resolves-unused {s = s'} (λ i. refl) r,
    )

-- If everything that a first load asks for is granted but proc_mkdir, and the wrapper goes in, then
-- init_module returns -1, but the memory stays as init_do_fork left it, the original function
-- begins with the jump, and the struct is not freed.
pub init_module_fails-wrapped :
    (b : Build) (l : Loading) {w : World}
    → Grants b l w
    → l.proc_mkdir ≡ false
    → b.wrap_dofork ≡ true
    → (init_do_fork b.target w.memory).0 ≡ true
    → (w' : World) × (init_module b l w ≡ done minus_one w')
      × (w'.memory ≡ (init_do_fork b.target w.memory).1)
      × (w'.memory.bytes b.target.start ≡ 233)
      × (w'.tables l.kmalloc ≢ none)
unfolding make_entries
init_module_fails-wrapped b l {w} g refused wraps put =
    let kept : (set_up b l w).memory ≡ (init_do_fork b.target w.memory).1 =
      set_up-memory b l w ∙ rw wraps refl in
    (
      set_up b l w,
      init_module-set_up g ∙ rw refused refl,
      kept,
      rw kept (init_do_fork-jumps b.target w.memory put),
      λ e. ground (arith, set_up-table b l w),
    )
