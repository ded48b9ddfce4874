-- ===== src/Kernel/Proc/Setchos.antt =====
-- write_setchos: what a write to /proc/chos/setchos does, on each of its branches.
use Prim.Native.Nat.{bit_or}
use chos.Kernel.Proc.Path.{set_path-slash, set_path-valid, enter, enter-moved}
use chos.Kernel.Proc.Assign.{
  copied-KeepsTexts, assign_current-Chosen, same-Inv, write_setchos-set_path, Ready, copied-Inv,
  copied-Loose, Chosen, copied, Switched, entered, Request, path_of,
}
use chos.Kernel.Paths.{is_valid_path}
use chos.Kernel.Proc.Chroot.{moved}
use chos.Kernel.State.Returns.{returns, Returns}
use chos.Kernel.Proc.{
  cap_sys_chroot, chosroot, is_chrooted, slash, set_path, Services, write_setchos,
}
use chos.Kernel.Buffer.{enoent, enomem, errno, written, Write}
use chos.Kernel.Links.Inv.{KeepsOthers, Loose, Frame, Inv}
use chos.Prelude.{
  ⊎_map, sym, ap, inr, inl, Bool-cases, ◌||◌, Option, refl, false, true, str_eq, update, some,
  arith, none, ◌≢◌, ℕ, ◌≡◌,
}
use chos.Kernel.State.Returns
use chos.Kernel.State.{Dir, load_text, ok, null, Machine, State, Ptr}

module _ (k : Services) {m : Machine} {w : Write} {s : State} (v : Inv null s)
    (q : Request m w s) where
  copied-Ready :
      (s0 : State)
      → entered m w s ≡ s0
      → (s0.links ≡ s.links)
      → s0.texts ≡ (copied w s).texts
      → Ready m w (path_of w) s0
  copied-Ready s0 e el et = record {
    object_ne = q.object_ne;
    unused = λ s1 h. q.object_new s1 (rw e h);
    loose = record {
      text = ground (arith, et);
      unowned =
          λ a l p r. let (t, u) = v.owned a l (ground (arith, el)) in ground (arith, q.text_new);
    };
  }

  -- The copy of the text changes no link's.
  since_copy : (s1 : State) → KeepsOthers w.object (copied w s) s1 → KeepsOthers w.object s s1
  since_copy s1 h a t e =
      ⊎_map {A = a ≡ w.object} (λ o. o) (copied-KeepsTexts w v q.text_new a t) (h a t e)

  enter_slash :
      str_eq (path_of w) slash ≡ true
      → Returns (λ r s'. (r ≡ written w.count) × Switched k m w s s') (write_setchos k m w s)
  enter_slash e =
      let s0 : State = record (copied w s) {
        root = update s.root (m.task m.current).fs s.nochroot;
      } in
      let v0 = copied-Inv w v q.text_ne q.text_new in
      rw (write_setchos-set_path k m w s q.text_ne, set_path-slash k m w (path_of w) (copied w s) e)
        (Returns.bind
          (assign_current-Chosen {s = s0} m w (path_of w) (same-Inv v0 refl refl refl refl)
            (copied-Ready s0 (rw e) refl refl) q.current_ne q.in_range)
          λ _ s1 (v1, f, c). returns (
            refl,
            record {
              inv = v1;
              chosen = record {
                own = c.own;
                others = c.others;
                target = c.target;
                texts = since_copy s1 c.texts;
              };
              root = rw e f.root;
              caps = f.caps;
              addr_limit = f.addr_limit;
              valid_paths = f.valid_paths;
              save_state = f.save_state;
              pid_max = f.pid_max;
            },
          ))

  moved_same :
      (o : Option Dir) (s1 : State) → s1.root ≡ s.root → (moved m s1 o).root ≡ (moved m s o).root
  moved_same none s1 e = e
  moved_same (some d) s1 e = rw e

  enter-Switched :
      (s1 : State)
      → str_eq (path_of w) slash ≡ false
      → Inv null s1
      → Frame (copied w s) s1
      → Chosen m w.object (path_of w) (copied w s) s1
      → Returns (λ r s'. (r ≡ written w.count) × Switched k m w s s') (enter k m w s1)
  enter-Switched s1 e v1 f c =
      let chosen : Chosen m w.object (path_of w) s s1 = record {
        own = c.own;
        others = c.others;
        target = c.target;
        texts = since_copy s1 c.texts;
      } in
      let same : is_chrooted m s1 ≡ is_chrooted m s = unfold is_chrooted in rw (f.root, f.named) in
      rw (enter-moved k m w s1, same)
        (elim (Bool-cases (is_chrooted m s)) [
          | inl inside ↦ rw inside (
              returns (
                refl,
                record {
                  inv = v1;
                  chosen = chosen;
                  root = rw (e, inside) f.root;
                  caps = f.caps;
                  addr_limit = f.addr_limit;
                  valid_paths = f.valid_paths;
                  save_state = f.save_state;
                  pid_max = f.pid_max;
                },
              ))
          | inr outside ↦ rw outside (
              returns (
                refl,
                moved_Switched
                    (k.sys_chroot chosroot
                      (bit_or (s1.caps (m.task m.current).cred) cap_sys_chroot))
                    outside
                    (ap
                      (λ (c : Ptr → ℕ).
                        k.sys_chroot chosroot (bit_or (c (m.task m.current).cred) cap_sys_chroot))
                      (sym f.caps))
                    chosen,
              ))
        ])
    where
      moved_Switched :
          (o : Option Dir)
          → is_chrooted m s ≡ false
          → k.sys_chroot chosroot (bit_or (s.caps (m.task m.current).cred) cap_sys_chroot) ≡ o
          → Chosen m w.object (path_of w) s s1
          → Switched k m w s (moved m s1 o)
      moved_Switched none outside eo chosen = record {
        inv = v1;
        chosen = chosen;
        root = rw (e, outside, eo) f.root;
        caps = f.caps;
        addr_limit = f.addr_limit;
        valid_paths = f.valid_paths;
        save_state = f.save_state;
        pid_max = f.pid_max;
      }
      moved_Switched (some d) outside eo chosen = record {
        inv = same-Inv v1 refl refl refl refl;
        chosen = record {
          own = chosen.own;
          others = chosen.others;
          target = chosen.target;
          texts = chosen.texts;
        };
        root = rw (e, outside, eo, f.root) refl;
        caps = f.caps;
        addr_limit = f.addr_limit;
        valid_paths = f.valid_paths;
        save_state = f.save_state;
        pid_max = f.pid_max;
      }

  enter_valid :
      str_eq (path_of w) slash ≡ false
      → is_valid_path s.valid_paths (path_of w) ≡ true
      → Returns (λ r s'. (r ≡ written w.count) × Switched k m w s s') (write_setchos k m w s)
  enter_valid e h =
      let v0 = copied-Inv w v q.text_ne q.text_new in
      rw
        (
          write_setchos-set_path k m w s q.text_ne,
          set_path-valid k m w (path_of w) (copied w s) e h,
        )
        (Returns.bind
          (assign_current-Chosen {s = copied w s} m w (path_of w) v0
            (copied-Ready (copied w s) (rw e) refl refl) q.current_ne q.in_range)
          λ _ s1 (v1, f, c). enter-Switched s1 e v1 f c)

  -- For a state that satisfies the invariant and a write as `Request` describes it: a write to
  -- setchos of "/" or of a valid path returns `count`; the caller then has a new link to that path,
  -- the dead entries are empty and no other entry changes; "/" takes the caller out of the chroot,
  -- any other path into it if it is not there yet and sys_chroot succeeds; the invariant still
  -- holds, and the caller's capabilities are as before.
  pub write_setchos-Switched :
      (str_eq (path_of w) slash || is_valid_path s.valid_paths (path_of w)) ≡ true
      → Returns (λ r s'. (r ≡ written w.count) × Switched k m w s s') (write_setchos k m w s)
  write_setchos-Switched h = elim (Bool-cases (str_eq (path_of w) slash)) [
    | inl e ↦ enter_slash e
    | inr e ↦ enter_valid e (ground arith)
  ]

-- In a state that satisfies the invariant, a write to setchos of a path that is neither "/" nor
-- valid fails, with ENOMEM in the same state if kmalloc fails, and else with ENOENT; then nothing
-- changed but that the copied text is still allocated, and no link owns it.
pub write_setchos-refused :
    (k : Services) (m : Machine) (w : Write) {s : State}
    → Inv null s
    → s.texts w.text ≡ none
    → (str_eq (path_of w) slash || is_valid_path s.valid_paths (path_of w)) ≡ false
    → (w.text ≡ null → write_setchos k m w s ≡ ok (errno enomem) s)
      × (w.text ≢ null
          → (write_setchos k m w s ≡ ok (errno enoent) (copied w s))
            × Loose w.text (path_of w) (copied w s))
unfolding write_setchos set_path load_text
write_setchos-refused k m w {s} v new h =
    (λ e. ground arith, λ ne. (ground arith, copied-Loose w v new))
