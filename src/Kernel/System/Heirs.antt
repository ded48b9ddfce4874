-- ===== src/Kernel/System/Heirs.antt =====
-- What a child holds behind a fork that other calls interrupt.
use chos.Kernel.Fork.{child}
use chos.Kernel.Fork.Inherit.{chos_do_fork-inherits}
use chos.Kernel.Links.Inv.{text_of}
use chos.Kernel.Links.Way.{pid_of, is_top, at_entry, Resolves, Resolves-unique}
use chos.Kernel.State.{Machine, State, Ptr, null}
use chos.Kernel.State.Returns.{Returns, returns}
use chos.Kernel.State.Returns
use chos.Kernel.System.{Call, Fits, fork, setchos, sequence, run}
use chos.Kernel.Buffer.{Write}
use chos.Kernel.Paths.{is_valid_path}
use chos.Kernel.Proc.{Services, slash}
use chos.Kernel.Proc.Assign.{Request, path_of}
use chos.Kernel.Proc.Setchos.{write_setchos-Switched}
use chos.Kernel.System.Forks.{do_fork-Undisturbed}
use chos.Kernel.System.Held.{Held}
use chos.Kernel.System.Policy.{run-Kept}
use chos.Kernel.System.Safe.{Safe}
use chos.Prelude.{ℕ, Bytes, ◌≡◌, ◌≢◌, ◌==◌, some, false, true, str_eq, ◌||◌, arith}

Held-Resolves :
    {m : Machine} {a : Ptr} {b : Bytes} {s : State}
    → is_top m m.current ≡ false
    → Held (pid_of m m.current) (m.task m.current).start_time a b s
    → Resolves m s m.current a
Held-Resolves low g = at_entry low (ground (arith, g.entry, g.is_link)) (ground (arith, g.entry))

-- A child.
pub fork-Held :
    {P : Bytes → Type 0} (m behind : Machine) (fuel pid : ℕ) (during : Call) {a : Ptr} {b : Bytes}
    {s : State}
    → Safe P s
    → Fits P (fork m fuel during (child pid) behind) s
    → behind.find_task pid ≢ null
    → is_top m m.current ≡ false
    → Held (pid_of m m.current) (m.task m.current).start_time a b s
    → Returns
        (λ _ s'.
          Held
            (pid_of behind (behind.find_task pid))
            (behind.task (behind.find_task pid)).start_time
            a
            b
            s')
        (run (fork m fuel during (child pid) behind) s)
unfolding run
fork-Held m behind fuel pid during {a} {b} {s} h f ne low g =
    let (k, other) = f.1 ne in
    Returns.bind
      (chos_do_fork-inherits fuel m behind _ pid h.inv f.0.way (omega (arith, f.0.enough))
        (λ x s1 e v1.
          do_fork-Undisturbed m behind fuel during (child pid) h f
            (λ s2 h2 f2. run-Kept during h2 f2) x s1 e)
        ne k other)
      λ r s' (er, v', ep, (x, res, own, (t, before, after))).
        let ex : x ≡ a = Resolves-unique res (Held-Resolves low g) in
        let is_link : (x == null) ≡ false = ground (arith, g.is_link) in
        let now : text_of s' x ≡ some t = rw is_link at after in
        let first : text_of s x ≡ some t = rw is_link at before in
        returns (record {
          low = omega (arith, k, ep);
          entry = ground (arith, own);
          is_link = g.is_link;
          text = ground (arith, g.text, now, first);
        })

-- Two calls in a row, by what the first one leaves.
pub run-sequence :
    {P : Bytes → Type 0} {Q R : State → Type 0} (c d : Call) {s : State}
    → Safe P s
    → Fits P (sequence c d) s
    → Returns (λ _ s1. Q s1) (run c s)
    → ((s1 : State) → Safe P s1 → Q s1 → Fits P d s1 → Returns (λ _ s2. R s2) (run d s1))
    → Returns (λ _ s2. R s2) (run (sequence c d) s)
unfolding run
run-sequence c d h (f, fits) q next =
    let (u, s1, e, k) = Returns.run (run-Kept c h f) in
    rw e (next s1 k.safe (Returns.holds q e) (fits s1 e))

-- A write to setchos gives the caller an entry of its own.
pub setchos-Held :
    {P : Bytes → Type 0} (k : Services) (m : Machine) (w : Write) {s : State}
    → Safe P s
    → Fits P (setchos k m w) s
    → w.text ≢ null
    → w.object ≢ null
    → (str_eq (path_of w) slash || is_valid_path s.valid_paths (path_of w)) ≡ true
    → Returns
        (λ _ s'. Held (pid_of m m.current) (m.task m.current).start_time w.object (path_of w) s')
        (run (setchos k m w) s)
unfolding run
setchos-Held k m w h (new, ne, low) text object accepted =
    let q : Request m w _ = record {
      text_ne = text;
      text_new = new.text_new text;
      object_ne = object;
      object_new = new.object_new object;
      current_ne = ne;
      in_range = low;
    } in
    Returns.bind (write_setchos-Switched k h.inv q accepted) λ r s' (er, z). returns (record {
      low = omega (arith, z.pid_max);
      entry = z.chosen.own;
      is_link = object;
      text = z.chosen.target;
    })
