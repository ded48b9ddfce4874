-- ===== src/Kernel/System/Held.antt =====
-- A process with an entry of its own, and when it keeps it.
use chos.Kernel.Links.Create.{text_of-live}
use chos.Kernel.Links.Inv.{text_of, Inv}
use chos.Kernel.State.{Ptr, null, State, Link}
use chos.Prelude.{ℕ, Bytes, some, ◌≡◌, ◌≢◌, ◌<◌, arith}

-- The entry of the pid `i` is that of the process which began at `time`, and holds the link at `a`
-- with the text `b`.
pub record Held (i time : ℕ) (a : Ptr) (b : Bytes) (s : State) : Type 0 where
  pub low : i < s.pid_max
  pub entry : s.procs i ≡ record { link = a; start_time = time }
  pub is_link : a ≢ null
  pub text : text_of s a ≡ some b

module _ {i time : ℕ} {a : Ptr} {b : Bytes} {s : State} (g : Held i time a b s) where
  pub Held-live : Inv null s → (l : Link) × (s.links a ≡ some l)
  Held-live v =
      let e = g.entry in
      let (l, el) = v.live i g.low (ground (arith, g.is_link)) in (l, ground arith)

  -- No link got another text, and the entry is as before.
  pub Held-kept :
      {s' : State}
      → Inv null s'
      → s'.pid_max ≡ s.pid_max
      → s'.procs i ≡ s.procs i
      → ((t : Bytes) → text_of s' a ≡ some t → text_of s a ≡ some t)
      → Held i time a b s'
  Held-kept {s'} v ep ei texts =
      let e = g.entry in
      let own : (s'.procs i).link ≡ a = ground arith in
      let (t, et) = text_of-live i v (omega (arith, g.low)) (ground (arith, g.is_link)) in
      let now : text_of s' a ≡ some t = rw own at et in
      let before = texts t now in
      record {
        low = omega (arith, g.low);
        entry = ground arith;
        is_link = g.is_link;
        text = ground (arith, g.text);
      }

  pub Held-same :
      {s' : State}
      → s'.pid_max ≡ s.pid_max
      → s'.procs ≡ s.procs
      → s'.links ≡ s.links
      → s'.texts ≡ s.texts
      → Held i time a b s'
  Held-same ep ec el et = record {
    low = rw ep g.low;
    entry = rw ec g.entry;
    is_link = g.is_link;
    text = ground (arith, g.text);
  }
