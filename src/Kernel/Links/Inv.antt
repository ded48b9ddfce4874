-- ===== src/Kernel/Links/Inv.antt =====
-- The invariant of the links and of the process table.
use chos.Prelude.{◌⊎◌, arith, ℕ, ◌<◌, ◌^◌, ◌≡◌, ◌≢◌, Option, none, some, Bytes, update}
use chos.Kernel.State.{Ptr, null, Link, Proc, State}
use chos.Kernel.Links.Refs.{refs}

-- The text of the link at `a`, if the link and its text are allocated.
abbrev pub text_of : State → Ptr → Option Bytes
text_of s a = elim (s.links a) [ none ↦ none | some l ↦ s.texts l.text ]

-- `x` is a link that the running call holds besides the table, or null.
pub record Inv (x : Ptr) (s : State) : Type 0 where
  pub small : s.pid_max < 2 ^ 31
  pub null_link : s.links null ≡ none
  pub null_text : s.texts null ≡ none
  pub counted : (a : Ptr) (l : Link) → s.links a ≡ some l → l.count ≡ refs a s.pid_max s.procs
  pub held : (a : Ptr) (l : Link) → s.links a ≡ some l → a ≢ x → 0 < l.count
  pub live :
      (i : ℕ)
      → i < s.pid_max
      → (s.procs i).link ≢ null
      → (l : Link) × (s.links (s.procs i).link ≡ some l)
  pub owned : (a : Ptr) (l : Link) → s.links a ≡ some l → (t : Bytes) × (s.texts l.text ≡ some t)
  pub unique :
      (a b : Ptr) (l k : Link) → s.links a ≡ some l → s.links b ≡ some k → l.text ≡ k.text → a ≡ b

abbrev pub blank : Proc
blank = record { link = null; start_time = 0 }

-- `s'` differs from `s` at most in the process table and the heap.
pub record Frame (s s' : State) : Type 0 where
  pub pid_max : s'.pid_max ≡ s.pid_max
  pub valid_paths : s'.valid_paths ≡ s.valid_paths
  pub save_state : s'.save_state ≡ s.save_state
  pub root : s'.root ≡ s.root
  pub named : s'.named ≡ s.named
  pub nochroot : s'.nochroot ≡ s.nochroot
  pub euid : s'.euid ≡ s.euid
  pub caps : s'.caps ≡ s.caps
  pub addr_limit : s'.addr_limit ≡ s.addr_limit
  pub fork_wrapped : s'.fork_wrapped ≡ s.fork_wrapped

-- No link got another text: whatever link is left has the text that it had.
abbrev pub KeepsTexts : State → State → Type 0
KeepsTexts s s' = (a : Ptr) (t : Bytes) → text_of s' a ≡ some t → text_of s a ≡ some t

-- The same, but for the link at `x`.
abbrev pub KeepsOthers : Ptr → State → State → Type 0
KeepsOthers x s s' =
    (a : Ptr) (t : Bytes) → text_of s' a ≡ some t → (a ≡ x) ⊎ (text_of s a ≡ some t)

-- An allocated text that no link owns.
pub record Loose (p : Ptr) (t : Bytes) (s : State) : Type 0 where
  pub text : s.texts p ≡ some t
  pub unowned : (a : Ptr) (l : Link) → s.links a ≡ some l → l.text ≢ p

abbrev pub KeepsLoose : State → State → Type 0
KeepsLoose s s' = (p : Ptr) (t : Bytes) → Loose p t s → Loose p t s'

-- The step empties the entry `i` and touches no other; a link goes with its last reference only.
pub record Cleared (i : ℕ) (s s' : State) : Type 0 where
  pub frame : Frame s s'
  pub procs : s'.procs ≡ update s.procs i blank
  pub texts : KeepsTexts s s'
  pub loose : KeepsLoose s s'
  pub survives :
      (a : Ptr) (l : Link)
      → s.links a ≡ some l
      → (a ≢ (s.procs i).link) ⊎ (1 < l.count)
      → (k : Link) × (s'.links a ≡ some k)

pub Frame-trans : {s t u : State} → Frame s t → Frame t u → Frame s u
Frame-trans f g = ground arith

-- The step writes `p` to the entry `i` and touches no other.
pub record Bound (i : ℕ) (p : Proc) (s s' : State) : Type 0 where
  pub frame : Frame s s'
  pub procs : s'.procs ≡ update s.procs i p
  pub texts : KeepsTexts s s'
  pub loose : KeepsLoose s s'
