-- ===== src/Kernel/System/Safe.antt =====
-- What each call does to the invariant and to the texts.
use chos.Kernel.System.Held.{Held, Held-kept, Held-same}
use chos.Kernel.Proc.Assign.{same-Inv, copied-KeepsTexts, copied-Inv, Switched, copied, path_of}
use chos.Kernel.Links.Inv.{text_of, KeepsTexts, Frame, Inv}
use chos.Kernel.Buffer.{Write}
use chos.Kernel.Proc.{slash, Services}
use chos.Kernel.State.{Ptr, null, Machine, ValidPath, State}
use chos.Prelude.{
  [], refl, ◌∙◌, ℕ, sym, inr, subst, arith, eq_of_str_eq, inl, Bool-cases, ◌⊎◌, ◌∷◌, some, ◌||◌,
  none, true, ◌≡◌, ◌≢◌, All, str_eq, List, Bytes,
}
use chos.Kernel.Paths.{is_valid_path}

-- The invariant, and that no link and no valid path has a text that is not approved.
pub record Safe (P : Bytes → Type 0) (s : State) : Type 0 where
  pub inv : Inv null s
  pub texts : (a : Ptr) (t : Bytes) → text_of s a ≡ some t → (t ≡ slash) ⊎ P t
  pub valid : All (λ v. P v.path) s.valid_paths

is_valid_path-P :
    (P : Bytes → Type 0) (vs : List ValidPath) (p : Bytes)
    → All (λ v. P v.path) vs
    → is_valid_path vs p ≡ true
    → P p
unfolding is_valid_path
is_valid_path-P P [] p h e = absurd (cc)
is_valid_path-P P (v ∷ vs) p h e = elim (Bool-cases (str_eq p v.path)) [
  | inl same ↦ subst P (sym (eq_of_str_eq p v.path same)) h.0
  | inr other ↦ is_valid_path-P P vs p h.1 (rw other at e)
]

-- What a call leaves: a safe state, and the entries of the processes that `E` names.
pub record Kept (P : Bytes → Type 0) (E : ℕ → ℕ → Type 0) (s s' : State) : Type 0 where
  pub safe : Safe P s'
  pub pid_max : s'.pid_max ≡ s.pid_max
  pub held : (i time : ℕ) (a : Ptr) (b : Bytes) → E i time → Held i time a b s → Held i time a b s'

pub Kept-trans :
    {P : Bytes → Type 0} {E : ℕ → ℕ → Type 0} {s t u : State}
    → Kept P E s t
    → Kept P E t u
    → Kept P E s u
Kept-trans k l = record {
  safe = l.safe;
  pid_max = l.pid_max ∙ k.pid_max;
  held = λ i time a b e g. l.held i time a b e (k.held i time a b e g);
}

pub Kept-narrow :
    {P : Bytes → Type 0} {E E' : ℕ → ℕ → Type 0} {s t : State}
    → ((i time : ℕ) → E' i time → E i time)
    → Kept P E s t
    → Kept P E' s t
Kept-narrow f k = record {
  safe = k.safe;
  pid_max = k.pid_max;
  held = λ i time a b e g. k.held i time a b (f i time e) g;
}

module _ {P : Bytes → Type 0} {E : ℕ → ℕ → Type 0} {s : State} (h : Safe P s) where
  pub kept :
      {s' : State}
      → Inv null s'
      → Frame s s'
      → KeepsTexts s s'
      → ((i time : ℕ) (a : Ptr) (b : Bytes) → E i time → Held i time a b s → s'.procs i ≡ s.procs i)
      → Kept P E s s'
  kept v f k entries = record {
    safe = record {
      inv = v;
      texts = λ a t e. h.texts a t (k a t e);
      valid = rw f.valid_paths h.valid;
    };
    pid_max = f.pid_max;
    held = λ i time a b e g. Held-kept g v f.pid_max (entries i time a b e g) (k a);
  }

  -- Neither the table nor the heap changes.
  pub kept_same :
      {s' : State}
      → s'.pid_max ≡ s.pid_max
      → s'.procs ≡ s.procs
      → s'.links ≡ s.links
      → s'.texts ≡ s.texts
      → All (λ v. P v.path) s'.valid_paths
      → Kept P E s s'
  kept_same ep ec el et valid = record {
    safe = record {
      inv = same-Inv h.inv ep ec el et;
      texts = λ a t e. h.texts a t (ground (arith, e));
      valid = valid;
    };
    pid_max = ep;
    held = λ i time a b e g. Held-same g ep ec el et;
  }

  pub copied-Kept : (w : Write) → w.text ≢ null → s.texts w.text ≡ none → Kept P E s (copied w s)
  copied-Kept w ne new =
      kept (copied-Inv w h.inv ne new) (ground arith) (copied-KeepsTexts w h.inv new)
        λ i time a b e g. refl

module _ {P : Bytes → Type 0} {s : State} (h : Safe P s) where
  accepted-P :
      (w : Write)
      → (str_eq (path_of w) slash || is_valid_path s.valid_paths (path_of w)) ≡ true
      → (path_of w ≡ slash) ⊎ P (path_of w)
  accepted-P w e = elim (Bool-cases (str_eq (path_of w) slash)) [
    | inl same ↦ inl (eq_of_str_eq (path_of w) slash same)
    | inr other ↦ inr (is_valid_path-P P s.valid_paths (path_of w) h.valid (rw other at e))
  ]

  pub Switched-Safe :
      (k : Services) (m : Machine) (w : Write) {s' : State}
      → (str_eq (path_of w) slash || is_valid_path s.valid_paths (path_of w)) ≡ true
      → Switched k m w s s'
      → Safe P s'
  Switched-Safe k m w {s'} e z = record {
    inv = z.inv;
    texts = λ a t et. elim (z.chosen.texts a t et) [
      | inl new ↦
          let same : path_of w ≡ t = ground (arith, z.chosen.target) in
          subst (λ x. (x ≡ slash) ⊎ P x) same (accepted-P w e)
      | inr old ↦ h.texts a t old
    ];
    valid = rw z.valid_paths h.valid;
  }
