-- ===== src/Kernel/State/Returns.antt =====
-- Total correctness of a run: it ends with no fault, in a state that satisfies a postcondition.
use chos.Prelude.{◌≡◌, refl, subst}
use chos.Kernel.State.{State, Run, ok, Cmd, and_then}

pub data Returns {A : Type 0} (P : A → State → Type 0) : Run A → Type 0 where
  returns : {a : A} {s : State} → P a s → Returns P (ok a s)

module _ {A : Type 0} {P : A → State → Type 0} where
  pub bind :
      {B : Type 0} {Q : B → State → Type 0} {r : Run A} {k : A → Cmd B}
      → Returns P r
      → ((a : A) (s : State) → P a s → Returns Q (k a s))
      → Returns Q (and_then r k)
  bind (returns p) next = next _ _ p

  pub mono :
      {Q : A → State → Type 0} {r : Run A}
      → Returns P r
      → ((a : A) (s : State) → P a s → Q a s)
      → Returns Q r
  mono (returns p) weaken = returns (weaken _ _ p)

  pub run : {r : Run A} → Returns P r → (a : A) × (s : State) × (r ≡ ok a s) × P a s
  run (returns {a} {s} p) = (a, s, refl, p)

  -- The postcondition at the result that a run is known to have.
  pub holds : {r : Run A} {a : A} {s : State} → Returns P r → r ≡ ok a s → P a s
  holds {a} {s} (returns {a = a0} {s = s0} p) e =
      let ea : a0 ≡ a = cc in let es : s0 ≡ s = cc in subst (P a) es (subst (λ x. P x s0) ea p)
