-- ===== src/VarObjects/Outcomes.antt =====
-- Postconditions of asynchronous methods, over the state that they share.
use vscode_cann_debugger.Base.{◌≡◌, refl, Text}
use vscode_cann_debugger.VarObjects.Manager.{Outcome, done, rejected, Async, and_then, recovered}

-- The method does not reject, and `P` holds of its value.
pub data Gives {ℓ κ} {S : Type 0} {A : Type ℓ} (P : A → Type κ) : Outcome A × S → Type (ℓ ⊔ κ) where
  gives : {a : A} {s : S} → P a → Gives P (done a, s)

-- `P` holds of its value, if it has one.
pub data Yields {ℓ κ} {S : Type 0} {A : Type ℓ} (P : A → Type κ)
    : Outcome A × S → Type (ℓ ⊔ κ) where
  yields : {a : A} {s : S} → P a → Yields P (done a, s)
  threw : {e : Text} {s : S} → Yields P (rejected e, s)

module _ {ℓ κ} {S : Type 0} {A : Type ℓ} {P : A → Type κ} where
  pub Gives-value : {o : Outcome A × S} → Gives P o → (a : A) × (o.0 ≡ done a) × P a
  Gives-value (gives {a} h) = (a, refl, h)

  pub Gives-bind {ℓ' κ'} :
      {B : Type ℓ'} {Q : B → Type κ'} {o : Outcome A × S} {f : A → Async S B}
      → Gives P o
      → ((a : A) (s : S) → P a → Gives Q (f a s))
      → Gives Q (and_then o f)
  Gives-bind (gives {a} {s} h) k = k a s h

  pub Yields-bind {ℓ' κ'} :
      {B : Type ℓ'} {Q : B → Type κ'} {o : Outcome A × S} {f : A → Async S B}
      → Yields P o
      → ((a : A) (s : S) → P a → Yields Q (f a s))
      → Yields Q (and_then o f)
  Yields-bind (yields {a} {s} h) k = k a s h
  Yields-bind threw k = threw

  pub Gives-Yields : {o : Outcome A × S} → Gives P o → Yields P o
  Gives-Yields (gives h) = yields h

  -- What `catch` makes of a method.
  pub Gives-recovered :
      (otherwise : A) {o : Outcome A × S}
      → Yields P o
      → P otherwise
      → Gives P (recovered otherwise o)
  Gives-recovered otherwise (yields h) p = gives h
  Gives-recovered otherwise threw p = gives p

pub any_outcome {ℓ} : {S : Type 0} {A : Type ℓ} (o : Outcome A × S) → Yields (λ (a : A). Unit {0}) o
any_outcome (done a, s) = yields tt
any_outcome (rejected e, s) = threw
