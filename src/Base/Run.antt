-- ===== src/Base/Run.antt =====
-- A run of imperative code: it returns, an assertion fails, or it runs out of the rounds allowed.
use mathlib.Core.Path.{◌≡◌}

pub data Outcome {ℓ} (A : Type ℓ) : Type ℓ where
  done : A → Outcome A
  assertion_failed : Outcome A
  out_of_fuel : Outcome A

infixl 5 ◌>>=◌
abbrev pub ◌>>=◌ {ℓ κ} : {A : Type ℓ} {B : Type κ} → Outcome A → (A → Outcome B) → Outcome B
done a >>= f = f a
assertion_failed >>= f = assertion_failed
out_of_fuel >>= f = out_of_fuel

-- Total correctness: the run returns, and what it returns has the property.
abbrev pub Returns {ℓ κ} : {A : Type ℓ} → (A → Type κ) → Outcome A → Type (ℓ ⊔ κ)
Returns {A = A} P m = (a : A) × (m ≡ done a) × P a

module _ {ℓ κ μ ν} {A : Type ℓ} {B : Type μ} where
  pub Returns->>= :
      (P : A → Type κ) (Q : B → Type ν) (m : Outcome A) (f : A → Outcome B)
      → Returns P m
      → ((a : A) → P a → Returns Q (f a))
      → Returns Q (m >>= f)
  Returns->>= P Q m f (a, e, h) k = let (b, e', h') = k a h in (b, rw e e', h')
