-- ===== src/Base/Results.antt =====
-- Code that throws: a result, or the error thrown.
use mathlib.Core.Path.{◌≡◌, refl}
use mathlib.Core.Logic.{◌⊎◌, inl, inr}

pub data Result {ε α} (Thrown : Type ε) (Value : Type α) : Type (ε ⊔ α) where
  err : Thrown → Result Thrown Value
  ok : Value → Result Thrown Value

module _ {ε α β} {Thrown : Type ε} {Value : Type α} {Next : Type β} where
  -- The next statement runs unless this one throws.
  infixl 5 ◌>>=◌
  abbrev pub ◌>>=◌ : Result Thrown Value → (Value → Result Thrown Next) → Result Thrown Next
  err thrown >>= next = err thrown
  ok value >>= next = next value

  -- A result that comes from a bind, taken apart.
  pub >>=-eq-ok :
      (m : Result Thrown Value) (f : Value → Result Thrown Next) {b : Next}
      → (m >>= f) ≡ ok b
      → (a : Value) × (m ≡ ok a) × (f a ≡ ok b)
  >>=-eq-ok (err e) f h = cc
  >>=-eq-ok (ok a) f h = (a, refl, h)

pub Result-cases {ε α} :
    {Thrown : Type ε} {Value : Type α} (r : Result Thrown Value)
    → ((e : Thrown) × (r ≡ err e)) ⊎ ((a : Value) × (r ≡ ok a))
Result-cases (err e) = inl (e, refl)
Result-cases (ok a) = inr (a, refl)
