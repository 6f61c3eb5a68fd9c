-- ===== src/Toolkit/Expected.antt =====
-- pipelineutils/modules/toolkit: expected.h. A call of `value` on an empty optional throws, which is `none`.
use pipelinerunner.Base.{
  ◌≡◌, refl, ◌⊎◌, inl, inr, Bool, true, false, Option, none, some, is_some, not, ap, sym,
}
use mathlib.Core.Path.{conn}

module _ (T E : Type 0) where
  pub record Expected : Type 0 where
    pub stored_result : Option T
    pub stored_error : Option E

  -- The constructors from a result and from an error, and so `success` and `error` with arguments.
  unfoldable pub of_result : T → Expected
  of_result t = record { stored_result = some t; stored_error = none }

  unfoldable pub of_error : E → Expected
  of_error e = record { stored_result = none; stored_error = some e }

  -- `operator=`
  unfoldable pub assign : Expected → Expected → Expected
  assign this other = record this {
    stored_result = other.stored_result;
    stored_error = other.stored_error;
  }

  unfoldable pub has_result : Expected → Bool
  has_result x = is_some x.stored_result

  unfoldable pub has_error : Expected → Bool
  has_error x = is_some x.stored_error

  -- `result()` and `error()`
  unfoldable pub result : Expected → Option T
  result x = x.stored_result

  unfoldable pub error : Expected → Option E
  error x = x.stored_error

  -- One of the two accessors gives what is stored, and the other throws.
  abbrev pub HoldsOne : Expected → Type 0
  HoldsOne x =
      ((t : T) × (some t ≡ result x) × (none ≡ error x))
      ⊎ ((e : E) × (none ≡ result x) × (some e ≡ error x))

  abbrev pub Object : Type 0
  Object = (x : Expected) × HoldsOne x

  -- By the constructors.
  abbrev pub make : T ⊎ E → Object
  unfolding of_result of_error result error
  make (inl t) = (of_result t, inl (t, refl, refl))
  make (inr e) = (of_error e, inr (e, refl, refl))

  -- What can be read.
  abbrev pub held : Object → T ⊎ E
  held (x, inl (t, _, _)) = inl t
  held (x, inr (e, _, _)) = inr e

  held-make : (s : T ⊎ E) → held (make s) ≡ s
  unfolding make
  held-make (inl t) = refl
  held-make (inr e) = refl

  make-held : (x : Object) → make (held x) ≡ x
  unfolding make of_result of_error result error
  make-held (x, inl (t, p, q)) = λ i. (
    record { stored_result = conn p i 1; stored_error = conn q i 1 },
    inl (t, (λ j. conn p i j), (λ j. conn q i j)),
  )
  make-held (x, inr (e, p, q)) = λ i. (
    record { stored_result = conn p i 1; stored_error = conn q i 1 },
    inr (e, (λ j. conn p i j), (λ j. conn q i j)),
  )

  abbrev pub is_result : T ⊎ E → Bool
  is_result (inl t) = true
  is_result (inr e) = false

  flags_lem :
      (x : Object)
      → (has_result x.0 ≡ is_result (held x)) × (has_error x.0 ≡ not (is_result (held x)))
  unfolding has_result has_error result error
  flags_lem (x, inl (t, p, q)) = (sym (ap is_some p), sym (ap is_some q))
  flags_lem (x, inr (e, p, q)) = (sym (ap is_some p), sym (ap is_some q))

  assigned_lem : (x : Expected) (y : Object) → assign x (y.0) ≡ y.0
  unfolding assign
  assigned_lem x y = refl

  -- An object holds one of the two where one accessor gives what is stored and the other throws. The
  -- constructors make just these objects, each from one result or one error: what they were given is
  -- read back, and from what is read the same object is made. The flags say which of the two it holds.
  -- Assigned to any object, it is what that object then is.
  pub objects_made :
      ((s : T ⊎ E) → held (make s) ≡ s)
      × ((x : Object) → make (held x) ≡ x)
      × ((x : Object)
          → (has_result x.0 ≡ is_result (held x)) × (has_error x.0 ≡ not (is_result (held x))))
      × ((x : Expected) (y : Object) → assign x (y.0) ≡ y.0)
  objects_made = (held-make, make-held, flags_lem, assigned_lem)
