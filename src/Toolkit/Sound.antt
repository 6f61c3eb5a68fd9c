-- ===== src/Toolkit/Sound.antt =====
-- jsonextractor.h and jsonextractor.cpp: what an extraction that does not throw has checked.
use pipelinerunner.Base.{
  ℕ, ◌≤◌, ◌≡◌, refl, ◌↔◌, false, List, [], ◌∷◌, none, some, String, arith, ap, ◌∙◌,
}
use pipelinerunner.Base.Results.{Result, ok, err, >>=-eq-ok}
use pipelinerunner.Toolkit.Value.{
  Value, Items, Fields, null, double, string, array, nil, cons, find, Error, missing_field,
}
use pipelinerunner.Qt.{Qt, IsDocumented}
use pipelinerunner.Toolkit.Extractor.{
  extract_json_value, in_range, as_array, as_string, extract_string, extract_uuid, extract_host,
  extract_number, extract_json_array, extract_string_array, transform, extract_json_object,
  extract_bool,
}

-- An array of these strings.
abbrev pub of_strings : {Double : Type 0} → List String → Items Double
of_strings [] = nil
of_strings (s ∷ ss) = cons (string s) (of_strings ss)

module _ (qt : Qt) (obj : Fields qt.Double) (key : String) where
  -- A string comes out exactly where the object has a string under the key.
  pub extract_string_iff :
      (s : String) → (extract_string qt obj key ≡ ok s) ↔ (find key obj ≡ some (string s))
  unfolding extract_string extract_json_value
  extract_string_iff s = (to s, λ e. rw e)
    where
      to : (s : String) → (extract_string qt obj key ≡ ok s) → find key obj ≡ some (string s)
      to s h = ground arith

  -- An identifier that comes out is not null, and is the one that the string under the key denotes.
  pub extract_uuid_sound :
      (u : qt.Uuid)
      → extract_uuid qt obj key ≡ ok u
      → (qt.uuid_is_null u ≡ false)
        × ((s : String) × (find key obj ≡ some (string s)) × (qt.uuid_of_string s ≡ u))
  unfolding extract_uuid extract_string extract_json_value
  extract_uuid_sound u h = ground arith

  in_range-le :
      (v : Value qt.Double) (max n : ℕ) → IsDocumented qt → in_range qt max key v ≡ ok n → n ≤ max
  unfolding in_range
  in_range-le (double d) max n doc h = ground (arith, doc.truncate-le d max)
  in_range-le null max n doc h = cc
  in_range-le _ max n doc h = cc

  value_ok : (v : Value qt.Double) → extract_json_value qt obj key ≡ ok v → find key obj ≡ some v
  unfolding extract_json_value
  value_ok v h = ground arith

  as_array_ok :
      (v : Value qt.Double) (vs : Items qt.Double) → as_array qt key v ≡ ok vs → v ≡ array vs
  unfolding as_array
  as_array_ok v vs h = ground arith

  -- With the documented behaviour of doubles, a number that comes out is at most the largest asked for.
  pub extract_number-le :
      (max n : ℕ) → IsDocumented qt → extract_number qt max obj key ≡ ok n → n ≤ max
  unfolding extract_number
  extract_number-le max n doc h =
      let (v, e, e') = >>=-eq-ok (extract_json_value qt obj key) (in_range qt max key) h in
      in_range-le v max n doc e'

  -- Without the key, the extraction of a string, an identifier, an address, a flag, an object, an array
  -- of strings or a number throws that the field is missing.
  pub extract_missing :
      find key obj ≡ none
      → (extract_string qt obj key ≡ err (missing_field key))
        × (extract_uuid qt obj key ≡ err (missing_field key))
        × (extract_host qt obj key ≡ err (missing_field key))
        × (extract_bool qt obj key ≡ err (missing_field key))
        × (extract_json_object qt obj key ≡ err (missing_field key))
        × (extract_string_array qt obj key ≡ err (missing_field key))
        × ((max : ℕ) → extract_number qt max obj key ≡ err (missing_field key))
  unfolding extract_string extract_uuid extract_host extract_bool extract_json_object
      extract_string_array extract_number extract_json_array extract_json_value
  extract_missing e = (rw e, rw e, rw e, rw e, rw e, rw e, λ max. rw e)

  as_string_ok : (v : Value qt.Double) (s : String) → as_string qt key v ≡ ok s → v ≡ string s
  unfolding as_string
  as_string_ok v s h = ground arith

  cons_strings :
      (v : Value qt.Double) (vs : Items qt.Double) (s : String) (ss' ss : List String)
      → v ≡ string s
      → vs ≡ of_strings ss'
      → ◌≡◌ {A = Result Error (List String)} (ok (s ∷ ss')) (ok ss)
      → cons v vs ≡ of_strings ss
  cons_strings v vs s ss' ss p q e = rw (p, q) (let inj : s ∷ ss' ≡ ss = cc in ap of_strings inj)

  transform_strings :
      (vs : Items qt.Double) (ss : List String)
      → transform qt (as_string qt key) vs ≡ ok ss
      → vs ≡ of_strings ss
  unfolding transform
  transform_strings nil [] h = refl
  transform_strings nil (s ∷ ss) h = cc
  transform_strings (cons v vs) ss h =
      let (s, e, rest) = >>=-eq-ok (as_string qt key v) _ h in
      let (ss', e', last) = >>=-eq-ok (transform qt (as_string qt key) vs) _ rest in
      cons_strings v vs s ss' ss (as_string_ok v s e) (transform_strings vs ss' e') last

  transform-of_strings :
      (ss : List String) → transform qt (as_string qt key) (of_strings ss) ≡ ok ss
  unfolding transform as_string
  transform-of_strings [] = refl
  transform-of_strings (s ∷ ss) = rw (transform-of_strings ss)

  -- The strings of an array come out exactly where every element is a string, in the array's order.
  pub extract_string_array_iff :
      (ss : List String)
      → (extract_string_array qt obj key ≡ ok ss) ↔ (find key obj ≡ some (array (of_strings ss)))
  unfolding extract_string_array extract_json_array extract_json_value
  extract_string_array_iff ss = (strings, λ e. rw e (transform-of_strings ss))
    where
      strings :
          extract_string_array qt obj key ≡ ok ss → find key obj ≡ some (array (of_strings ss))
      strings h =
          let (vs, e, e') =
            >>=-eq-ok (extract_json_array qt obj key) (transform qt (as_string qt key)) h in
          let (v, e₁, e₂) = >>=-eq-ok (extract_json_value qt obj key) (as_array qt key) e in
          value_ok v e₁ ∙ ap some (as_array_ok v vs e₂ ∙ ap array (transform_strings vs ss e'))
