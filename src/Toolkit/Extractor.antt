-- ===== src/Toolkit/Extractor.antt =====
-- pipelineutils/modules/toolkit: jsonextractor.h and jsonextractor.cpp. An exception is the result `err`.
use pipelinerunner.Base.{ℕ, Bool, ◌||◌, List, [], ◌∷◌, Option, none, some, String, if◌then◌else◌}
use pipelinerunner.Base.Results.{Result, ok, err, ◌>>=◌}
use pipelinerunner.Toolkit.Value.{
  Value, Items, Fields, bool, double, string, array, object, nil, cons, find, json_type, Error,
  missing_field, unexpected_value_type, unexpected_value_range, unexpected_value_format,
}
use pipelinerunner.Qt.{Qt}

module _ (qt : Qt) where
  open qt use {Double, HostAddress, Uuid}

  abbrev pub JsonValue : Type 0
  JsonValue = Value Double

  abbrev pub JsonObject : Type 0
  JsonObject = Fields Double

  or_missing : Option JsonValue → String → Result Error JsonValue
  or_missing none key = err (missing_field key)
  or_missing (some v) key = ok v

  unfoldable pub extract_json_value : JsonObject → String → Result Error JsonValue
  unfolding or_missing
  extract_json_value obj key = or_missing (find key obj) key

  abbrev wrong_type {ℓ} : {A : Type ℓ} → String → JsonValue → Result Error A
  wrong_type key v = err (unexpected_value_type key (json_type v))

  as_object : String → JsonValue → Result Error JsonObject
  as_object key (object fs) = ok fs
  as_object key v = wrong_type key v

  unfoldable pub extract_json_object : JsonObject → String → Result Error JsonObject
  unfolding as_object
  extract_json_object obj key = extract_json_value obj key >>= as_object key

  unfoldable pub as_array : String → JsonValue → Result Error (Items Double)
  as_array key (array xs) = ok xs
  as_array key v = wrong_type key v

  unfoldable pub extract_json_array : JsonObject → String → Result Error (Items Double)
  unfolding as_array
  extract_json_array obj key = extract_json_value obj key >>= as_array key

  unfoldable pub as_string : String → JsonValue → Result Error String
  as_string key (string s) = ok s
  as_string key v = wrong_type key v

  unfoldable pub extract_string : JsonObject → String → Result Error String
  unfolding as_string
  extract_string obj key = extract_json_value obj key >>= as_string key

  -- `std::transform` over an array: the first element that throws ends it.
  unfoldable pub transform :
      {A : Type 0} → (JsonValue → Result Error A) → Items Double → Result Error (List A)
  transform f nil = ok []
  transform f (cons v vs) = f v >>= λ a. transform f vs >>= λ as'. ok (a ∷ as')

  unfoldable pub extract_string_array : JsonObject → String → Result Error (List String)
  extract_string_array obj key = extract_json_array obj key >>= transform (as_string key)

  unfoldable pub to_host : String → String → Result Error HostAddress
  to_host key s =
      let host = qt.host_of_string s in
      if qt.host_is_null host then err (unexpected_value_format key) else ok host

  unfoldable pub extract_host : JsonObject → String → Result Error HostAddress
  unfolding to_host
  extract_host obj key = extract_string obj key >>= to_host key

  unfoldable pub extract_host_array : JsonObject → String → Result Error (List HostAddress)
  extract_host_array obj key =
      extract_json_array obj key >>= transform (λ v. as_string key v >>= to_host key)

  to_uuid : String → String → Result Error Uuid
  to_uuid key s =
      let uuid = qt.uuid_of_string s in
      if qt.uuid_is_null uuid then err (unexpected_value_format key) else ok uuid

  unfoldable pub extract_uuid : JsonObject → String → Result Error Uuid
  unfolding to_uuid
  extract_uuid obj key = extract_string obj key >>= to_uuid key

  as_bool : String → JsonValue → Result Error Bool
  as_bool key (bool b) = ok b
  as_bool key v = wrong_type key v

  unfoldable pub extract_bool : JsonObject → String → Result Error Bool
  unfolding as_bool
  extract_bool obj key = extract_json_value obj key >>= as_bool key

  -- At an unsigned type with the largest value `max`.
  unfoldable pub in_range : ℕ → String → JsonValue → Result Error ℕ
  in_range max key (double d) =
      if qt.is_negative d || qt.is_above d max
      then err (unexpected_value_range key)
      else ok (qt.truncate d)
  in_range max key v = wrong_type key v

  unfoldable pub extract_number : ℕ → JsonObject → String → Result Error ℕ
  unfolding in_range
  extract_number max obj key = extract_json_value obj key >>= in_range max key
