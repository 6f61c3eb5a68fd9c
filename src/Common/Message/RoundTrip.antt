-- ===== src/Common/Message/RoundTrip.antt =====
-- message.cpp and jobinfo.cpp: a message that is written is read back, and when it has an identifier.
use text.Mathlib.TextEquality.{eq_iff}
use pipelinerunner.Base.{ℕ, ◌≡◌, refl, ◌≢◌, true, false, some, String, string_eq, arith, ap, ◌∙◌}
use pipelinerunner.Base.Results.{ok}
use pipelinerunner.Toolkit.Value.{Fields, field, end, string, put, find}
use pipelinerunner.Toolkit.Extractor.{extract_uuid, extract_string, extract_json_value}
use pipelinerunner.Qt.{Qt, IsDocumented}
use pipelinerunner.Common.Message.{
  Message, message_id_key, input_file_key, message_to_json, message_from_json,
  message_to_byte_array, message_info,
}

keys_differ : ◌≢◌ {A = String} message_id_key input_file_key
keys_differ = ground (arith, eq_iff message_id_key input_file_key)

module _ (qt : Qt) (doc : IsDocumented qt) (m : Message qt) where
  to_json_lem :
      message_to_json qt m
      ≡ field message_id_key
          (string (qt.uuid_to_string m.message_id))
          (field input_file_key (string m.input_file) end)
  unfolding message_to_json put string_eq
  to_json_lem = refl

  from_json_of_fields :
      (obj : Fields qt.Double)
      → find message_id_key obj ≡ some (string (qt.uuid_to_string m.message_id))
      → find input_file_key obj ≡ some (string m.input_file)
      → qt.uuid_is_null m.message_id ≡ false
      → message_from_json qt obj ≡ ok m
  unfolding message_from_json extract_uuid extract_string extract_json_value
  from_json_of_fields obj i f h = ground (arith, doc.uuid_round m.message_id)

  -- With the documented behaviour of QUuid and QJsonDocument, a message whose identifier is not null,
  -- written to bytes, parses as an object that gives the message back.
  pub message_round_trip :
      qt.uuid_is_null m.message_id ≡ false
      → (obj : Fields qt.Double) × (qt.parse_object (message_to_byte_array qt m) ≡ some obj)
        × (message_from_json qt obj ≡ ok m)
  unfolding message_to_byte_array
  message_round_trip h =
      let (obj, e, i, f) =
        doc.parse-to_compact message_id_key input_file_key (qt.uuid_to_string m.message_id)
          m.input_file keys_differ in
      (
        obj,
        ap (λ fs. qt.parse_object (qt.to_compact fs)) to_json_lem ∙ e,
        from_json_of_fields obj i f h,
      )

module _ (qt : Qt) (obj : Fields qt.Double) (tag priority : ℕ) where
  -- Where the identifier of a MessageInfo is null, the object gives no message either.
  pub message_info_null :
      qt.uuid_is_null (message_info qt obj tag priority).id ≡ true
      → (m : Message qt) → message_from_json qt obj ≢ ok m
  unfolding message_info message_from_json extract_uuid extract_string extract_json_value
  message_info_null h m e = ground arith

  -- A message that can be read has the identifier of the delivery's info.
  pub message_info-read :
      (m : Message qt)
      → message_from_json qt obj ≡ ok m
      → (message_info qt obj tag priority).id ≡ m.message_id
  unfolding message_info message_from_json extract_uuid extract_string extract_json_value
  message_info-read m e = ground (arith, e)
