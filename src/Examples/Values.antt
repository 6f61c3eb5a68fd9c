-- ===== src/Examples/Values.antt =====
-- The theorems on JSON, messages and the configuration at small documents.
use pipelinerunner.Base.{
  ℕ, ◌≤◌, ◌≡◌, refl, ◌↔◌, true, false, List, [], ◌∷◌, Option, some, String, string_eq,
}
use pipelinerunner.Base.Results.{ok}
use pipelinerunner.Toolkit.Value.{Fields, field, end, string, double, array, cons, nil, find}
use pipelinerunner.Toolkit.Extractor.{
  extract_json_value, extract_string, extract_uuid, extract_host, extract_number,
  extract_string_array, in_range,
}
use pipelinerunner.Toolkit.Sound.{
  of_strings, extract_uuid_sound, extract_number-le, extract_string_array_iff,
}
use pipelinerunner.Common.Message.{Message, message_from_json, message_to_byte_array}
use pipelinerunner.Common.Message.RoundTrip.{message_round_trip}
use pipelinerunner.Common.Config.{Config, parse_config}
use pipelinerunner.Common.Config.Parse.{IsRead, parse_config-IsRead}
use pipelinerunner.Common.Config.Service.{ConfigService, path_of, start, start-IsRead}
use pipelinerunner.Base.{◌⊎◌, Bool, none, if◌then◌else◌, ◌==◌}
use pipelinerunner.Examples.SampleQt.{sample_qt, sample_documented, qt_with, qt_with_documented}
use pipelinerunner.Qt.{Qt}

abbrev one_job : Fields ℕ
one_job = field "message_id" (string "7d4") (field "input_file" (string "a.tif") end)

abbrev numbered : Fields ℕ
numbered = field "port" (double 5672) end

abbrev queues : Fields ℕ
queues = field "queues" (array (cons (string "in") (cons (string "out") nil))) end

abbrev sample_message : Message sample_qt
sample_message = record { message_id = "7d4"; input_file = "a.tif" }

abbrev pub sample_config : Fields ℕ
sample_config = field "rabbit_host" (string "::1") (
    field "rabbit_port" (double 5672) (
      field "rabbit_login" (string "guest") (
        field "rabbit_password" (string "secret") (
          field "sub_queue_name" (string "in") (
            field "pub_queue_name" (string "out") (
              field "converter_path" (string "convert.py")
                (field "data_storage" (string "data") end)))))))

extract_string_array_iff_example :
    (extract_string_array sample_qt queues "queues" ≡ ok ("in" ∷ "out" ∷ []))
    ↔ (find "queues" queues ≡ some (array (of_strings ("in" ∷ "out" ∷ []))))
extract_string_array_iff_example =
    extract_string_array_iff sample_qt queues "queues" ("in" ∷ "out" ∷ [])

extract_uuid_sound_example :
    (sample_qt.uuid_is_null "7d4" ≡ false)
    × ((s : String) × (find "message_id" one_job ≡ some (string s))
        × (sample_qt.uuid_of_string s ≡ "7d4"))
unfolding extract_uuid extract_string extract_json_value find string_eq
extract_uuid_sound_example = extract_uuid_sound sample_qt one_job "message_id" "7d4" refl

extract_number-le_example : 5672 ≤ 65535
unfolding extract_number extract_json_value find string_eq in_range
extract_number-le_example =
    extract_number-le sample_qt numbered "port" 65535 5672 sample_documented refl

message_round_trip_example :
    (obj : Fields ℕ) × (sample_qt.parse_object (message_to_byte_array sample_qt sample_message)
      ≡ some obj)
    × (message_from_json sample_qt obj ≡ ok sample_message)
unfolding string_eq
message_round_trip_example = message_round_trip sample_qt sample_documented sample_message refl

abbrev parsed_config : Config sample_qt
parsed_config = record {
  rabbit_host = "::1";
  rabbit_port = 5672;
  rabbit_login = "guest";
  rabbit_password = "secret";
  sub_queue_name = "in";
  pub_queue_name = "out";
  converter_path = "convert.py";
  data_storage = "data";
}

parse_config-IsRead_example : IsRead sample_qt sample_config parsed_config
unfolding parse_config extract_host extract_number extract_string extract_json_value find string_eq
    in_range
parse_config-IsRead_example =
    parse_config-IsRead sample_qt sample_config parsed_config sample_documented refl

-- An empty file holds the configuration.
abbrev file_qt : Qt
file_qt = qt_with sample_config

abbrev read_service : ConfigService file_qt
read_service = record {
  config = record {
    rabbit_host = "::1";
    rabbit_port = 5672;
    rabbit_login = "guest";
    rabbit_password = "secret";
    sub_queue_name = "in";
    pub_queue_name = "out";
    converter_path = "convert.py";
    data_storage = "data";
  };
}

abbrev new_service : ConfigService file_qt
new_service = record {
  config = record (read_service.config) { rabbit_port = 0; rabbit_login = "" };
}

abbrev one_file : String → Option (List ℕ)
one_file path = if path == "c.json" then some [] else none

start-IsRead_example :
    ((true ≡ true)
      × (bytes : List ℕ) × (obj : Fields ℕ) × (one_file (path_of ("run" ∷ "c.json" ∷ []))
          ≡ some bytes)
      × (file_qt.parse_object bytes ≡ some obj)
      × IsRead file_qt obj read_service.config)
    ⊎ ((◌≡◌ {A = Bool} true false) × (read_service ≡ new_service))
unfolding start parse_config extract_host extract_number extract_string extract_json_value find
    string_eq in_range
start-IsRead_example =
    start-IsRead file_qt new_service read_service one_file ("run" ∷ "c.json" ∷ []) true
      (qt_with_documented sample_config) refl
