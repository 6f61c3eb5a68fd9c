-- ===== src/Common/Message.antt =====
-- src/PipelineRunnerCommon: Structs/message.h, message.cpp, jobinfo.h and jobinfo.cpp.
pub mod RoundTrip
use pipelinerunner.Base.{ℕ, List, String}
use pipelinerunner.Base.Results.{Result, ok, err, ◌>>=◌}
use pipelinerunner.Toolkit.Value.{Value, Fields, end, string, put, Error}
use pipelinerunner.Toolkit.Extractor.{extract_uuid, extract_string}
use pipelinerunner.Qt.{Qt}

-- `message_id_key`
abbrev pub message_id_key : String
message_id_key = "message_id"

-- `input_file_key`
abbrev pub input_file_key : String
input_file_key = "input_file"

module _ (qt : Qt) where
  open qt use {Double, Uuid}

  pub record Message : Type 0 where
    pub message_id : Uuid
    pub input_file : String

  -- `messageToJson`
  unfoldable pub message_to_json : Message → Fields Double
  message_to_json m =
      put input_file_key (string m.input_file)
        (put message_id_key (string (qt.uuid_to_string m.message_id)) end)

  -- `messageFromJson`
  unfoldable pub message_from_json : Fields Double → Result Error Message
  message_from_json obj = do
    id ← extract_uuid qt obj message_id_key
    file ← extract_string qt obj input_file_key
    ok (record { message_id = id; input_file = file })

  -- `messageToByteArray`
  unfoldable pub message_to_byte_array : Message → List ℕ
  unfolding message_to_json
  message_to_byte_array m = qt.to_compact (message_to_json m)

  pub record MessageInfo : Type 0 where
    pub tag : ℕ
    pub priority : ℕ
    pub id : Uuid
    pub json : Fields Double

  id_or_null : Result Error Uuid → Uuid
  id_or_null (ok u) = u
  id_or_null (err e) = qt.null_uuid

  -- The constructor of `MessageInfo`: an exception leaves the identifier null.
  unfoldable pub message_info : Fields Double → ℕ → ℕ → MessageInfo
  unfolding id_or_null
  message_info obj tag priority = record {
    tag = tag;
    priority = priority;
    id = id_or_null (extract_uuid qt obj message_id_key);
    json = obj;
  }
