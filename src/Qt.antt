-- ===== src/Qt.antt =====
-- What the program uses of Qt's value classes: doubles, QHostAddress, QUuid and QJsonDocument.
use pipelinerunner.Base.{ℕ, ◌≤◌, ◌≡◌, ◌≢◌, Bool, true, false, List, Option, some, String, Eq}
use pipelinerunner.Toolkit.Value.{Fields, field, end, string, find}

pub record Qt : Type 1 where
  pub Double : Type 0
  -- `d < lowest`, `d > max` and the cast, at an unsigned type.
  pub is_negative : Double → Bool
  pub is_above : Double → ℕ → Bool
  pub truncate : Double → ℕ
  pub HostAddress : Type 0
  pub host_of_string : String → HostAddress
  pub host_is_null : HostAddress → Bool
  pub Uuid : Type 0
  pub uuid_eq : Eq Uuid
  pub uuid_of_string : String → Uuid
  -- `toString(QUuid::WithoutBraces)`
  pub uuid_to_string : Uuid → String
  pub uuid_is_null : Uuid → Bool
  -- QUuid().
  pub null_uuid : Uuid
  -- `QJsonDocument::fromJson`, then `object()`; `none` is a parse error.
  pub parse_object : List ℕ → Option (Fields Double)
  -- `QJsonDocument(object).toJson(QJsonDocument::Compact)`
  pub to_compact : Fields Double → List ℕ

-- What Qt's documentation says of them.
pub record IsDocumented (qt : Qt) : Type 0 where
  pub truncate-le :
      (d : qt.Double) (n : ℕ)
      → qt.is_negative d ≡ false
      → qt.is_above d n ≡ false
      → qt.truncate d ≤ n
  -- The text of an identifier denotes it.
  pub uuid_round : (u : qt.Uuid) → qt.uuid_of_string (qt.uuid_to_string u) ≡ u
  pub null_uuid_is_null : qt.uuid_is_null qt.null_uuid ≡ true
  -- A document of two strings that was written is read back; the order of its keys may differ.
  pub parse-to_compact :
      (k l s t : String)
      → k ≢ l
      → (fs : Fields qt.Double) × (qt.parse_object
            (qt.to_compact (field k (string s) (field l (string t) end)))
          ≡ some fs)
        × (find k fs ≡ some (string s))
        × (find l fs ≡ some (string t))
