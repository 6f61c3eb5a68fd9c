-- ===== src/Toolkit/Value.antt =====
-- QJsonValue, QJsonArray and QJsonObject, over a type of doubles; and the errors that are thrown.
use pipelinerunner.Base.{Bool, Option, none, some, String, string_eq, ◌==◌, if◌then◌else◌}

mutual
  pub data Value (Double : Type 0) : Type 0 where
    null undefined : Value Double
    bool : Bool → Value Double
    double : Double → Value Double
    string : String → Value Double
    array : Items Double → Value Double
    object : Fields Double → Value Double

  pub data Items (Double : Type 0) : Type 0 where
    nil : Items Double
    cons : Value Double → Items Double → Items Double

  pub data Fields (Double : Type 0) : Type 0 where
    end : Fields Double
    field : String → Value Double → Fields Double → Fields Double

-- `QJsonObject::constFind`
unfoldable pub find : {Double : Type 0} → String → Fields Double → Option (Value Double)
find key end = none
find key (field k v fs) = if key == k then some v else find key fs

-- `QJsonObject::insert`
unfoldable pub put : {Double : Type 0} → String → Value Double → Fields Double → Fields Double
put key v end = field key v end
put key v (field k w fs) = if key == k then field key v fs else field k w (put key v fs)

pub data ValueType : Type 0 where
  null_type bool_type double_type string_type array_type object_type undefined_type : ValueType

-- `jsonTypeToString`, with the names as a type.
unfoldable pub json_type : {Double : Type 0} → Value Double → ValueType
json_type null = null_type
json_type undefined = undefined_type
json_type (bool b) = bool_type
json_type (double d) = double_type
json_type (string s) = string_type
json_type (array xs) = array_type
json_type (object fs) = object_type

-- The texts of std::runtime_error, by what they report: the key, and the type found.
pub data Error : Type 0 where
  missing_field : String → Error
  unexpected_value_type : String → ValueType → Error
  unexpected_value_range : String → Error
  unexpected_value_format : String → Error
  invalid_address_format invalid_port_format invalid_ip_format : Error
  other_error : String → Error
