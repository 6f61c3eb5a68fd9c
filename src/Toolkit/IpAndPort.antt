-- ===== src/Toolkit/IpAndPort.antt =====
-- pipelineutils/modules/toolkit: ipandport.h, and `extractHostPort` of jsonextractor.cpp. An exception is
-- the result `err`.
pub mod Text
pub mod Valid
use pipelinerunner.Base.{
  ℕ, ◌%◌, ◌^◌, Bool, true, false, not, ◌&&◌, ◌||◌, List, [], ◌∷◌, Option, none, some, String, ltb,
  ◌=ℕ=◌, ◌==◌, string_eq, if◌then◌else◌,
}
use pipelinerunner.Base.Results.{Result, ok, err, ◌>>=◌}
use pipelinerunner.Toolkit.Value.{
  Fields, Value, string, null, undefined, bool, double, array, object, Error,
  invalid_address_format, invalid_port_format, invalid_ip_format,
}
use pipelinerunner.Toolkit.Extractor.{extract_string}
use pipelinerunner.Qt.{Qt}

-- An `int`: `negsuc n` is -1 - n.
pub data ℤ : Type 0 where
  pos negsuc : ℕ → ℤ

-- What the class uses of QString and QHostAddress.
pub record Addresses (qt : Qt) : Type 0 where
  -- `split(':')`
  pub split : String → List String
  -- `QStringLiteral("%1:%2").arg(a, b)`
  pub fill : String → String → String
  -- `toInt`; `none` where it sets `ok` to false.
  pub to_int : String → Option ℤ
  -- `QString::number`
  pub number : ℕ → String
  pub host_to_string : qt.HostAddress → String
  pub host_eq : qt.HostAddress → qt.HostAddress → Bool
  -- QHostAddress::LocalHost, QHostAddress::Null
  pub local_host : qt.HostAddress
  pub null_host : qt.HostAddress

-- The largest value of a quint16.
abbrev pub max_port : ℕ
max_port = 65535

module _ (qt : Qt) (addresses : Addresses qt) where
  open qt use {HostAddress}

  pub record IpAndPort : Type 0 where
    pub ip : HostAddress
    pub port : ℕ

  -- The constructor without arguments.
  pub null_address : IpAndPort
  null_address = record { ip = addresses.null_host; port = 0 }

  -- The fields, from a port that is in range.
  unfoldable pub with_host : String → ℕ → Result Error IpAndPort
  with_host ip n =
      let host = qt.host_of_string ip in
      if ip == "localhost"
      then ok (record { ip = addresses.local_host; port = n % 2 ^ 16 })
      else if qt.host_is_null host
      then err invalid_ip_format
      else ok (record { ip = host; port = n % 2 ^ 16 })

  unfoldable pub with_port : String → Option ℤ → Result Error IpAndPort
  with_port ip none = err invalid_port_format
  with_port ip (some (negsuc n)) = err invalid_port_format
  with_port ip (some (pos n)) =
      if (n =ℕ= 0) || ltb max_port n then err invalid_port_format else with_host ip n

  unfoldable pub of_parts : List String → Result Error IpAndPort
  of_parts (ip ∷ port ∷ []) = with_port ip (addresses.to_int port)
  of_parts _ = err invalid_address_format

  -- The constructor from a string, and `fromString`.
  unfoldable pub from_string : String → Result Error IpAndPort
  unfolding of_parts with_port with_host
  from_string s = of_parts (addresses.split s)

  unfoldable pub to_string : IpAndPort → String
  to_string a = addresses.fill (addresses.host_to_string a.ip) (addresses.number a.port)

  pub to_json : IpAndPort → Value qt.Double
  to_json a = string (to_string a)

  -- `QJsonValue::toString`: the empty text, where the value is none.
  abbrev text_of : Value qt.Double → String
  text_of (string s) = s
  text_of v = ""

  pub from_json : Value qt.Double → Result Error IpAndPort
  from_json v = from_string (text_of v)

  unfoldable pub is_valid : IpAndPort → Bool
  is_valid a = not (a.port =ℕ= 0) && not (qt.host_is_null a.ip)

  -- `operator==`
  pub equals : IpAndPort → IpAndPort → Bool
  equals a b = addresses.host_eq a.ip b.ip && (a.port =ℕ= b.port)

  -- `JsonExtractor::extractHostPort`
  unfoldable pub extract_host_port : Fields qt.Double → String → Result Error IpAndPort
  extract_host_port obj key = extract_string qt obj key >>= from_string
