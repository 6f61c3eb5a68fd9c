-- ===== src/Common/Config/Parse.antt =====
-- configservice.cpp: what a configuration that parses has been checked for.
use mathlib.Core.Path.{subst}
use pipelinerunner.Base.{ℕ, ◌≤◌, ◌≡◌, false, some, String, arith}
use pipelinerunner.Base.Results.{Result, ok, >>=-eq-ok}
use pipelinerunner.Toolkit.Value.{Fields, find, string, double, Error}
use pipelinerunner.Toolkit.Extractor.{
  extract_host, extract_number, extract_string, extract_json_value, in_range,
}
use pipelinerunner.Toolkit.Sound.{extract_number-le, extract_string_iff}
use pipelinerunner.Qt.{Qt, IsDocumented}
use pipelinerunner.Common.Config.{Config, parse_config, max_u16}

module _ (qt : Qt) where
  -- The configuration holds what the object has.
  pub record IsRead (obj : Fields qt.Double) (c : Config qt) : Type 0 where
    pub host :
        (text : String) × (find "rabbit_host" obj ≡ some (string text))
        × (c.rabbit_host ≡ qt.host_of_string text)
        × (qt.host_is_null c.rabbit_host ≡ false)
    pub port :
        (d : qt.Double) × (find "rabbit_port" obj ≡ some (double d))
        × (c.rabbit_port ≡ qt.truncate d)
        × (qt.is_negative d ≡ false)
        × (qt.is_above d max_u16 ≡ false)
        × (c.rabbit_port ≤ max_u16)
    pub login : find "rabbit_login" obj ≡ some (string c.rabbit_login)
    pub password : find "rabbit_password" obj ≡ some (string c.rabbit_password)
    pub sub_queue : find "sub_queue_name" obj ≡ some (string c.sub_queue_name)
    pub pub_queue : find "pub_queue_name" obj ≡ some (string c.pub_queue_name)
    pub converter : find "converter_path" obj ≡ some (string c.converter_path)
    pub storage : find "data_storage" obj ≡ some (string c.data_storage)

  host_ok :
      (obj : Fields qt.Double) (key : String) (h : qt.HostAddress)
      → extract_host qt obj key ≡ ok h
      → (text : String) × (find key obj ≡ some (string text))
        × (h ≡ qt.host_of_string text)
        × (qt.host_is_null h ≡ false)
  unfolding extract_host extract_string extract_json_value
  host_ok obj key h e = ground arith

  port_ok :
      (obj : Fields qt.Double) (key : String) (max n : ℕ)
      → extract_number qt max obj key ≡ ok n
      → (d : qt.Double) × (find key obj ≡ some (double d))
        × (n ≡ qt.truncate d)
        × (qt.is_negative d ≡ false)
        × (qt.is_above d max ≡ false)
  unfolding extract_number extract_json_value in_range
  port_ok obj key max n e = ground arith

  result_injective : (a b : Config qt) → ◌≡◌ {A = Result Error (Config qt)} (ok a) (ok b) → a ≡ b
  result_injective a b e = cc

  -- With the documented behaviour of doubles, a configuration that is accepted has the host that the
  -- string under its key denotes, which is not null, as its port the number under its key, cast, which
  -- is not negative and is at most 65535, and as its texts exactly the strings under their keys.
  pub parse_config-IsRead :
      (obj : Fields qt.Double) (c : Config qt)
      → IsDocumented qt
      → parse_config qt obj ≡ ok c
      → IsRead obj c
  unfolding parse_config
  parse_config-IsRead obj c doc e =
      let (host, e₁, r₁) = >>=-eq-ok (extract_host qt obj "rabbit_host") _ e in
      let (port, e₂, r₂) = >>=-eq-ok (extract_number qt max_u16 obj "rabbit_port") _ r₁ in
      let (login, e₃, r₃) = >>=-eq-ok (extract_string qt obj "rabbit_login") _ r₂ in
      let (password, e₄, r₄) = >>=-eq-ok (extract_string qt obj "rabbit_password") _ r₃ in
      let (subs, e₅, r₅) = >>=-eq-ok (extract_string qt obj "sub_queue_name") _ r₄ in
      let (pubs, e₆, r₆) = >>=-eq-ok (extract_string qt obj "pub_queue_name") _ r₅ in
      let (converter, e₇, r₇) = >>=-eq-ok (extract_string qt obj "converter_path") _ r₆ in
      let (storage, e₈, r₈) = >>=-eq-ok (extract_string qt obj "data_storage") _ r₇ in
      let (d, found, cast, low, high) = port_ok obj "rabbit_port" max_u16 port e₂ in
      subst (IsRead obj) (result_injective _ c r₈) (record {
        host = host_ok obj "rabbit_host" host e₁;
        port =
            (d, found, cast, low, high, extract_number-le qt obj "rabbit_port" max_u16 port doc e₂);
        login = (extract_string_iff qt obj "rabbit_login" login).0 e₃;
        password = (extract_string_iff qt obj "rabbit_password" password).0 e₄;
        sub_queue = (extract_string_iff qt obj "sub_queue_name" subs).0 e₅;
        pub_queue = (extract_string_iff qt obj "pub_queue_name" pubs).0 e₆;
        converter = (extract_string_iff qt obj "converter_path" converter).0 e₇;
        storage = (extract_string_iff qt obj "data_storage" storage).0 e₈;
      })
