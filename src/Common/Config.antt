-- ===== src/Common/Config.antt =====
-- src/PipelineRunnerCommon: Structs/config.h, and the parser of ConfigPlugin/Service/configservice.cpp.
pub mod Parse
pub mod Service
use pipelinerunner.Base.{ℕ, ◌-◌, ◌^◌, String}
use pipelinerunner.Base.Results.{Result, ok, err, ◌>>=◌}
use pipelinerunner.Toolkit.Value.{Fields, Error}
use pipelinerunner.Toolkit.Extractor.{extract_host, extract_number, extract_string}
use pipelinerunner.Qt.{Qt}

-- The largest `uint16_t`.
abbrev pub max_u16 : ℕ
max_u16 = 2 ^ 16 - 1

module _ (qt : Qt) where
  open qt use {Double, HostAddress}

  pub record Config : Type 0 where
    pub rabbit_host : HostAddress
    pub rabbit_port : ℕ
    pub rabbit_login : String
    pub rabbit_password : String
    pub sub_queue_name : String
    pub pub_queue_name : String
    pub converter_path : String
    pub data_storage : String

  -- `parseConfig`
  unfoldable pub parse_config : Fields Double → Result Error Config
  parse_config obj = do
    host ← extract_host qt obj "rabbit_host"
    port ← extract_number qt max_u16 obj "rabbit_port"
    login ← extract_string qt obj "rabbit_login"
    password ← extract_string qt obj "rabbit_password"
    sub_queue ← extract_string qt obj "sub_queue_name"
    pub_queue ← extract_string qt obj "pub_queue_name"
    converter ← extract_string qt obj "converter_path"
    storage ← extract_string qt obj "data_storage"
    ok (record {
      rabbit_host = host;
      rabbit_port = port;
      rabbit_login = login;
      rabbit_password = password;
      sub_queue_name = sub_queue;
      pub_queue_name = pub_queue;
      converter_path = converter;
      data_storage = storage;
    })
