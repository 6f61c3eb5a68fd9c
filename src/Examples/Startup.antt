-- ===== src/Examples/Startup.antt =====
-- The theorems on the start of the program.
use pipelinerunner.Base.{ℕ, ◌+◌, ◌≡◌, refl, [], some, none, String, true, false, string_eq}
use pipelinerunner.Qt.{Qt}
use pipelinerunner.Toolkit.Value.{other_error, find}
use pipelinerunner.Toolkit.Extractor.{
  extract_host, extract_number, extract_string, extract_json_value, in_range,
}
use pipelinerunner.Common.Config.{parse_config}
use pipelinerunner.Common.Config.Service.{ConfigService, Files}
use pipelinerunner.Common.Config.Service
use pipelinerunner.Application.{App, Locator, blank_config, start_config}
use pipelinerunner.Application.Startup.{IsRunning, start_all, start_all-IsRunning}
use pipelinerunner.Application.Failing.{start_all_failed}
use pipelinerunner.Examples.SampleQt.{sample_qt}
use pipelinerunner.Examples.SampleSocket.{sample_env, six_waiting}
use pipelinerunner.Examples.Queues.{sample_amqp}
use pipelinerunner.Examples.Jobs.{sample_desktop}
use pipelinerunner.Examples.Values.{sample_config}

-- A Qt whose parser finds a configuration in every file.
abbrev config_qt : Qt
config_qt = record sample_qt { parse_object = λ bytes. some sample_config }

abbrev sample_locator : Locator
sample_locator = record { World = ℕ; add_service = λ w p. (true, w + 1); remove_service = λ w p. w }

abbrev next_uuid : ℕ → String
next_uuid n = "9f0"

abbrev Program : Type 0
Program = App config_qt sample_env sample_amqp sample_desktop next_uuid sample_locator

abbrev before : Program
before = record {
  locator_state = 0;
  config_service = none;
  outer = record { converter = none; rabbit = none; broker = 0; uuids_made = 0 };
  process_connected = false;
  runner_service = none;
}

abbrev configured : ConfigService config_qt
configured = record {
  config = record {
    rabbit_host = "::1";
    rabbit_port = 5672;
    rabbit_login = "guest";
    rabbit_password = "secret";
    sub_queue_name = "in";
    pub_queue_name = "out";
    converter_path = "convert.py";
    data_storage = "data";
  };
}

abbrev all_files : Files config_qt
all_files path = some []

abbrev no_files : Files config_qt
no_files path = none

start_all-IsRunning_example :
    ((start_config config_qt sample_env sample_amqp sample_desktop next_uuid sample_locator before
        "" all_files []).1
      ≡ none)
    × IsRunning config_qt sample_env sample_amqp sample_desktop next_uuid sample_locator
        (start_all config_qt sample_env sample_amqp sample_desktop next_uuid sample_locator before
          "" all_files [] false six_waiting)
        configured
unfolding Service.start parse_config extract_host extract_number extract_string extract_json_value
    find string_eq in_range
start_all-IsRunning_example =
    start_all-IsRunning config_qt sample_env sample_amqp sample_desktop next_uuid sample_locator
      before "" all_files [] configured false six_waiting (λ p w. refl) refl

start_all_failed_example :
    ((start_config config_qt sample_env sample_amqp sample_desktop next_uuid sample_locator before
        "" no_files []).1
      ≡ some (other_error "unable to access config file"))
    × IsRunning config_qt sample_env sample_amqp sample_desktop next_uuid sample_locator
        (start_all config_qt sample_env sample_amqp sample_desktop next_uuid sample_locator before
          "" no_files [] false six_waiting)
        (record {
          config =
              blank_config config_qt sample_env sample_amqp sample_desktop next_uuid sample_locator
                "";
        })
unfolding Service.start
start_all_failed_example =
    start_all_failed config_qt sample_env sample_amqp sample_desktop next_uuid sample_locator before
      "" no_files [] (other_error "unable to access config file") false six_waiting (λ p w. refl)
      refl
