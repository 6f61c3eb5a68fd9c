-- ===== src/Application.antt =====
-- src/PipelineRunnerPlugins/*/Plugin: the `start` and `stop` of the four plugins, with the constructors of
-- their services. A service is `none` where the service locator does not have it. An exception is the error
-- beside the state.
pub mod Info
pub mod Startup
pub mod Failing
pub mod Main
use pipelinerunner.Base.{
  ℕ, ◌+◌, Bool, true, false, List, [], ◌∷◌, Option, none, some, String, if◌then◌else◌, is_some,
}
use pipelinerunner.Base.Results.{Result, ok, err}
use pipelinerunner.Toolkit.Value.{Error, other_error}
use pipelinerunner.Qt.{Qt}
use pipelinerunner.Common.Config.{Config}
use pipelinerunner.Common.Config.Service.{ConfigService, Files}
use pipelinerunner.Common.Config.Service
use pipelinerunner.Rabbit.Channel.{Amqp}
use pipelinerunner.Rabbit.Connection.Outside.{Env}
use pipelinerunner.RabbitPlugin.{RabbitService}
use pipelinerunner.RabbitPlugin
use pipelinerunner.Converter.Outside.{Desktop}
use pipelinerunner.Converter.{Converter}
use pipelinerunner.Converter
use pipelinerunner.Runner.{RunnerService}
use pipelinerunner.Runner
use pipelinerunner.System.{Outer, system}
use Info.{Plugin, config, converter, rabbit, runner}

-- Plt2::Core::ServiceLocator: whether it takes a service.
pub record Locator : Type 1 where
  pub World : Type 0
  pub add_service : World → Plugin → Bool × World
  pub remove_service : World → Plugin → World

module _ (qt : Qt) (env : Env) (amqp : Amqp) (desktop : Desktop) (new_uuid : ℕ → qt.Uuid)
    (locator : Locator) where
  abbrev pub RunnerState : Type 0
  RunnerState = RunnerService qt (system qt env amqp desktop new_uuid)

  -- The services that run, and what they work on. The runner works on `outer` from its start on.
  pub record App : Type 0 where
    pub locator_state : locator.World
    pub config_service : Option (ConfigService qt)
    pub outer : Outer qt env amqp desktop new_uuid
    -- The slots of the converter's process are connected.
    pub process_connected : Bool
    pub runner_service : Option RunnerState

  -- `Config{}`, with QHostAddress().
  abbrev pub blank_config : qt.HostAddress → Config qt
  blank_config null_host = record {
    rabbit_host = null_host;
    rabbit_port = 0;
    rabbit_login = "";
    rabbit_password = "";
    sub_queue_name = "";
    pub_queue_name = "";
    converter_path = "";
    data_storage = "";
  }

  -- `config()` of the config service, if there is one.
  abbrev pub config_of : Option (ConfigService qt) → Option (Config qt)
  config_of none = none
  config_of (some s) = some s.config

  -- The end of `ConfigPlugin::start`.
  config_started : App → Result Error (ConfigService qt × Bool) → App × Option Error
  config_started a (err e) = (a, some e)
  config_started a (ok (s, b)) = (
    record a { config_service = some s },
    if b then none else some (other_error "failed to start config service"),
  )

  -- `ConfigPlugin::start`
  unfoldable pub start_config : App → qt.HostAddress → Files qt → List String → App × Option Error
  unfolding config_started
  start_config a null_host files args =
      let (added, w) = locator.add_service a.locator_state config in
      let s : ConfigService qt = record { config = blank_config null_host } in
      if added
      then config_started (record a { locator_state = w; config_service = some s })
          (Service.start qt s files args)
      else (record a { locator_state = w }, some (other_error "failed to add config service"))

  -- The constructor of ConverterService. Without a config service it returns before it takes the
  -- configuration and connects the slots of the process.
  create_converter : qt.HostAddress → Option (Config qt) → desktop.World → Converter qt desktop
  create_converter null_host c w = record {
    config = elim c [ none ↦ blank_config null_host | some x ↦ x ];
    job_env = record {
      tmp_dir = "";
      input_tmp_dir = "";
      output_tmp_dir = "";
      input_tmp_file = "";
      output_tmp_file = "";
    };
    received_messages = [];
    handles = [];
    next_handle = 0;
    world = w;
  }

  -- `ConverterPlugin::start`
  unfoldable pub start_converter : App → qt.HostAddress → desktop.World → App
  unfolding create_converter
  start_converter a null_host w =
      let (added, v) = locator.add_service a.locator_state converter in
      let c = create_converter null_host (config_of a.config_service) w in
      if added
      then record a {
        locator_state = v;
        outer = record (a.outer) { converter = some c };
        process_connected = is_some a.config_service;
      }
      else record a { locator_state = v }

  -- The service after its `start`: an exception leaves it as it was.
  rabbit_started :
      RabbitService qt env amqp
      → Result Error (RabbitService qt env amqp)
      → RabbitService qt env amqp
  rabbit_started s (err e) = s
  rabbit_started s (ok s') = s'

  -- `RabbitPlugin::start`
  unfoldable pub start_rabbit : App → qt.HostAddress → env.World → App
  unfolding rabbit_started
  start_rabbit a null_host w =
      let (added, v) = locator.add_service a.locator_state rabbit in
      let s : RabbitService qt env amqp = record {
        client = none;
        config = blank_config null_host;
      } in
      let s' = rabbit_started s (RabbitPlugin.start qt env amqp s (config_of a.config_service) w) in
      if added
      then record a { locator_state = v; outer = record (a.outer) { rabbit = some s' } }
      else record a { locator_state = v }

  -- The constructor of RunnerService.
  create_runner : Outer qt env amqp desktop new_uuid → RunnerState
  create_runner w = record {
    listener_handler = none;
    jobs = [];
    jobs_delivery_tags = [];
    world = w;
  }

  -- `RunnerPlugin::start`
  unfoldable pub start_runner : App → App
  unfolding create_runner
  start_runner a =
      let (added, v) = locator.add_service a.locator_state runner in
      let r = Runner.start qt (system qt env amqp desktop new_uuid) (create_runner a.outer) in
      if added
      then record a { locator_state = v; runner_service = some r; outer = r.world }
      else record a { locator_state = v }

  -- `stop` of a plugin whose service the locator has.
  removed : App → Plugin → App
  removed a p = record a { locator_state = locator.remove_service a.locator_state p }

  -- `ConfigPlugin::stop`
  unfoldable pub stop_config : App → App
  unfolding removed
  stop_config a = elim a.config_service [
    | none ↦ a
    | some s ↦ record (removed a config) { config_service = none }
  ]

  -- `ConverterPlugin::stop`
  unfoldable pub stop_converter : App → App
  unfolding removed
  stop_converter a = elim a.outer.converter [
    | none ↦ a
    | some s ↦ record (removed a converter) { outer = record (a.outer) { converter = none } }
  ]

  -- `RabbitPlugin::stop`
  unfoldable pub stop_rabbit : App → App
  unfolding removed
  stop_rabbit a = elim a.outer.rabbit [
    | none ↦ a
    | some s ↦ record (removed a rabbit) { outer = record (a.outer) { rabbit = none } }
  ]

  -- `RunnerPlugin::stop`
  unfoldable pub stop_runner : App → App
  unfolding removed
  stop_runner a = elim a.runner_service [
    | none ↦ a
    | some s ↦ record (removed a runner) { runner_service = none }
  ]
