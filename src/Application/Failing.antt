-- ===== src/Application/Failing.antt =====
-- The plugins started in their order, where the configuration cannot be read.
use pipelinerunner.Base.{ℕ, ◌≡◌, refl, List, some, String}
use pipelinerunner.Base.Results.{err}
use pipelinerunner.Toolkit.Value.{Error}
use pipelinerunner.Qt.{Qt}
use pipelinerunner.Common.Config.Service.{ConfigService, Files}
use pipelinerunner.Common.Config.Service
use pipelinerunner.Rabbit.Channel.{Amqp}
use pipelinerunner.Rabbit.Connection.Outside.{Env}
use pipelinerunner.Converter.Outside.{Desktop}
use pipelinerunner.Application.Info.{config}
use pipelinerunner.Application.{Locator, blank_config, start_config}
use pipelinerunner.Application.Startup.{
  Takes, Program, IsRunning, start_all, begun-Served, Served-IsRunning,
}

module _ (qt : Qt) (env : Env) (amqp : Amqp) (desktop : Desktop) (new_uuid : ℕ → qt.Uuid)
    (locator : Locator) where
  config_failed :
      (a : Program qt env amqp desktop new_uuid locator) (null_host : qt.HostAddress)
      (files : Files qt) (args : List String) (x : Error)
      → Takes qt env amqp desktop new_uuid locator
      → Service.start qt
          (record { config = blank_config qt env amqp desktop new_uuid locator null_host })
          files
          args
        ≡ err x
      → start_config qt env amqp desktop new_uuid locator a null_host files args ≡ (
        record a {
          locator_state = (locator.add_service a.locator_state config).1;
          config_service =
              some
                (record { config = blank_config qt env amqp desktop new_uuid locator null_host });
        },
        some x,
      )
  unfolding start_config
  config_failed a null_host files args x takes failed =
      rw (takes config a.locator_state, failed, start_config) refl

  -- A locator that takes every service and a configuration file that cannot be opened or is not JSON:
  -- the start of the config service throws, and the service stays with the locator. The other plugins,
  -- when they are started after it all the same, run with the empty configuration, port 0 and the null
  -- host.
  pub start_all_failed :
      (a : Program qt env amqp desktop new_uuid locator) (null_host : qt.HostAddress)
      (files : Files qt) (args : List String) (x : Error) (d : desktop.World) (e : env.World)
      → Takes qt env amqp desktop new_uuid locator
      → Service.start qt
          (record { config = blank_config qt env amqp desktop new_uuid locator null_host })
          files
          args
        ≡ err x
      → ((start_config qt env amqp desktop new_uuid locator a null_host files args).1 ≡ some x)
        × IsRunning qt env amqp desktop new_uuid locator
            (start_all qt env amqp desktop new_uuid locator a null_host files args d e)
            (record { config = blank_config qt env amqp desktop new_uuid locator null_host })
  start_all_failed a null_host files args x d e takes failed =
      rw (config_failed a null_host files args x takes failed) (
        refl,
        Served-IsRunning qt env amqp desktop new_uuid locator _ _ takes
            (begun-Served qt env amqp desktop new_uuid locator _ null_host _ d e takes refl),
      )
