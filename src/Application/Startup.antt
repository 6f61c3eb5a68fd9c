-- ===== src/Application/Startup.antt =====
-- The plugins started in their order, from a locator without services.
use mathlib.Core.Path.{subst}
use pipelinerunner.Base.{ℕ, ◌≡◌, refl, ap, ◌∙◌, true, List, [], none, some, String, is_some}
use pipelinerunner.Base.Results.{ok}
use pipelinerunner.Qt.{Qt}
use pipelinerunner.Common.Config.Service.{ConfigService, Files}
use pipelinerunner.Common.Config.Service
use pipelinerunner.Rabbit.Channel.{Amqp}
use pipelinerunner.Rabbit.Connection.Outside.{Env}
use pipelinerunner.RabbitPlugin.{RabbitService, RabbitClient}
use pipelinerunner.RabbitPlugin
use pipelinerunner.Converter.Outside.{Desktop}
use pipelinerunner.Converter.{Converter}
use pipelinerunner.Runner.{RunnerService}
use pipelinerunner.Converter.History.{JobsAreFiled, new-JobsAreFiled}
use pipelinerunner.Rabbit.Client.Declared.{started_listeners}
use pipelinerunner.System.Sound.{Serves, IsSound}
use pipelinerunner.System.Sound.Begun.{idle-IsSound, subscribed}
use pipelinerunner.Runner.Starting.{start-listens}
use pipelinerunner.System.{system, the_sender, the_listener}
use pipelinerunner.System.Queues.{sender_given, listener_given}
use pipelinerunner.Application.Info.{Plugin, config, converter, rabbit, runner}
use pipelinerunner.Application.{
  App, Locator, blank_config, start_config, start_converter, start_rabbit, start_runner,
}

module _ (qt : Qt) (env : Env) (amqp : Amqp) (desktop : Desktop) (new_uuid : ℕ → qt.Uuid)
    (locator : Locator) where
  -- The locator takes every service.
  abbrev pub Takes : Type 0
  Takes = (p : Plugin) (w : locator.World) → (locator.add_service w p).0 ≡ true

  abbrev pub Program : Type 0
  Program = App qt env amqp desktop new_uuid locator

  -- The first three plugins started.
  abbrev pub serve :
      Program → qt.HostAddress → Files qt → List String → desktop.World → env.World → Program
  serve a null_host files args d e =
      let a1 = (start_config qt env amqp desktop new_uuid locator a null_host files args).0 in
      let a2 = start_converter qt env amqp desktop new_uuid locator a1 null_host d in
      start_rabbit qt env amqp desktop new_uuid locator a2 null_host e

  -- All of them.
  abbrev pub start_all :
      Program → qt.HostAddress → Files qt → List String → desktop.World → env.World → Program
  start_all a null_host files args d e =
      start_runner qt env amqp desktop new_uuid locator (serve a null_host files args d e)

  -- The program works: the converter has the configuration, no job and its slots, and the runner listens to a
  -- client of the rabbit service with the configuration.
  pub record IsRunning (a : Program) (c : ConfigService qt) : Type 0 where
    pub configured : a.config_service ≡ some c
    pub conv : Converter qt desktop
    pub has_converter : a.outer.converter ≡ some conv
    pub converter_config : conv.config ≡ c.config
    pub idle : conv.received_messages ≡ []
    pub connected : a.process_connected ≡ true
    pub serves : RabbitService qt env amqp
    pub has_rabbit : a.outer.rabbit ≡ some serves
    pub rabbit_config : serves.config ≡ c.config
    pub connects : is_some serves.client ≡ true
    pub runs : RunnerService qt (system qt env amqp desktop new_uuid)
    pub has_runner : a.runner_service ≡ some runs
    pub listens : runs.listener_handler ≡ some the_listener
    pub no_jobs : runs.jobs ≡ []
    pub same_world : runs.world ≡ a.outer
    pub sound : IsSound qt env amqp desktop new_uuid runs

  -- The state with which the runner's plugin starts.
  pub record Served (a : Program) (c : ConfigService qt) : Type 0 where
    pub configured : a.config_service ≡ some c
    pub conv : Converter qt desktop
    pub has_converter : a.outer.converter ≡ some conv
    pub converter_config : conv.config ≡ c.config
    pub idle : conv.received_messages ≡ []
    pub connected : a.process_connected ≡ true
    pub serves : RabbitService qt env amqp
    pub client : RabbitClient qt env amqp
    pub has_rabbit : a.outer.rabbit ≡ some serves
    pub rabbit_config : serves.config ≡ c.config
    pub connects : serves.client ≡ some client
    pub filed : JobsAreFiled qt desktop conv
    pub no_listener : client.listeners ≡ []

  config_begun :
      (a : Program) (null_host : qt.HostAddress) (files : Files qt) (args : List String)
      (c : ConfigService qt)
      → Takes
      → Service.start qt
          (record { config = blank_config qt env amqp desktop new_uuid locator null_host })
          files
          args
        ≡ ok (c, true)
      → start_config qt env amqp desktop new_uuid locator a null_host files args ≡ (
        record a {
          locator_state = (locator.add_service a.locator_state config).1;
          config_service = some c;
        },
        none,
      )
  unfolding start_config
  config_begun a null_host files args c takes started =
      rw (takes config a.locator_state, started, start_config) refl

  pub begun-Served :
      (a : Program) (null_host : qt.HostAddress) (c : ConfigService qt) (d : desktop.World)
      (e : env.World)
      → Takes
      → a.config_service ≡ some c
      → Served
          (start_rabbit qt env amqp desktop new_uuid locator
            (start_converter qt env amqp desktop new_uuid locator a null_host d)
            null_host
            e)
          c
  unfolding start_converter start_rabbit RabbitPlugin.start
  begun-Served a null_host c d e takes k =
      rw
        (
          takes converter a.locator_state,
          start_converter,
          takes rabbit (locator.add_service a.locator_state converter).1,
          start_rabbit,
          k,
        )
        (record {
          configured = refl;
          conv = _;
          has_converter = refl;
          converter_config = refl;
          idle = refl;
          connected = refl;
          serves = _;
          client = _;
          has_rabbit = refl;
          rabbit_config = refl;
          connects = refl;
          filed = new-JobsAreFiled qt desktop _ refl refl refl;
          no_listener = started_listeners qt.HostAddress env amqp _ e;
        })

  -- What the start of the runner does to a program that serves it.
  pub Served-IsRunning :
      (a : Program) (c : ConfigService qt)
      → Takes
      → Served a c
      → IsRunning (start_runner qt env amqp desktop new_uuid locator a) c
  unfolding start_runner
  Served-IsRunning a c takes v =
      let sys = system qt env amqp desktop new_uuid in
      let (w, sends, k, same) =
        sender_given qt env amqp desktop new_uuid a.outer v.serves v.client v.has_rabbit
          v.connects in
      let (w', hears, k') =
        listener_given qt env amqp desktop new_uuid w k.service k.client k.there k.connected in
      let began =
        start-listens qt sys
          (record { listener_handler = none; jobs = []; jobs_delivery_tags = []; world = a.outer })
          the_sender the_listener w w' refl (rw v.has_rabbit refl) sends hears in
      let (l, manual, heard) =
        subscribed qt env amqp desktop new_uuid w k.service k.client k.there k.connected
          (same ∙ v.no_listener) in
      let hears_l : Serves qt env amqp desktop new_uuid w' l =
        subst (λ x. Serves qt env amqp desktop new_uuid x l) (ap (λ x. x.1) hears) heard in
      rw (takes runner a.locator_state, start_runner, began)
        (record {
          configured = v.configured;
          conv = v.conv;
          has_converter = k'.converts ∙ k.converts ∙ v.has_converter;
          converter_config = v.converter_config;
          idle = v.idle;
          connected = v.connected;
          serves = k'.service;
          has_rabbit = k'.there;
          rabbit_config = k'.configured ∙ k.configured ∙ v.rabbit_config;
          connects = rw k'.connected refl;
          runs = _;
          has_runner = refl;
          listens = refl;
          no_jobs = refl;
          same_world = refl;
          sound =
              idle-IsSound qt env amqp desktop new_uuid _ l the_listener v.conv refl refl
                (k'.converts ∙ k.converts ∙ v.has_converter) v.filed manual hears_l;
        })

  -- A locator that takes every service and a start of the config service that reads a configuration:
  -- the plugins, started in their order, give a running program. The converter and the rabbit service
  -- have the configuration that was read, the converter has no job and hears of the end of its process,
  -- the rabbit service has a client, and the runner listens, knows no job, and has a state that is
  -- sound in the sense of IsSound.
  pub start_all-IsRunning :
      (a : Program) (null_host : qt.HostAddress) (files : Files qt) (args : List String)
      (c : ConfigService qt) (d : desktop.World) (e : env.World)
      → Takes
      → Service.start qt
          (record { config = blank_config qt env amqp desktop new_uuid locator null_host })
          files
          args
        ≡ ok (c, true)
      → ((start_config qt env amqp desktop new_uuid locator a null_host files args).1 ≡ none)
        × IsRunning (start_all a null_host files args d e) c
  start_all-IsRunning a null_host files args c d e takes started =
      rw (config_begun a null_host files args c takes started)
        (refl, Served-IsRunning _ c takes (begun-Served _ null_host c d e takes refl))
