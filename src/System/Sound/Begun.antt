-- ===== src/System/Sound/Begun.antt =====
-- The invariant of the program when its runner has just started.
use pipelinerunner.Base.{
  ℕ, ◌≡◌, refl, ap, ◌∙◌, false, [], some, none, string_eq, lookup, lookup-nil, nat_eq,
}
use pipelinerunner.Qt.{Qt}
use pipelinerunner.Rabbit.Channel.{Amqp}
use pipelinerunner.Rabbit.Connection.Outside.{Env}
use pipelinerunner.Rabbit.Listener.{QueueListener}
use pipelinerunner.Rabbit.Listener
use pipelinerunner.Rabbit.Client.Declared.{create_listener_found}
use pipelinerunner.RabbitPlugin.{RabbitService, RabbitClient}
use pipelinerunner.RabbitPlugin
use pipelinerunner.Converter.Outside.{Desktop}
use pipelinerunner.Converter.{Converter}
use pipelinerunner.Converter.History.{JobsAreFiled}
use pipelinerunner.System.{Outer, sub_queue_listener}
use pipelinerunner.System.Sound.{Prog, Serves, IsSound}
use pipelinerunner.System.Sound.Losses.{Holds-idle}

module _ (qt : Qt) (env : Env) (amqp : Amqp) (desktop : Desktop) (new_uuid : ℕ → qt.Uuid) where
  -- The first listener of the client is the one of the queue of jobs.
  pub subscribed :
      (w : Outer qt env amqp desktop new_uuid) (r : RabbitService qt env amqp)
      (cl : RabbitClient qt env amqp)
      → w.rabbit ≡ some r
      → r.client ≡ some cl
      → cl.listeners ≡ []
      → (l : QueueListener) × (l.is_auto_acknowledge ≡ false)
        × Serves qt env amqp desktop new_uuid
            (sub_queue_listener qt env amqp desktop new_uuid w).1
            l
  unfolding sub_queue_listener RabbitPlugin.sub_queue_listener Listener.create
  subscribed w r cl e k none_yet = (
    Listener.create r.config.sub_queue_name RabbitPlugin.sub_queue_auto_acknowledge cl.channel,
    refl,
    rw (e, k, sub_queue_listener, RabbitPlugin.sub_queue_listener)
        (record {
          service = _;
          cl = _;
          rabbit = refl;
          client = refl;
          found =
              create_listener_found qt.HostAddress env amqp cl w.broker r.config.sub_queue_name
                RabbitPlugin.sub_queue_auto_acknowledge none_yet;
        }),
  )

  -- A runner without jobs, with that listener, beside a converter with filed jobs.
  pub idle-IsSound :
      (s : Prog qt env amqp desktop new_uuid) (l : QueueListener) (listener : ℕ)
      (c : Converter qt desktop)
      → s.jobs ≡ []
      → s.listener_handler ≡ some listener
      → s.world.converter ≡ some c
      → JobsAreFiled qt desktop c
      → l.is_auto_acknowledge ≡ false
      → Serves qt env amqp desktop new_uuid s.world l
      → IsSound qt env amqp desktop new_uuid s
  idle-IsSound s l listener c idle handler there filed manual serves =
      let none_left : (u : qt.Uuid) → lookup ⦃e = qt.uuid_eq⦄ u s.jobs ≡ none =
        λ u. ap (lookup ⦃e = qt.uuid_eq⦄ u) idle ∙ lookup-nil ⦃e = qt.uuid_eq⦄ u in
      (
        l,
        record {
          serves = serves;
          manual = manual;
          listener = listener;
          handler = handler;
          c = c;
          converts = record { there = there; filed = filed; known = λ u h i. cc (none_left u, i) };
          holds = Holds-idle qt env amqp desktop new_uuid s l none_left;
        },
      )
