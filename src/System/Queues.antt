-- ===== src/System/Queues.antt =====
-- The queue objects that RunnerService gets from RabbitService.
use pipelinerunner.Base.{ℕ, ◌≡◌, refl, some}
use pipelinerunner.Qt.{Qt}
use pipelinerunner.Rabbit.Channel.{Amqp}
use pipelinerunner.Rabbit.Connection.Outside.{Env}
use pipelinerunner.Rabbit.Client.Declared.{create_sender_listeners}
use pipelinerunner.RabbitPlugin.{RabbitService, RabbitClient}
use pipelinerunner.RabbitPlugin
use pipelinerunner.Converter.Outside.{Desktop}
use pipelinerunner.System.{Outer, pub_queue_sender, sub_queue_listener, the_sender, the_listener}

module _ (qt : Qt) (env : Env) (amqp : Amqp) (desktop : Desktop) (new_uuid : ℕ → qt.Uuid) where
  abbrev Whole : Type 0
  Whole = Outer qt env amqp desktop new_uuid

  -- The world `w'` has a rabbit service with a client and this configuration, and the rest of `w`.
  pub record Keeps (w w' : Whole) (r : RabbitService qt env amqp) : Type 0 where
    pub service : RabbitService qt env amqp
    pub client : RabbitClient qt env amqp
    pub there : w'.rabbit ≡ some service
    pub connected : service.client ≡ some client
    pub configured : service.config ≡ r.config
    pub converts : w'.converter ≡ w.converter

  pub sender_given :
      (w : Whole) (r : RabbitService qt env amqp) (c : RabbitClient qt env amqp)
      → w.rabbit ≡ some r
      → r.client ≡ some c
      → (w' : Whole) × (pub_queue_sender qt env amqp desktop new_uuid w ≡ (some the_sender, w'))
        × (k : Keeps w w' r) × (k.client.listeners ≡ c.listeners)
  unfolding pub_queue_sender RabbitPlugin.pub_queue_sender
  sender_given w r c e k =
      rw (e, k, pub_queue_sender, RabbitPlugin.pub_queue_sender)
        (
          _,
          refl,
          record {
            service = _;
            client = _;
            there = refl;
            connected = refl;
            configured = refl;
            converts = refl;
          },
          create_sender_listeners qt.HostAddress env amqp c w.broker r.config.pub_queue_name
              RabbitPlugin.pub_is_durable_queue,
        )

  pub listener_given :
      (w : Whole) (r : RabbitService qt env amqp) (c : RabbitClient qt env amqp)
      → w.rabbit ≡ some r
      → r.client ≡ some c
      → (w' : Whole) × (sub_queue_listener qt env amqp desktop new_uuid w ≡ (some the_listener, w'))
        × Keeps w w' r
  unfolding sub_queue_listener RabbitPlugin.sub_queue_listener
  listener_given w r c e k =
      rw (e, k, sub_queue_listener, RabbitPlugin.sub_queue_listener)
        (
          _,
          refl,
          record {
            service = _;
            client = _;
            there = refl;
            connected = refl;
            configured = refl;
            converts = refl;
          },
        )
