-- ===== src/System/Publishing.antt =====
-- The result of a job through all services: from the runner to the broker.
use pipelinerunner.Base.{
  ℕ, ◌+◌, ◌≡◌, refl, ap, sym, ◌∙◌, true, Option, some, String, lookup, string_eq, nat_eq, is_some,
  inl, inr, Option-cases,
}
use pipelinerunner.Qt.{Qt}
use pipelinerunner.Common.Message.{message_to_byte_array}
use pipelinerunner.Rabbit.Channel.{Bytes, Amqp, to_strong_ref}
use pipelinerunner.Rabbit.Connection.Outside.{Env}
use pipelinerunner.Rabbit.Sender.{QueueSender, envelope}
use pipelinerunner.Rabbit.Sender.Publish.{publish_ready}
use pipelinerunner.Rabbit.Client.Declared.{create_sender_of_found}
use pipelinerunner.RabbitPlugin.{RabbitService, RabbitClient}
use pipelinerunner.RabbitPlugin
use pipelinerunner.Converter.Outside.{Desktop}
use pipelinerunner.Runner.{send_result, send_result_message}
use pipelinerunner.System.{Outer, system, pub_queue_sender, publish, sender_of, the_sender}

module _ (qt : Qt) (env : Env) (amqp : Amqp) (desktop : Desktop) (new_uuid : ℕ → qt.Uuid) where
  abbrev Whole : Type 0
  Whole = Outer qt env amqp desktop new_uuid

  -- What has to hold for the result of a job to be published, and by what.
  pub record MayPublish (w : Whole) (r : RabbitService qt env amqp) (cl : RabbitClient qt env amqp)
      (sender : QueueSender) (channel : ℕ) : Type 0 where
    pub rabbit : w.rabbit ≡ some r
    pub client : r.client ≡ some cl
    pub started : is_some cl.handler ≡ true
    pub found : lookup r.config.pub_queue_name cl.senders ≡ some sender
    pub ready : sender.is_ready ≡ true
    pub alive : to_strong_ref amqp w.broker sender.channel ≡ some channel

  same_sender :
      (r : RabbitService qt env amqp) (cl : RabbitClient qt env amqp) (sender : QueueSender)
      (b : amqp.World)
      → r.client ≡ some cl
      → is_some cl.handler ≡ true
      → lookup r.config.pub_queue_name cl.senders ≡ some sender
      → RabbitPlugin.pub_queue_sender qt env amqp r b
        ≡ (record r { client = some cl }, some sender, b)
  unfolding RabbitPlugin.pub_queue_sender
  same_sender r cl sender b e started found =
      rw
        (
          e,
          RabbitPlugin.pub_queue_sender,
          create_sender_of_found qt.HostAddress env amqp cl b r.config.pub_queue_name
              RabbitPlugin.pub_is_durable_queue sender started found,
        )
        refl

  publish_found :
      (w : Whole) (sender : QueueSender) (channel id : ℕ) (body : Bytes)
      → sender_of qt env amqp desktop new_uuid w.rabbit ≡ some sender
      → sender.is_ready ≡ true
      → to_strong_ref amqp w.broker sender.channel ≡ some channel
      → (publish qt env amqp desktop new_uuid w id body 0 0 true).1.broker
        ≡ (amqp.publish w.broker channel sender.queue_name (envelope body 0 0 true)).1
  unfolding publish
  publish_found w sender channel id body e ready alive =
      rw (e, publish, publish_ready amqp sender w.broker body 0 0 true channel ready alive) refl

  -- The result of a job is published on the sender's channel to its queue, as a message with a new
  -- identifier and the name of the file, persistent and without an end of its life.
  pub result_is_published :
      (w : Whole) (r : RabbitService qt env amqp) (cl : RabbitClient qt env amqp)
      (sender : QueueSender) (channel : ℕ) (file : String)
      → MayPublish w r cl sender channel
      → (send_result qt (system qt env amqp desktop new_uuid) w (some file)).broker
        ≡ (amqp.publish w.broker channel sender.queue_name (
            envelope
              (message_to_byte_array qt
                (record { message_id = new_uuid w.uuids_made; input_file = file }))
              0
              0
              true)).1
  unfolding send_result send_result_message pub_queue_sender sender_of
  result_is_published w r cl sender channel file m =
      rw (m.rabbit, same_sender r cl sender w.broker m.client m.started m.found)
        (publish_found
          (record w {
            rabbit = some (record r { client = some cl });
            uuids_made = w.uuids_made + 1;
          })
          sender channel the_sender _ m.found m.ready m.alive)

  same_service :
      (r : RabbitService qt env amqp) (cl : RabbitClient qt env amqp)
      → r.client ≡ some cl
      → ◌≡◌ {A = Option (RabbitService qt env amqp)} (some (record r { client = some cl })) (some r)
  same_service r cl e =
      ap (λ (x : Option (RabbitClient qt env amqp)). some (record r { client = x })) (sym e)

  publish_keeps :
      (w : Whole) (id : ℕ) (body : Bytes)
      → (publish qt env amqp desktop new_uuid w id body 0 0 true).1.rabbit ≡ w.rabbit
  unfolding publish
  publish_keeps w id body = elim (Option-cases (sender_of qt env amqp desktop new_uuid w.rabbit)) [
    | inl e ↦ rw (e, publish) refl
    | inr (s, e) ↦ rw (e, publish) refl
  ]

  -- The rabbit service after a result was sent is the one before.
  pub send_result_keeps :
      (w : Whole) (r : RabbitService qt env amqp) (cl : RabbitClient qt env amqp)
      (sender : QueueSender) (channel : ℕ) (file : String)
      → MayPublish w r cl sender channel
      → (send_result qt (system qt env amqp desktop new_uuid) w (some file)).rabbit ≡ some r
  unfolding send_result send_result_message pub_queue_sender
  send_result_keeps w r cl sender channel file m =
      rw (m.rabbit, same_sender r cl sender w.broker m.client m.started m.found)
        (publish_keeps
            (record w {
              rabbit = some (record r { client = some cl });
              uuids_made = w.uuids_made + 1;
            })
            the_sender _
          ∙ same_service r cl m.client)
