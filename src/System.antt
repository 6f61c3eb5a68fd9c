-- ===== src/System.antt =====
-- The services together: what RunnerService finds behind the interfaces IConverterService, IJobHandle and
-- IRabbitService is ConverterService, JobHandle and RabbitService. A service is `none` while the service
-- locator does not have it.
pub mod Queues
pub mod Events
pub mod Sound
pub mod Taken
pub mod Answered
pub mod Returns
pub mod Calm
pub mod Lasting
pub mod Fate
pub mod Starting
pub mod Publishing
pub mod Finishing
pub mod Following
use pipelinerunner.Base.{
  ℕ, ◌+◌, Bool, true, false, List, [], Option, none, some, String, string_eq, nat_eq, Dict, lookup,
  insert, is_some,
}
use pipelinerunner.Qt.{Qt}
use pipelinerunner.Common.Message.{Message}
use pipelinerunner.Rabbit.Channel.{Bytes, Amqp}
use pipelinerunner.Rabbit.Connection.Outside.{Env}
use pipelinerunner.Rabbit.Listener.{QueueListener, CachedMessage}
use pipelinerunner.Rabbit.Listener
use pipelinerunner.Rabbit.Sender.{QueueSender}
use pipelinerunner.Rabbit.Sender
use pipelinerunner.RabbitPlugin.{RabbitService, RabbitClient}
use pipelinerunner.RabbitPlugin
use pipelinerunner.Converter.Outside.{Desktop}
use pipelinerunner.Converter.{Converter, JobHandle}
use pipelinerunner.Converter
use pipelinerunner.Runner.Outside.{Services}

-- The only queue objects that RabbitService hands out, one of each kind.
abbrev pub the_sender : ℕ
the_sender = 0

abbrev pub the_listener : ℕ
the_listener = 0

module _ (qt : Qt) (env : Env) (amqp : Amqp) (desktop : Desktop) (new_uuid : ℕ → qt.Uuid) where
  pub record Outer : Type 0 where
    pub converter : Option (Converter qt desktop)
    pub rabbit : Option (RabbitService qt env amqp)
    pub broker : amqp.World
    pub uuids_made : ℕ

  unfoldable pub register_job_message : Outer → Message qt → Option ℕ × Outer
  register_job_message w m = elim w.converter [
    | none ↦ (none, w)
    | some c ↦
        let (c', h) = Converter.register_job_message qt desktop c m in
        (some h, record w { converter = some c' })
  ]

  unfoldable pub process_job_message : Outer → ℕ → Bool × Outer
  process_job_message w h = elim w.converter [
    | none ↦ (false, w)
    | some c ↦
        let (c', taken) = Converter.process_job_message qt desktop c (some h) in
        (taken, record w { converter = some c' })
  ]

  -- The object behind a handle.
  unfoldable pub job_handle : Outer → ℕ → Option (JobHandle qt desktop)
  job_handle w h = elim w.converter [ none ↦ none | some c ↦ lookup h c.handles ]

  -- `message()`; without the object it is never called.
  unfoldable pub handle_message : Option (JobHandle qt desktop) → Message qt
  handle_message none = record { message_id = qt.null_uuid; input_file = "" }
  handle_message (some j) = j.message

  -- `result()`
  unfoldable pub handle_result : Option (JobHandle qt desktop) → Option String
  handle_result none = none
  handle_result (some j) = j.result

  unfoldable pub pub_queue_sender : Outer → Option ℕ × Outer
  pub_queue_sender w = elim w.rabbit [
    | none ↦ (none, w)
    | some r ↦
        let (r', sender, b) = RabbitPlugin.pub_queue_sender qt env amqp r w.broker in
        (
          elim sender [ none ↦ none | some s ↦ some the_sender ],
          record w { rabbit = some r'; broker = b },
        )
  ]

  unfoldable pub sub_queue_listener : Outer → Option ℕ × Outer
  sub_queue_listener w = elim w.rabbit [
    | none ↦ (none, w)
    | some r ↦
        let (r', listener, b) = RabbitPlugin.sub_queue_listener qt env amqp r w.broker in
        (
          elim listener [ none ↦ none | some l ↦ some the_listener ],
          record w { rabbit = some r'; broker = b },
        )
  ]

  -- The queue objects, which the client owns under the names of their queues.
  unfoldable pub sender_of : Option (RabbitService qt env amqp) → Option QueueSender
  sender_of none = none
  sender_of (some r) = elim r.client [
    | none ↦ none
    | some c ↦ lookup r.config.pub_queue_name c.senders
  ]

  unfoldable pub listener_of : Option (RabbitService qt env amqp) → Option QueueListener
  listener_of none = none
  listener_of (some r) = elim r.client [
    | none ↦ none
    | some c ↦ lookup r.config.sub_queue_name c.listeners
  ]

  unfoldable pub put_listener :
      Option (RabbitService qt env amqp) → QueueListener → Option (RabbitService qt env amqp)
  put_listener none l = none
  put_listener (some r) l = elim r.client [
    | none ↦ some r
    | some c ↦ some (record r {
      client = some (record c { listeners = insert r.config.sub_queue_name l c.listeners });
    })
  ]

  unfoldable pub publish : Outer → ℕ → Bytes → ℕ → ℕ → Bool → Bool × Outer
  publish w sender body ttl priority persistent = elim (sender_of w.rabbit) [
    | none ↦ (false, w)
    | some s ↦
        let (sent, b) = Sender.publish amqp s w.broker body ttl priority persistent in
        (sent, record w { broker = b })
  ]

  unfoldable pub confirm_receiving : Outer → ℕ → ℕ → Outer
  confirm_receiving w listener tag = elim (listener_of w.rabbit) [
    | none ↦ w
    | some l ↦
        let (l', confirmed, b) = Listener.confirm_receiving amqp l w.broker tag in
        record w { rabbit = put_listener w.rabbit l'; broker = b }
  ]

  unfoldable pub messages : Outer → ℕ → Dict ℕ CachedMessage
  messages w listener = elim (listener_of w.rabbit) [ none ↦ [] | some l ↦ l.messages ]

  abbrev pub system : Services qt
  system = record {
    World = Outer;
    create_uuid = λ w. (new_uuid w.uuids_made, record w { uuids_made = w.uuids_made + 1 });
    has_converter = λ w. is_some w.converter;
    register_job_message = register_job_message;
    process_job_message = process_job_message;
    connect_finished = λ w h. w;
    message_of = λ w h. handle_message (job_handle w h);
    result_of = λ w h. handle_result (job_handle w h);
    has_rabbit = λ w. is_some w.rabbit;
    pub_queue_sender = pub_queue_sender;
    sub_queue_listener = sub_queue_listener;
    publish = publish;
    confirm_receiving = confirm_receiving;
    messages = messages;
  }
