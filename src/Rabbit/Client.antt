-- ===== src/Rabbit/Client.antt =====
-- pipelineutils/modules/rabbitmq: rabbitmqclient.h and rabbitmqclient.cpp. The tables own the senders
-- and listeners; everybody else holds the same object, so an object is named by its queue. A method
-- returns the client, the signals emitted (its own and those of its queues) and the library's state.
pub mod Channels
pub mod Runs
pub mod Stale
pub mod Declared
pub mod Signals
use pipelinerunner.Base.{
  ℕ, Bool, true, false, List, [], ◌∷◌, ◌++◌, map, Option, none, some, String, string_eq, Dict,
  lookup, insert, each, if◌then◌else◌, Outcome, ◌>>=◌, done, is_some,
}
use pipelinerunner.Rabbit.Channel.{Bytes, Amqp}
use pipelinerunner.Rabbit.Listener.{QueueListener, ListenerSignal}
use pipelinerunner.Rabbit.Listener
use pipelinerunner.Rabbit.Sender.{QueueSender, SenderSignal}
use pipelinerunner.Rabbit.Sender
use pipelinerunner.Rabbit.Connection.{Handler}
use pipelinerunner.Rabbit.Connection
use pipelinerunner.Rabbit.Connection.Outside.{Env}

-- `prefetchCount`
abbrev pub prefetch_count : ℕ
prefetch_count = 1

-- `maxPriority`
abbrev pub max_priority : ℕ
max_priority = 3

pub record ConnectionInfoStruct (Host : Type 0) : Type 0 where
  pub address : Host
  pub port : ℕ
  pub login : String
  pub password : String

-- The default arguments of the constructor; `local` is QHostAddress("127.0.0.1").
unfoldable pub default_info : {Host : Type 0} → Host → ConnectionInfoStruct Host
default_info local = record { address = local; port = 5672; login = "guest"; password = "guest" }

pub data ClientSignal : Type 0 where
  connection_changed ready_changed : Bool → ClientSignal
  of_sender : String × SenderSignal → ClientSignal
  of_listener : String × ListenerSignal → ClientSignal

-- What a loop over the senders or the listeners says.
abbrev from_senders : List (String × SenderSignal) → List ClientSignal
from_senders = map of_sender

abbrev from_listeners : List (String × ListenerSignal) → List ClientSignal
from_listeners = map of_listener

abbrev pub reset_sender : Option ℕ → QueueSender → QueueSender × List SenderSignal
reset_sender channel s = Sender.reset_channel s channel

abbrev pub reset_listener : Option ℕ → QueueListener → QueueListener × List ListenerSignal
reset_listener channel l = Listener.reset_channel l channel

abbrev pub turn_sender : Bool → QueueSender → QueueSender × List SenderSignal
turn_sender b s = Sender.set_is_ready s b

abbrev pub turn_listener : Bool → QueueListener → QueueListener × List ListenerSignal
turn_listener b l = Listener.set_is_ready l b

module _ (Host : Type 0) (env : Env) (amqp : Amqp) where
  open amqp use {World}

  pub record Client : Type 0 where
    pub server_info : ConnectionInfoStruct Host
    pub senders : Dict String QueueSender
    pub listeners : Dict String QueueListener
    pub handler : Option (Handler env)
    pub connection : Option ℕ
    pub channel : Option ℕ

  -- The constructor.
  pub create : ConnectionInfoStruct Host → Client
  create info = record {
    server_info = info;
    senders = [];
    listeners = [];
    handler = none;
    connection = none;
    channel = none;
  }

  -- `start`; the handler's signals go to the two methods below.
  unfoldable pub start : Client → env.World → Client
  start c w = record c { handler = some (Connection.start env (Connection.init env w)) }

  -- The destructor.
  pub destroy : Option (Handler env) → Outcome (Option (Handler env))
  destroy none = done none
  destroy (some h) = Connection.close env h >>= λ h'. done (some h')

  unfoldable pub close_old : Option ℕ → World → World
  close_old none w = w
  close_old (some c) w = amqp.close_connection w c

  unfoldable pub handle_connection_changed :
      Client → World → Bool → Client × List ClientSignal × World
  handle_connection_changed c w false = (c, connection_changed false ∷ [], w)
  handle_connection_changed c w true =
      let closed = close_old c.connection w in
      let (connection, w₁) =
        amqp.new_connection closed c.server_info.login c.server_info.password in
      let (channel, w₂) = amqp.new_channel w₁ connection in
      let w₃ = amqp.set_qos w₂ channel prefetch_count in
      let (senders, said) = each (reset_sender (some channel)) c.senders in
      let (listeners, said') = each (reset_listener (some channel)) c.listeners in
      (
        record c {
          connection = some connection;
          channel = some channel;
          senders = senders;
          listeners = listeners;
        },
        from_senders said ++ (from_listeners said' ++ connection_changed true ∷ []),
        w₃,
      )

  -- `registerQueueSender`; the callbacks are `queue_declared` and a line of the log.
  pub register_queue_sender : Option ℕ → World → QueueSender → World
  register_queue_sender none w s = w
  register_queue_sender (some channel) w s =
      amqp.declare_queue w channel s.queue_name s.is_durable max_priority

  -- `registerQueueListener`; the callbacks are `message_arrived` and `consume_started`.
  pub register_queue_listener : Option ℕ → World → QueueListener → World
  register_queue_listener none w l = w
  register_queue_listener (some channel) w l = amqp.consume w channel l.queue_name

  pub register_senders : Option ℕ → World → Dict String QueueSender → World
  register_senders channel w [] = w
  register_senders channel w ((_, s) ∷ d) =
      register_senders channel (register_queue_sender channel w s) d

  pub register_listeners : Option ℕ → World → Dict String QueueListener → World
  register_listeners channel w [] = w
  register_listeners channel w ((_, l) ∷ d) =
      register_listeners channel (register_queue_listener channel w l) d

  pub handle_ready_changed : Client → World → Bool → Client × List ClientSignal × World
  handle_ready_changed c w true = (
    c,
    ready_changed true ∷ [],
    register_listeners c.channel (register_senders c.channel w c.senders) c.listeners,
  )
  handle_ready_changed c w false =
      let (senders, said) = each (turn_sender false) c.senders in
      let (listeners, said') = each (turn_listener false) c.listeners in
      (
        record c { senders = senders; listeners = listeners },
        from_senders said ++ (from_listeners said' ++ ready_changed false ∷ []),
        w,
      )

  abbrev flag : Option (Handler env) → (Handler env → Bool) → Bool
  flag none f = false
  flag (some h) f = f h

  pub is_connected : Client → Bool
  is_connected c = flag c.handler (λ h. h.is_connected)

  pub is_ready : Client → Bool
  is_ready c = flag c.handler (λ h. h.is_ready)

  pub get_queue_sender : Client → String → Option QueueSender
  get_queue_sender c name = if is_some c.handler then lookup name c.senders else none

  pub get_queue_listener : Client → String → Option QueueListener
  get_queue_listener c name = if is_some c.handler then lookup name c.listeners else none

  pub create_queue_sender : Client → World → String → Bool → Client × QueueSender × World
  create_queue_sender c w name is_durable = elim (get_queue_sender c name) [
    | some s ↦ (c, s, w)
    | none ↦
        (let s = Sender.create name is_durable c.channel in
          (record c { senders = insert name s c.senders }, s, register_queue_sender c.channel w s))
  ]

  pub create_queue_listener : Client → World → String → Bool → Client × QueueListener × World
  create_queue_listener c w name auto = elim (get_queue_listener c name) [
    | some l ↦ (c, l, w)
    | none ↦
        (let l = Listener.create name auto c.channel in
          (
            record c { listeners = insert name l c.listeners },
            l,
            register_queue_listener c.channel w l,
          ))
  ]

  declared : Client → Option QueueSender → String → Client × List ClientSignal
  declared c none name = (c, [])
  declared c (some s) name =
      let (s', said) = Sender.set_is_ready s true in
      (record c { senders = insert name s' c.senders }, from_senders (map (λ x. (name, x)) said))

  -- `callbackCreateQueue`
  pub queue_declared : Client → String → Client × List ClientSignal
  queue_declared c name = declared c (lookup name c.senders) name

  put_listener : Client → String → QueueListener × List ListenerSignal → Client × List ClientSignal
  put_listener c name (l, said) = (
    record c { listeners = insert name l c.listeners },
    from_listeners (map (λ x. (name, x)) said),
  )

  started : Client → Option QueueListener → String → Client × List ClientSignal
  started c none name = (c, [])
  started c (some l) name = put_listener c name (Listener.set_is_ready l true)

  -- `onSuccessCallback`, for the listener of the queue.
  pub consume_started : Client → String → Client × List ClientSignal
  consume_started c name = started c (lookup name c.listeners) name

  arrived :
      Client
      → World
      → Option QueueListener
      → String
      → Bytes
      → ℕ
      → ℕ
      → Client × List ClientSignal × World
  arrived c w none name body priority tag = (c, [], w)
  arrived c w (some l) name body priority tag =
      let (l', said, w') = Listener.add_message amqp l w body priority tag in
      let (c', signals) = put_listener c name (l', said) in (c', signals, w')

  -- `recvCallback`; the listener is found by the routing key.
  pub message_arrived : Client → World → String → Bytes → ℕ → ℕ → Client × List ClientSignal × World
  message_arrived c w routing_key body priority tag =
      arrived c w (lookup routing_key c.listeners) routing_key body priority tag
