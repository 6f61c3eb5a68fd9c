-- ===== src/RabbitPlugin.antt =====
-- src/PipelineRunnerPlugins/RabbitPlugin/Service: rabbitservice.h and rabbitservice.cpp.
pub mod Publishing
use pipelinerunner.Base.{ℕ, Bool, true, false, ◌&&◌, Option, none, some, String, string_eq}
use pipelinerunner.Base.Results.{Result, ok, err}
use pipelinerunner.Toolkit.Value.{Error, other_error}
use pipelinerunner.Qt.{Qt}
use pipelinerunner.Common.Config.{Config}
use pipelinerunner.Rabbit.Channel.{Amqp}
use pipelinerunner.Rabbit.Listener.{QueueListener}
use pipelinerunner.Rabbit.Sender.{QueueSender}
use pipelinerunner.Rabbit.Connection.Outside.{Env}
use pipelinerunner.Rabbit.Client.{
  Client, ConnectionInfoStruct, default_info, get_queue_sender, get_queue_listener,
  create_queue_sender, create_queue_listener,
}
use pipelinerunner.Rabbit.Client
use pipelinerunner.Rabbit.Client.Declared.{sender_ready}

-- `pub_is_durable_queue`
abbrev pub pub_is_durable_queue : Bool
pub_is_durable_queue = true

-- `sub_queue_auto_acknowledge`
abbrev pub sub_queue_auto_acknowledge : Bool
sub_queue_auto_acknowledge = false

-- A sender or a listener that exists and is ready.
abbrev pub listener_ready : Option QueueListener → Bool
listener_ready none = false
listener_ready (some l) = l.is_ready

module _ (qt : Qt) (env : Env) (amqp : Amqp) where
  abbrev pub RabbitClient : Type 0
  RabbitClient = Client qt.HostAddress env amqp

  pub record RabbitService : Type 0 where
    pub client : Option RabbitClient
    pub config : Config qt

  -- The client that `start` makes for the configuration, started.
  start_client : Config qt → env.World → RabbitClient
  start_client c w =
      Client.start qt.HostAddress env amqp
        (Client.create qt.HostAddress env amqp (record {
          address = c.rabbit_host;
          port = c.rabbit_port;
          login = c.rabbit_login;
          password = c.rabbit_password;
        }))
        w

  -- `start`, with the configuration of the config service if there is one.
  unfoldable pub start : RabbitService → Option (Config qt) → env.World → Result Error RabbitService
  unfolding start_client
  start s none w = err (other_error "unable to access config service")
  start s (some c) w = ok (record { client = some (start_client c w); config = c })

  -- `getServerConnectionInfo`
  pub get_server_connection_info :
      RabbitService → qt.HostAddress → ConnectionInfoStruct qt.HostAddress
  get_server_connection_info s local = elim s.client [
    | none ↦ default_info local
    | some c ↦ c.server_info
  ]

  -- `pubQueueSender`
  unfoldable pub pub_queue_sender :
      RabbitService → amqp.World → RabbitService × Option QueueSender × amqp.World
  pub_queue_sender s w = elim s.client [
    | none ↦ (s, none, w)
    | some c ↦
        let (c', sender, w') =
          create_queue_sender qt.HostAddress env amqp c w s.config.pub_queue_name
            pub_is_durable_queue in
        (record s { client = some c' }, some sender, w')
  ]

  -- `subQueueListener`
  unfoldable pub sub_queue_listener :
      RabbitService → amqp.World → RabbitService × Option QueueListener × amqp.World
  sub_queue_listener s w = elim s.client [
    | none ↦ (s, none, w)
    | some c ↦
        let (c', listener, w') =
          create_queue_listener qt.HostAddress env amqp c w s.config.sub_queue_name
            sub_queue_auto_acknowledge in
        (record s { client = some c' }, some listener, w')
  ]

  -- `isConnected`
  pub is_connected : RabbitService → Bool
  is_connected s = elim s.client [
    | none ↦ false
    | some c ↦
        Client.is_connected qt.HostAddress env amqp c && Client.is_ready qt.HostAddress env amqp c
  ]

  -- `isPubQueueCreated`
  unfoldable pub is_pub_queue_created : RabbitService → Bool
  is_pub_queue_created s = elim s.client [
    | none ↦ false
    | some c ↦ sender_ready (get_queue_sender qt.HostAddress env amqp c s.config.pub_queue_name)
  ]

  -- `isSubQueueConnected`
  unfoldable pub is_sub_queue_connected : RabbitService → Bool
  is_sub_queue_connected s = elim s.client [
    | none ↦ false
    | some c ↦ listener_ready (get_queue_listener qt.HostAddress env amqp c s.config.sub_queue_name)
  ]

  -- `getPubQueueName`
  pub get_pub_queue_name : RabbitService → String
  get_pub_queue_name s = s.config.pub_queue_name

  -- `getSubQueueName`
  pub get_sub_queue_name : RabbitService → String
  get_sub_queue_name s = s.config.sub_queue_name
