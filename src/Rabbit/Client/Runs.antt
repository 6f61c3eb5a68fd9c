-- ===== src/Rabbit/Client/Runs.antt =====
-- rabbitmqclient.cpp: the calls on a client, in any order.
use pipelinerunner.Base.{ℕ, Bool, List, [], ◌∷◌, String, string_eq}
use pipelinerunner.Rabbit.Channel.{Bytes, Amqp}
use pipelinerunner.Rabbit.Connection.Outside.{Env}
use pipelinerunner.Rabbit.Client.{
  ConnectionInfoStruct, Client, create, start, handle_connection_changed, handle_ready_changed,
  create_queue_sender, create_queue_listener, queue_declared, consume_started, message_arrived,
}
use pipelinerunner.Rabbit.Client.Channels.{
  ClientIsFiled, create-IsFiled, handle_connection_changed-IsFiled, handle_ready_changed-IsFiled,
  create_queue_sender-IsFiled, create_queue_listener-IsFiled, queue_declared-IsFiled,
  consume_started-IsFiled, message_arrived-IsFiled,
}

module _ (Host : Type 0) (env : Env) (amqp : Amqp) where
  -- The calls that change a client: its methods, its slots and the library's callbacks.
  pub data Call : Type 0 where
    starts : env.World → Call
    connection_changes ready_changes : Bool → Call
    creates_sender creates_listener : String → Bool → Call
    declares consumes : String → Call
    receives : String → Bytes → ℕ → ℕ → Call

  pub step : Client Host env amqp → amqp.World → Call → Client Host env amqp × amqp.World
  step c w (starts v) = (start Host env amqp c v, w)
  step c w (connection_changes b) =
      let (c', _, w') = handle_connection_changed Host env amqp c w b in (c', w')
  step c w (ready_changes b) =
      let (c', _, w') = handle_ready_changed Host env amqp c w b in (c', w')
  step c w (creates_sender name durable) =
      let (c', _, w') = create_queue_sender Host env amqp c w name durable in (c', w')
  step c w (creates_listener name auto) =
      let (c', _, w') = create_queue_listener Host env amqp c w name auto in (c', w')
  step c w (declares name) = ((queue_declared Host env amqp c name).0, w)
  step c w (consumes name) = ((consume_started Host env amqp c name).0, w)
  step c w (receives name body priority tag) =
      let (c', _, w') = message_arrived Host env amqp c w name body priority tag in (c', w')

  pub run : Client Host env amqp → amqp.World → List Call → Client Host env amqp × amqp.World
  run c w [] = (c, w)
  run c w (k ∷ ks) = let (c', w') = step c w k in run c' w' ks

  pub step-IsFiled :
      (c : Client Host env amqp) (w : amqp.World) (k : Call)
      → ClientIsFiled c
      → ClientIsFiled (step c w k).0
  unfolding step start
  step-IsFiled c w (starts x) v = record { senders = v.senders; listeners = v.listeners }
  step-IsFiled c w (connection_changes b) v =
      handle_connection_changed-IsFiled Host env amqp c w b v
  step-IsFiled c w (ready_changes b) v = handle_ready_changed-IsFiled Host env amqp c w b v
  step-IsFiled c w (creates_sender name durable) v =
      create_queue_sender-IsFiled Host env amqp c w name durable v
  step-IsFiled c w (creates_listener name auto) v =
      create_queue_listener-IsFiled Host env amqp c w name auto v
  step-IsFiled c w (declares name) v = queue_declared-IsFiled Host env amqp c name v
  step-IsFiled c w (consumes name) v = consume_started-IsFiled Host env amqp c name v
  step-IsFiled c w (receives name body priority tag) v =
      message_arrived-IsFiled Host env amqp c w name body priority tag v

  run-IsFiled :
      (ks : List Call) (c : Client Host env amqp) (w : amqp.World)
      → ClientIsFiled c
      → ClientIsFiled (run c w ks).0
  unfolding run
  run-IsFiled [] c w v = v
  run-IsFiled (k ∷ ks) c w v = run-IsFiled ks (step c w k).0 (step c w k).1 (step-IsFiled c w k v)

  -- After any calls on a new client, each sender and listener is filed under its own queue's name and
  -- refers to the client's current channel.
  pub run-create-IsFiled :
      (info : ConnectionInfoStruct Host) (w : amqp.World) (ks : List Call)
      → ClientIsFiled (run (create Host env amqp info) w ks).0
  run-create-IsFiled info w ks =
      run-IsFiled ks (create Host env amqp info) w (create-IsFiled Host env amqp info)
