-- ===== src/Rabbit/Client/Declared.antt =====
-- rabbitmqclient.cpp: a sender once its queue is declared, and a listener once it is created.
use pipelinerunner.Base.{
  ◌≡◌, refl, ap, ◌∙◌, if◌then◌else◌, Bool, true, false, Option, none, some, String, string_eq,
  lookup, Dict, Option-cases, inl, inr, lookup-insert_same, lookup-nil, is_some, [],
}
use pipelinerunner.Rabbit.Channel.{Amqp}
use pipelinerunner.Rabbit.Listener
use pipelinerunner.Rabbit.Sender.{QueueSender}
use pipelinerunner.Rabbit.Sender
use pipelinerunner.Rabbit.Connection.Outside.{Env}
use pipelinerunner.Rabbit.Client.{
  Client, ConnectionInfoStruct, create, start, create_queue_listener, get_queue_listener, declared,
  queue_declared, create_queue_sender, get_queue_sender,
}

abbrev pub sender_ready : Option QueueSender → Bool
sender_ready none = false
sender_ready (some s) = s.is_ready

module _ (Host : Type 0) (env : Env) (amqp : Amqp) where
  declared_ready :
      (c : Client Host env amqp) (name : String) (s : QueueSender)
      → is_some c.handler ≡ true
      → lookup name c.senders ≡ some s
      → sender_ready (get_queue_sender Host env amqp (queue_declared Host env amqp c name).0 name)
        ≡ true
  unfolding queue_declared declared get_queue_sender Sender.set_is_ready
  declared_ready c name s started e =
      rw
        (
          e,
          queue_declared,
          started,
          lookup-insert_same name name (record s { is_ready = true }) c.senders refl,
        )
        refl

  created_found :
      (c : Client Host env amqp) (w : amqp.World) (name : String) (durable : Bool)
      → is_some c.handler ≡ true
      → let c' = (create_queue_sender Host env amqp c w name durable).0 in
        (is_some c'.handler ≡ true) × (s : QueueSender) × (lookup name c'.senders ≡ some s)
  unfolding create_queue_sender get_queue_sender
  created_found c w name durable started = elim (Option-cases (lookup name c.senders)) [
    | inl e ↦
        rw (started, e, create_queue_sender)
          (let s = Sender.create name durable c.channel in
            (started, s, lookup-insert_same name name s c.senders refl))
    | inr (s, e) ↦ rw (started, e, create_queue_sender) (started, s, e)
  ]

  pub ready_after_declared :
      (c : Client Host env amqp) (w : amqp.World) (name : String) (durable : Bool)
      → is_some c.handler ≡ true
      → sender_ready (
          get_queue_sender Host env amqp
            (queue_declared Host env amqp
              (create_queue_sender Host env amqp c w name durable).0
              name).0
            name)
        ≡ true
  ready_after_declared c w name durable started =
      let (still, s, e) = created_found c w name durable started in
      declared_ready (create_queue_sender Host env amqp c w name durable).0 name s still e

  -- A sender that is there is given again.
  pub create_sender_of_found :
      (c : Client Host env amqp) (w : amqp.World) (name : String) (durable : Bool) (s : QueueSender)
      → is_some c.handler ≡ true
      → lookup name c.senders ≡ some s
      → create_queue_sender Host env amqp c w name durable ≡ (c, s, w)
  unfolding create_queue_sender get_queue_sender
  create_sender_of_found c w name durable s started e = rw (started, e, create_queue_sender) refl

  -- A sender is created beside the listeners.
  pub create_sender_listeners :
      (c : Client Host env amqp) (w : amqp.World) (name : String) (durable : Bool)
      → (create_queue_sender Host env amqp c w name durable).0.listeners ≡ c.listeners
  unfolding create_queue_sender
  create_sender_listeners c w name durable =
      elim (Option-cases (get_queue_sender Host env amqp c name)) [
        | inl e ↦ rw (e, create_queue_sender) refl
        | inr (s, e) ↦ rw (e, create_queue_sender) refl
      ]

  get_of_empty :
      (listeners : Dict String Listener.QueueListener) (name : String) (started : Bool)
      → listeners ≡ []
      → ◌≡◌ {A = Option Listener.QueueListener}
          (if started then lookup name listeners else none)
          none
  get_of_empty listeners name true e = ap (lookup name) e ∙ lookup-nil name
  get_of_empty listeners name false e = refl

  -- A listener that is created where there was none is the one found.
  pub create_listener_found :
      (c : Client Host env amqp) (w : amqp.World) (name : String) (auto : Bool)
      → c.listeners ≡ []
      → lookup name (create_queue_listener Host env amqp c w name auto).0.listeners
        ≡ some (Listener.create name auto c.channel)
  unfolding create_queue_listener get_queue_listener
  create_listener_found c w name auto e =
      rw (get_of_empty c.listeners name (is_some c.handler) e, create_queue_listener)
        (lookup-insert_same name name (Listener.create name auto c.channel) c.listeners refl)

  -- A client that was just made and started has no listener.
  pub started_listeners :
      (info : ConnectionInfoStruct Host) (w : env.World)
      → (start Host env amqp (create Host env amqp info) w).listeners ≡ []
  unfolding create start
  started_listeners info w = refl
