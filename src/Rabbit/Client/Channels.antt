-- ===== src/Rabbit/Client/Channels.antt =====
-- rabbitmqclient.cpp: every queue object is filed under its own name and works on the client's channel.
use pipelinerunner.Base.{
  ℕ, ◌≡◌, refl, Bool, true, false, List, [], Option, String, string_eq, lookup, AllEntries,
  AllEntries-insert, AllEntries-lookup, AllEntries-each, arith, Option-cases, inl, inr,
}
use pipelinerunner.Rabbit.Channel.{Bytes, Amqp}
use pipelinerunner.Rabbit.Listener.{QueueListener, ListenerSignal}
use pipelinerunner.Rabbit.Listener
use pipelinerunner.Rabbit.Sender.{QueueSender}
use pipelinerunner.Rabbit.Sender
use pipelinerunner.Rabbit.Connection.Outside.{Env}
use pipelinerunner.Rabbit.Client.{
  ConnectionInfoStruct, Client, create, reset_sender, reset_listener, turn_sender, turn_listener,
  handle_connection_changed, handle_ready_changed, get_queue_sender, get_queue_listener,
  create_queue_sender, create_queue_listener, declared, queue_declared, put_listener, started,
  consume_started, arrived, message_arrived,
}

abbrev pub SenderIsFiled : Option ℕ → String → QueueSender → Type 0
SenderIsFiled channel name s = (s.queue_name ≡ name) × (s.channel ≡ channel)

abbrev pub ListenerIsFiled : Option ℕ → String → QueueListener → Type 0
ListenerIsFiled channel name l = (l.queue_name ≡ name) × (l.channel ≡ channel)

reset_sender-IsFiled :
    (old new : Option ℕ) (k : String) (s : QueueSender)
    → SenderIsFiled old k s
    → SenderIsFiled new k (reset_sender new s).0
unfolding Sender.reset_channel
reset_sender-IsFiled old new k s p = (p.0, refl)

reset_listener-IsFiled :
    (old new : Option ℕ) (k : String) (l : QueueListener)
    → ListenerIsFiled old k l
    → ListenerIsFiled new k (reset_listener new l).0
unfolding Listener.reset_channel
reset_listener-IsFiled old new k l p = (p.0, refl)

module _ {Host : Type 0} {env : Env} {amqp : Amqp} where
  pub record ClientIsFiled (c : Client Host env amqp) : Type 0 where
    pub senders : AllEntries (SenderIsFiled c.channel) c.senders
    pub listeners : AllEntries (ListenerIsFiled c.channel) c.listeners

module _ (Host : Type 0) (env : Env) (amqp : Amqp) where
  pub create-IsFiled :
      (info : ConnectionInfoStruct Host) → ClientIsFiled (create Host env amqp info)
  unfolding create
  create-IsFiled info = record { senders = tt; listeners = tt }

  pub handle_connection_changed-IsFiled :
      (c : Client Host env amqp) (w : amqp.World) (b : Bool)
      → ClientIsFiled c
      → ClientIsFiled (handle_connection_changed Host env amqp c w b).0
  unfolding handle_connection_changed
  handle_connection_changed-IsFiled c w false v = v
  handle_connection_changed-IsFiled c w true v = record {
    senders =
        AllEntries-each (SenderIsFiled c.channel) (SenderIsFiled new) (reset_sender new) c.senders
          (λ k s p. reset_sender-IsFiled c.channel new k s p) v.senders;
    listeners =
        AllEntries-each (ListenerIsFiled c.channel) (ListenerIsFiled new) (reset_listener new)
          c.listeners (λ k l p. reset_listener-IsFiled c.channel new k l p) v.listeners;
  }
    where
      new : Option ℕ
      new = (handle_connection_changed Host env amqp c w true).0.channel

  pub handle_ready_changed-IsFiled :
      (c : Client Host env amqp) (w : amqp.World) (b : Bool)
      → ClientIsFiled c
      → ClientIsFiled (handle_ready_changed Host env amqp c w b).0
  unfolding handle_ready_changed Sender.set_is_ready Listener.set_is_ready
  handle_ready_changed-IsFiled c w true v = v
  handle_ready_changed-IsFiled c w false v = record {
    senders =
        AllEntries-each (SenderIsFiled c.channel) (SenderIsFiled c.channel) (turn_sender false)
          c.senders (λ k s p. p) v.senders;
    listeners =
        AllEntries-each (ListenerIsFiled c.channel) (ListenerIsFiled c.channel)
          (turn_listener false) c.listeners (λ k l p. p) v.listeners;
  }

  pub create_queue_sender-IsFiled :
      (c : Client Host env amqp) (w : amqp.World) (name : String) (durable : Bool)
      → ClientIsFiled c
      → ClientIsFiled (create_queue_sender Host env amqp c w name durable).0
  unfolding create_queue_sender Sender.create
  create_queue_sender-IsFiled c w name durable v =
      elim (Option-cases (get_queue_sender Host env amqp c name)) [
        | inl e ↦
            rw (e, create_queue_sender)
              (record {
                senders =
                    AllEntries-insert (SenderIsFiled c.channel) name _ c.senders
                      (created name durable c.channel) v.senders;
                listeners = v.listeners;
              })
        | inr (s, e) ↦ rw (e, create_queue_sender) v
      ]
    where
      created :
          (name : String) (durable : Bool) (channel : Option ℕ)
          → SenderIsFiled channel name (Sender.create name durable channel)
      created name durable channel = (refl, refl)

  pub create_queue_listener-IsFiled :
      (c : Client Host env amqp) (w : amqp.World) (name : String) (auto : Bool)
      → ClientIsFiled c
      → ClientIsFiled (create_queue_listener Host env amqp c w name auto).0
  unfolding create_queue_listener Listener.create
  create_queue_listener-IsFiled c w name auto v =
      elim (Option-cases (get_queue_listener Host env amqp c name)) [
        | inl e ↦
            rw (e, create_queue_listener)
              (record {
                senders = v.senders;
                listeners =
                    AllEntries-insert (ListenerIsFiled c.channel) name _ c.listeners
                      (created name auto c.channel) v.listeners;
              })
        | inr (l, e) ↦ rw (e, create_queue_listener) v
      ]
    where
      created :
          (name : String) (auto : Bool) (channel : Option ℕ)
          → ListenerIsFiled channel name (Listener.create name auto channel)
      created name auto channel = (refl, refl)

  put_listener-IsFiled :
      (c : Client Host env amqp) (name : String) (l : QueueListener) (said : List ListenerSignal)
      → ClientIsFiled c
      → ListenerIsFiled c.channel name l
      → ClientIsFiled (put_listener Host env amqp c name (l, said)).0
  unfolding put_listener
  put_listener-IsFiled c name l said v p = record {
    senders = v.senders;
    listeners = AllEntries-insert (ListenerIsFiled c.channel) name l c.listeners p v.listeners;
  }

  pub queue_declared-IsFiled :
      (c : Client Host env amqp) (name : String)
      → ClientIsFiled c
      → ClientIsFiled (queue_declared Host env amqp c name).0
  unfolding queue_declared declared Sender.set_is_ready
  queue_declared-IsFiled c name v = elim (Option-cases (lookup name c.senders)) [
    | inl e ↦ rw (e, declared) v
    | inr (s, e) ↦
        rw (e, declared)
          (record {
            senders =
                AllEntries-insert (SenderIsFiled c.channel) name _ c.senders
                  (AllEntries-lookup (SenderIsFiled c.channel) name s c.senders v.senders e)
                  v.senders;
            listeners = v.listeners;
          })
  ]

  pub consume_started-IsFiled :
      (c : Client Host env amqp) (name : String)
      → ClientIsFiled c
      → ClientIsFiled (consume_started Host env amqp c name).0
  unfolding consume_started started put_listener Listener.set_is_ready
  consume_started-IsFiled c name v = elim (Option-cases (lookup name c.listeners)) [
    | inl e ↦ rw (e, started) v
    | inr (l, e) ↦
        rw (e, started)
          (put_listener-IsFiled c name _ [] v
            (AllEntries-lookup (ListenerIsFiled c.channel) name l c.listeners v.listeners e))
  ]

  add_message-ListenerIsFiled :
      (channel : Option ℕ) (name : String) (l : QueueListener) (w : amqp.World) (body : Bytes)
      (priority tag : ℕ)
      → ListenerIsFiled channel name l
      → ListenerIsFiled channel name (Listener.add_message amqp l w body priority tag).0
  unfolding Listener.add_message
  add_message-ListenerIsFiled channel name l w body priority tag p = ground arith

  pub message_arrived-IsFiled :
      (c : Client Host env amqp) (w : amqp.World) (name : String) (body : Bytes) (priority tag : ℕ)
      → ClientIsFiled c
      → ClientIsFiled (message_arrived Host env amqp c w name body priority tag).0
  unfolding message_arrived arrived put_listener
  message_arrived-IsFiled c w name body priority tag v =
      elim (Option-cases (lookup name c.listeners)) [
        | inl e ↦ rw (e, arrived) v
        | inr (l, e) ↦
            rw (e, arrived)
              (put_listener-IsFiled c name _ [] v (
                add_message-ListenerIsFiled c.channel name l w body priority tag
                  (AllEntries-lookup (ListenerIsFiled c.channel) name l c.listeners v.listeners e)))
      ]
