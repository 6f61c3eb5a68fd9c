-- ===== src/Rabbit/Client/Signals.antt =====
-- rabbitmqclient.cpp: what the client emits on the calls of the connection and of the library.
use pipelinerunner.Base.{
  ℕ, ◌≡◌, refl, ◌⊎◌, inl, inr, true, false, List, [], ◌∷◌, ◌++◌, map, none, some, String, string_eq,
  lookup, insert, each, Option-cases,
}
use pipelinerunner.Rabbit.Channel.{Bytes, Amqp}
use pipelinerunner.Rabbit.Listener.{QueueListener, ListenerSignal, ready, ready_changed, changed}
use pipelinerunner.Rabbit.Listener
use pipelinerunner.Rabbit.Sender.{SenderSignal}
use pipelinerunner.Rabbit.Connection.Outside.{Env}
use pipelinerunner.Rabbit.Client.{
  Client, ClientSignal, of_sender, of_listener, turn_listener, turn_sender, handle_ready_changed,
  queue_declared, declared, consume_started, started, message_arrived, arrived, put_listener,
}
use pipelinerunner.Rabbit.Client

-- The signals of one listener.
abbrev pub of_queue : String → List ListenerSignal → List ClientSignal
of_queue name said = map of_listener (map (λ x. (name, x)) said)

module _ (Host : Type 0) (env : Env) (amqp : Amqp) where
  abbrev C : Type 0
  C = Client Host env amqp

  pub ready_gained :
      (c : C) (w : amqp.World)
      → ((handle_ready_changed Host env amqp c w true).0 ≡ c)
        × ((handle_ready_changed Host env amqp c w true).1 ≡ Client.ready_changed true ∷ [])
  unfolding handle_ready_changed
  ready_gained c w = (refl, refl)

  pub ready_lost :
      (c : C) (w : amqp.World)
      → handle_ready_changed Host env amqp c w false ≡ (
        record c {
          senders = (each (turn_sender false) c.senders).0;
          listeners = (each (turn_listener false) c.listeners).0;
        },
        map of_sender (each (turn_sender false) c.senders).1
            ++ (map of_listener (each (turn_listener false) c.listeners).1
                ++ Client.ready_changed false ∷ []),
        w,
      )
  unfolding handle_ready_changed
  ready_lost c w = refl

  pub queue_declared-of_sender :
      (c : C) (name : String)
      → (said : List (String × SenderSignal)) × ((queue_declared Host env amqp c name).1
          ≡ map of_sender said)
        × ((queue_declared Host env amqp c name).0.listeners ≡ c.listeners)
  unfolding queue_declared declared
  queue_declared-of_sender c name = elim (Option-cases (lookup name c.senders)) [
    | inl e ↦ rw (e, queue_declared) ([], refl, refl)
    | inr (s, e) ↦ rw (e, queue_declared) (_, refl, refl)
  ]

  pub consume_started_cases :
      (c : C) (name : String)
      → (consume_started Host env amqp c name ≡ (c, []))
        ⊎ ((l : QueueListener) × (lookup name c.listeners ≡ some l)
            × (consume_started Host env amqp c name ≡ (
              record c { listeners = insert name (record l { is_ready = true }) c.listeners },
              of_queue name (changed l.is_ready true (ready_changed true) ++ ready ∷ []),
            )))
  unfolding consume_started started put_listener Listener.set_is_ready
  consume_started_cases c name = elim (Option-cases (lookup name c.listeners)) [
    | inl e ↦ inl (rw (e, consume_started) refl)
    | inr (l, e) ↦ inr (l, e, rw (e, consume_started) refl)
  ]

  pub message_arrived_cases :
      (c : C) (w : amqp.World) (name : String) (body : Bytes) (priority tag : ℕ)
      → ((lookup name c.listeners ≡ none)
          × (message_arrived Host env amqp c w name body priority tag ≡ (c, [], w)))
        ⊎ ((l : QueueListener) × (lookup name c.listeners ≡ some l)
            × (message_arrived Host env amqp c w name body priority tag ≡ (
                let (l', said, w') = Listener.add_message amqp l w body priority tag in
                (record c { listeners = insert name l' c.listeners }, of_queue name said, w'))))
  unfolding message_arrived arrived put_listener
  message_arrived_cases c w name body priority tag = elim (Option-cases (lookup name c.listeners)) [
    | inl e ↦ inl (e, rw (e, message_arrived) refl)
    | inr (l, e) ↦ inr (l, e, rw (e, message_arrived) refl)
  ]
