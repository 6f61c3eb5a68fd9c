-- ===== src/Rabbit/Client/Stale.antt =====
-- rabbitmqclient.cpp: what a new connection, a lost one and a second `createQueueListener` do.
use mathlib.Core.Option
use mathlib.Core.Path.{subst}
use mathlib.Core.Option.{some-injective}
use pipelinerunner.Base.{
  ℕ, ◌≡◌, refl, sym, ◌∙◌, ◌⊎◌, Bool, true, false, [], Option, none, some, String, string_eq, lookup,
  lookup-insert, lookup-each, arith, inl, inr, is_some,
}
use pipelinerunner.Rabbit.Channel.{Amqp}
use pipelinerunner.Rabbit.Listener.{QueueListener}
use pipelinerunner.Rabbit.Listener
use pipelinerunner.Rabbit.Connection.Outside.{Env}
use pipelinerunner.Rabbit.Client.{
  Client, reset_listener, turn_listener, handle_connection_changed, handle_ready_changed,
  get_queue_listener, create_queue_listener,
}

-- A listener that confirms nothing: it holds no message, and is not ready.
pub record IsReset (l : QueueListener) : Type 0 where
  pub empty : l.messages ≡ []
  pub unready : l.is_ready ≡ false

reset_listener-IsReset :
    (channel : Option ℕ) (l : QueueListener) → IsReset (reset_listener channel l).0
unfolding Listener.reset_channel
reset_listener-IsReset channel l = record { empty = refl; unready = refl }

turn_listener-IsReset : (l : QueueListener) → IsReset (turn_listener false l).0
unfolding Listener.set_is_ready
turn_listener-IsReset l = record { empty = refl; unready = refl }

IsReset-of_map :
    (f : QueueListener → QueueListener) (o : Option QueueListener) (l : QueueListener)
    → ((m : QueueListener) → IsReset (f m))
    → Option.map f o ≡ some l
    → IsReset l
IsReset-of_map f none l reset e = cc
IsReset-of_map f (some m) l reset e = subst IsReset (some-injective (f m) l e) (reset m)

confirm_of_IsReset :
    (amqp : Amqp) (l : QueueListener) (w : amqp.World) (tag : ℕ)
    → IsReset l
    → Listener.confirm_receiving amqp l w tag ≡ (l, false, w)
unfolding Listener.confirm_receiving
confirm_of_IsReset amqp l w tag r = ground arith

module _ (Host : Type 0) (env : Env) (amqp : Amqp) where
  create_of_found :
      (c : Client Host env amqp) (w : amqp.World) (name : String) (auto : Bool) (l : QueueListener)
      → get_queue_listener Host env amqp c name ≡ some l
      → create_queue_listener Host env amqp c w name auto ≡ (c, l, w)
  unfolding create_queue_listener
  create_of_found c w name auto l e = rw (e, create_queue_listener)

  get-create :
      (c : Client Host env amqp) (w : amqp.World) (name : String) (auto : Bool)
      → is_some c.handler ≡ true
      → get_queue_listener Host env amqp (create_queue_listener Host env amqp c w name auto).0 name
        ≡ some (create_queue_listener Host env amqp c w name auto).1
  unfolding create_queue_listener get_queue_listener
  get-create c w name auto started =
      ground (arith, lookup-insert name name (Listener.create name auto c.channel) c.listeners)

module _ (Host : Type 0) (env : Env) (amqp : Amqp) (c : Client Host env amqp) (w : amqp.World) where
  -- When the connection is made anew, or readiness is lost, every listener that is there forgets its
  -- messages, and no delivery tag is acknowledged by it as it is then: nothing is sent.
  pub stale_tags :
      (name : String) (l : QueueListener) (w' : amqp.World) (tag : ℕ)
      → (lookup name (handle_connection_changed Host env amqp c w true).0.listeners ≡ some l)
        ⊎ (lookup name (handle_ready_changed Host env amqp c w false).0.listeners ≡ some l)
      → (l.messages ≡ []) × (Listener.confirm_receiving amqp l w' tag ≡ (l, false, w'))
  unfolding handle_connection_changed handle_ready_changed
  stale_tags name l w' tag (inl e) =
      let r =
        IsReset-of_map _ (lookup name c.listeners) l (reset_listener-IsReset _)
          (sym (lookup-each (reset_listener _) name c.listeners) ∙ e) in
      (r.empty, confirm_of_IsReset amqp l w' tag r)
  stale_tags name l w' tag (inr e) =
      let r =
        IsReset-of_map _ (lookup name c.listeners) l turn_listener-IsReset
          (sym (lookup-each (turn_listener false) name c.listeners) ∙ e) in
      (r.empty, confirm_of_IsReset amqp l w' tag r)

  -- Once the client is started, asking for a listener of the same queue again gives the one that is
  -- there, whatever is asked for, and changes nothing.
  pub create_queue_listener_twice :
      (name : String) (auto auto' : Bool) (w' : amqp.World)
      → is_some c.handler ≡ true
      → let (c', l, _) = create_queue_listener Host env amqp c w name auto in
        create_queue_listener Host env amqp c' w' name auto' ≡ (c', l, w')
  create_queue_listener_twice name auto auto' w' started =
      create_of_found Host env amqp (create_queue_listener Host env amqp c w name auto).0 w' name
        auto' (create_queue_listener Host env amqp c w name auto).1
        (get-create Host env amqp c w name auto started)
