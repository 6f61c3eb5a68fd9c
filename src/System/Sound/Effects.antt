-- ===== src/System/Sound/Effects.antt =====
-- What the runner's calls of the other services leave: the sending of a result and a confirmation.
use mathlib.Core.Path.{subst}
use pipelinerunner.Base.{
  ℕ, ◌+◌, ◌≡◌, refl, ap, ◌∙◌, ◌⊎◌, inl, inr, Bool, true, Option, none, some, String, string_eq,
  lookup, lookup-insert, insert, erase, nat_eq, List, is_some, Option-cases, arith,
}
use pipelinerunner.Qt.{Qt}
use pipelinerunner.Rabbit.Channel.{Bytes, Amqp}
use pipelinerunner.Rabbit.Connection.Outside.{Env}
use pipelinerunner.Rabbit.Listener.{QueueListener}
use pipelinerunner.Rabbit.Listener
use pipelinerunner.Rabbit.Client.Declared.{create_sender_listeners}
use pipelinerunner.RabbitPlugin.{RabbitService, RabbitClient}
use pipelinerunner.RabbitPlugin
use pipelinerunner.Converter.Outside.{Desktop}
use pipelinerunner.Runner.{send_result, send_result_message}
use pipelinerunner.System.{
  Outer, system, the_sender, pub_queue_sender, publish, sender_of, listener_of, put_listener,
  confirm_receiving,
}
use pipelinerunner.System.Queues.{sender_given}
use pipelinerunner.System.Sound.{Serves}

-- A confirmation of the tag leaves the listener, or takes the tag's message from it.
abbrev pub Confirmed : ℕ → QueueListener → QueueListener → Type 0
Confirmed tag l l' = (l' ≡ l) ⊎ (l' ≡ record l { messages = erase tag l.messages })

confirm-Confirmed :
    (amqp : Amqp) (l : QueueListener) (b : amqp.World) (tag : ℕ)
    → Confirmed tag l (Listener.confirm_receiving amqp l b tag).0
unfolding Listener.confirm_receiving
confirm-Confirmed amqp l b tag = ground arith

lookup_put :
    (name : String) (l : QueueListener) (d : List (String × QueueListener))
    → lookup name (insert name l d) ≡ some l
lookup_put name l d = ground (arith, lookup-insert name name l d)

module _ (qt : Qt) (env : Env) (amqp : Amqp) (desktop : Desktop) (new_uuid : ℕ → qt.Uuid) where
  abbrev pub Whole : Type 0
  Whole = Outer qt env amqp desktop new_uuid

  -- The same converter, and the listener `l'` for the queue of jobs.
  pub record After (w w' : Whole) (l' : QueueListener) : Type 0 where
    pub serves : Serves qt env amqp desktop new_uuid w' l'
    pub same_converter : w'.converter ≡ w.converter

  listener_found :
      (o : Option (RabbitService qt env amqp)) (r : RabbitService qt env amqp)
      (cl : RabbitClient qt env amqp) (l : QueueListener)
      → o ≡ some r
      → r.client ≡ some cl
      → lookup r.config.sub_queue_name cl.listeners ≡ some l
      → listener_of qt env amqp desktop new_uuid o ≡ some l
  unfolding listener_of
  listener_found o r cl l e k f = rw (e, listener_of, k) f

  pub Serves-listener :
      (w : Whole) (l : QueueListener)
      → Serves qt env amqp desktop new_uuid w l
      → listener_of qt env amqp desktop new_uuid w.rabbit ≡ some l
  Serves-listener w l v = listener_found w.rabbit v.service v.cl l v.rabbit v.client v.found

  put_found :
      (o : Option (RabbitService qt env amqp)) (r : RabbitService qt env amqp)
      (cl : RabbitClient qt env amqp) (l : QueueListener)
      → o ≡ some r
      → r.client ≡ some cl
      → put_listener qt env amqp desktop new_uuid o l
        ≡ some (record r {
          client = some (record cl { listeners = insert r.config.sub_queue_name l cl.listeners });
        })
  unfolding put_listener
  put_found o r cl l e k = rw (e, put_listener, k) refl

  pub confirm-After :
      (w : Whole) (l : QueueListener) (listener tag : ℕ)
      → Serves qt env amqp desktop new_uuid w l
      → (l' : QueueListener) × Confirmed tag l l'
        × After w (confirm_receiving qt env amqp desktop new_uuid w listener tag) l'
  unfolding confirm_receiving
  confirm-After w l listener tag v =
      let l' = (Listener.confirm_receiving amqp l w.broker tag).0 in
      (
        l',
        confirm-Confirmed amqp l w.broker tag,
        rw (listener_found w.rabbit v.service v.cl l v.rabbit v.client v.found, confirm_receiving)
            (record {
              serves = record {
                service = _;
                cl = _;
                rabbit = put_found w.rabbit v.service v.cl l' v.rabbit v.client;
                client = refl;
                found = lookup_put v.service.config.sub_queue_name l' v.cl.listeners;
              };
              same_converter = refl;
            }),
      )

  sender-After :
      (w : Whole) (l : QueueListener)
      → Serves qt env amqp desktop new_uuid w l
      → After w (pub_queue_sender qt env amqp desktop new_uuid w).1 l
  unfolding pub_queue_sender RabbitPlugin.pub_queue_sender
  sender-After w l v =
      let name = v.service.config.pub_queue_name in
      let durable = RabbitPlugin.pub_is_durable_queue in
      rw (v.rabbit, v.client, pub_queue_sender, RabbitPlugin.pub_queue_sender)
        (record {
          serves = record {
            service = _;
            cl = _;
            rabbit = refl;
            client = refl;
            found =
                rw (create_sender_listeners qt.HostAddress env amqp v.cl w.broker name durable)
                  v.found;
          };
          same_converter = refl;
        })

  -- The client's tables do not change with the broker or the counter of identifiers.
  moved :
      (w : Whole) (b : amqp.World) (n : ℕ) (l : QueueListener)
      → Serves qt env amqp desktop new_uuid w l
      → After w (record w { broker = b; uuids_made = n }) l
  moved w b n l v = record {
    serves = record {
      service = v.service;
      cl = v.cl;
      rabbit = v.rabbit;
      client = v.client;
      found = v.found;
    };
    same_converter = refl;
  }

  After-trans :
      {w w' w'' : Whole} {l l' : QueueListener} → After w w' l → After w' w'' l' → After w w'' l'
  After-trans a b = record {
    serves = b.serves;
    same_converter = b.same_converter ∙ a.same_converter;
  }

  publish-After :
      (w : Whole) (l : QueueListener) (sender : ℕ) (body : Bytes) (ttl priority : ℕ) (b : Bool)
      → Serves qt env amqp desktop new_uuid w l
      → After w (publish qt env amqp desktop new_uuid w sender body ttl priority b).1 l
  unfolding publish
  publish-After w l sender body ttl priority b v =
      elim (Option-cases (sender_of qt env amqp desktop new_uuid w.rabbit)) [
        | inl e ↦ rw (e, publish) (moved w w.broker w.uuids_made l v)
        | inr (s, e) ↦ rw (e, publish) (moved w _ w.uuids_made l v)
      ]

  send_message-After :
      (w : Whole) (l : QueueListener) (content : Bytes) (priority : ℕ)
      → Serves qt env amqp desktop new_uuid w l
      → After w (send_result_message qt (system qt env amqp desktop new_uuid) w content priority) l
  unfolding send_result_message
  send_message-After w l content priority v =
      let (w', e, _, _) =
        sender_given qt env amqp desktop new_uuid w v.service v.cl v.rabbit v.client in
      let a : After w w' l = subst (λ x. After w x l) (ap (λ r. r.1) e) (sender-After w l v) in
      let has : is_some w.rabbit ≡ true = rw v.rabbit refl in
      rw (has, e) (After-trans a (publish-After w' l the_sender content 0 priority true a.serves))

  pub send_result-After :
      (w : Whole) (l : QueueListener) (result : Option String)
      → Serves qt env amqp desktop new_uuid w l
      → After w (send_result qt (system qt env amqp desktop new_uuid) w result) l
  unfolding send_result
  send_result-After w l none v = moved w w.broker w.uuids_made l v
  send_result-After w l (some file) v =
      let a = moved w w.broker (w.uuids_made + 1) l v in
      After-trans a (send_message-After _ l _ 0 a.serves)
