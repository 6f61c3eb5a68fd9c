-- ===== src/System/Sound/Arrived.antt =====
-- The invariant of the program when a message arrives at a listener.
use mathlib.Core.Path.{subst}
use mathlib.Core.Option.{some-injective}
use pipelinerunner.Base.{
  ℕ, ◌≡◌, refl, ap, sym, ◌∙◌, ◌≢◌, inl, inr, true, false, List, [], ◌∷◌, none, some, String,
  string_eq, lookup, insert, nat_eq, lookup-insert_same, lookup-insert_other,
}
use pipelinerunner.Qt.{Qt}
use pipelinerunner.Rabbit.Channel.{Bytes, Amqp}
use pipelinerunner.Rabbit.Connection.Outside.{Env}
use pipelinerunner.Rabbit.Listener.{
  QueueListener, CachedMessage, ListenerSignal, messages_updated, message_received, ready_changed,
  changed,
}
use pipelinerunner.Rabbit.Listener
use pipelinerunner.Rabbit.Client.{ClientSignal}
use pipelinerunner.Rabbit.Client.Signals.{of_queue, message_arrived_cases}
use pipelinerunner.RabbitPlugin.{RabbitService, RabbitClient}
use pipelinerunner.Converter.Outside.{Desktop}
use pipelinerunner.System.Events.{with_client, emitted, perform}
use pipelinerunner.System.Sound.{Prog, Holds, Sound, IsSound}
use pipelinerunner.System.Sound.Kept.{job_in}
use pipelinerunner.System.Sound.Slots.{dispatch-nothing, dispatch-other, dispatch-received}
use pipelinerunner.System.Sound.Called.{unchanged, emits-IsSound}
use pipelinerunner.System.Events.{IsFresh, arrives}
use pipelinerunner.System.Sound.Called.{renewed}
use pipelinerunner.System.Sound.Kept.{Holds-kept, tag_in}
use pipelinerunner.System.Sound.Delivered.{Took, deliver-IsSound}
use pipelinerunner.System.Sound.Consumed.{other_kept}

module _ (qt : Qt) (env : Env) (amqp : Amqp) (desktop : Desktop) (new_uuid : ℕ → qt.Uuid) where
  abbrev P : Type 0
  P = Prog qt env amqp desktop new_uuid

  abbrev R : Type 0
  R = RabbitService qt env amqp

  abbrev C : Type 0
  C = RabbitClient qt env amqp

  added :
      (l : QueueListener) (b : amqp.World) (body : Bytes) (priority k : ℕ)
      → l.is_auto_acknowledge ≡ false
      → Listener.add_message amqp l b body priority k ≡ (
        record l {
          messages = insert k (record { message = body; priority = priority }) l.messages;
        },
        messages_updated ∷ message_received body priority k ∷ [],
        b,
      )
  unfolding Listener.add_message
  added l b body priority k manual = rw manual refl

  -- The listener with the new delivery, which no message in work has.
  added-Took :
      (s t : P) (l : QueueListener) (k : ℕ) (m : CachedMessage)
      → t.jobs ≡ s.jobs
      → t.jobs_delivery_tags ≡ s.jobs_delivery_tags
      → Holds qt env amqp desktop new_uuid s l
      → (l.is_ready ≡ true) × (lookup k l.messages ≡ none)
      → Holds qt env amqp desktop new_uuid t (record l { messages = insert k m l.messages })
        × Took qt env amqp desktop new_uuid t (record l { messages = insert k m l.messages }) k
  added-Took s t l k m jobs tags v (ready, new) =
      let job : (u : qt.Uuid)
          → job_in qt env amqp desktop new_uuid t u ≡ job_in qt env amqp desktop new_uuid s u =
        λ u. ap (lookup ⦃e = qt.uuid_eq⦄ u) jobs in
      let tag : (u : qt.Uuid)
          → tag_in qt env amqp desktop new_uuid t u ≡ tag_in qt env amqp desktop new_uuid s u =
        λ u. ap (lookup ⦃e = qt.uuid_eq⦄ u) tags in
      let apart : (u : qt.Uuid) (j : ℕ) (i : ℕ)
          → job_in qt env amqp desktop new_uuid s u ≡ some i
          → tag_in qt env amqp desktop new_uuid s u ≡ some j
          → j ≢ k =
        λ u j i w f same.
          let (j', f', n) = v.held u (i, w) in
          n (ap (λ z. lookup z l.messages) (some-injective j' j (sym f' ∙ f) ∙ same) ∙ new) in
      (
        Holds-kept qt env amqp desktop new_uuid s t l
            (record l { messages = insert k m l.messages }) v
            (λ u h i. (
              (h, sym (job u) ∙ i),
              tag u,
              λ j f. lookup-insert_other j k m l.messages (apart u j h (sym (job u) ∙ i) f),
            ))
            refl,
        record {
          ready = ready;
          taken = λ gone. cc (lookup-insert_same k k m l.messages refl, gone);
          unused = λ u i f. apart u k i.0 (sym (job u) ∙ i.1) (sym (tag u) ∙ f) refl;
        },
      )

  arrives_here-IsSound :
      (s s' : P) (l : QueueListener) (r : R) (cl : C) (body : Bytes) (priority k : ℕ)
      → Sound qt env amqp desktop new_uuid s l
      → lookup r.config.sub_queue_name cl.listeners ≡ some l
      → (l.is_ready ≡ true) × (lookup k l.messages ≡ none)
      → emitted qt env amqp desktop new_uuid s r (
        record cl {
          listeners =
              insert r.config.sub_queue_name
                (record l {
                  messages = insert k (record { message = body; priority = priority }) l.messages;
                })
                cl.listeners;
        },
        of_queue r.config.sub_queue_name (messages_updated ∷ message_received body priority k ∷ []),
        s.world.broker,
      )
        ≡ some s'
      → IsSound qt env amqp desktop new_uuid s'
  unfolding emitted
  arrives_here-IsSound s s' l r cl body priority k v found fresh e =
      let sub = r.config.sub_queue_name in
      let m : CachedMessage = record { message = body; priority = priority } in
      let l' : QueueListener = record l { messages = insert k m l.messages } in
      let cl' : C = record cl { listeners = insert sub l' cl.listeners } in
      let x = with_client qt env amqp desktop new_uuid s r cl' s.world.broker in
      let (holds, took) = added-Took s x l k m refl refl v.holds fresh in
      deliver-IsSound qt env amqp desktop new_uuid x s' l' body priority k
        (renewed qt env amqp desktop new_uuid s l l' r cl' s.world.broker v
          (lookup-insert_same sub sub l' cl.listeners refl) v.manual holds)
        took (sym (dispatch-received qt env amqp desktop new_uuid sub x body priority k) ∙ e)

  -- The listener with one more message.
  abbrev pub holding : QueueListener → Bytes → ℕ → ℕ → QueueListener
  holding l body priority k = record l {
    messages = insert k (record { message = body; priority = priority }) l.messages;
  }

  -- The client with what a listener of it became, what that emits, and the broker.
  abbrev pub placed :
      C
      → String
      → QueueListener × List ListenerSignal × amqp.World
      → C × List ClientSignal × amqp.World
  placed cl name x =
      (record cl { listeners = insert name x.0 cl.listeners }, of_queue name x.1, x.2)

  -- A delivery at a listener that wants confirmations.
  pub perform_here :
      (cl : C) (b : amqp.World) (l : QueueListener) (name : String) (body : Bytes) (priority k : ℕ)
      → lookup name cl.listeners ≡ some l
      → l.is_auto_acknowledge ≡ false
      → perform qt env amqp desktop new_uuid cl b (arrives name body priority k)
        ≡ placed cl name
            (holding l body priority k, messages_updated ∷ message_received body priority k ∷ [], b)
  unfolding perform
  perform_here cl b l name body priority k found manual =
      elim (message_arrived_cases qt.HostAddress env amqp cl b name body priority k) [
        | inl (n, _) ↦ cc (found, n)
        | inr (m, at_name, q) ↦
            q
            ∙ ap (placed cl name) (
                ap (λ z. Listener.add_message amqp z b body priority k)
                  (some-injective m l (sym at_name ∙ found))
                ∙ added l b body priority k manual)
      ]

  pub arrives-IsSound :
      (s s' : P) (l : QueueListener) (r : R) (cl : C) (name : String) (body : Bytes)
      (priority k : ℕ)
      → Sound qt env amqp desktop new_uuid s l
      → lookup r.config.sub_queue_name cl.listeners ≡ some l
      → IsFresh qt env amqp desktop new_uuid cl name k
      → emitted qt env amqp desktop new_uuid s r
          (perform qt env amqp desktop new_uuid cl s.world.broker (arrives name body priority k))
        ≡ some s'
      → IsSound qt env amqp desktop new_uuid s'
  unfolding perform
  arrives-IsSound s s' l r cl name body priority k v found fresh e =
      let sub = r.config.sub_queue_name in
      let b = s.world.broker in
      let to = emitted qt env amqp desktop new_uuid s r in
      elim (message_arrived_cases qt.HostAddress env amqp cl b name body priority k) [
        | inl (_, q) ↦
            emits-IsSound qt env amqp desktop new_uuid s s' _ l r cl [] b
              (dispatch-nothing qt env amqp desktop new_uuid sub _)
              (unchanged qt env amqp desktop new_uuid s l r cl b v found) (ap to (sym q) ∙ e)
        | inr (m, at_name, q) ↦ elim (string_eq.dec name sub) [
          | yes p ↦
              arrives_here-IsSound s s' l r cl body priority k v found
                (fresh l (ap (λ n. lookup n cl.listeners) p ∙ found))
                (ap to (sym (perform_here cl b l sub body priority k found v.manual))
                  ∙ subst
                      (λ n.
                        to (perform qt env amqp desktop new_uuid cl b (arrives n body priority k))
                        ≡ some s')
                      p e)
          | no n ↦
              emits-IsSound qt env amqp desktop new_uuid s s' _ l r _ _ _
                (dispatch-other qt env amqp desktop new_uuid sub name _ _ n)
                (unchanged qt env amqp desktop new_uuid s l r _ _ v
                  (other_kept qt env amqp desktop new_uuid r cl l _ name found n))
                (ap to (sym q) ∙ e)
        ]
      ]
