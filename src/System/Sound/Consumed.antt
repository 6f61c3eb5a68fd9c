-- ===== src/System/Sound/Consumed.antt =====
-- The invariant of the program when a queue is declared and when a listener begins to consume.
use mathlib.Core.Option.{some-injective}
use pipelinerunner.Base.{
  ℕ, ◌≡◌, refl, ap, sym, ◌∙◌, ◌≢◌, inl, inr, true, List, [], ◌∷◌, ◌++◌, map, some, String,
  string_eq, lookup, insert, nat_eq, lookup-insert_same, lookup-insert_other,
}
use pipelinerunner.Qt.{Qt}
use pipelinerunner.Rabbit.Channel.{Amqp}
use pipelinerunner.Rabbit.Connection.Outside.{Env}
use pipelinerunner.Rabbit.Listener.{QueueListener}
use pipelinerunner.Rabbit.Client.{
  ClientSignal, connection_changed, of_sender, of_listener, reset_listener, turn_listener,
  handle_connection_changed,
}
use pipelinerunner.Rabbit.Client
use pipelinerunner.Rabbit.Client.Signals.{queue_declared-of_sender, consume_started_cases}
use pipelinerunner.RabbitPlugin.{RabbitService, RabbitClient}
use pipelinerunner.Converter.Outside.{Desktop}
use pipelinerunner.System.Events.{with_client, emitted, perform}
use pipelinerunner.System.Sound.{Prog, Holds, Sound, IsSound}
use pipelinerunner.System.Sound.Kept.{job_in}
use pipelinerunner.System.Sound.Slots.{dispatch-senders, dispatch-nothing, dispatch-ready}
use pipelinerunner.System.Sound.Called.{unchanged, emits-IsSound}
use pipelinerunner.System.Events.{declares, consumes}
use pipelinerunner.System.Sound.Called.{renewed}
use pipelinerunner.System.Sound.Kept.{tag_in}

append_nil {ℓ} : {A : Type ℓ} (xs : List A) → xs ++ [] ≡ xs
append_nil [] = refl
append_nil (x ∷ xs) = ap (λ ys. x ∷ ys) (append_nil xs)

module _ (qt : Qt) (env : Env) (amqp : Amqp) (desktop : Desktop) (new_uuid : ℕ → qt.Uuid) where
  abbrev P : Type 0
  P = Prog qt env amqp desktop new_uuid

  abbrev R : Type 0
  R = RabbitService qt env amqp

  abbrev C : Type 0
  C = RabbitClient qt env amqp

  -- The listener of the queue of jobs, in the client with a new listener for the queue `name`.
  pub other_kept :
      (r : R) (cl : C) (l m : QueueListener) (name : String)
      → lookup r.config.sub_queue_name cl.listeners ≡ some l
      → name ≢ r.config.sub_queue_name
      → lookup r.config.sub_queue_name (insert name m cl.listeners) ≡ some l
  other_kept r cl l m name found n =
      lookup-insert_other r.config.sub_queue_name name m cl.listeners (λ e. n (sym e)) ∙ found

  pub declares-IsSound :
      (s s' : P) (l : QueueListener) (r : R) (cl : C) (name : String)
      → Sound qt env amqp desktop new_uuid s l
      → lookup r.config.sub_queue_name cl.listeners ≡ some l
      → emitted qt env amqp desktop new_uuid s r
          (perform qt env amqp desktop new_uuid cl s.world.broker (declares name))
        ≡ some s'
      → IsSound qt env amqp desktop new_uuid s'
  unfolding perform
  declares-IsSound s s' l r cl name v found e =
      let sub = r.config.sub_queue_name in
      let (said, all, same) = queue_declared-of_sender qt.HostAddress env amqp cl name in
      let (cl', signals) = Client.queue_declared qt.HostAddress env amqp cl name in
      let x = with_client qt env amqp desktop new_uuid s r cl' s.world.broker in
      emits-IsSound qt env amqp desktop new_uuid s s' x l r cl' (map of_sender said ++ [])
        s.world.broker
        (dispatch-senders qt env amqp desktop new_uuid sub x said []
          ∙ dispatch-nothing qt env amqp desktop new_uuid sub x)
        (unchanged qt env amqp desktop new_uuid s l r cl' s.world.broker v
          (ap (lookup sub) same ∙ found))
        (ap (λ z. emitted qt env amqp desktop new_uuid s r (cl', z, s.world.broker))
            (append_nil (map of_sender said) ∙ sym all)
          ∙ e)

  -- A listener that consumes from now on holds what it held.
  ready-Holds :
      (s t : P) (l : QueueListener)
      → t.jobs ≡ s.jobs
      → t.jobs_delivery_tags ≡ s.jobs_delivery_tags
      → Holds qt env amqp desktop new_uuid s l
      → Holds qt env amqp desktop new_uuid t (record l { is_ready = true })
  ready-Holds s t l jobs tags v =
      let job : (u : qt.Uuid)
          → job_in qt env amqp desktop new_uuid t u ≡ job_in qt env amqp desktop new_uuid s u =
        λ u. ap (lookup ⦃e = qt.uuid_eq⦄ u) jobs in
      let tag : (u : qt.Uuid)
          → tag_in qt env amqp desktop new_uuid t u ≡ tag_in qt env amqp desktop new_uuid s u =
        λ u. ap (lookup ⦃e = qt.uuid_eq⦄ u) tags in
      record {
        held = λ u i. let (k, e, n) = v.held u (i.0, sym (job u) ∙ i.1) in (k, tag u ∙ e, n);
        distinct = λ u w k i j e f.
            v.distinct u w k (i.0, sym (job u) ∙ i.1) (j.0, sym (job w) ∙ j.1) (sym (tag u) ∙ e)
              (sym (tag w) ∙ f);
        works_ready = λ e u. cc e;
      }

  pub consumes-IsSound :
      (s s' : P) (l : QueueListener) (r : R) (cl : C) (name : String)
      → Sound qt env amqp desktop new_uuid s l
      → lookup r.config.sub_queue_name cl.listeners ≡ some l
      → emitted qt env amqp desktop new_uuid s r
          (perform qt env amqp desktop new_uuid cl s.world.broker (consumes name))
        ≡ some s'
      → IsSound qt env amqp desktop new_uuid s'
  unfolding perform
  consumes-IsSound s s' l r cl name v found e =
      let sub = r.config.sub_queue_name in
      let b = s.world.broker in
      elim (consume_started_cases qt.HostAddress env amqp cl name) [
        | inl q ↦
            emits-IsSound qt env amqp desktop new_uuid s s' _ l r cl [] b
              (dispatch-nothing qt env amqp desktop new_uuid sub _)
              (unchanged qt env amqp desktop new_uuid s l r cl b v found)
              (ap (λ z. emitted qt env amqp desktop new_uuid s r (z.0, z.1, b)) (sym q) ∙ e)
        | inr (m, at_name, q) ↦
            (let e' =
                ap (λ z. emitted qt env amqp desktop new_uuid s r (z.0, z.1, b)) (sym q) ∙ e in
              let run =
                dispatch-ready qt env amqp desktop new_uuid sub name
                  (with_client qt env amqp desktop new_uuid s r
                    (record cl {
                      listeners = insert name (record m { is_ready = true }) cl.listeners;
                    })
                    b)
                  m.is_ready in
              elim (string_eq.dec name sub) [
                | yes p ↦
                    (let same : m ≡ l =
                        some-injective m l
                          (sym at_name ∙ ap (λ n. lookup n cl.listeners) p ∙ found) in
                      emits-IsSound qt env amqp desktop new_uuid s s' _
                        (record l { is_ready = true }) r _ _ b run
                        (renewed qt env amqp desktop new_uuid s l (record l { is_ready = true }) r _
                          b v
                          (lookup-insert_same sub name (record m { is_ready = true }) cl.listeners
                              (sym p)
                            ∙ ap (λ (k : QueueListener). some (record k { is_ready = true })) same)
                          v.manual (ready-Holds s _ l refl refl v.holds))
                        e')
                | no n ↦
                    emits-IsSound qt env amqp desktop new_uuid s s' _ l r _ _ b run
                      (unchanged qt env amqp desktop new_uuid s l r _ b v
                        (other_kept r cl l (record m { is_ready = true }) name found n))
                      e'
              ])
      ]
