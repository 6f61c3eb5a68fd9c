-- ===== src/System/Calm.antt =====
-- The calls on the client that break nothing off.
use mathlib.Core.Path.{subst}
use pipelinerunner.Base.{
  ℕ, ◌≡◌, refl, ap, sym, ◌⊎◌, inl, inr, Bool, true, false, List, [], ◌∷◌, ◌++◌, map, String,
  string_eq, Bool-cases, nat_eq,
}
use pipelinerunner.Qt.{Qt}
use pipelinerunner.Rabbit.Channel.{Bytes, Amqp}
use pipelinerunner.Rabbit.Connection.Outside.{Env}
use pipelinerunner.Rabbit.Listener
use pipelinerunner.Rabbit.Client.{handle_connection_changed}
use pipelinerunner.Rabbit.Client.Signals.{
  of_queue, ready_gained, queue_declared-of_sender, consume_started_cases, message_arrived_cases,
}
use pipelinerunner.RabbitPlugin.{RabbitClient}
use pipelinerunner.Converter.Outside.{Desktop}
use pipelinerunner.System.Events.{
  Call, connection_changes, ready_changes, declares, consumes, arrives, perform,
}
use pipelinerunner.Rabbit.Sender.{SenderSignal}
use pipelinerunner.Rabbit.Listener.{QueueListener, ListenerSignal, ready, ready_changed, changed}
use pipelinerunner.Rabbit.Client.{ClientSignal, of_sender, of_listener, handle_connection_changed}

-- A signal that breaks nothing off.
abbrev pub IsCalm : ClientSignal → Type 0
IsCalm (of_listener (name, ready_changed up)) = up ≡ true
IsCalm signal = Unit

abbrev pub AllCalm : List ClientSignal → Type 0
AllCalm [] = Unit
AllCalm (x ∷ xs) = IsCalm x × AllCalm xs

pub senders-AllCalm : (said : List (String × SenderSignal)) → AllCalm (map of_sender said)
senders-AllCalm [] = tt
senders-AllCalm (x ∷ xs) = (tt, senders-AllCalm xs)

-- A new connection, or the loss of the readiness of the old one.
abbrev pub IsLoss : Call → Type 0
IsLoss call = (call ≡ connection_changes true) ⊎ (call ≡ ready_changes false)

ready-AllCalm :
    (name : String) (was : Bool)
    → AllCalm (of_queue name (changed was true (ready_changed true) ++ ready ∷ []))
ready-AllCalm name true = (tt, tt)
ready-AllCalm name false = (refl, (tt, tt))

module _ (qt : Qt) (env : Env) (amqp : Amqp) (desktop : Desktop) (new_uuid : ℕ → qt.Uuid) where
  added-AllCalm :
      (name : String) (l : QueueListener) (b : amqp.World) (body : Bytes) (priority k : ℕ)
      → AllCalm (of_queue name (Listener.add_message amqp l b body priority k).1)
  unfolding Listener.add_message
  added-AllCalm name l b body priority k = elim (Bool-cases l.is_auto_acknowledge) [
    | inl e ↦ rw e (tt, tt)
    | inr e ↦ rw e (tt, (tt, tt))
  ]

  -- Any other call emits nothing that breaks something off.
  pub perform-AllCalm :
      (cl : RabbitClient qt env amqp) (b : amqp.World) (call : Call)
      → IsLoss call ⊎ AllCalm (perform qt env amqp desktop new_uuid cl b call).1
  unfolding perform handle_connection_changed
  perform-AllCalm cl b (connection_changes true) = inl (inl refl)
  perform-AllCalm cl b (connection_changes false) = inr (tt, tt)
  perform-AllCalm cl b (ready_changes false) = inl (inr refl)
  perform-AllCalm cl b (ready_changes true) =
      inr (subst AllCalm (sym (ready_gained qt.HostAddress env amqp cl b).1) (tt, tt))
  perform-AllCalm cl b (declares name) =
      let (said, all, _) = queue_declared-of_sender qt.HostAddress env amqp cl name in
      inr (subst AllCalm (sym all) (senders-AllCalm said))
  perform-AllCalm cl b (consumes name) =
      elim (consume_started_cases qt.HostAddress env amqp cl name) [
        | inl e ↦ inr (subst AllCalm (sym (ap (λ x. x.1) e)) tt)
        | inr (l, _, e) ↦
            inr (subst AllCalm (sym (ap (λ x. x.1) e)) (ready-AllCalm name l.is_ready))
      ]
  perform-AllCalm cl b (arrives name body priority k) =
      elim (message_arrived_cases qt.HostAddress env amqp cl b name body priority k) [
        | inl (_, e) ↦ inr (subst AllCalm (sym (ap (λ x. x.1) e)) tt)
        | inr (l, _, e) ↦
            inr (subst AllCalm (sym (ap (λ x. x.1) e)) (added-AllCalm name l b body priority k))
      ]
