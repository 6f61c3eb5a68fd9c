-- ===== src/System/Returns.antt =====
-- The slots of RunnerService return: none of their calls goes through an empty `_listenerHandler`.
use pipelinerunner.Base.{
  ℕ, ◌≡◌, refl, ap, ◌∙◌, inl, inr, Bool, true, false, List, [], ◌∷◌, Option, none, some, String,
  ◌==◌, if◌then◌else◌, string_eq,
}
use pipelinerunner.Qt.{Qt}
use pipelinerunner.Rabbit.Channel.{Bytes, Amqp}
use pipelinerunner.Rabbit.Connection.Outside.{Env}
use pipelinerunner.Rabbit.Client.{
  ClientSignal, connection_changed, ready_changed, of_sender, of_listener,
}
use pipelinerunner.RabbitPlugin.{RabbitService, RabbitClient}
use pipelinerunner.Converter.Outside.{Desktop}
use pipelinerunner.Runner.{
  ListenerHandlerSignal, sig_message_received, sig_connection_broken, handle_job_message,
  handle_job_finished, abort_all_jobs,
}
use pipelinerunner.Runner.Tables.{handle_job_message_cases, handle_job_finished_cases}
use pipelinerunner.System.{system}
use pipelinerunner.System.Events.{
  forward, take_signals, take_signal, dispatch, with_client, emitted, perform, Call, Reach,
}
use pipelinerunner.System.Sound.{Prog, IsSound}
use pipelinerunner.System.Sound.Invariant.{Reach-IsSound}

module _ (qt : Qt) (env : Env) (amqp : Amqp) (desktop : Desktop) (new_uuid : ℕ → qt.Uuid) where
  abbrev P : Type 0
  P = Prog qt env amqp desktop new_uuid

  -- The slots return, in a state with the property.
  abbrev pub Done : (P → Type 0) → Option P → Type 0
  Done Q o = (s' : P) × (o ≡ some s') × Q s'

  -- If one part returns so, and what follows it does, both do.
  pub chain :
      (Q R : P → Type 0) (o : Option P) (f : P → Option P)
      → Done Q o
      → ((s' : P) → Q s' → Done R (f s'))
      → Done R (elim o [ none ↦ none | some s' ↦ f s' ])
  chain Q R o f (s', e, q) next =
      let (t, r, m) = next s' q in
      (t, ap (λ (x : Option P). elim x [ none ↦ none | some y ↦ f y ]) e ∙ r, m)

  -- The runner has this listener.
  abbrev Listens : ℕ → P → Type 0
  Listens k s = s.listener_handler ≡ some k

  message-Done :
      (k : ℕ) (s : P) (body : Bytes) (priority tag : ℕ)
      → s.listener_handler ≡ some k
      → Done
          (Listens k)
          (handle_job_message qt (system qt env amqp desktop new_uuid) s body priority tag)
  message-Done k s body priority tag l =
      let (s', run, what) =
        handle_job_message_cases qt (system qt env amqp desktop new_uuid) s body priority tag k l in
      (
        s',
        run,
        elim what [
          | inl (t, _, _, _) ↦ t.same_listener ∙ l
          | inr (_, _, _, r) ↦ r.same_listener ∙ l
        ],
      )

  take_signals-Done :
      (k : ℕ) (s : P) (said : List ListenerHandlerSignal)
      → s.listener_handler ≡ some k
      → Done (Listens k) (take_signals qt env amqp desktop new_uuid s said)
  unfolding take_signals abort_all_jobs
  take_signals-Done k s [] l = (s, refl, l)
  take_signals-Done k s (sig_connection_broken ∷ rest) l =
      take_signals-Done k (abort_all_jobs qt (system qt env amqp desktop new_uuid) s) rest l
  take_signals-Done k s (sig_message_received body priority tag ∷ rest) l =
      chain (Listens k) (Listens k) _ (λ s'. take_signals qt env amqp desktop new_uuid s' rest)
        (message-Done k s body priority tag l) (λ s' m. take_signals-Done k s' rest m)

  pub either-Done :
      (Q : P → Type 0) (b : Bool) (x y : Option P)
      → Done Q x
      → Done Q y
      → Done Q (if b then x else y)
  either-Done Q true x y p q = p
  either-Done Q false x y p q = q

  take_signal-Done :
      (k : ℕ) (sub : String) (s : P) (signal : ClientSignal)
      → s.listener_handler ≡ some k
      → Done (Listens k) (take_signal qt env amqp desktop new_uuid sub s signal)
  unfolding take_signal
  take_signal-Done k sub s (connection_changed up) l = (s, refl, l)
  take_signal-Done k sub s (ready_changed up) l = (s, refl, l)
  take_signal-Done k sub s (of_sender x) l = (s, refl, l)
  take_signal-Done k sub s (of_listener (name, signal)) l =
      either-Done (Listens k) (name == sub) _ _ (take_signals-Done k s (forward signal) l)
        (s, refl, l)

  dispatch-Done :
      (k : ℕ) (sub : String) (s : P) (said : List ClientSignal)
      → s.listener_handler ≡ some k
      → Done (Listens k) (dispatch qt env amqp desktop new_uuid sub s said)
  unfolding dispatch
  dispatch-Done k sub s [] l = (s, refl, l)
  dispatch-Done k sub s (x ∷ rest) l =
      chain (Listens k) (Listens k) _ (λ s'. dispatch qt env amqp desktop new_uuid sub s' rest)
        (take_signal-Done k sub s x l) (λ s' m. dispatch-Done k sub s' rest m)

  -- In any state that the program comes to from one with the invariant, every call on a client, as that of
  -- the rabbit service, returns, with all the slots that its signals run, and so does the slot of
  -- `finished`, for any handle.
  pub slots_return :
      (s t : P) (r : RabbitService qt env amqp) (cl : RabbitClient qt env amqp) (call : Call)
      (h : ℕ)
      → IsSound qt env amqp desktop new_uuid s
      → Reach qt env amqp desktop new_uuid s t
      → ((t' : P) × (emitted qt env amqp desktop new_uuid t r
              (perform qt env amqp desktop new_uuid cl t.world.broker call)
            ≡ some t'))
        × ((t' : P) × (handle_job_finished qt (system qt env amqp desktop new_uuid) t (some h)
              ≡ some t'))
  unfolding emitted
  slots_return s t r cl call h sound reach =
      let (_, v) = Reach-IsSound qt env amqp desktop new_uuid s t sound reach in
      let (t', run, _) =
        dispatch-Done v.listener r.config.sub_queue_name
          (with_client qt env amqp desktop new_uuid t r _ _)
          (perform qt env amqp desktop new_uuid cl t.world.broker call).1 v.handler in
      let (t'', ended, _) =
        handle_job_finished_cases qt (system qt env amqp desktop new_uuid) t h v.listener
          v.handler in
      ((t', run), (t'', ended))
