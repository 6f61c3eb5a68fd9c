-- ===== src/System/Events.antt =====
-- The signals between the services, and the program's events in any order. The connections are those of
-- ListenerHandler's constructor and of `checkJobSenderAndListener`; the event loop handles one event to its
-- end before the next.
use pipelinerunner.Base.{
  ℕ, ◌≡◌, Bool, true, List, [], ◌∷◌, Option, none, some, String, string_eq, lookup, ◌==◌,
  if◌then◌else◌, nat_eq,
}
use pipelinerunner.Qt.{Qt}
use pipelinerunner.Rabbit.Channel.{Bytes, Amqp}
use pipelinerunner.Rabbit.Connection.Outside.{Env}
use pipelinerunner.Rabbit.Connection.{Handler}
use pipelinerunner.Rabbit.Listener.{
  QueueListener, ListenerSignal, ready, ready_changed, message_received, messages_updated,
}
use pipelinerunner.Rabbit.Client.{
  ClientSignal, connection_changed, of_sender, of_listener, handle_connection_changed,
  handle_ready_changed, queue_declared, consume_started, message_arrived,
}
use pipelinerunner.Rabbit.Client
use pipelinerunner.RabbitPlugin.{RabbitService, RabbitClient}
use pipelinerunner.Converter.Outside.{Desktop}
use pipelinerunner.Converter.{Converter}
use pipelinerunner.Converter.History.{Event}
use pipelinerunner.Converter.History
use pipelinerunner.Runner.{
  RunnerService, ListenerHandlerSignal, sig_message_received, sig_connection_broken,
  handle_job_message, handle_job_finished, abort_all_jobs,
}
use pipelinerunner.Runner
use pipelinerunner.System.{system}

-- What the connection, the library and the broker do to the client of the rabbit service.
pub data Call : Type 0 where
  connection_changes ready_changes : Bool → Call
  declares consumes : String → Call
  arrives : String → Bytes → ℕ → ℕ → Call

-- What a ListenerHandler sends out on a signal of its listener.
unfoldable pub forward : ListenerSignal → List ListenerHandlerSignal
forward ready = []
forward (ready_changed b) = Runner.handle_ready_changed b
forward (message_received body priority tag) = sig_message_received body priority tag ∷ []
forward messages_updated = []

module _ (qt : Qt) (env : Env) (amqp : Amqp) (desktop : Desktop) (new_uuid : ℕ → qt.Uuid) where
  abbrev pub Program : Type 0
  Program = RunnerService qt (system qt env amqp desktop new_uuid)

  -- The slots of RunnerService on the signals of its ListenerHandler, one signal after the other.
  unfoldable pub take_signals : Program → List ListenerHandlerSignal → Option Program
  take_signals s [] = some s
  take_signals s (sig_connection_broken ∷ rest) =
      take_signals (abort_all_jobs qt (system qt env amqp desktop new_uuid) s) rest
  take_signals s (sig_message_received body priority tag ∷ rest) =
      elim (handle_job_message qt (system qt env amqp desktop new_uuid) s body priority tag) [
        | none ↦ none
        | some s' ↦ take_signals s' rest
      ]

  -- The slots on a signal of a client, of which the listener of the queue `sub` is connected.
  unfoldable pub take_signal : String → Program → ClientSignal → Option Program
  take_signal sub s (of_listener (name, signal)) =
      if name == sub then take_signals s (forward signal) else some s
  take_signal sub s _ = some s

  unfoldable pub dispatch : String → Program → List ClientSignal → Option Program
  dispatch sub s [] = some s
  dispatch sub s (signal ∷ rest) = elim (take_signal sub s signal) [
    | none ↦ none
    | some s' ↦ dispatch sub s' rest
  ]

  -- What a method of the client gives: the new client, what it emits, and the library's state.
  abbrev pub Emits : Type 0
  Emits = RabbitClient qt env amqp × List ClientSignal × amqp.World

  -- The program with the client and the broker of a call, before the slots run.
  abbrev pub with_client :
      Program → RabbitService qt env amqp → RabbitClient qt env amqp → amqp.World → Program
  with_client s r cl b = record s {
    world = record (s.world) { rabbit = some (record r { client = some cl }); broker = b };
  }

  abbrev pub with_converter : Program → Converter qt desktop → Program
  with_converter s c = record s { world = record (s.world) { converter = some c } }

  -- A call on the client of the rabbit service, with the slots on what it emits.
  unfoldable pub emitted : Program → RabbitService qt env amqp → Emits → Option Program
  emitted s r (cl, signals, b) = dispatch r.config.sub_queue_name (with_client s r cl b) signals

  -- The broker's documented behaviour: a delivery comes to a listener that consumes, with a tag that is
  -- not in use.
  abbrev pub IsFresh : RabbitClient qt env amqp → String → ℕ → Type 0
  IsFresh cl name tag =
      (l : QueueListener)
      → lookup name cl.listeners ≡ some l
      → (l.is_ready ≡ true) × (lookup tag l.messages ≡ none)

  unfoldable pub perform : RabbitClient qt env amqp → amqp.World → Call → Emits
  perform cl b (connection_changes up) = handle_connection_changed qt.HostAddress env amqp cl b up
  perform cl b (ready_changes up) = Client.handle_ready_changed qt.HostAddress env amqp cl b up
  perform cl b (declares name) =
      let (cl', signals) = queue_declared qt.HostAddress env amqp cl name in (cl', signals, b)
  perform cl b (consumes name) =
      let (cl', signals) = consume_started qt.HostAddress env amqp cl name in (cl', signals, b)
  perform cl b (arrives name body priority tag) =
      message_arrived qt.HostAddress env amqp cl b name body priority tag

  abbrev pub IsAllowed : RabbitClient qt env amqp → Call → Type 0
  IsAllowed cl (arrives name body priority tag) = IsFresh cl name tag
  IsAllowed cl _ = Unit

  -- An event of the program: a call on the client, an event of the converter, the slot of `finished` of
  -- some handle, a change of the ConnectionHandler, or one of the broker. In the code that slot runs inside the event
  -- of the converter that ends the job; here it comes at any time, for any handle.
  pub data Step (s : Program) : Program → Type 0 where
    calls :
        {s' : Program} (r : RabbitService qt env amqp) (cl : RabbitClient qt env amqp) (call : Call)
        → s.world.rabbit ≡ some r
        → r.client ≡ some cl
        → IsAllowed cl call
        → emitted s r (perform cl s.world.broker call) ≡ some s'
        → Step s s'
    converts :
        (c c' : Converter qt desktop) (e : Event qt desktop)
        → s.world.converter ≡ some c
        → History.step qt desktop c e ≡ some c'
        → Step s (with_converter s c')
    finishes :
        {s' : Program} (h : ℕ)
        → handle_job_finished qt (system qt env amqp desktop new_uuid) s (some h) ≡ some s'
        → Step s s'
    socket_moves :
        (r : RabbitService qt env amqp) (cl : RabbitClient qt env amqp) (h : Handler env)
        → s.world.rabbit ≡ some r
        → r.client ≡ some cl
        → Step s (with_client s r (record cl { handler = some h }) s.world.broker)
    broker_moves : (b : amqp.World) → Step s (record s { world = record (s.world) { broker = b } })

  pub data Reach (s : Program) : Program → Type 0 where
    here : Reach s s
    later : {t u : Program} → Reach s t → Step t u → Reach s u
