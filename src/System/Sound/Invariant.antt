-- ===== src/System/Sound/Invariant.antt =====
-- The invariant of the program over any interleaving of its events.
use pipelinerunner.Base.{ℕ, ◌≡◌, some, string_eq, lookup, nat_eq}
use pipelinerunner.Qt.{Qt}
use pipelinerunner.Rabbit.Channel.{Amqp}
use pipelinerunner.Rabbit.Connection.Outside.{Env}
use pipelinerunner.Rabbit.Listener.{QueueListener}
use pipelinerunner.RabbitPlugin.{RabbitService, RabbitClient}
use pipelinerunner.Converter.Outside.{Desktop}
use pipelinerunner.System.Events.{emitted, perform, Call}
use pipelinerunner.System.Sound.{Prog, Sound, IsSound}
use pipelinerunner.System.Events.{
  Step, calls, converts, finishes, broker_moves, socket_moves, Reach, here, later, IsAllowed,
  connection_changes, ready_changes, declares, consumes, arrives,
}
use pipelinerunner.System.Sound.Losses.{connection-IsSound, readiness-IsSound}
use pipelinerunner.System.Sound.Called.{unchanged, listener_there}
use pipelinerunner.System.Sound.Kept.{finish-IsSound, converter-IsSound, broker-IsSound}
use pipelinerunner.System.Sound.Consumed.{declares-IsSound, consumes-IsSound}
use pipelinerunner.System.Sound.Arrived.{arrives-IsSound}

module _ (qt : Qt) (env : Env) (amqp : Amqp) (desktop : Desktop) (new_uuid : ℕ → qt.Uuid) where
  abbrev P : Type 0
  P = Prog qt env amqp desktop new_uuid

  abbrev R : Type 0
  R = RabbitService qt env amqp

  abbrev C : Type 0
  C = RabbitClient qt env amqp

  called-IsSound :
      (s s' : P) (l : QueueListener) (r : R) (cl : C) (call : Call)
      → Sound qt env amqp desktop new_uuid s l
      → lookup r.config.sub_queue_name cl.listeners ≡ some l
      → IsAllowed qt env amqp desktop new_uuid cl call
      → emitted qt env amqp desktop new_uuid s r
          (perform qt env amqp desktop new_uuid cl s.world.broker call)
        ≡ some s'
      → IsSound qt env amqp desktop new_uuid s'
  unfolding perform
  called-IsSound s s' l r cl (connection_changes up) v found ok e =
      connection-IsSound qt env amqp desktop new_uuid s s' l r cl up v found e
  called-IsSound s s' l r cl (ready_changes up) v found ok e =
      readiness-IsSound qt env amqp desktop new_uuid s s' l r cl up v found e
  called-IsSound s s' l r cl (declares name) v found ok e =
      declares-IsSound qt env amqp desktop new_uuid s s' l r cl name v found e
  called-IsSound s s' l r cl (consumes name) v found ok e =
      consumes-IsSound qt env amqp desktop new_uuid s s' l r cl name v found e
  called-IsSound s s' l r cl (arrives name body priority k) v found ok e =
      arrives-IsSound qt env amqp desktop new_uuid s s' l r cl name body priority k v found ok e

  Step-IsSound :
      (s s' : P)
      → IsSound qt env amqp desktop new_uuid s
      → Step qt env amqp desktop new_uuid s s'
      → IsSound qt env amqp desktop new_uuid s'
  Step-IsSound s s' (l, v) (calls r cl call rabbit client ok e) =
      called-IsSound s s' l r cl call v
        (listener_there qt env amqp desktop new_uuid s l r cl v rabbit client) ok e
  Step-IsSound s s' (l, v) (converts c c' e there run) =
      (l, converter-IsSound qt env amqp desktop new_uuid s l c c' e v there run)
  Step-IsSound s s' (l, v) (finishes h e) = finish-IsSound qt env amqp desktop new_uuid s s' l h v e
  Step-IsSound s s' (l, v) (socket_moves r cl h rabbit client) = (
    l,
    unchanged qt env amqp desktop new_uuid s l r (record cl { handler = some h }) s.world.broker v
        (listener_there qt env amqp desktop new_uuid s l r cl v rabbit client),
  )
  Step-IsSound s s' (l, v) (broker_moves b) =
      (l, broker-IsSound qt env amqp desktop new_uuid s l b v)

  -- Over any interleaving of the calls on the client, the events of the converter, the ends of handles and
  -- changes of the ConnectionHandler and of the broker, where a delivery comes only to a listener that
  -- consumes and with a tag that it does not hold, from a state in which this holds: the runner has a
  -- listener, which wants confirmations; the converter has the message of every job behind the job's
  -- handle, and its own jobs are filed; the listener holds a delivery for every message that has a job,
  -- under the tag that the runner has for it, and no two such messages share a tag; and while it is
  -- not ready, there is no job.
  pub Reach-IsSound :
      (s s' : P)
      → IsSound qt env amqp desktop new_uuid s
      → Reach qt env amqp desktop new_uuid s s'
      → IsSound qt env amqp desktop new_uuid s'
  Reach-IsSound s s' v here = v
  Reach-IsSound s s' v (later {t} r step) = Step-IsSound t s' (Reach-IsSound s t v r) step
