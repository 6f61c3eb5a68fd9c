-- ===== src/System/Starting.antt =====
-- A new message through all services: from the delivery to the converter's queue.
use pipelinerunner.Base.{
  ℕ, ◌≡◌, refl, false, [], ◌∷◌, ◌++◌, none, some, insert, string_eq, nat_eq, is_some,
}
use pipelinerunner.Base.Results.{ok}
use pipelinerunner.Toolkit.Value.{Fields}
use pipelinerunner.Qt.{Qt}
use pipelinerunner.Common.Message.{Message, MessageInfo, message_info, message_from_json}
use pipelinerunner.Rabbit.Channel.{Bytes, Amqp}
use pipelinerunner.Rabbit.Connection.Outside.{Env}
use pipelinerunner.Converter.Outside.{Desktop}
use pipelinerunner.Converter.{Converter}
use pipelinerunner.Converter
use pipelinerunner.Converter.History.{submit, submit_lem}
use pipelinerunner.Runner.{RunnerService, handle_job_message}
use pipelinerunner.Runner.Tables.{tag_of}
use pipelinerunner.Runner.New.{IsTaken, entered, handle_job_message_new}
use pipelinerunner.System.{system, register_job_message, process_job_message}

module _ (qt : Qt) (env : Env) (amqp : Amqp) (desktop : Desktop) (new_uuid : ℕ → qt.Uuid) where
  abbrev pub Runner : Type 0
  Runner = RunnerService qt (system qt env amqp desktop new_uuid)

  -- A delivery of a message that is new to the runner, while there is a converter.
  pub record IsNew (s : Runner) (c : Converter qt desktop) (info : MessageInfo qt) (m : Message qt)
      : Type 0 where
    pub named : qt.uuid_is_null info.id ≡ false
    pub unknown : is_some (tag_of qt (system qt env amqp desktop new_uuid) s info.id) ≡ false
    pub converts : s.world.converter ≡ some c
    pub read : message_from_json qt info.json ≡ ok m

  new-IsTaken :
      (s : Runner) (c : Converter qt desktop) (info : MessageInfo qt) (m : Message qt)
      → IsNew s c info m
      → IsTaken qt
          (system qt env amqp desktop new_uuid)
          s
          info
          m
          c.next_handle
          (record (s.world) { converter = some (Converter.register_job_message qt desktop c m).0 })
          (record (s.world) { converter = some (submit qt desktop c m) })
  unfolding register_job_message process_job_message Converter.register_job_message
      Converter.process_job_message submit
  new-IsTaken s c info m n = record {
    named = n.named;
    unknown = n.unknown;
    converts = rw n.converts refl;
    read = n.read;
    registered = rw n.converts refl;
    queued = refl;
  }

  -- A message that is new to the runner, from a delivery that can be parsed, while there is a converter:
  -- the converter has the message behind its next handle, at the end of its queue, and the runner records
  -- that handle and the delivery tag for it. The rest of the world, the broker included, stays.
  pub new_message_is_queued :
      (s : Runner) (c : Converter qt desktop) (bytes : Bytes) (priority tag : ℕ)
      (obj : Fields qt.Double) (m : Message qt)
      → qt.parse_object bytes ≡ some obj
      → IsNew s c (message_info qt obj tag priority) m
      → (handle_job_message qt (system qt env amqp desktop new_uuid) s bytes priority tag
          ≡ some (
              entered qt
                (system qt env amqp desktop new_uuid)
                s
                (message_info qt obj tag priority).id
                c.next_handle
                tag
                (record (s.world) { converter = some (submit qt desktop c m) })))
        × ((submit qt desktop c m).received_messages ≡ c.received_messages ++ c.next_handle ∷ [])
        × ((submit qt desktop c m).handles
            ≡ insert c.next_handle
                (record { start_time = none; end_time = none; message = m; result = none })
                c.handles)
  new_message_is_queued s c bytes priority tag obj m p n =
      let (queue, handles, _) = submit_lem qt desktop c m in
      (
        handle_job_message_new qt (system qt env amqp desktop new_uuid) s bytes priority tag obj m
            c.next_handle _ _ p (new-IsTaken s c (message_info qt obj tag priority) m n),
        queue,
        handles,
      )
