-- ===== src/Runner.antt =====
-- src/PipelineRunnerPlugins/RunnerPlugin/Service: runnerservice.h, runnerservice.cpp, listenerhandler.h
-- and listenerhandler.cpp. `none` is undefined behaviour, a call through an empty unique_ptr.
pub mod Outside
pub mod Tables
pub mod New
pub mod Starting
pub mod Orphans
use pipelinerunner.Base.{
  ℕ, Bool, true, false, not, List, [], ◌∷◌, map, Option, none, some, String, Dict, lookup, insert,
  erase, is_some, if◌then◌else◌,
}
use pipelinerunner.Base.Results.{Result, ok, err}
use pipelinerunner.Toolkit.Value.{Fields, Error}
use pipelinerunner.Qt.{Qt}
use pipelinerunner.Common.Message.{
  Message, MessageInfo, message_info, message_from_json, message_to_byte_array,
}
use pipelinerunner.Rabbit.Channel.{Bytes}
use pipelinerunner.Rabbit.Listener.{CachedMessage}
use Outside.{Services}

-- A listener handler is the queue that it listens to. What it sends out: the signals.
pub data ListenerHandlerSignal : Type 0 where
  sig_message_received : Bytes → ℕ → ℕ → ListenerHandlerSignal
  sig_connection_broken : ListenerHandlerSignal

-- `initProcessFromBuffer`: the parameters of the signal are the body, the priority (a uint8_t) and the
-- delivery tag; the arguments are the body, the key and the priority.
unfoldable pub init_process_from_buffer : Dict ℕ CachedMessage → List ListenerHandlerSignal
init_process_from_buffer messages =
    map (λ entry. sig_message_received entry.1.message entry.0 entry.1.priority) messages

-- `ListenerHandler::handleReadyChanged`
unfoldable pub handle_ready_changed : Bool → List ListenerHandlerSignal
handle_ready_changed ready = if not ready then sig_connection_broken ∷ [] else []

module _ (qt : Qt) (services : Services qt) where
  open qt use {Uuid, Double}
  open services use {World}

  pub record RunnerService : Type 0 where
    pub listener_handler : Option ℕ
    pub jobs : Dict Uuid ℕ
    pub jobs_delivery_tags : Dict Uuid ℕ
    pub world : World

  -- The constructor of ListenerHandler: the signals that it emits; `none` is an exception.
  unfoldable pub create_listener_handler : World → Option ℕ → Option (List ListenerHandlerSignal)
  create_listener_handler w none = none
  create_listener_handler w (some listener) =
      some (init_process_from_buffer (services.messages w listener))

  -- `confirmMessageTag`, through `_listenerHandler`.
  unfoldable pub confirm_message_tag : RunnerService → ℕ → Option RunnerService
  confirm_message_tag s tag = elim s.listener_handler [
    | none ↦ none
    | some l ↦ some (record s { world = services.confirm_receiving s.world l tag })
  ]

  -- The `try` block of `process`, with the handle registered.
  begin_job : RunnerService → Uuid → ℕ → Option ℕ → RunnerService × Bool
  begin_job s id tag none = (s, false)
  begin_job s id tag (some handler) =
      let (started, w) =
        services.process_job_message (services.connect_finished s.world handler) handler in
      if started
      then (
        record s {
          jobs_delivery_tags = insert ⦃e = qt.uuid_eq⦄ id tag s.jobs_delivery_tags;
          jobs = insert ⦃e = qt.uuid_eq⦄ id handler s.jobs;
          world = w;
        },
        true,
      )
      else (record s { world = w }, false)

  register_job : RunnerService → Uuid → ℕ → Result Error (Message qt) → RunnerService × Bool
  register_job s id tag (err e) = (s, false)
  register_job s id tag (ok m) =
      let (handler, w) = services.register_job_message s.world m in
      begin_job (record s { world = w }) id tag handler

  process_info : RunnerService → MessageInfo qt → RunnerService × Bool
  process_info s info =
      if qt.uuid_is_null info.id
      then (s, false)
      else if is_some (lookup ⦃e = qt.uuid_eq⦄ info.id s.jobs_delivery_tags)
      then (
        record s {
          jobs_delivery_tags = insert ⦃e = qt.uuid_eq⦄ info.id info.tag s.jobs_delivery_tags;
        },
        true,
      )
      else if not (services.has_converter s.world)
      then (s, false)
      else register_job s info.id info.tag (message_from_json qt info.json)

  process_parsed : RunnerService → Option (Fields Double) → ℕ → ℕ → RunnerService × Bool
  process_parsed s none priority tag = (s, false)
  process_parsed s (some obj) priority tag = process_info s (message_info qt obj tag priority)

  -- The function `process` of `handleJobMessage`.
  unfoldable pub process : RunnerService → Bytes → ℕ → ℕ → RunnerService × Bool
  unfolding process_parsed process_info register_job begin_job
  process s message priority tag = process_parsed s (qt.parse_object message) priority tag

  -- `handleJobMessage`
  unfoldable pub handle_job_message : RunnerService → Bytes → ℕ → ℕ → Option RunnerService
  handle_job_message s message priority tag =
      let (s', accepted) = process s message priority tag in
      if accepted then some s' else confirm_message_tag s' tag

  send_on : World → Option ℕ × World → Bytes → ℕ → World
  send_on w (none, w') content priority = w'
  send_on w (some sender, w') content priority =
      (services.publish w' sender content 0 priority true).1

  -- `sendResultMessage`
  unfoldable pub send_result_message : World → Bytes → ℕ → World
  unfolding send_on
  send_result_message w content priority =
      if services.has_rabbit w then send_on w (services.pub_queue_sender w) content priority else w

  unfoldable pub send_result : World → Option String → World
  send_result w none = w
  send_result w (some file) =
      let (id, w') = services.create_uuid w in
      send_result_message w'
        (message_to_byte_array qt (record { message_id = id; input_file = file })) 0

  finish_tagged : RunnerService → ℕ → Uuid → Option ℕ → Option RunnerService
  finish_tagged s handle id none = some s
  finish_tagged s handle id (some tag) = elim s.listener_handler [
    | none ↦ none
    | some l ↦ some (record s {
      world =
          services.confirm_receiving (send_result s.world (services.result_of s.world handle)) l
            tag;
      jobs = erase ⦃e = qt.uuid_eq⦄ id s.jobs;
      jobs_delivery_tags = erase ⦃e = qt.uuid_eq⦄ id s.jobs_delivery_tags;
    })
  ]

  finish_valid : RunnerService → ℕ → Option RunnerService
  finish_valid s handle =
      let id = (services.message_of s.world handle).message_id in
      if is_some (lookup ⦃e = qt.uuid_eq⦄ id s.jobs)
      then finish_tagged s handle id (lookup ⦃e = qt.uuid_eq⦄ id s.jobs_delivery_tags)
      else some s

  -- `handleJobFinished`
  unfoldable pub handle_job_finished : RunnerService → Option ℕ → Option RunnerService
  unfolding finish_valid finish_tagged send_result
  handle_job_finished s none = some s
  handle_job_finished s (some handle) = finish_valid s handle

  -- `abortAllJobs`
  unfoldable pub abort_all_jobs : RunnerService → RunnerService
  abort_all_jobs s = record s { jobs = [] }

  listen : RunnerService → Option ℕ → Option (List ListenerHandlerSignal) → RunnerService
  listen s listener none = s
  listen s listener (some emitted) = record s { listener_handler = listener }

  check_listener : RunnerService → RunnerService
  check_listener s =
      if is_some s.listener_handler
      then s
      else (let (listener, w) = services.sub_queue_listener s.world in
          listen (record s { world = w }) listener (create_listener_handler w listener))

  -- `checkJobSenderAndListener`; what the new handler emits, nothing is connected to yet.
  check_job_sender_and_listener : RunnerService → RunnerService
  unfolding check_listener listen
  check_job_sender_and_listener s =
      if not (services.has_rabbit s.world)
      then record s { listener_handler = none }
      else (let (sender, w) = services.pub_queue_sender s.world in
          if not (is_some sender)
          then record s { world = w; listener_handler = none }
          else check_listener (record s { world = w }))

  -- `RunnerService::start`
  unfoldable pub start : RunnerService → RunnerService
  unfolding check_job_sender_and_listener
  start s = check_job_sender_and_listener s
