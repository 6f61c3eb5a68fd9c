-- ===== src/System/Finishing.antt =====
-- The end of a job through all services: from the converter's queue to the acknowledgement. The code runs
-- the slot of `finished` inside `endJob`, once the handle has its result; here it runs on the converter
-- after `endJob`. Of the converter it reads the handle's message and result, which are the same then.
use pipelinerunner.Base.{
  ℕ, ◌≡◌, refl, ap, sym, ◌∙◌, true, List, ◌∷◌, Option, some, String, lookup, erase, string_eq,
  nat_eq,
}
use mathlib.Core.Path.{subst}
use mathlib.Core.Option.{some-injective}
use pipelinerunner.Qt.{Qt}
use pipelinerunner.Common.Message.{Message, message_to_byte_array}
use pipelinerunner.Rabbit.Channel.{Amqp}
use pipelinerunner.Rabbit.Connection.Outside.{Env}
use pipelinerunner.Rabbit.Listener.{QueueListener}
use pipelinerunner.Rabbit.Listener.Confirm.{MayConfirm, confirm_of_MayConfirm}
use pipelinerunner.Rabbit.Sender.{QueueSender, envelope}
use pipelinerunner.RabbitPlugin.{RabbitService, RabbitClient}
use pipelinerunner.Converter.Outside.{Desktop}
use pipelinerunner.Converter.{Converter, JobHandle, end_job}
use pipelinerunner.Converter.Handles.{NotIn, AllDistinct}
use pipelinerunner.Converter.History.{JobsAreFiled}
use pipelinerunner.Converter.Queue.{Process, Settled, end_job-Ends}
use pipelinerunner.Runner.{RunnerService, handle_job_finished, send_result}
use pipelinerunner.Runner.Tables.{job_of, tag_of, handle_job_finished_known}
use pipelinerunner.System.Publishing.{MayPublish, result_is_published, send_result_keeps}
use pipelinerunner.System.{
  Outer, system, job_handle, handle_message, handle_result, listener_of, confirm_receiving,
}

module _ (qt : Qt) (env : Env) (amqp : Amqp) (desktop : Desktop) (new_uuid : ℕ → qt.Uuid) where
  abbrev Whole : Type 0
  Whole = Outer qt env amqp desktop new_uuid

  abbrev pub Runner : Type 0
  Runner = RunnerService qt (system qt env amqp desktop new_uuid)

  -- The world with the converter in this state.
  abbrev pub with_converter : Whole → Converter qt desktop → Whole
  with_converter w c = record w { converter = some c }

  confirm-ack :
      (w : Whole) (l : QueueListener) (listener tag c : ℕ)
      → listener_of qt env amqp desktop new_uuid w.rabbit ≡ some l
      → MayConfirm amqp l w.broker tag c
      → (confirm_receiving qt env amqp desktop new_uuid w listener tag).broker
        ≡ (amqp.ack w.broker c tag).1
  unfolding confirm_receiving
  confirm-ack w l listener tag c e m =
      rw (e, confirm_of_MayConfirm amqp l w.broker tag c m, confirm_receiving) refl

  -- The job at the front of the converter's queue has ended with a result, and the runner knows its
  -- message by a job and a tag.
  pub record Finishes (s : Runner) (c : Converter qt desktop) (h : ℕ) (rest : List ℕ)
      (j : JobHandle qt desktop) (listener tag : ℕ) : Type 0 where
    pub listens : s.listener_handler ≡ some listener
    pub converts : s.world.converter ≡ some c
    pub in_front : c.received_messages ≡ h ∷ rest
    pub filed : JobsAreFiled qt desktop c
    pub needed : desktop.is_alive c.world h ≡ true
    pub handle : lookup h c.handles ≡ some j
    pub job :
        (k : ℕ) × (job_of qt (system qt env amqp desktop new_uuid) s j.message.message_id ≡ some k)
    pub tagged : tag_of qt (system qt env amqp desktop new_uuid) s j.message.message_id ≡ some tag

  once :
      {s : Runner} {c : Converter qt desktop} {h : ℕ} {rest : List ℕ} {j : JobHandle qt desktop}
      {listener tag : ℕ}
      → Finishes s c h rest j listener tag
      → NotIn h rest
  once f = (subst AllDistinct f.in_front f.filed.distinct).0

  finish_lem :
      (s : Runner) (c' : Converter qt desktop) (h listener tag k : ℕ) (j' : JobHandle qt desktop)
      (m : Message qt) (result : Option String)
      → s.listener_handler ≡ some listener
      → lookup h c'.handles ≡ some j'
      → j'.message ≡ m
      → j'.result ≡ result
      → job_of qt (system qt env amqp desktop new_uuid) s m.message_id ≡ some k
      → tag_of qt (system qt env amqp desktop new_uuid) s m.message_id ≡ some tag
      → handle_job_finished qt
          (system qt env amqp desktop new_uuid)
          (record s { world = with_converter s.world c' })
          (some h)
        ≡ some (record s {
          world =
              confirm_receiving qt env amqp desktop new_uuid
                (send_result qt
                  (system qt env amqp desktop new_uuid)
                  (with_converter s.world c')
                  result)
                listener
                tag;
          jobs = erase ⦃e = qt.uuid_eq⦄ m.message_id s.jobs;
          jobs_delivery_tags = erase ⦃e = qt.uuid_eq⦄ m.message_id s.jobs_delivery_tags;
        })
  unfolding job_handle handle_message handle_result
  finish_lem s c' h listener tag k j' m result l e em er job t =
      let w = with_converter s.world c' in
      let sys = system qt env amqp desktop new_uuid in
      let message : sys.message_of w h ≡ m = rw e em in
      let found : sys.result_of w h ≡ result = rw e er in
      rw (message, found) at
        (handle_job_finished_known qt sys (record s { world = w }) h listener k tag l
          (rw message job) (rw message t))

  -- In the running program, where the converter's jobs are filed: a job at the front of its queue that is
  -- still needed, whose message the runner knows by a job and a tag, and an end of that job. The slot of
  -- `finished`, on the converter's state after that, forgets the job and its tag, and
  -- acknowledges just that tag on the listener's channel, if the listener may confirm it after the result
  -- was sent. The converter goes on to the next job that runs, or has none left.
  pub finished_job_is_confirmed :
      (p : Process desktop) (s : Runner) (c c' : Converter qt desktop) (h : ℕ) (rest : List ℕ)
      (j : JobHandle qt desktop) (listener tag : ℕ) (result : Option String) (l : QueueListener)
      (channel : ℕ)
      → Finishes s c h rest j listener tag
      → end_job qt desktop c result ≡ some c'
      → let w =
          send_result qt (system qt env amqp desktop new_uuid) (with_converter s.world c') result in
        listener_of qt env amqp desktop new_uuid w.rabbit ≡ some l
        → MayConfirm amqp l w.broker tag channel
        → Settled qt desktop p c'
          × (s' : Runner) × (handle_job_finished qt
                (system qt env amqp desktop new_uuid)
                (record s { world = with_converter s.world c' })
                (some h)
              ≡ some s')
          × (s'.jobs ≡ erase ⦃e = qt.uuid_eq⦄ j.message.message_id s.jobs)
          × (s'.jobs_delivery_tags
              ≡ erase ⦃e = qt.uuid_eq⦄ j.message.message_id s.jobs_delivery_tags)
          × (s'.world.broker ≡ (amqp.ack w.broker channel tag).1)
  finished_job_is_confirmed p s c c' h rest j listener tag result l channel f e found may =
      let (ended, e', ends) = end_job-Ends qt desktop p c h rest result f.in_front in
      let same : ended ≡ c' = some-injective ended c' (sym e' ∙ e) in
      let (j', k, m, r) = ends.recorded j (once f) f.needed f.handle in
      (
        subst (Settled qt desktop p) same ends.settled,
        _,
        finish_lem s c' h listener tag f.job.0 j' j.message result f.listens
            (ap (λ (x : Converter qt desktop). lookup h x.handles) (sym same) ∙ k) m r f.job.1
            f.tagged,
        refl,
        refl,
        confirm-ack _ l listener tag channel found may,
      )

  found_listener :
      (r : RabbitService qt env amqp) (cl : RabbitClient qt env amqp) (l : QueueListener)
      → r.client ≡ some cl
      → lookup r.config.sub_queue_name cl.listeners ≡ some l
      → listener_of qt env amqp desktop new_uuid (some r) ≡ some l
  unfolding listener_of
  found_listener r cl l e found = rw e found

  -- In the running program, where the converter's jobs are filed: a job at the front of its queue that is
  -- still needed, whose message the runner knows by a job and a tag, and an end of that job with a result
  -- file; and a client of the rabbit service that has a ready sender with a live channel for the queue of
  -- results, and a listener for the queue of jobs that may confirm the tag once the result is sent. The
  -- slot of `finished` publishes a persistent message with a new identifier and the name of the file on
  -- the sender's queue and then acknowledges just the tag of the job's message, in this order and
  -- nothing else. The job and its tag are forgotten.
  pub result_is_published_and_confirmed :
      (p : Process desktop) (s : Runner) (c c' : Converter qt desktop) (h : ℕ) (rest : List ℕ)
      (j : JobHandle qt desktop) (listener tag : ℕ) (file : String) (r : RabbitService qt env amqp)
      (cl : RabbitClient qt env amqp) (sender : QueueSender) (l : QueueListener) (out channel : ℕ)
      → Finishes s c h rest j listener tag
      → end_job qt desktop c (some file) ≡ some c'
      → MayPublish qt env amqp desktop new_uuid (with_converter s.world c') r cl sender out
      → lookup r.config.sub_queue_name cl.listeners ≡ some l
      → let sent =
          (amqp.publish s.world.broker out sender.queue_name (
            envelope
              (message_to_byte_array qt
                (record { message_id = new_uuid s.world.uuids_made; input_file = file }))
              0
              0
              true)).1 in
        MayConfirm amqp l sent tag channel
        → (s' : Runner) × (handle_job_finished qt
              (system qt env amqp desktop new_uuid)
              (record s { world = with_converter s.world c' })
              (some h)
            ≡ some s')
          × (s'.jobs ≡ erase ⦃e = qt.uuid_eq⦄ j.message.message_id s.jobs)
          × (s'.jobs_delivery_tags
              ≡ erase ⦃e = qt.uuid_eq⦄ j.message.message_id s.jobs_delivery_tags)
          × (s'.world.broker ≡ (amqp.ack sent channel tag).1)
  result_is_published_and_confirmed p s c c' h rest j listener tag file r cl sender l out channel f
        e m found may =
      let w = with_converter s.world c' in
      let sends = result_is_published qt env amqp desktop new_uuid w r cl sender out file m in
      let kept = send_result_keeps qt env amqp desktop new_uuid w r cl sender out file m in
      let (_, s', run, jobs, tags, acked) =
        finished_job_is_confirmed p s c c' h rest j listener tag (some file) l channel f e
          (rw kept (found_listener r cl l m.client found)) (rw sends may) in
      (s', run, jobs, tags, rw sends at acked)
