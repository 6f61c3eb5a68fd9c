-- ===== src/System/Following.antt =====
-- A message from its delivery to an idle converter up to the start of its job.
use mathlib.Core.Logic.{if_pos}
use pipelinerunner.Base.{
  ℕ, ◌≡◌, refl, sym, ◌∙◌, true, List, [], none, some, String, string_eq, lookup, insert,
  lookup-insert, nat_eq, Eq,
}
use pipelinerunner.Toolkit.Value.{Fields}
use pipelinerunner.Qt.{Qt}
use pipelinerunner.Common.Message.{Message, message_info, message_to_byte_array}
use pipelinerunner.Common.Message.RoundTrip.{message_info-read}
use pipelinerunner.Rabbit.Channel.{Bytes, Amqp}
use pipelinerunner.Rabbit.Connection.Outside.{Env}
use pipelinerunner.Converter.Outside.{Desktop}
use pipelinerunner.Converter.{Converter, JobHandle, begin, start_job, end_job}
use pipelinerunner.Converter.Started.{start_job_begun}
use pipelinerunner.Converter.History.{
  JobsAreFiled, submit, submit-JobsAreFiled, start_job-JobsAreFiled,
}
use pipelinerunner.Runner.{RunnerService, handle_job_message, handle_job_finished}
use pipelinerunner.Runner.New.{entered}
use pipelinerunner.System.{Outer, system}
use pipelinerunner.System.Starting.{IsNew, new_message_is_queued}
use pipelinerunner.System.Finishing.{Finishes, with_converter, result_is_published_and_confirmed}
use pipelinerunner.System.Publishing.{MayPublish}
use pipelinerunner.RabbitPlugin.{RabbitService, RabbitClient}
use pipelinerunner.Rabbit.Sender.{QueueSender, envelope}
use pipelinerunner.Rabbit.Listener.{QueueListener}
use pipelinerunner.Rabbit.Listener.Confirm.{MayConfirm}
use pipelinerunner.Converter.Queue.{Process}

lookup_inserted :
    {K V : Type 0} ⦃e : Eq K⦄ (k k' : K) (v : V) (d : List (K × V))
    → k ≡ k'
    → lookup k (insert k' v d) ≡ some v
lookup_inserted ⦃e⦄ k k' v d same = rw (lookup-insert k k' v d, if_pos (e.dec k k') same) refl

module _ (qt : Qt) (env : Env) (amqp : Amqp) (desktop : Desktop) (new_uuid : ℕ → qt.Uuid) where
  abbrev pub Runner : Type 0
  Runner = RunnerService qt (system qt env amqp desktop new_uuid)

  -- The handle of a message that was just submitted.
  abbrev pub new_handle : Message qt → JobHandle qt desktop
  new_handle m = record { start_time = none; end_time = none; message = m; result = none }

  -- The runner and the world when the message has been taken.
  abbrev pub taken : Runner → Converter qt desktop → Message qt → qt.Uuid → ℕ → Runner
  taken s c m id tag =
      entered qt (system qt env amqp desktop new_uuid) s id c.next_handle tag
        (record (s.world) { converter = some (submit qt desktop c m) })

  -- In the running program with a listener, while the converter's jobs are filed and none waits: the
  -- delivery of a message that is new, and can be read, leads to a state in which its job is at the front
  -- of the converter's queue and the runner knows it by its handle and its delivery tag, so that the end
  -- of the job will be answered, if the new handle is still held.
  pub new_message-Finishes :
      (s : Runner) (c : Converter qt desktop) (bytes : Bytes) (priority tag listener : ℕ)
      (obj : Fields qt.Double) (m : Message qt)
      → s.listener_handler ≡ some listener
      → qt.parse_object bytes ≡ some obj
      → IsNew qt env amqp desktop new_uuid s c (message_info qt obj tag priority) m
      → JobsAreFiled qt desktop c
      → c.received_messages ≡ []
      → desktop.is_alive (submit qt desktop c m).world c.next_handle ≡ true
      → let s' = taken s c m (message_info qt obj tag priority).id tag in
        (handle_job_message qt (system qt env amqp desktop new_uuid) s bytes priority tag ≡ some s')
        × Finishes qt env amqp desktop new_uuid s'
            (submit qt desktop c m)
            c.next_handle
            []
            (new_handle m)
            listener
            tag
  unfolding message_info
  new_message-Finishes s c bytes priority tag listener obj m l p n v idle alive =
      let (run, queue, handles) =
        new_message_is_queued qt env amqp desktop new_uuid s c bytes priority tag obj m p n in
      let same : m.message_id ≡ (message_info qt obj tag priority).id =
        sym (message_info-read qt obj tag priority m n.read) in
      (
        run,
        record {
          listens = l;
          converts = refl;
          in_front = queue ∙ rw idle refl;
          filed = submit-JobsAreFiled qt desktop c m v;
          needed = alive;
          handle =
              rw handles
                (lookup_inserted c.next_handle c.next_handle (new_handle m) c.handles refl);
          job = (
            c.next_handle,
            lookup_inserted ⦃e = qt.uuid_eq⦄ m.message_id _ c.next_handle s.jobs same,
          );
          tagged = lookup_inserted ⦃e = qt.uuid_eq⦄ m.message_id _ tag s.jobs_delivery_tags same;
        },
      )

  -- From such a state, where the three steps of `startJob` succeed on the job and its handle is still
  -- held: `startJob` ends with them, and in the state after it the end of the job will be answered too.
  pub start_job-Finishes :
      (s : Runner) (c c' : Converter qt desktop) (h : ℕ) (rest : List ℕ) (j : JobHandle qt desktop)
      (listener tag : ℕ)
      → Finishes qt env amqp desktop new_uuid s c h rest j listener tag
      → begin qt desktop c h ≡ (c', true)
      → desktop.is_alive c'.world h ≡ true
      → (start_job qt desktop c ≡ some c')
        × (j' : JobHandle qt desktop) × (j'.message ≡ j.message)
        × Finishes qt env amqp desktop new_uuid
            (record s { world = with_converter qt env amqp desktop new_uuid s.world c' })
            c'
            h
            rest
            j'
            listener
            tag
  start_job-Finishes s c c' h rest j listener tag f b alive =
      let (run, queue, j', found, same) =
        start_job_begun qt desktop c c' h rest j f.in_front f.handle b in
      (
        run,
        j',
        same,
        record {
          listens = f.listens;
          converts = refl;
          in_front = queue;
          filed = start_job-JobsAreFiled qt desktop c c' f.filed run;
          needed = alive;
          handle = found;
          job = rw same f.job;
          tagged = rw same f.tagged;
        },
      )

  elsewhere :
      {w : Outer qt env amqp desktop new_uuid} {r : RabbitService qt env amqp}
      {cl : RabbitClient qt env amqp} {sender : QueueSender} {out : ℕ} (c : Converter qt desktop)
      → MayPublish qt env amqp desktop new_uuid w r cl sender out
      → MayPublish qt env amqp desktop new_uuid
          (with_converter qt env amqp desktop new_uuid w c)
          r
          cl
          sender
          out
  elsewhere c p = record {
    rabbit = p.rabbit;
    client = p.client;
    started = p.started;
    found = p.found;
    ready = p.ready;
    alive = p.alive;
  }

  -- The life of a message in the running program, from its delivery to an idle converter whose jobs are
  -- filed, where nothing else happens meanwhile. The message is new and can be read, the three steps of
  -- `startJob` succeed, the job ends with a result file, and its handle is held before and after its
  -- start. The rabbit service can publish, and its listener may confirm the tag once the result is sent.
  -- Then the delivery is taken, the job starts, and the slot of `finished` leaves the broker with just
  -- one publication, of the result, followed by just one acknowledgement, of the tag of the delivery.
  pub new_message_is_answered :
      (p : Process desktop) (s : Runner) (c c' c'' : Converter qt desktop) (bytes : Bytes)
      (priority tag listener : ℕ) (obj : Fields qt.Double) (m : Message qt) (file : String)
      (r : RabbitService qt env amqp) (cl : RabbitClient qt env amqp) (sender : QueueSender)
      (l : QueueListener) (out channel : ℕ)
      → s.listener_handler ≡ some listener
      → qt.parse_object bytes ≡ some obj
      → IsNew qt env amqp desktop new_uuid s c (message_info qt obj tag priority) m
      → JobsAreFiled qt desktop c
      → c.received_messages ≡ []
      → desktop.is_alive (submit qt desktop c m).world c.next_handle ≡ true
      → begin qt desktop (submit qt desktop c m) c.next_handle ≡ (c', true)
      → desktop.is_alive c'.world c.next_handle ≡ true
      → end_job qt desktop c' (some file) ≡ some c''
      → MayPublish qt env amqp desktop new_uuid s.world r cl sender out
      → lookup r.config.sub_queue_name cl.listeners ≡ some l
      → let sent =
          (amqp.publish s.world.broker out sender.queue_name (
            envelope
              (message_to_byte_array qt
                (record { message_id = new_uuid s.world.uuids_made; input_file = file }))
              0
              0
              true)).1 in
        MayConfirm amqp l sent tag channel
        → let s' = taken s c m (message_info qt obj tag priority).id tag in
          (handle_job_message qt (system qt env amqp desktop new_uuid) s bytes priority tag
            ≡ some s')
          × (start_job qt desktop (submit qt desktop c m) ≡ some c')
          × (s'' : Runner) × (handle_job_finished qt
                (system qt env amqp desktop new_uuid)
                (record s' { world = with_converter qt env amqp desktop new_uuid s'.world c'' })
                (some c.next_handle)
              ≡ some s'')
          × (s''.world.broker ≡ (amqp.ack sent channel tag).1)
  new_message_is_answered p s c c' c'' bytes priority tag listener obj m file r cl sender l out
        channel hears parsed new filed idle held begun held' ended publishes found confirms =
      let (took, f) =
        new_message-Finishes s c bytes priority tag listener obj m hears parsed new filed idle
          held in
      let (started, j, _, f') =
        start_job-Finishes (taken s c m (message_info qt obj tag priority).id tag)
          (submit qt desktop c m) c' c.next_handle [] (new_handle m) listener tag f begun held' in
      let (s'', finished, _, _, acked) =
        result_is_published_and_confirmed qt env amqp desktop new_uuid p _ c' c'' c.next_handle [] j
          listener tag file r cl sender l out channel f' ended
          (elsewhere c'' (elsewhere c' publishes)) found confirms in
      (took, started, s'', finished, acked)
