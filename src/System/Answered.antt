-- ===== src/System/Answered.antt =====
-- The end of a job in any state that the program comes to.
use mathlib.Core.Path.{subst}
use mathlib.Core.Option.{some-injective}
use pipelinerunner.Base.{
  ℕ, ◌≡◌, ap, sym, ◌∙◌, ◌≢◌, inl, inr, true, List, ◌∷◌, Option, none, some, String, lookup, erase,
  nat_eq, Option-cases, Bool-cases,
}
use pipelinerunner.Qt.{Qt}
use pipelinerunner.Common.Message.{Message}
use pipelinerunner.Rabbit.Channel.{Amqp, to_strong_ref}
use pipelinerunner.Rabbit.Connection.Outside.{Env}
use pipelinerunner.Rabbit.Listener.{QueueListener}
use pipelinerunner.Rabbit.Listener.Confirm.{MayConfirm}
use pipelinerunner.Converter.Outside.{Desktop}
use pipelinerunner.Converter.{Converter, JobHandle, end_job}
use pipelinerunner.Converter.Steps.{message_at}
use pipelinerunner.Converter.History.{JobsAreFiled}
use pipelinerunner.Converter.Queue.{Process}
use pipelinerunner.Runner.{handle_job_finished, send_result}
use pipelinerunner.System.{system, listener_of}
use pipelinerunner.System.Events.{Reach}
use pipelinerunner.System.Sound.{Prog, Sound, IsSound}
use pipelinerunner.System.Sound.Effects.{Serves-listener, send_result-After}
use pipelinerunner.System.Sound.Kept.{job_in, tag_in}
use pipelinerunner.System.Finishing.{Finishes, with_converter, finished_job_is_confirmed}
use pipelinerunner.System.Sound.Invariant.{Reach-IsSound}

module _ (qt : Qt) (env : Env) (amqp : Amqp) (desktop : Desktop) (new_uuid : ℕ → qt.Uuid) where
  abbrev P : Type 0
  P = Prog qt env amqp desktop new_uuid

  -- A job of the converter whose message is in work.
  pub record Works (t : P) (c : Converter qt desktop) (h : ℕ) (rest : List ℕ) (u : qt.Uuid)
      (tag : ℕ) : Type 0 where
    pub converts : t.world.converter ≡ some c
    pub in_front : c.received_messages ≡ h ∷ rest
    pub needed : desktop.is_alive c.world h ≡ true
    pub job : job_in qt env amqp desktop new_uuid t u ≡ some h
    pub tagged : tag_in qt env amqp desktop new_uuid t u ≡ some tag

  handle_behind :
      (c : Converter qt desktop) (h : ℕ) (m : Message qt)
      → message_at qt desktop c h ≡ some m
      → (j : JobHandle qt desktop) × (lookup h c.handles ≡ some j) × (j.message ≡ m)
  handle_behind c h m e = elim (Option-cases (lookup h c.handles)) [
    | inl n ↦ cc (rw n at e)
    | inr (j, f) ↦ (j, f, some-injective j.message m (rw f at e))
  ]

  -- In a state with the invariant such a job is one whose end is answered.
  Works-Finishes :
      (t : P) (l : QueueListener) (c : Converter qt desktop) (h : ℕ) (rest : List ℕ) (u : qt.Uuid)
      (tag : ℕ) (v : Sound qt env amqp desktop new_uuid t l)
      → Works t c h rest u tag
      → (j : JobHandle qt desktop) × (j.message.message_id ≡ u)
        × Finishes qt env amqp desktop new_uuid t c h rest j v.listener tag
  Works-Finishes t l c h rest u tag v w =
      let same : v.c ≡ c = some-injective v.c c (sym v.converts.there ∙ w.converts) in
      let (m, at_h, id) = v.converts.known u h w.job in
      let (j, found, message) =
        handle_behind c h m (subst (λ x. message_at qt desktop x h ≡ some m) same at_h) in
      let named : j.message.message_id ≡ u = ap (λ (x : Message qt). x.message_id) message ∙ id in
      (
        j,
        named,
        record {
          listens = v.handler;
          converts = w.converts;
          in_front = w.in_front;
          filed = subst (JobsAreFiled qt desktop) same v.converts.filed;
          needed = w.needed;
          handle = found;
          job = (h, ap (job_in qt env amqp desktop new_uuid t) named ∙ w.job);
          tagged = ap (tag_in qt env amqp desktop new_uuid t) named ∙ w.tagged;
        },
      )

  -- While a message is in work, the listener is ready and holds the delivery of its tag.
  job-MayConfirm :
      (t : P) (l : QueueListener) (b : amqp.World) (h : ℕ) (u : qt.Uuid) (tag channel : ℕ)
      → Sound qt env amqp desktop new_uuid t l
      → job_in qt env amqp desktop new_uuid t u ≡ some h
      → tag_in qt env amqp desktop new_uuid t u ≡ some tag
      → to_strong_ref amqp b l.channel ≡ some channel
      → (amqp.ack b channel tag).0 ≡ true
      → MayConfirm amqp l b tag channel
  job-MayConfirm t l b h u tag channel v job tagged alive sent =
      let (k, e, held) = v.holds.held u (h, job) in
      record {
        ready = elim (Bool-cases l.is_ready) [
          | inl r ↦ r
          | inr r ↦ cc (v.holds.works_ready r u, job)
        ];
        manual = v.manual;
        held = subst (λ x. lookup x l.messages ≢ none) (some-injective k tag (sym e ∙ tagged)) held;
        channel = alive;
        sent = sent;
      }

  ended_in :
      (p : Process desktop) (t : P) (c c' : Converter qt desktop) (h : ℕ) (rest : List ℕ)
      (u : qt.Uuid) (tag : ℕ) (result : Option String) (l : QueueListener) (channel : ℕ)
      → Sound qt env amqp desktop new_uuid t l
      → Works t c h rest u tag
      → end_job qt desktop c result ≡ some c'
      → let w =
          send_result qt
            (system qt env amqp desktop new_uuid)
            (with_converter qt env amqp desktop new_uuid t.world c')
            result in
        to_strong_ref amqp w.broker l.channel ≡ some channel
        → (amqp.ack w.broker channel tag).0 ≡ true
        → (t' : P) × (handle_job_finished qt
              (system qt env amqp desktop new_uuid)
              (record t { world = with_converter qt env amqp desktop new_uuid t.world c' })
              (some h)
            ≡ some t')
          × (t'.jobs ≡ erase ⦃e = qt.uuid_eq⦄ u t.jobs)
          × (t'.jobs_delivery_tags ≡ erase ⦃e = qt.uuid_eq⦄ u t.jobs_delivery_tags)
          × (t'.world.broker ≡ (amqp.ack w.broker channel tag).1)
  ended_in p t c c' h rest u tag result l channel v works ends alive sent =
      let (j, named, f) = Works-Finishes t l c h rest u tag v works in
      let after =
        send_result-After qt env amqp desktop new_uuid
          (with_converter qt env amqp desktop new_uuid t.world c') l result
          (record {
            service = v.serves.service;
            cl = v.serves.cl;
            rabbit = v.serves.rabbit;
            client = v.serves.client;
            found = v.serves.found;
          }) in
      let (_, t', run, jobs, tags, acked) =
        finished_job_is_confirmed qt env amqp desktop new_uuid p t c c' h rest j v.listener tag
          result l channel f ends (Serves-listener qt env amqp desktop new_uuid _ l after.serves)
          (job-MayConfirm t l _ h u tag channel v works.job works.tagged alive sent) in
      (
        t',
        run,
        jobs ∙ ap (λ x. erase ⦃e = qt.uuid_eq⦄ x t.jobs) named,
        tags ∙ ap (λ x. erase ⦃e = qt.uuid_eq⦄ x t.jobs_delivery_tags) named,
        acked,
      )

  -- In any state that the program comes to from one with the invariant: a job at the front of the
  -- converter's queue that is still needed, and that the runner has for a message, with a tag; and an end
  -- of that job, with or without a result file. If the channel of the listener of the queue of jobs
  -- still exists once the result is sent, and takes the acknowledgement, then the slot of `finished`, on the
  -- converter's state after that end, forgets just that message, and after the sending of the result it
  -- acknowledges just the message's tag.
  pub job_in_work_is_answered :
      (p : Process desktop) (s t : P) (c c' : Converter qt desktop) (h : ℕ) (rest : List ℕ)
      (u : qt.Uuid) (tag : ℕ) (result : Option String) (l : QueueListener) (channel : ℕ)
      → IsSound qt env amqp desktop new_uuid s
      → Reach qt env amqp desktop new_uuid s t
      → Works t c h rest u tag
      → end_job qt desktop c result ≡ some c'
      → listener_of qt env amqp desktop new_uuid t.world.rabbit ≡ some l
      → let w =
          send_result qt
            (system qt env amqp desktop new_uuid)
            (with_converter qt env amqp desktop new_uuid t.world c')
            result in
        to_strong_ref amqp w.broker l.channel ≡ some channel
        → (amqp.ack w.broker channel tag).0 ≡ true
        → (t' : P) × (handle_job_finished qt
              (system qt env amqp desktop new_uuid)
              (record t { world = with_converter qt env amqp desktop new_uuid t.world c' })
              (some h)
            ≡ some t')
          × (t'.jobs ≡ erase ⦃e = qt.uuid_eq⦄ u t.jobs)
          × (t'.jobs_delivery_tags ≡ erase ⦃e = qt.uuid_eq⦄ u t.jobs_delivery_tags)
          × (t'.world.broker ≡ (amqp.ack w.broker channel tag).1)
  job_in_work_is_answered p s t c c' h rest u tag result l channel sound reach works ends at_l alive
        sent =
      let (m, v) = Reach-IsSound qt env amqp desktop new_uuid s t sound reach in
      let same : m ≡ l =
        some-injective m l
          (sym (Serves-listener qt env amqp desktop new_uuid t.world m v.serves) ∙ at_l) in
      ended_in p t c c' h rest u tag result l channel
        (subst (Sound qt env amqp desktop new_uuid t) same v) works ends alive sent
