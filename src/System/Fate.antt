-- ===== src/System/Fate.antt =====
-- A message in work stays so until its job ends with an answer, or the connection is lost.
use mathlib.Core.Path.{subst}
use mathlib.Core.Option.{some-injective}
use pipelinerunner.Base.{
  ℕ, ◌≡◌, ap, sym, ◌∙◌, ◌⊎◌, inl, inr, Option, some, string_eq, lookup, lookup-erase_other, nat_eq,
}
use pipelinerunner.Qt.{Qt}
use pipelinerunner.Rabbit.Channel.{Amqp}
use pipelinerunner.Rabbit.Connection.Outside.{Env}
use pipelinerunner.Rabbit.Listener.{QueueListener}
use pipelinerunner.RabbitPlugin.{RabbitService, RabbitClient}
use pipelinerunner.Converter.Outside.{Desktop}
use pipelinerunner.Runner.{handle_job_finished, send_result}
use pipelinerunner.Runner.Outside.{Services}
use pipelinerunner.Runner.Tables.{handle_job_finished_cases}
use pipelinerunner.System.{system, confirm_receiving}
use pipelinerunner.System.Events.{
  Call, with_client, emitted, perform, Step, calls, converts, finishes, broker_moves, socket_moves,
  Reach, here, later,
}
use pipelinerunner.System.Sound.{Prog, Sound, IsSound}
use pipelinerunner.System.Sound.Kept.{job_in, tag_in}
use pipelinerunner.System.Sound.Invariant.{Reach-IsSound}
use pipelinerunner.System.Lasting.{dispatch-Lasts}
use pipelinerunner.System.Calm.{IsLoss, AllCalm, perform-AllCalm}

module _ (qt : Qt) (env : Env) (amqp : Amqp) (desktop : Desktop) (new_uuid : ℕ → qt.Uuid) where
  abbrev P : Type 0
  P = Prog qt env amqp desktop new_uuid

  abbrev job : P → qt.Uuid → Option ℕ
  job = job_in qt env amqp desktop new_uuid

  abbrev tag : P → qt.Uuid → Option ℕ
  tag = tag_in qt env amqp desktop new_uuid

  abbrev sys : Services qt
  sys = system qt env amqp desktop new_uuid

  -- The slot of `finished` for a handle with the message: the result is sent, and then the tag of the
  -- message is confirmed.
  pub record Answers (s t : P) (u : qt.Uuid) : Type 0 where
    pub handle : ℕ
    pub listener : ℕ
    pub delivery : ℕ
    pub of_message : (sys.message_of s.world handle).message_id ≡ u
    pub listens : s.listener_handler ≡ some listener
    pub tagged : tag s u ≡ some delivery
    pub confirms :
        t.world
        ≡ confirm_receiving qt env amqp desktop new_uuid
            (send_result qt sys s.world (sys.result_of s.world handle))
            listener
            delivery

  -- The event is a call on the program's client that makes every listener unready.
  pub record Loses (s t : P) : Type 0 where
    pub service : RabbitService qt env amqp
    pub client : RabbitClient qt env amqp
    pub call : Call
    pub there : s.world.rabbit ≡ some service
    pub connected : service.client ≡ some client
    pub broke : IsLoss call
    pub run :
        emitted qt env amqp desktop new_uuid s service
          (perform qt env amqp desktop new_uuid client s.world.broker call)
        ≡ some t

  called_kept :
      (s t : P) (l : QueueListener) (r : RabbitService qt env amqp) (cl : RabbitClient qt env amqp)
      (call : Call) (u : qt.Uuid) (h : ℕ)
      → Sound qt env amqp desktop new_uuid s l
      → AllCalm (perform qt env amqp desktop new_uuid cl s.world.broker call).1
      → emitted qt env amqp desktop new_uuid s r
          (perform qt env amqp desktop new_uuid cl s.world.broker call)
        ≡ some t
      → job s u ≡ some h
      → job t u ≡ some h
  unfolding emitted
  called_kept s t l r cl call u h v calm e j =
      let (t', run, kept) =
        dispatch-Lasts qt env amqp desktop new_uuid v.listener r.config.sub_queue_name s
          (with_client qt env amqp desktop new_uuid s r _ _) _ calm
          (record {
            listens = v.handler;
            tagged = λ w g i. let (k, f, _) = v.holds.held w (g, i) in (k, f);
            lasts = λ w g i. i;
          }) in
      let same : t' ≡ t = some-injective t' t (sym run ∙ e) in
      ap (λ (x : P). job x u) (sym same) ∙ kept.lasts u h j

  finished_kept :
      (s t : P) (l : QueueListener) (k : ℕ) (u : qt.Uuid) (h : ℕ)
      → Sound qt env amqp desktop new_uuid s l
      → handle_job_finished qt sys s (some k) ≡ some t
      → job s u ≡ some h
      → (job t u ≡ some h) ⊎ Answers s t u
  finished_kept s t l k u h v e j =
      let m = (sys.message_of s.world k).message_id in
      let (t', run, what) = handle_job_finished_cases qt sys s k v.listener v.handler in
      let same : t' ≡ t = some-injective t' t (sym run ∙ e) in
      subst (λ (x : P). (job x u ≡ some h) ⊎ Answers s x u) same
        (elim what [
          | inl (stays, _) ↦ inl (ap (λ (x : P). job x u) stays ∙ j)
          | inr (_, _, jobs, _, i, found, world) ↦ elim (qt.uuid_eq.dec m u) [
            | yes p ↦ inr (record {
              handle = k;
              listener = v.listener;
              delivery = i;
              of_message = p;
              listens = v.handler;
              tagged = ap (tag s) (sym p) ∙ found;
              confirms = world;
            })
            | no n ↦ inl (
                ap (lookup ⦃e = qt.uuid_eq⦄ u) jobs
                ∙ lookup-erase_other ⦃e = qt.uuid_eq⦄ u m s.jobs (λ q. n (sym q))
                ∙ j)
          ]
        ])

  Step-kept :
      (s t : P) (u : qt.Uuid) (h : ℕ)
      → IsSound qt env amqp desktop new_uuid s
      → Step qt env amqp desktop new_uuid s t
      → job s u ≡ some h
      → (job t u ≡ some h) ⊎ (Answers s t u ⊎ Loses s t)
  Step-kept s t u h (l, v) (calls r cl call there connected ok e) j =
      elim (perform-AllCalm qt env amqp desktop new_uuid cl s.world.broker call) [
        | inl broke ↦ inr (
            inr (record {
              service = r;
              client = cl;
              call = call;
              there = there;
              connected = connected;
              broke = broke;
              run = e;
            }))
        | inr calm ↦ inl (called_kept s t l r cl call u h v calm e j)
      ]
  Step-kept s t u h (l, v) (converts c c' e there run) j = inl j
  Step-kept s t u h (l, v) (finishes k e) j = elim (finished_kept s t l k u h v e j) [
    | inl i ↦ inl i
    | inr a ↦ inr (inl a)
  ]
  Step-kept s t u h (l, v) (socket_moves r cl g there connected) j = inl j
  Step-kept s t u h (l, v) (broker_moves b) j = inl j

  -- The event between `s` and `t` that ended the work on the message.
  pub record Ended (s t : P) (u : qt.Uuid) (h : ℕ) : Type 0 where
    pub before : P
    pub after : P
    pub reached : Reach qt env amqp desktop new_uuid s before
    pub still : job before u ≡ some h
    pub event : Step qt env amqp desktop new_uuid before after
    pub rest : Reach qt env amqp desktop new_uuid after t
    pub why : Answers before after u ⊎ Loses before after

  -- From a state with the invariant, over any interleaving of events: a message that has a job still has
  -- it, or there was an event up to which it had it, and that event was the slot of `finished` for a
  -- handle with this message, which sent the result and confirmed the message's tag, or a new
  -- connection or a loss of readiness of the program's client.
  pub works_until_answered :
      (s t : P) (u : qt.Uuid) (h : ℕ)
      → IsSound qt env amqp desktop new_uuid s
      → Reach qt env amqp desktop new_uuid s t
      → job s u ≡ some h
      → (job t u ≡ some h) ⊎ Ended s t u h
  works_until_answered s t u h v here j = inl j
  works_until_answered s t u h v (later {t = m} r event) j =
      elim (works_until_answered s m u h v r j) [
        | inl i ↦
            elim (Step-kept m t u h (Reach-IsSound qt env amqp desktop new_uuid s m v r) event i) [
              | inl i' ↦ inl i'
              | inr why ↦ inr (record {
                before = m;
                after = t;
                reached = r;
                still = i;
                event = event;
                rest = here;
                why = why;
              })
            ]
        | inr x ↦ inr (record {
          before = x.before;
          after = x.after;
          reached = x.reached;
          still = x.still;
          event = x.event;
          rest = later x.rest event;
          why = x.why;
        })
      ]
