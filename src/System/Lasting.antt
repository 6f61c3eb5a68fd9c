-- ===== src/System/Lasting.antt =====
-- How long a message stays in work.
use pipelinerunner.Toolkit.Value.{Fields}
use pipelinerunner.Base.{
  ℕ, ◌≡◌, refl, ap, sym, ◌∙◌, ◌≢◌, inl, inr, true, false, List, [], ◌∷◌, Option, some, String, ◌==◌,
  string_eq, lookup, lookup-insert_same, lookup-insert_other, is_some, nat_eq,
}
use pipelinerunner.Qt.{Qt}
use pipelinerunner.Rabbit.Channel.{Bytes, Amqp}
use pipelinerunner.Rabbit.Connection.Outside.{Env}
use pipelinerunner.Rabbit.Listener.{
  ListenerSignal, ready, ready_changed, message_received, messages_updated,
}
use pipelinerunner.Rabbit.Client.{ClientSignal, connection_changed, of_sender, of_listener}
use pipelinerunner.Rabbit.Client
use pipelinerunner.Converter.Outside.{Desktop}
use pipelinerunner.Runner.{handle_job_message, handle_job_finished, send_result}
use pipelinerunner.Runner
use pipelinerunner.Runner.Tables.{handle_job_message_cases, SameTables, Records}
use pipelinerunner.System.{system}
use pipelinerunner.System.Calm.{IsCalm, AllCalm}
use pipelinerunner.System.Events.{forward, take_signals, take_signal, dispatch}
use pipelinerunner.System.Sound.{Prog}
use pipelinerunner.System.Sound.Kept.{job_in, tag_in}
use pipelinerunner.System.Returns.{Done, chain, either-Done}

module _ (qt : Qt) (env : Env) (amqp : Amqp) (desktop : Desktop) (new_uuid : ℕ → qt.Uuid) where
  abbrev P : Type 0
  P = Prog qt env amqp desktop new_uuid

  abbrev job : P → qt.Uuid → Option ℕ
  job = job_in qt env amqp desktop new_uuid

  abbrev tag : P → qt.Uuid → Option ℕ
  tag = tag_in qt env amqp desktop new_uuid

  abbrev Finished : (P → Type 0) → Option P → Type 0
  Finished = Done qt env amqp desktop new_uuid

  -- The runner has its listener, each job has a tag, and every job of `s` is still there.
  pub record Lasts (k : ℕ) (s t : P) : Type 0 where
    pub listens : t.listener_handler ≡ some k
    pub tagged : (u : qt.Uuid) (h : ℕ) → job t u ≡ some h → (i : ℕ) × (tag t u ≡ some i)
    pub lasts : (u : qt.Uuid) (h : ℕ) → job s u ≡ some h → job t u ≡ some h

  same-Lasts :
      (k : ℕ) (s t t' : P)
      → Lasts k s t
      → SameTables qt (system qt env amqp desktop new_uuid) t t'
      → Lasts k s t'
  same-Lasts k s t t' v e = record {
    listens = e.same_listener ∙ v.listens;
    tagged = λ u h i.
        let (j, f) = v.tagged u h (sym (ap (lookup ⦃e = qt.uuid_eq⦄ u) e.same_jobs) ∙ i) in
        (j, ap (lookup ⦃e = qt.uuid_eq⦄ u) e.same_tags ∙ f);
    lasts = λ u h i. ap (lookup ⦃e = qt.uuid_eq⦄ u) e.same_jobs ∙ v.lasts u h i;
  }

  job_other :
      (t t' : P) (obj : Fields qt.Double) (u : qt.Uuid) (i : ℕ)
      → Records qt (system qt env amqp desktop new_uuid) obj u i t t'
      → (w : qt.Uuid) → w ≢ u
      → job t' w ≡ job t w
  job_other t t' obj u i r w n = elim r.job [
    | inl (_, e, _) ↦ ap (lookup ⦃e = qt.uuid_eq⦄ w) e
    | inr (_, h, e, _) ↦
        ap (lookup ⦃e = qt.uuid_eq⦄ w) e ∙ lookup-insert_other ⦃e = qt.uuid_eq⦄ w u h t.jobs n
  ]

  job-Lasts :
      (k : ℕ) (s t t' : P) (obj : Fields qt.Double) (u : qt.Uuid) (i : ℕ)
      → Lasts k s t
      → Records qt (system qt env amqp desktop new_uuid) obj u i t t'
      → (w : qt.Uuid) (h : ℕ) → job t w ≡ some h
      → job t' w ≡ some h
  job-Lasts k s t t' obj u i v r w h j = elim r.job [
    | inl (_, e, _) ↦ ap (lookup ⦃e = qt.uuid_eq⦄ w) e ∙ j
    | inr (new, _, _, _) ↦ elim (qt.uuid_eq.dec w u) [
      | yes p ↦
          (let (i', f) = v.tagged w h j in
            let has : is_some (tag t u) ≡ true = ap is_some (ap (tag t) (sym p) ∙ f) in
            cc (new, has))
      | no n ↦ job_other t t' obj u i r w n ∙ j
    ]
  ]

  -- A message that gets a job had no tag, so it is none of those in work.
  recorded-Lasts :
      (k : ℕ) (s t t' : P) (obj : Fields qt.Double) (u : qt.Uuid) (i : ℕ)
      → Lasts k s t
      → Records qt (system qt env amqp desktop new_uuid) obj u i t t'
      → Lasts k s t'
  recorded-Lasts k s t t' obj u i v r = record {
    listens = r.same_listener ∙ v.listens;
    tagged = λ w h j. elim (qt.uuid_eq.dec w u) [
      | yes p ↦ (
        i,
        ap (lookup ⦃e = qt.uuid_eq⦄ w) r.tagged
            ∙ lookup-insert_same ⦃e = qt.uuid_eq⦄ w u i t.jobs_delivery_tags p,
      )
      | no n ↦
          (let (i', f) = v.tagged w h (sym (job_other t t' obj u i r w n) ∙ j) in
            (
              i',
              ap (lookup ⦃e = qt.uuid_eq⦄ w) r.tagged
                  ∙ lookup-insert_other ⦃e = qt.uuid_eq⦄ w u i t.jobs_delivery_tags n
                  ∙ f,
            ))
    ];
    lasts = λ w h j. job-Lasts k s t t' obj u i v r w h (v.lasts w h j);
  }

  message-Lasts :
      (k : ℕ) (s t : P) (body : Bytes) (priority i : ℕ)
      → Lasts k s t
      → Finished
          (Lasts k s)
          (handle_job_message qt (system qt env amqp desktop new_uuid) t body priority i)
  message-Lasts k s t body priority i v =
      let (t', run, what) =
        handle_job_message_cases qt (system qt env amqp desktop new_uuid) t body priority i k
          v.listens in
      (
        t',
        run,
        elim what [
          | inl (e, _, _, _) ↦ same-Lasts k s t t' v e
          | inr (obj, u, _, r) ↦ recorded-Lasts k s t t' obj u i v r
        ],
      )

  forwarded-Lasts :
      (k : ℕ) (s t : P) (name : String) (signal : ListenerSignal)
      → IsCalm (of_listener (name, signal))
      → Lasts k s t
      → Finished (Lasts k s) (take_signals qt env amqp desktop new_uuid t (forward signal))
  unfolding take_signals forward Runner.handle_ready_changed
  forwarded-Lasts k s t name ready calm v = (t, refl, v)
  forwarded-Lasts k s t name (ready_changed true) calm v = (t, refl, v)
  forwarded-Lasts k s t name (ready_changed false) calm v = cc calm
  forwarded-Lasts k s t name messages_updated calm v = (t, refl, v)
  forwarded-Lasts k s t name (message_received body priority i) calm v =
      chain qt env amqp desktop new_uuid (Lasts k s) (Lasts k s) _
        (λ t'. take_signals qt env amqp desktop new_uuid t' [])
        (message-Lasts k s t body priority i v) (λ t' q. (t', refl, q))

  signal-Lasts :
      (k : ℕ) (sub : String) (s t : P) (signal : ClientSignal)
      → IsCalm signal
      → Lasts k s t
      → Finished (Lasts k s) (take_signal qt env amqp desktop new_uuid sub t signal)
  unfolding take_signal
  signal-Lasts k sub s t (connection_changed up) calm v = (t, refl, v)
  signal-Lasts k sub s t (Client.ready_changed up) calm v = (t, refl, v)
  signal-Lasts k sub s t (of_sender x) calm v = (t, refl, v)
  signal-Lasts k sub s t (of_listener (name, signal)) calm v =
      either-Done qt env amqp desktop new_uuid (Lasts k s) (name == sub) _ _
        (forwarded-Lasts k s t name signal calm v) (t, refl, v)

  -- The slots on calm signals leave every job where it is.
  pub dispatch-Lasts :
      (k : ℕ) (sub : String) (s t : P) (said : List ClientSignal)
      → AllCalm said
      → Lasts k s t
      → Finished (Lasts k s) (dispatch qt env amqp desktop new_uuid sub t said)
  unfolding dispatch
  dispatch-Lasts k sub s t [] calm v = (t, refl, v)
  dispatch-Lasts k sub s t (x ∷ rest) calm v =
      chain qt env amqp desktop new_uuid (Lasts k s) (Lasts k s) _
        (λ t'. dispatch qt env amqp desktop new_uuid sub t' rest)
        (signal-Lasts k sub s t x calm.0 v) (λ t' q. dispatch-Lasts k sub s t' rest calm.1 q)
