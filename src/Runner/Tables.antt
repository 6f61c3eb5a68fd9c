-- ===== src/Runner/Tables.antt =====
-- runnerservice.cpp: what the handlers do to the two tables, of the jobs and of the delivery tags.
use pipelinerunner.Base.{
  ℕ, ◌≡◌, refl, ap, ◌∙◌, ◌⊎◌, inl, inr, Bool, true, false, Option, none, some, lookup, insert,
  erase, is_some, Bool-cases, Option-cases,
}
use pipelinerunner.Base.Results.{Result, ok, err}
use pipelinerunner.Toolkit.Value.{Fields, Error}
use pipelinerunner.Qt.{Qt}
use pipelinerunner.Common.Message.{Message, MessageInfo, message_info, message_from_json}
use pipelinerunner.Rabbit.Channel.{Bytes}
use pipelinerunner.Runner.Outside.{Services}
use pipelinerunner.Runner.{
  RunnerService, confirm_message_tag, begin_job, register_job, process_info, process_parsed,
  process, handle_job_message, finish_tagged, finish_valid, handle_job_finished, send_result,
}

module _ (qt : Qt) (services : Services qt) where
  abbrev pub Service : Type 0
  Service = RunnerService qt services

  -- The job and the tag that a message has.
  abbrev pub job_of : Service → qt.Uuid → Option ℕ
  job_of s u = lookup ⦃e = qt.uuid_eq⦄ u s.jobs

  abbrev pub tag_of : Service → qt.Uuid → Option ℕ
  tag_of s u = lookup ⦃e = qt.uuid_eq⦄ u s.jobs_delivery_tags

  -- Only the world beside the tables may differ.
  pub record SameTables (s s' : Service) : Type 0 where
    pub same_listener : s'.listener_handler ≡ s.listener_handler
    pub same_jobs : s'.jobs ≡ s.jobs
    pub same_tags : s'.jobs_delivery_tags ≡ s.jobs_delivery_tags

  -- A message without a tag has no job from it, and this is the world then.
  pub data Declines (s : Service) (info : MessageInfo qt) : services.World → Type 0 where
    unnamed : qt.uuid_is_null info.id ≡ true → Declines s info s.world
    unconverted :
        is_some (tag_of s info.id) ≡ false
        → services.has_converter s.world ≡ false
        → Declines s info s.world
    unreadable :
        (e : Error)
        → is_some (tag_of s info.id) ≡ false
        → message_from_json qt info.json ≡ err e
        → Declines s info s.world
    unregistered :
        (m : Message qt) (w : services.World)
        → is_some (tag_of s info.id) ≡ false
        → message_from_json qt info.json ≡ ok m
        → services.register_job_message s.world m ≡ (none, w)
        → Declines s info w
    unstarted :
        (m : Message qt) (h : ℕ) (w w' : services.World)
        → is_some (tag_of s info.id) ≡ false
        → message_from_json qt info.json ≡ ok m
        → services.register_job_message s.world m ≡ (some h, w)
        → services.process_job_message (services.connect_finished w h) h ≡ (false, w')
        → Declines s info w'

  -- The delivery is not of an object, or is of a message that is declined, and this is the world then.
  abbrev pub Refuses : Service → Option (Fields qt.Double) → ℕ → ℕ → services.World → Type 0
  Refuses s parsed priority tag w =
      ((parsed ≡ none) × (w ≡ s.world))
      ⊎ ((obj : Fields qt.Double) × (parsed ≡ some obj)
          × Declines s (message_info qt obj tag priority) w)

  -- The message that the object holds is registered and starts, connected before, with the handle `h`.
  pub record Starts (obj : Fields qt.Double) (h : ℕ) (s s' : Service) : Type 0 where
    pub message : Message qt
    pub registered_world : services.World
    pub read : message_from_json qt obj ≡ ok message
    pub converts : services.has_converter s.world ≡ true
    pub registered : services.register_job_message s.world message ≡ (some h, registered_world)
    pub started :
        services.process_job_message (services.connect_finished registered_world h) h
        ≡ (true, s'.world)

  -- The tag is recorded for the message, whose identifier is not null, and which had a tag, and nothing
  -- else happens, or has a new job, which is started.
  pub record Records (obj : Fields qt.Double) (u : qt.Uuid) (tag : ℕ) (s s' : Service)
      : Type 0 where
    pub same_listener : s'.listener_handler ≡ s.listener_handler
    pub named : qt.uuid_is_null u ≡ false
    pub tagged : s'.jobs_delivery_tags ≡ insert ⦃e = qt.uuid_eq⦄ u tag s.jobs_delivery_tags
    pub job :
        ((is_some (tag_of s u) ≡ true) × (s'.jobs ≡ s.jobs) × (s'.world ≡ s.world))
        ⊎ ((is_some (tag_of s u) ≡ false)
            × (h : ℕ) × (s'.jobs ≡ insert ⦃e = qt.uuid_eq⦄ u h s.jobs)
            × Starts obj h s s')

  abbrev Processed : MessageInfo qt → Service → Service × Bool → Type 0
  Processed info s (s', b) =
      ((b ≡ false) × SameTables s s' × Declines s info s'.world)
      ⊎ ((b ≡ true) × Records info.json info.id info.tag s s')

  -- The delivery is of this object, with this identifier.
  abbrev pub IsDelivered : Option (Fields qt.Double) → ℕ → ℕ → Fields qt.Double → qt.Uuid → Type 0
  IsDelivered parsed priority tag obj u =
      (parsed ≡ some obj) × ((message_info qt obj tag priority).id ≡ u)

  moved : (s : Service) (w : services.World) → SameTables s (record s { world = w })
  moved s w = record { same_listener = refl; same_jobs = refl; same_tags = refl }

  module _ (s : Service) (info : MessageInfo qt) where
    begin_job-Processed :
        (m : Message qt) (handler : Option ℕ) (w : services.World)
        → qt.uuid_is_null info.id ≡ false
        → is_some (tag_of s info.id) ≡ false
        → services.has_converter s.world ≡ true
        → message_from_json qt info.json ≡ ok m
        → services.register_job_message s.world m ≡ (handler, w)
        → Processed info s (begin_job qt services (record s { world = w }) info.id info.tag handler)
    unfolding begin_job
    begin_job-Processed m none w named new c read e =
        inl (refl, moved s w, unregistered m w new read e)
    begin_job-Processed m (some h) w named new c read e =
        let p = services.process_job_message (services.connect_finished w h) h in
        elim (Bool-cases p.0) [
          | inl t ↦ rw t (
              inr (
                refl,
                record {
                  same_listener = refl;
                  named = named;
                  tagged = refl;
                  job = inr (
                    new,
                    h,
                    refl,
                    record {
                      message = m;
                      registered_world = w;
                      read = read;
                      converts = c;
                      registered = e;
                      started = ap (λ (b : Bool). (b, p.1)) t;
                    },
                  );
                },
              ))
          | inr t ↦ rw t (
              inl
                (refl, moved s p.1, unstarted m h w p.1 new read e (ap (λ (b : Bool). (b, p.1)) t)))
        ]

    register_job-Processed :
        (m : Result Error (Message qt))
        → qt.uuid_is_null info.id ≡ false
        → is_some (tag_of s info.id) ≡ false
        → services.has_converter s.world ≡ true
        → message_from_json qt info.json ≡ m
        → Processed info s (register_job qt services s info.id info.tag m)
    unfolding register_job
    register_job-Processed (err e) named new c read =
        inl (refl, moved s s.world, unreadable e new read)
    register_job-Processed (ok m) named new c read =
        let (handler, w) = services.register_job_message s.world m in
        begin_job-Processed m handler w named new c read refl

    process_info-Processed : Processed info s (process_info qt services s info)
    unfolding process_info
    process_info-Processed = elim (Bool-cases (qt.uuid_is_null info.id)) [
      | inl e ↦ rw e (inl (refl, moved s s.world, unnamed e))
      | inr e ↦ elim (Bool-cases (is_some (tag_of s info.id))) [
        | inl known ↦
            rw (e, known)
              (inr (
                refl,
                record {
                  same_listener = refl;
                  named = e;
                  tagged = refl;
                  job = inl (known, refl, refl);
                },
              ))
        | inr new ↦ elim (Bool-cases (services.has_converter s.world)) [
          | inl c ↦ rw (e, new, c) (register_job-Processed _ e new c refl)
          | inr c ↦ rw (e, new, c) (inl (refl, moved s s.world, unconverted new c))
        ]
      ]
    ]

  process_parsed-Processed :
      (s : Service) (parsed : Option (Fields qt.Double)) (priority tag : ℕ)
      → let (s', b) = process_parsed qt services s parsed priority tag in
        ((b ≡ false) × SameTables s s' × Refuses s parsed priority tag s'.world)
        ⊎ ((b ≡ true)
            × (obj : Fields qt.Double) × (u : qt.Uuid) × IsDelivered parsed priority tag obj u
            × Records obj u tag s s')
  unfolding process_parsed message_info
  process_parsed-Processed s none priority tag = inl (refl, moved s s.world, inl (refl, refl))
  process_parsed-Processed s (some obj) priority tag =
      elim (process_info-Processed s (message_info qt obj tag priority)) [
        | inl (b, same, d) ↦ inl (b, same, inr (obj, refl, d))
        | inr (b, r) ↦ inr (b, obj, _, (refl, refl), r)
      ]

  pub confirm_lem :
      (s : Service) (tag listener : ℕ)
      → s.listener_handler ≡ some listener
      → confirm_message_tag qt services s tag
        ≡ some (record s { world = services.confirm_receiving s.world listener tag })
  unfolding confirm_message_tag
  confirm_lem s tag listener e = rw e refl

  -- With a listener, `handleJobMessage` returns for every delivery. Either the tables stay, and after
  -- what refused the delivery its tag is confirmed: no object, a null identifier, or, for a message that
  -- had no tag, no converter, an object that is no message, no handle, or a job that does not start. Or
  -- the tag is recorded for the message whose identifier the object gives, which is not null, and which
  -- had a tag, where nothing else happens, or has a new job, where nothing happens but that the message is
  -- registered, its handle connected and the job started; so no confirmation is sent here.
  pub handle_job_message_cases :
      (s : Service) (message : Bytes) (priority tag listener : ℕ)
      → s.listener_handler ≡ some listener
      → (s' : Service) × (handle_job_message qt services s message priority tag ≡ some s')
        × ((SameTables s s'
              × (w : services.World) × Refuses s (qt.parse_object message) priority tag w
              × (s'.world ≡ services.confirm_receiving w listener tag))
            ⊎ ((obj : Fields qt.Double) × (u : qt.Uuid) × IsDelivered
                  (qt.parse_object message)
                  priority
                  tag
                  obj
                  u
                × Records obj u tag s s'))
  unfolding handle_job_message confirm_message_tag process
  handle_job_message_cases s message priority tag listener e =
      let p = process qt services s message priority tag in
      elim (process_parsed-Processed s (qt.parse_object message) priority tag) [
        | inl (b, t, why) ↦ (
          record (p.0) { world = services.confirm_receiving p.0.world listener tag },
          rw b (confirm_lem p.0 tag listener (t.same_listener ∙ e)),
          inl (
            record {
              same_listener = t.same_listener;
              same_jobs = t.same_jobs;
              same_tags = t.same_tags;
            },
            p.0.world,
            why,
            refl,
          ),
        )
        | inr (b, obj, u, d, r) ↦ (p.0, rw b refl, inr (obj, u, d, r))
      ]

  -- With a listener, `handleJobFinished` returns for every handle. If the message of the handle has a job
  -- and a tag, the result is sent, then that tag is confirmed, and both entries go; else nothing changes.
  pub handle_job_finished_cases :
      (s : Service) (handle listener : ℕ)
      → s.listener_handler ≡ some listener
      → let u = (services.message_of s.world handle).message_id in
        (s' : Service) × (handle_job_finished qt services s (some handle) ≡ some s')
        × (((s' ≡ s) × ((job_of s u ≡ none) ⊎ (tag_of s u ≡ none)))
            ⊎ ((is_some (job_of s u) ≡ true)
                × (s'.listener_handler ≡ s.listener_handler)
                × (s'.jobs ≡ erase ⦃e = qt.uuid_eq⦄ u s.jobs)
                × (s'.jobs_delivery_tags ≡ erase ⦃e = qt.uuid_eq⦄ u s.jobs_delivery_tags)
                × (tag : ℕ) × (tag_of s u ≡ some tag)
                × (s'.world
                    ≡ services.confirm_receiving
                        (send_result qt services s.world (services.result_of s.world handle))
                        listener
                        tag)))
  unfolding handle_job_finished finish_valid finish_tagged
  handle_job_finished_cases s handle listener e =
      let u = (services.message_of s.world handle).message_id in
      elim (Option-cases (job_of s u)) [
        | inl j ↦ (s, rw j refl, inl (refl, inl j))
        | inr (h, j) ↦ elim (Option-cases (tag_of s u)) [
          | inl t ↦ (s, rw (j, t) refl, inl (refl, inr t))
          | inr (tag, t) ↦ (_, rw (j, t, e) refl, inr (rw j refl, refl, refl, refl, tag, t, refl))
        ]
      ]

  -- The second case, of a message with a job and a tag, written out.
  pub handle_job_finished_known :
      (s : Service) (handle listener job tag : ℕ)
      → s.listener_handler ≡ some listener
      → job_of s (services.message_of s.world handle).message_id ≡ some job
      → tag_of s (services.message_of s.world handle).message_id ≡ some tag
      → let u = (services.message_of s.world handle).message_id in
        handle_job_finished qt services s (some handle)
        ≡ some (record s {
          world =
              services.confirm_receiving
                (send_result qt services s.world (services.result_of s.world handle))
                listener
                tag;
          jobs = erase ⦃e = qt.uuid_eq⦄ u s.jobs;
          jobs_delivery_tags = erase ⦃e = qt.uuid_eq⦄ u s.jobs_delivery_tags;
        })
  unfolding handle_job_finished finish_valid finish_tagged
  handle_job_finished_known s handle listener job tag e j t = rw (j, t, e) refl
