-- ===== src/Runner/New.antt =====
-- runnerservice.cpp: a message that is new.
use pipelinerunner.Base.{
  ℕ, ◌≡◌, refl, ◌⊎◌, inl, inr, Bool, true, false, Option, some, insert, is_some, Bool-cases,
  Option-cases,
}
use pipelinerunner.Base.Results.{ok, Result-cases}
use pipelinerunner.Toolkit.Value.{Fields}
use pipelinerunner.Qt.{Qt}
use pipelinerunner.Common.Message.{Message, MessageInfo, message_info, message_from_json}
use pipelinerunner.Rabbit.Channel.{Bytes}
use pipelinerunner.Runner.Outside.{Services}
use pipelinerunner.Runner.{
  begin_job, register_job, process_info, process_parsed, process, handle_job_message,
}
use pipelinerunner.Runner.Tables.{Service, tag_of, confirm_lem}

module _ (qt : Qt) (services : Services qt) where
  -- The job of a message is entered under this handle.
  abbrev pub entered : Service qt services → qt.Uuid → ℕ → ℕ → services.World → Service qt services
  entered s u handle tag w = record s {
    jobs = insert ⦃e = qt.uuid_eq⦄ u handle s.jobs;
    jobs_delivery_tags = insert ⦃e = qt.uuid_eq⦄ u tag s.jobs_delivery_tags;
    world = w;
  }

  -- A delivery that is taken: of a message that is new and can be read, by a converter that gives it a
  -- handle and takes the handle.
  pub record IsTaken (s : Service qt services) (info : MessageInfo qt) (m : Message qt) (handle : ℕ)
      (w w' : services.World) : Type 0 where
    pub named : qt.uuid_is_null info.id ≡ false
    pub unknown : is_some (tag_of qt services s info.id) ≡ false
    pub converts : services.has_converter s.world ≡ true
    pub read : message_from_json qt info.json ≡ ok m
    pub registered : services.register_job_message s.world m ≡ (some handle, w)
    pub queued :
        services.process_job_message (services.connect_finished w handle) handle ≡ (true, w')

  process_info_new :
      (s : Service qt services) (info : MessageInfo qt) (m : Message qt) (handle : ℕ)
      (w w' : services.World)
      → IsTaken s info m handle w w'
      → process_info qt services s info ≡ (entered s info.id handle info.tag w', true)
  unfolding process_info register_job begin_job
  process_info_new s info m handle w w' t =
      rw (t.named, t.unknown, t.converts, t.read, t.registered, t.queued) refl

  tag_kept :
      (s : Service qt services) (bytes : Bytes) (priority tag : ℕ) (obj : Fields qt.Double)
      (handle : ℕ) (w' : services.World)
      → ◌≡◌ {A = Option (Service qt services)}
          (some (
            entered s
              (message_info qt obj tag priority).id
              handle
              (message_info qt obj tag priority).tag
              w'))
          (some (entered s (message_info qt obj tag priority).id handle tag w'))
  unfolding message_info
  tag_kept s bytes priority tag obj handle w' = refl

  pub handle_job_message_new :
      (s : Service qt services) (bytes : Bytes) (priority tag : ℕ) (obj : Fields qt.Double)
      (m : Message qt) (handle : ℕ) (w w' : services.World)
      → qt.parse_object bytes ≡ some obj
      → IsTaken s (message_info qt obj tag priority) m handle w w'
      → handle_job_message qt services s bytes priority tag
        ≡ some (entered s (message_info qt obj tag priority).id handle tag w')
  unfolding handle_job_message process process_parsed
  handle_job_message_new s bytes priority tag obj m handle w w' p t =
      rw (p, process_info_new s (message_info qt obj tag priority) m handle w w' t)
        (tag_kept s bytes priority tag obj handle w')

  -- What the body and the state have to be for a delivery to be taken, apart from the converter's answer.
  pub record IsReadable (s : Service qt services) (bytes : Bytes) (priority tag : ℕ)
      (obj : Fields qt.Double) (m : Message qt) : Type 0 where
    pub parsed : qt.parse_object bytes ≡ some obj
    pub named : qt.uuid_is_null (message_info qt obj tag priority).id ≡ false
    pub unknown : is_some (tag_of qt services s (message_info qt obj tag priority).id) ≡ false
    pub converts : services.has_converter s.world ≡ true
    pub read : message_from_json qt (message_info qt obj tag priority).json ≡ ok m

  abbrev Split : Service qt services → MessageInfo qt → Service qt services × Bool → Type 0
  Split s info r =
      (r ≡ (s, false))
      ⊎ (((is_some (tag_of qt services s info.id) ≡ true)
            × (r ≡ (
              record s {
                jobs_delivery_tags = insert ⦃e = qt.uuid_eq⦄ info.id info.tag s.jobs_delivery_tags;
              },
              true,
            )))
          ⊎ ((m : Message qt) × (qt.uuid_is_null info.id ≡ false)
              × (is_some (tag_of qt services s info.id) ≡ false)
              × (services.has_converter s.world ≡ true)
              × (message_from_json qt info.json ≡ ok m)))

  process_info-Split :
      (s : Service qt services) (info : MessageInfo qt)
      → Split s info (process_info qt services s info)
  unfolding process_info register_job
  process_info-Split s info = elim (Bool-cases (qt.uuid_is_null info.id)) [
    | inl e ↦ inl (rw e refl)
    | inr e ↦ elim (Bool-cases (is_some (tag_of qt services s info.id))) [
      | inl known ↦ inr (inl (known, rw (e, known) refl))
      | inr new ↦ elim (Bool-cases (services.has_converter s.world)) [
        | inl c ↦ elim (Result-cases (message_from_json qt info.json)) [
          | inl (x, f) ↦ inl (rw (e, new, c, f) refl)
          | inr (m, f) ↦ inr (inr (m, e, new, c, f))
        ]
        | inr c ↦ inl (rw (e, new, c) refl)
      ]
    ]
  ]

  -- The delivery is refused, of a message that has a tag already, or one that a converter can take.
  abbrev pub Takes : Service qt services → Bytes → ℕ → ℕ → ℕ → Option (Service qt services) → Type 0
  Takes s bytes priority tag listener o =
      (o ≡ some (record s { world = services.confirm_receiving s.world listener tag }))
      ⊎ (((u : qt.Uuid) × (is_some (tag_of qt services s u) ≡ true)
            × (o
                ≡ some (record s {
                  jobs_delivery_tags = insert ⦃e = qt.uuid_eq⦄ u tag s.jobs_delivery_tags;
                })))
          ⊎ ((obj : Fields qt.Double) × (m : Message qt) × IsReadable s bytes priority tag obj m))

  tag_same :
      (s : Service qt services) (bytes : Bytes) (priority tag : ℕ) (obj : Fields qt.Double)
      → let info = message_info qt obj tag priority in
        ◌≡◌ {A = Option (Service qt services)}
          (some (record s {
            jobs_delivery_tags = insert ⦃e = qt.uuid_eq⦄ info.id info.tag s.jobs_delivery_tags;
          }))
          (some (record s {
            jobs_delivery_tags = insert ⦃e = qt.uuid_eq⦄ info.id tag s.jobs_delivery_tags;
          }))
  unfolding message_info
  tag_same s bytes priority tag obj = refl

  pub handle_job_message_split :
      (s : Service qt services) (bytes : Bytes) (priority tag listener : ℕ)
      → s.listener_handler ≡ some listener
      → Takes s bytes priority tag listener (handle_job_message qt services s bytes priority tag)
  unfolding handle_job_message process process_parsed
  handle_job_message_split s bytes priority tag listener l =
      elim (Option-cases (qt.parse_object bytes)) [
        | inl p ↦ inl (rw p (confirm_lem qt services s tag listener l))
        | inr (obj, p) ↦ elim (process_info-Split s (message_info qt obj tag priority)) [
          | inl e ↦ inl (rw (p, e) (confirm_lem qt services s tag listener l))
          | inr (inl (known, e)) ↦
              inr (inl (_, known, rw (p, e) (tag_same s bytes priority tag obj)))
          | inr (inr (m, named, new, c, f)) ↦ inr (
              inr (
                obj,
                m,
                record { parsed = p; named = named; unknown = new; converts = c; read = f },
              ))
        ]
      ]
