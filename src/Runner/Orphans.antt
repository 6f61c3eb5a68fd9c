-- ===== src/Runner/Orphans.antt =====
-- runnerservice.cpp: runs of the service's slots. Between two calls the world changes as it likes.
use pipelinerunner.Toolkit.Value.{Fields}
use pipelinerunner.Base.{
  ℕ, ◌≡◌, refl, ◌∙◌, ◌≢◌, ◌⊎◌, inl, inr, true, false, List, [], ◌∷◌, Option, none, some, Dict,
  lookup, insert, erase, lookup-insert, lookup-erase, lookup-nil, is_some, arith, Eq,
}
use pipelinerunner.Qt.{Qt}
use pipelinerunner.Rabbit.Channel.{Bytes}
use pipelinerunner.Runner.Outside.{Services}
use pipelinerunner.Runner.{handle_job_message, handle_job_finished, abort_all_jobs}
use pipelinerunner.Runner.Tables.{
  Service, job_of, tag_of, Records, handle_job_message_cases, handle_job_finished_cases,
}

module _ {K : Type 0} {V : Type 0} ⦃e : Eq K⦄ where
  is_some-insert :
      (j k : K) (v : V) (d : Dict K V)
      → (j ≡ k) ⊎ (is_some (lookup j d) ≡ true)
      → is_some (lookup j (insert k v d)) ≡ true
  is_some-insert j k v d h = ground (arith, lookup-insert j k v d)

  of_is_some-insert :
      (j k : K) (v : V) (d : Dict K V)
      → is_some (lookup j (insert k v d)) ≡ true
      → (j ≡ k) ⊎ (is_some (lookup j d) ≡ true)
  of_is_some-insert j k v d h = ground (arith, lookup-insert j k v d)

  is_some-erase :
      (j k : K) (d : Dict K V)
      → j ≢ k
      → is_some (lookup j d) ≡ true
      → is_some (lookup j (erase k d)) ≡ true
  is_some-erase j k d n h = ground (arith, lookup-erase j k d)

  of_is_some-erase :
      (j k : K) (d : Dict K V)
      → is_some (lookup j (erase k d)) ≡ true
      → (j ≢ k) × (is_some (lookup j d) ≡ true)
  of_is_some-erase j k d h = ground (arith, lookup-erase j k d)

  differ :
      (j k : K) (d : Dict K V) → is_some (lookup j d) ≡ false → is_some (lookup k d) ≡ true → j ≢ k
  differ j k d n h same = cc

  insert-other :
      (j k : K) (v : V) (c d : Dict K V)
      → is_some (lookup j c) ≡ true
      → is_some (lookup k c) ≡ false
      → is_some (lookup j d) ≡ false
      → is_some (lookup j (insert k v d)) ≡ false
  insert-other j k v c d h n m = ground (arith, lookup-insert j k v d, differ k j c n h)

  erase-other :
      (j k : K) (d : Dict K V)
      → is_some (lookup j d) ≡ false
      → is_some (lookup j (erase k d)) ≡ false
  erase-other j k d n = ground (arith, lookup-erase j k d)

module _ (qt : Qt) (services : Services qt) where
  pub data Call : Type 0 where
    job_message : Bytes → ℕ → ℕ → Call
    job_finished : Option ℕ → Call
    connection_broken : Call
    elapsed : services.World → Call

  pub step : Service qt services → Call → Option (Service qt services)
  step s (job_message m priority tag) = handle_job_message qt services s m priority tag
  step s (job_finished handle) = handle_job_finished qt services s handle
  step s connection_broken = some (abort_all_jobs qt services s)
  step s (elapsed w) = some (record s { world = w })

  unfoldable pub run : Service qt services → List Call → Option (Service qt services)
  run s [] = some s
  run s (c ∷ cs) = elim (step s c) [ none ↦ none | some s' ↦ run s' cs ]

  -- What a call may do to the tables.
  data Changes (s s' : Service qt services) : Type 0 where
    keeps : s'.jobs ≡ s.jobs → s'.jobs_delivery_tags ≡ s.jobs_delivery_tags → Changes s s'
    records :
        (obj : Fields qt.Double) (u : qt.Uuid) (tag : ℕ)
        → Records qt services obj u tag s s'
        → Changes s s'
    erases :
        (u : qt.Uuid)
        → is_some (job_of qt services s u) ≡ true
        → s'.jobs ≡ erase ⦃e = qt.uuid_eq⦄ u s.jobs
        → s'.jobs_delivery_tags ≡ erase ⦃e = qt.uuid_eq⦄ u s.jobs_delivery_tags
        → Changes s s'
    aborts : s'.jobs ≡ [] → s'.jobs_delivery_tags ≡ s.jobs_delivery_tags → Changes s s'

  abbrev Steps : ℕ → Service qt services → Option (Service qt services) → Type 0
  Steps l s r =
      (s' : Service qt services) × (r ≡ some s') × (s'.listener_handler ≡ some l) × Changes s s'

  step-Steps :
      (s : Service qt services) (c : Call) (l : ℕ)
      → s.listener_handler ≡ some l
      → Steps l s (step s c)
  unfolding step handle_job_finished abort_all_jobs
  step-Steps s (job_message m priority tag) l e =
      let (s', r, how) = handle_job_message_cases qt services s m priority tag l e in
      let same_and_changes : (s'.listener_handler ≡ some l) × Changes s s' = elim how [
        | inl (t, _, _, _) ↦ (t.same_listener ∙ e, keeps t.same_jobs t.same_tags)
        | inr (obj, u, _, t) ↦ (t.same_listener ∙ e, records obj u tag t)
      ] in
      (s', r, same_and_changes.0, same_and_changes.1)
  step-Steps s (job_finished none) l e = (s, refl, e, keeps refl refl)
  step-Steps s (job_finished (some h)) l e =
      let (s', r, how) = handle_job_finished_cases qt services s h l e in
      let same_and_changes : (s'.listener_handler ≡ some l) × Changes s s' = elim how [
        | inl (t, w) ↦ rw t (e, keeps refl refl)
        | inr (has, same, j, t, _, _, _) ↦ (same ∙ e, erases _ has j t)
      ] in
      (s', r, same_and_changes.0, same_and_changes.1)
  step-Steps s connection_broken l e = (_, refl, e, aborts refl refl)
  step-Steps s (elapsed w) l e = (_, refl, e, keeps refl refl)

  -- What each call keeps, a run keeps.
  run-keeps :
      (P : Service qt services → Type 0)
      → ((s s' : Service qt services) → Changes s s' → P s → P s')
      → (s : Service qt services) (cs : List Call) (l : ℕ) → s.listener_handler ≡ some l
      → P s
      → (s' : Service qt services) × (run s cs ≡ some s') × (s'.listener_handler ≡ some l) × P s'
  unfolding run
  run-keeps P keep s [] l e p = (s, refl, e, p)
  run-keeps P keep s (c ∷ cs) l e p =
      let (s', r, e', how) = step-Steps s c l e in
      let (s'', r', e'', q) = run-keeps P keep s' cs l e' (keep s s' how p) in
      (s'', rw (r, run) r', e'', q)

  -- Every message with a job has a delivery tag.
  pub ServiceIsFiled : Service qt services → Type 0
  ServiceIsFiled s =
      (u : qt.Uuid)
      → is_some (job_of qt services s u) ≡ true
      → is_some (tag_of qt services s u) ≡ true

  step-ServiceIsFiled :
      (s s' : Service qt services) → Changes s s' → ServiceIsFiled s → ServiceIsFiled s'
  unfolding ServiceIsFiled
  step-ServiceIsFiled s s' (keeps j t) filed u h = rw t (filed u (rw j at h))
  step-ServiceIsFiled s s' (records obj v tag r) filed u h =
      let k : (u ≡ v) ⊎ (is_some (tag_of qt services s u) ≡ true) = elim r.job [
        | inl (known, j, _) ↦ inr (filed u (rw j at h))
        | inr (new, i, j, _) ↦ elim (of_is_some-insert ⦃e = qt.uuid_eq⦄ u v i s.jobs (rw j at h)) [
          | inl same ↦ inl same
          | inr old ↦ inr (filed u old)
        ]
      ] in
      rw r.tagged (is_some-insert ⦃e = qt.uuid_eq⦄ u v tag s.jobs_delivery_tags k)
  step-ServiceIsFiled s s' (erases v has j t) filed u h =
      let (n, k) = of_is_some-erase ⦃e = qt.uuid_eq⦄ u v s.jobs (rw j at h) in
      rw t (is_some-erase ⦃e = qt.uuid_eq⦄ u v s.jobs_delivery_tags n (filed u k))
  step-ServiceIsFiled s s' (aborts j t) filed u h = cc (rw (j, lookup-nil ⦃e = qt.uuid_eq⦄ u) at h)

  pub no_jobs-ServiceIsFiled : (s : Service qt services) → s.jobs ≡ [] → ServiceIsFiled s
  unfolding ServiceIsFiled
  no_jobs-ServiceIsFiled s e u h = cc (rw (e, lookup-nil ⦃e = qt.uuid_eq⦄ u) at h)

  -- From a service with a listener whose every job has a tag, any run of calls is answered, keeps the
  -- listener, and every job has a tag again.
  pub run-ServiceIsFiled :
      (s : Service qt services) (cs : List Call) (l : ℕ)
      → s.listener_handler ≡ some l
      → ServiceIsFiled s
      → (s' : Service qt services) × (run s cs ≡ some s')
        × (s'.listener_handler ≡ some l)
        × ServiceIsFiled s'
  run-ServiceIsFiled s cs l e p = run-keeps ServiceIsFiled step-ServiceIsFiled s cs l e p

  -- The message has a tag and no job.
  pub IsOrphan : qt.Uuid → Service qt services → Type 0
  IsOrphan u s =
      (is_some (tag_of qt services s u) ≡ true) × (is_some (job_of qt services s u) ≡ false)

  step-IsOrphan :
      (u : qt.Uuid) (s s' : Service qt services) → Changes s s' → IsOrphan u s → IsOrphan u s'
  unfolding IsOrphan
  step-IsOrphan u s s' (keeps j t) p = rw (j, t) p
  step-IsOrphan u s s' (records obj v tag r) p = (
    rw r.tagged (is_some-insert ⦃e = qt.uuid_eq⦄ u v tag s.jobs_delivery_tags (inr p.0)),
    elim r.job [
      | inl (known, j, _) ↦ rw j p.1
      | inr (new, i, j, _) ↦
          rw j (insert-other ⦃e = qt.uuid_eq⦄ u v i s.jobs_delivery_tags s.jobs p.0 new p.1)
    ],
  )
  step-IsOrphan u s s' (erases v has j t) p = (
    rw t (
        is_some-erase ⦃e = qt.uuid_eq⦄ u v s.jobs_delivery_tags
          (differ ⦃e = qt.uuid_eq⦄ u v s.jobs p.1 has) p.0),
    rw j (erase-other ⦃e = qt.uuid_eq⦄ u v s.jobs p.1),
  )
  step-IsOrphan u s s' (aborts j t) p = (rw t p.0, rw (j, lookup-nil ⦃e = qt.uuid_eq⦄ u) refl)

  -- With a listener, a message that has a tag when the connection breaks has a tag and no job after any
  -- calls that follow, deliveries of the same message among them.
  pub aborted-IsOrphan :
      (s : Service qt services) (u : qt.Uuid) (cs : List Call) (l : ℕ)
      → s.listener_handler ≡ some l
      → is_some (tag_of qt services s u) ≡ true
      → (s' : Service qt services) × (run s (connection_broken ∷ cs) ≡ some s')
        × (is_some (tag_of qt services s' u) ≡ true)
        × (is_some (job_of qt services s' u) ≡ false)
  unfolding run IsOrphan step abort_all_jobs
  aborted-IsOrphan s u cs l e h =
      let (s', r, _, p) =
        run-keeps (IsOrphan u) (step-IsOrphan u) (abort_all_jobs qt services s) cs l e
          (h, rw (lookup-nil ⦃e = qt.uuid_eq⦄ u) refl) in
      (s', r, p.0, p.1)
