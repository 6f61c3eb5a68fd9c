-- ===== src/Converter/History.antt =====
-- converterservice.cpp over any sequence of calls: each job has a handle of its own, and keeps its message.
use pipelinerunner.Base.{
  ℕ, ◌+◌, ◌≤◌, ◌<◌, ◌≡◌, refl, ◌∙◌, ◌≢◌, inl, inr, Bool, List, [], ◌∷◌, ◌++◌, Option, none, some,
  ap, lookup, lookup-nil, insert, lookup-insert, nat_eq, arith, Option-cases, if◌then◌else◌, ◌==◌,
}
use mathlib.Core.Path.{subst}
use mathlib.Core.Option
use mathlib.Core.Option.{some-injective}
use mathlib.Core.Logic.{if_pos, if_neg}
use pipelinerunner.Qt.{Qt}
use pipelinerunner.Common.Message.{Message}
use pipelinerunner.Converter.Outside.{Desktop}
use pipelinerunner.Converter.{
  register_job_message, process_job_message, start_job, end_job, handle_process_finished,
  handle_process_error,
}
use pipelinerunner.Converter.Steps.{Conv, message_at}
use pipelinerunner.Converter.Handles.{
  AllDistinct, All, All-map, All-suffix, distinct_suffix, All-snoc, distinct_snoc,
}
use pipelinerunner.Converter.Drops.{Drops, ending-Drops, starting-Drops, finished-Drops}

module _ (qt : Qt) (desktop : Desktop) where
  -- The jobs in the queue have handles of their own, which were given out. A handle that was given out
  -- refers to a message, any other to nothing.
  pub record JobsAreFiled (s : Conv qt desktop) : Type 0 where
    pub distinct : AllDistinct s.received_messages
    pub given : All (λ k. k < s.next_handle) s.received_messages
    pub known :
        (k : ℕ) → k < s.next_handle → (m : Message qt) × (message_at qt desktop s k ≡ some m)
    pub fresh : (k : ℕ) → s.next_handle ≤ k → message_at qt desktop s k ≡ none

  pub data Event : Type 0 where
    submits : Message qt → Event
    starts process_fails : Event
    process_ends : ℕ → Bool → Event
    elapsed : desktop.World → Event

  -- `registerJobMessage` and then `processJobMessage` with the handle, as RunnerService calls them.
  unfoldable pub submit : Conv qt desktop → Message qt → Conv qt desktop
  submit s m =
      let (s', h) = register_job_message qt desktop s m in
      (process_job_message qt desktop s' (some h)).0

  unfoldable pub step : Conv qt desktop → Event → Option (Conv qt desktop)
  step s (submits m) = some (submit s m)
  step s starts = start_job qt desktop s
  step s process_fails = handle_process_error qt desktop s
  step s (process_ends code normal) = handle_process_finished qt desktop s code normal
  step s (elapsed w) = some (record s { world = w })

  unfoldable pub run : Conv qt desktop → List Event → Option (Conv qt desktop)
  run s [] = some s
  run s (e ∷ es) = elim (step s e) [ none ↦ none | some s' ↦ run s' es ]

  Drops-JobsAreFiled :
      (s s' : Conv qt desktop) → Drops qt desktop s s' → JobsAreFiled s → JobsAreFiled s'
  Drops-JobsAreFiled s s' d v = record {
    distinct =
        distinct_suffix d.in_order.0 s'.received_messages
          (subst AllDistinct d.in_order.1 v.distinct);
    given =
        All-suffix (λ k. k < s'.next_handle) d.in_order.0 s'.received_messages
          (subst (All (λ k. k < s'.next_handle)) d.in_order.1 (rw d.same_next v.given));
    known = λ k lt. let (m, e) = v.known k (rw d.same_next at lt) in (m, d.same_messages k ∙ e);
    fresh = λ k le. d.same_messages k ∙ v.fresh k (rw d.same_next at le);
  }

  pub submit_lem :
      (s : Conv qt desktop) (m : Message qt)
      → ((submit s m).received_messages ≡ s.received_messages ++ s.next_handle ∷ [])
        × ((submit s m).handles
            ≡ insert s.next_handle
                (record { start_time = none; end_time = none; message = m; result = none })
                s.handles)
        × ((submit s m).next_handle ≡ s.next_handle + 1)
  unfolding submit register_job_message process_job_message
  submit_lem s m = ground arith

  pub message_at-submit :
      (s : Conv qt desktop) (m : Message qt) (k : ℕ)
      → message_at qt desktop (submit s m) k
        ≡ (if k == s.next_handle then some m else message_at qt desktop s k)
  message_at-submit s m k = rw ((submit_lem s m).1) (
      ground (
        arith,
        lookup-insert k s.next_handle
            (record { start_time = none; end_time = none; message = m; result = none }) s.handles,
      ))

  fresh_after :
      (s : Conv qt desktop) (m : Message qt) (k : ℕ)
      → JobsAreFiled s
      → s.next_handle + 1 ≤ k
      → message_at qt desktop (submit s m) k ≡ none
  fresh_after s m k v le =
      let differ : k ≢ s.next_handle = λ e. absurd (omega (arith, le, e)) in
      rw (message_at-submit s m k, if_neg (nat_eq.dec k s.next_handle) differ)
        (v.fresh k (omega (arith, le)))

  known_after :
      (s : Conv qt desktop) (m : Message qt) (k : ℕ)
      → JobsAreFiled s
      → k < s.next_handle + 1
      → (m' : Message qt) × (message_at qt desktop (submit s m) k ≡ some m')
  known_after s m k v lt = elim (nat_eq.dec k s.next_handle) [
    | yes p ↦ (m, rw (message_at-submit s m k, if_pos (nat_eq.dec k s.next_handle) p) refl)
    | no n ↦
        let (m', e) = v.known k (omega (arith, lt, n)) in
        (m', rw (message_at-submit s m k, if_neg (nat_eq.dec k s.next_handle) n) e)
  ]

  pub submit-JobsAreFiled :
      (s : Conv qt desktop) (m : Message qt) → JobsAreFiled s → JobsAreFiled (submit s m)
  submit-JobsAreFiled s m v =
      let (q, _, n) = submit_lem s m in
      record {
        distinct = rw q (distinct_snoc s.received_messages s.next_handle v.given v.distinct);
        given =
            rw (q, n)
              (All-snoc (λ k. k < s.next_handle + 1) s.received_messages s.next_handle
                (All-map _ _ s.received_messages (λ k lt. omega (arith, lt)) v.given)
                (omega arith));
        known = λ k lt. known_after s m k v (rw n at lt);
        fresh = λ k le. fresh_after s m k v (rw n at le);
      }

  -- A service that was just made.
  pub new-JobsAreFiled :
      (s : Conv qt desktop)
      → s.received_messages ≡ []
      → s.handles ≡ []
      → s.next_handle ≡ 0
      → JobsAreFiled s
  new-JobsAreFiled s q d n = record {
    distinct = rw q tt;
    given = rw q tt;
    known = λ k lt. absurd (omega (arith, lt, n));
    fresh = λ k le.
        ap (λ x. Option.map (λ j. j.message) (lookup k x)) d
        ∙ ap (Option.map (λ j. j.message)) (lookup-nil k);
  }

  -- What a step or a run keeps.
  abbrev pub Keeps : Conv qt desktop → Conv qt desktop → Type 0
  Keeps s s' =
      JobsAreFiled s'
      × ((k : ℕ) (m : Message qt)
          → message_at qt desktop s k ≡ some m
          → message_at qt desktop s' k ≡ some m)

  Drops-Keeps : (s s' : Conv qt desktop) → Drops qt desktop s s' → JobsAreFiled s → Keeps s s'
  Drops-Keeps s s' d v = (Drops-JobsAreFiled s s' d v, λ k m e. d.same_messages k ∙ e)

  pub kept_by_submit :
      (s : Conv qt desktop) (m' m : Message qt) (k : ℕ)
      → JobsAreFiled s
      → message_at qt desktop s k ≡ some m
      → message_at qt desktop (submit s m') k ≡ some m
  kept_by_submit s m' m k v e =
      let differ : k ≢ s.next_handle = λ same. cc (v.fresh k (omega (arith, same)), e) in
      rw (message_at-submit s m' k, if_neg (nat_eq.dec k s.next_handle) differ) e

  pub step-Keeps :
      (s s' : Conv qt desktop) (e : Event) → JobsAreFiled s → step s e ≡ some s' → Keeps s s'
  unfolding step start_job handle_process_error end_job
  step-Keeps s s' (submits m) v e =
      subst (Keeps s) (some-injective _ s' e)
        (submit-JobsAreFiled s m v, λ k m' h. kept_by_submit s m m' k v h)
  step-Keeps s s' starts v e =
      Drops-Keeps s s' (starting-Drops qt desktop s.received_messages s s' refl e) v
  step-Keeps s s' process_fails v e =
      Drops-Keeps s s' (ending-Drops qt desktop s.received_messages s s' none refl e) v
  step-Keeps s s' (process_ends code normal) v e =
      Drops-Keeps s s' (finished-Drops qt desktop s s' code normal e) v
  step-Keeps s s' (elapsed w) v e = subst (Keeps s) (some-injective _ s' e) (
    record { distinct = v.distinct; given = v.given; known = v.known; fresh = v.fresh },
    λ k m h. h,
  )

  pub start_job-JobsAreFiled :
      (s s' : Conv qt desktop) → JobsAreFiled s → start_job qt desktop s ≡ some s' → JobsAreFiled s'
  unfolding step
  start_job-JobsAreFiled s s' v e = (step-Keeps s s' starts v e).0

  -- Over any calls that do not take the front of an empty queue, from a service whose jobs are filed: no
  -- handle stands in the queue twice, each was given out, just the handles that were given out refer to
  -- a message, and every handle keeps its message.
  pub run-JobsAreFiled :
      (es : List Event) (s s' : Conv qt desktop)
      → JobsAreFiled s
      → run s es ≡ some s'
      → JobsAreFiled s'
        × ((k : ℕ) (m : Message qt)
            → message_at qt desktop s k ≡ some m
            → message_at qt desktop s' k ≡ some m)
  unfolding run
  run-JobsAreFiled [] s s' v e = subst (Keeps s) (some-injective s s' e) (v, λ k m h. h)
  run-JobsAreFiled (e ∷ es) s s' v r = elim (Option-cases (step s e)) [
    | inl stop ↦ cc (rw (stop, run) at r)
    | inr (t, go) ↦
        (let (v', keep) = step-Keeps s t e v go in
          let (v'', keep') = run-JobsAreFiled es t s' v' (rw (go, run) at r) in
          (v'', λ k m h. keep' k m (keep k m h)))
  ]
