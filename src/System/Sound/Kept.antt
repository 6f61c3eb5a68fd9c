-- ===== src/System/Sound/Kept.antt =====
-- The invariant of the program over the slot of `finished` and over the events of the converter.
use mathlib.Core.Path.{subst}
use mathlib.Core.Option.{some-injective}
use pipelinerunner.Base.{
  ℕ, ◌≡◌, refl, ap, sym, ◌∙◌, ◌≢◌, inl, inr, Option, some, lookup, erase, nat_eq,
  lookup-erase_other, lookup-erase-some, Option-cases, some_of_is_some,
}
use pipelinerunner.Qt.{Qt}
use pipelinerunner.Rabbit.Channel.{Amqp}
use pipelinerunner.Rabbit.Connection.Outside.{Env}
use pipelinerunner.Rabbit.Listener.{QueueListener}
use pipelinerunner.Converter.Outside.{Desktop}
use pipelinerunner.Converter.{Converter}
use pipelinerunner.Converter.History.{Event, step, step-Keeps}
use pipelinerunner.Runner.{handle_job_finished, send_result}
use pipelinerunner.Runner.Tables.{handle_job_finished_cases}
use pipelinerunner.System.{system, confirm_receiving}
use pipelinerunner.System.Events.{with_converter}
use pipelinerunner.System.Sound.{Prog, job, tag, InWork, Holds, Sound, IsSound}
use pipelinerunner.System.Sound.Effects.{Whole, After, Confirmed, confirm-After, send_result-After}

-- A confirmation keeps the other messages, and the listener's flags.
pub record Beside (t : ℕ) (l l' : QueueListener) : Type 0 where
  pub same_ready : l'.is_ready ≡ l.is_ready
  pub same_mode : l'.is_auto_acknowledge ≡ l.is_auto_acknowledge
  pub others : (k : ℕ) → k ≢ t → lookup k l'.messages ≡ lookup k l.messages

Confirmed-Beside : (t : ℕ) (l l' : QueueListener) → Confirmed t l l' → Beside t l l'
Confirmed-Beside t l l' (inl e) =
    subst (Beside t l) (sym e)
      (record { same_ready = refl; same_mode = refl; others = λ k n. refl })
Confirmed-Beside t l l' (inr e) = subst (Beside t l) (sym e) (record {
  same_ready = refl;
  same_mode = refl;
  others = λ k n. lookup-erase_other k t l.messages n;
})

module _ (qt : Qt) (env : Env) (amqp : Amqp) (desktop : Desktop) (new_uuid : ℕ → qt.Uuid) where
  abbrev P : Type 0
  P = Prog qt env amqp desktop new_uuid

  abbrev pub job_in : P → qt.Uuid → Option ℕ
  job_in = job qt env amqp desktop new_uuid

  abbrev pub tag_in : P → qt.Uuid → Option ℕ
  tag_in = tag qt env amqp desktop new_uuid

  -- What is in work after a step was in work before, with the same tag, which the listener still holds.
  pub Holds-kept :
      (s s' : P) (l l' : QueueListener)
      → Holds qt env amqp desktop new_uuid s l
      → ((u : qt.Uuid) (h : ℕ)
          → job_in s' u ≡ some h
          → InWork qt env amqp desktop new_uuid s u
            × (tag_in s' u ≡ tag_in s u)
            × ((t : ℕ) → tag_in s u ≡ some t → lookup t l'.messages ≡ lookup t l.messages))
      → l'.is_ready ≡ l.is_ready
      → Holds qt env amqp desktop new_uuid s' l'
  Holds-kept s s' l l' v keeps r = record {
    held = λ u i.
        let (before, same, m) = keeps u i.0 i.1 in
        let (t, e, n) = v.held u before in (t, same ∙ e, λ gone. n (sym (m t e) ∙ gone));
    distinct = λ u u' t i i' e e'.
        let (before, same, _) = keeps u i.0 i.1 in
        let (before', same', _) = keeps u' i'.0 i'.1 in
        v.distinct u u' t before before' (sym same ∙ e) (sym same' ∙ e');
    works_ready = λ e u. elim (Option-cases (job_in s' u)) [
      | inl gone ↦ gone
      | inr (h, i) ↦
          (let (before, _, _) = keeps u h i in cc (v.works_ready (sym r ∙ e) u, before.1))
    ];
  }

  -- A confirmation of a tag that no message in work has any more.
  pub confirmed-IsSound :
      (s s' : P) (l : QueueListener) (w : Whole qt env amqp desktop new_uuid) (k : ℕ)
      (v : Sound qt env amqp desktop new_uuid s l)
      → After qt env amqp desktop new_uuid s.world w l
      → s'.world ≡ confirm_receiving qt env amqp desktop new_uuid w v.listener k
      → s'.listener_handler ≡ s.listener_handler
      → ((u : qt.Uuid) (h : ℕ)
          → job_in s' u ≡ some h
          → (job_in s u ≡ some h) × (tag_in s' u ≡ tag_in s u) × (tag_in s u ≢ some k))
      → IsSound qt env amqp desktop new_uuid s'
  confirmed-IsSound s s' l w k v a world handler keeps =
      let (l', c, b) = confirm-After qt env amqp desktop new_uuid w l v.listener k a.serves in
      let b' = subst (λ x. After qt env amqp desktop new_uuid w x l') (sym world) b in
      let m = Confirmed-Beside k l l' c in
      (
        l',
        record {
          serves = b'.serves;
          manual = m.same_mode ∙ v.manual;
          listener = v.listener;
          handler = handler ∙ v.handler;
          c = v.c;
          converts = record {
            there = b'.same_converter ∙ a.same_converter ∙ v.converts.there;
            filed = v.converts.filed;
            known = λ u h i. v.converts.known u h (keeps u h i).0;
          };
          holds =
              Holds-kept s s' l l' v.holds
                (λ u h i.
                  let (before, same, differ) = keeps u h i in
                  ((h, before), same, λ t e. m.others t (λ is. differ (e ∙ ap some is))))
                m.same_ready;
        },
      )

  erased_kept :
      (s t : P) (l : QueueListener) (u : qt.Uuid) (k : ℕ)
      → Sound qt env amqp desktop new_uuid s l
      → t.jobs ≡ erase ⦃e = qt.uuid_eq⦄ u s.jobs
      → t.jobs_delivery_tags ≡ erase ⦃e = qt.uuid_eq⦄ u s.jobs_delivery_tags
      → InWork qt env amqp desktop new_uuid s u
      → tag_in s u ≡ some k
      → (u' : qt.Uuid) (g : ℕ) → job_in t u' ≡ some g
      → (job_in s u' ≡ some g) × (tag_in t u' ≡ tag_in s u') × (tag_in s u' ≢ some k)
  erased_kept s t l u k v jobs tags works found u' g i =
      let (n, before) =
        lookup-erase-some ⦃e = qt.uuid_eq⦄ u' u g s.jobs
          (ap (lookup ⦃e = qt.uuid_eq⦄ u') (sym jobs) ∙ i) in
      (
        before,
        ap (lookup ⦃e = qt.uuid_eq⦄ u') tags
            ∙ lookup-erase_other ⦃e = qt.uuid_eq⦄ u' u s.jobs_delivery_tags n,
        λ same. n (v.holds.distinct u' u k (g, before) works same found),
      )

  -- The slot of `finished`, for any handle.
  pub finish-IsSound :
      (s s' : P) (l : QueueListener) (h : ℕ)
      → Sound qt env amqp desktop new_uuid s l
      → handle_job_finished qt (system qt env amqp desktop new_uuid) s (some h) ≡ some s'
      → IsSound qt env amqp desktop new_uuid s'
  finish-IsSound s s' l h v e =
      let sys = system qt env amqp desktop new_uuid in
      let (t, run, what) = handle_job_finished_cases qt sys s h v.listener v.handler in
      let same : t ≡ s' = some-injective t s' (sym run ∙ e) in
      subst (IsSound qt env amqp desktop new_uuid) same (elim what [
        | inl (stays, _) ↦ subst (IsSound qt env amqp desktop new_uuid) (sym stays) (l, v)
        | inr (j, handler, jobs, tags, k, found, world) ↦
            confirmed-IsSound s t l (send_result qt sys s.world (sys.result_of s.world h)) k v
              (send_result-After qt env amqp desktop new_uuid s.world l _ v.serves) world handler
              (erased_kept s t l _ k v jobs tags (some_of_is_some (job_in s _) j) found)
      ])

  -- An event of the converter, on whatever it is.
  pub converter-IsSound :
      (s : P) (l : QueueListener) (c c' : Converter qt desktop) (e : Event qt desktop)
      → Sound qt env amqp desktop new_uuid s l
      → s.world.converter ≡ some c
      → step qt desktop c e ≡ some c'
      → Sound qt env amqp desktop new_uuid (with_converter qt env amqp desktop new_uuid s c') l
  converter-IsSound s l c c' e v there run =
      let same : v.c ≡ c = some-injective v.c c (sym v.converts.there ∙ there) in
      let (filed, keep) =
        step-Keeps qt desktop v.c c' e v.converts.filed
          (subst (λ x. step qt desktop x e ≡ some c') (sym same) run) in
      record {
        serves = record {
          service = v.serves.service;
          cl = v.serves.cl;
          rabbit = v.serves.rabbit;
          client = v.serves.client;
          found = v.serves.found;
        };
        manual = v.manual;
        listener = v.listener;
        handler = v.handler;
        c = c';
        converts = record {
          there = refl;
          filed = filed;
          known = λ u h i. let (m, at, id) = v.converts.known u h i in (m, keep h m at, id);
        };
        holds = record {
          held = v.holds.held;
          distinct = v.holds.distinct;
          works_ready = v.holds.works_ready;
        };
      }

  -- A change of the broker.
  pub broker-IsSound :
      (s : P) (l : QueueListener) (b : amqp.World)
      → Sound qt env amqp desktop new_uuid s l
      → Sound qt env amqp desktop new_uuid (record s { world = record (s.world) { broker = b } }) l
  broker-IsSound s l b v = record {
    serves = record {
      service = v.serves.service;
      cl = v.serves.cl;
      rabbit = v.serves.rabbit;
      client = v.serves.client;
      found = v.serves.found;
    };
    manual = v.manual;
    listener = v.listener;
    handler = v.handler;
    c = v.c;
    converts = record {
      there = v.converts.there;
      filed = v.converts.filed;
      known = v.converts.known;
    };
    holds = record {
      held = v.holds.held;
      distinct = v.holds.distinct;
      works_ready = v.holds.works_ready;
    };
  }
