-- ===== src/System/Sound/Delivered.antt =====
-- The invariant of the program over a delivery that its listener has taken.
use mathlib.Core.Path.{subst}
use mathlib.Core.Option.{some-injective}
use mathlib.Core.Logic.{if_pos}
use pipelinerunner.Base.{
  ℕ, ◌≡◌, refl, ap, sym, ◌∙◌, ◌≢◌, inl, inr, true, Option, none, some, lookup, insert, nat_eq,
  lookup-insert_other, lookup-insert_same,
}
use pipelinerunner.Qt.{Qt}
use pipelinerunner.Common.Message.{Message, message_info}
use pipelinerunner.Common.Message.RoundTrip.{message_info-read}
use pipelinerunner.Rabbit.Channel.{Bytes, Amqp}
use pipelinerunner.Rabbit.Connection.Outside.{Env}
use pipelinerunner.Rabbit.Listener.{QueueListener}
use pipelinerunner.Converter.Outside.{Desktop}
use pipelinerunner.Converter.{Converter}
use pipelinerunner.Converter.Steps.{message_at}
use pipelinerunner.Converter.History.{
  JobsAreFiled, submit, submit-JobsAreFiled, message_at-submit, kept_by_submit,
}
use pipelinerunner.Runner.{handle_job_message}
use pipelinerunner.Runner.New.{handle_job_message_split, entered}
use pipelinerunner.System.{system}
use pipelinerunner.System.Starting.{new_message_is_queued}
use pipelinerunner.System.Sound.{Prog, InWork, Holds, Sound, IsSound}
use pipelinerunner.System.Sound.Kept.{job_in, tag_in, confirmed-IsSound}

module _ (qt : Qt) (env : Env) (amqp : Amqp) (desktop : Desktop) (new_uuid : ℕ → qt.Uuid) where
  abbrev P : Type 0
  P = Prog qt env amqp desktop new_uuid

  abbrev tag : P → qt.Uuid → Option ℕ
  tag = tag_in qt env amqp desktop new_uuid

  abbrev job : P → qt.Uuid → Option ℕ
  job = job_in qt env amqp desktop new_uuid

  -- The listener, which is ready, has just taken a delivery with a tag that no message in work has.
  pub record Took (s : P) (l : QueueListener) (k : ℕ) : Type 0 where
    pub ready : l.is_ready ≡ true
    pub taken : lookup k l.messages ≢ none
    pub unused : (u : qt.Uuid) → InWork qt env amqp desktop new_uuid s u → tag s u ≢ some k

  -- The tag of the delivery is recorded for `u`, the only message that may be in work now and was not.
  Holds-tagged :
      (s s' : P) (l : QueueListener) (u : qt.Uuid) (k : ℕ)
      → Holds qt env amqp desktop new_uuid s l
      → Took s l k
      → s'.jobs_delivery_tags ≡ insert ⦃e = qt.uuid_eq⦄ u k s.jobs_delivery_tags
      → ((v : qt.Uuid) → v ≢ u → job s' v ≡ job s v)
      → Holds qt env amqp desktop new_uuid s' l
  Holds-tagged s s' l u k holds took tags jobs =
      let at_u : (v : qt.Uuid) → v ≡ u → tag s' v ≡ some k = λ v e.
        ap (lookup ⦃e = qt.uuid_eq⦄ v) tags
        ∙ lookup-insert_same ⦃e = qt.uuid_eq⦄ v u k s.jobs_delivery_tags e in
      let off : (v : qt.Uuid) → v ≢ u → tag s' v ≡ tag s v = λ v n.
        ap (lookup ⦃e = qt.uuid_eq⦄ v) tags
        ∙ lookup-insert_other ⦃e = qt.uuid_eq⦄ v u k s.jobs_delivery_tags n in
      record {
        held = λ v i. elim (qt.uuid_eq.dec v u) [
          | yes p ↦ (k, at_u v p, took.taken)
          | no n ↦ (let (t, e, h) = holds.held v (i.0, sym (jobs v n) ∙ i.1) in (t, off v n ∙ e, h))
        ];
        distinct = λ v w t i j e f. elim (qt.uuid_eq.dec v u) [
          | yes p ↦ elim (qt.uuid_eq.dec w u) [
            | yes q ↦ p ∙ sym q
            | no n ↦
                absurd
                  (took.unused w (j.0, sym (jobs w n) ∙ j.1) (sym (off w n) ∙ f ∙ sym e ∙ at_u v p))
          ]
          | no m ↦ elim (qt.uuid_eq.dec w u) [
            | yes q ↦
                absurd
                  (took.unused v (i.0, sym (jobs v m) ∙ i.1) (sym (off v m) ∙ e ∙ sym f ∙ at_u w q))
            | no n ↦
                holds.distinct v w t (i.0, sym (jobs v m) ∙ i.1) (j.0, sym (jobs w n) ∙ j.1)
                  (sym (off v m) ∙ e) (sym (off w n) ∙ f)
          ]
        ];
        works_ready = λ e v. cc (took.ready, e);
      }

  known-Sound :
      (s : P) (l : QueueListener) (u : qt.Uuid) (k : ℕ)
      → Sound qt env amqp desktop new_uuid s l
      → Took s l k
      → Sound qt env amqp desktop new_uuid
          (record s { jobs_delivery_tags = insert ⦃e = qt.uuid_eq⦄ u k s.jobs_delivery_tags })
          l
  known-Sound s l u k v took = record {
    serves = v.serves;
    manual = v.manual;
    listener = v.listener;
    handler = v.handler;
    c = v.c;
    converts = record {
      there = v.converts.there;
      filed = v.converts.filed;
      known = v.converts.known;
    };
    holds = Holds-tagged s _ l u k v.holds took refl (λ w n. refl);
  }

  -- The message behind the handle of every job, once the new one is submitted.
  submitted_known :
      (s : P) (c : Converter qt desktop) (u : qt.Uuid) (m : Message qt)
      → JobsAreFiled qt desktop c
      → m.message_id ≡ u
      → ((w : qt.Uuid) (h : ℕ)
          → job s w ≡ some h
          → (n : Message qt) × (message_at qt desktop c h ≡ some n) × (n.message_id ≡ w))
      → (w : qt.Uuid) (h : ℕ)
      → lookup ⦃e = qt.uuid_eq⦄ w (insert ⦃e = qt.uuid_eq⦄ u c.next_handle s.jobs) ≡ some h
      → (n : Message qt) × (message_at qt desktop (submit qt desktop c m) h ≡ some n)
        × (n.message_id ≡ w)
  submitted_known s c u m filed id known w h e = elim (qt.uuid_eq.dec w u) [
    | yes p ↦
        (let same : c.next_handle ≡ h =
            some-injective c.next_handle h
              (sym (lookup-insert_same ⦃e = qt.uuid_eq⦄ w u c.next_handle s.jobs p) ∙ e) in
          (
            m,
            rw (message_at-submit qt desktop c m h, if_pos (nat_eq.dec h c.next_handle) (sym same))
                refl,
            id ∙ sym p,
          ))
    | no n ↦
        (let (m', at_h, id') =
            known w h (sym (lookup-insert_other ⦃e = qt.uuid_eq⦄ w u c.next_handle s.jobs n) ∙ e) in
          (m', kept_by_submit qt desktop c m m' h filed at_h, id'))
  ]

  new-Sound :
      (s : P) (l : QueueListener) (m : Message qt) (u : qt.Uuid) (k : ℕ)
      (v : Sound qt env amqp desktop new_uuid s l)
      → Took s l k
      → m.message_id ≡ u
      → Sound qt env amqp desktop new_uuid
          (entered qt
            (system qt env amqp desktop new_uuid)
            s
            u
            v.c.next_handle
            k
            (record (s.world) { converter = some (submit qt desktop v.c m) }))
          l
  new-Sound s l m u k v took id = record {
    serves = record {
      service = v.serves.service;
      cl = v.serves.cl;
      rabbit = v.serves.rabbit;
      client = v.serves.client;
      found = v.serves.found;
    };
    manual = v.manual;
    listener = v.listener;
    handler = v.handler;
    c = submit qt desktop v.c m;
    converts = record {
      there = refl;
      filed = submit-JobsAreFiled qt desktop v.c m v.converts.filed;
      known = submitted_known s v.c u m v.converts.filed id v.converts.known;
    };
    holds =
        Holds-tagged s _ l u k v.holds took refl
          (λ w n. lookup-insert_other ⦃e = qt.uuid_eq⦄ w u v.c.next_handle s.jobs n);
  }

  -- `handleJobMessage` on the delivery, whatever it does with it.
  pub deliver-IsSound :
      (s s' : P) (l : QueueListener) (bytes : Bytes) (priority k : ℕ)
      → Sound qt env amqp desktop new_uuid s l
      → Took s l k
      → handle_job_message qt (system qt env amqp desktop new_uuid) s bytes priority k ≡ some s'
      → IsSound qt env amqp desktop new_uuid s'
  unfolding message_info
  deliver-IsSound s s' l bytes priority k v took e =
      let sys = system qt env amqp desktop new_uuid in
      elim (handle_job_message_split qt sys s bytes priority k v.listener v.handler) [
        | inl r ↦ subst (IsSound qt env amqp desktop new_uuid) (some-injective _ s' (sym r ∙ e)) (
            confirmed-IsSound qt env amqp desktop new_uuid s _ l s.world k v
              (record { serves = v.serves; same_converter = refl }) refl refl
              (λ u h i. (i, refl, took.unused u (h, i))))
        | inr (inl (u, known, r)) ↦
            subst (IsSound qt env amqp desktop new_uuid) (some-injective _ s' (sym r ∙ e))
              (l, known-Sound s l u k v took)
        | inr (inr (obj, m, r)) ↦
            (let (run, _, _) =
                new_message_is_queued qt env amqp desktop new_uuid s v.c bytes priority k obj m
                  r.parsed
                  (record {
                    named = r.named;
                    unknown = r.unknown;
                    converts = v.converts.there;
                    read = r.read;
                  }) in
              subst (IsSound qt env amqp desktop new_uuid) (some-injective _ s' (sym run ∙ e)) (
                l,
                new-Sound s l m _ k v took (sym (message_info-read qt obj k priority m r.read)),
              ))
      ]
