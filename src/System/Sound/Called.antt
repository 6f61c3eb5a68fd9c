-- ===== src/System/Sound/Called.antt =====
-- The invariant of the program over the calls on the client of the rabbit service.
use mathlib.Core.Path.{subst}
use mathlib.Core.Option.{some-injective}
use pipelinerunner.Base.{ℕ, ◌≡◌, refl, ap, sym, ◌∙◌, false, List, some, string_eq, lookup, nat_eq}
use pipelinerunner.Qt.{Qt}
use pipelinerunner.Rabbit.Channel.{Amqp}
use pipelinerunner.Rabbit.Connection.Outside.{Env}
use pipelinerunner.Rabbit.Listener.{QueueListener}
use pipelinerunner.Rabbit.Client.{ClientSignal}
use pipelinerunner.RabbitPlugin.{RabbitService, RabbitClient}
use pipelinerunner.Converter.Outside.{Desktop}
use pipelinerunner.System.Events.{dispatch, with_client, emitted}
use pipelinerunner.System.Sound.{Prog, Holds, Sound, IsSound}

module _ (qt : Qt) (env : Env) (amqp : Amqp) (desktop : Desktop) (new_uuid : ℕ → qt.Uuid) where
  abbrev P : Type 0
  P = Prog qt env amqp desktop new_uuid

  abbrev pub Service : Type 0
  Service = RabbitService qt env amqp

  abbrev pub Connected : Type 0
  Connected = RabbitClient qt env amqp

  -- The service and the client of the invariant are those of the program.
  pub listener_there :
      (s : P) (l : QueueListener) (r : Service) (cl : Connected)
      → Sound qt env amqp desktop new_uuid s l
      → s.world.rabbit ≡ some r
      → r.client ≡ some cl
      → lookup r.config.sub_queue_name cl.listeners ≡ some l
  listener_there s l r cl v e k =
      let same : v.serves.service ≡ r = some-injective _ r (sym v.serves.rabbit ∙ e) in
      let client : v.serves.cl ≡ cl =
        some-injective v.serves.cl cl
          (sym v.serves.client ∙ ap (λ (x : Service). x.client) same ∙ k) in
      subst (λ (x : Service). lookup x.config.sub_queue_name cl.listeners ≡ some l) same
        (subst
          (λ (x : Connected). lookup v.serves.service.config.sub_queue_name x.listeners ≡ some l)
          client v.serves.found)

  -- The client has a listener that agrees with the tables.
  pub renewed :
      (s : P) (l l' : QueueListener) (r : Service) (cl : Connected) (b : amqp.World)
      → Sound qt env amqp desktop new_uuid s l
      → lookup r.config.sub_queue_name cl.listeners ≡ some l'
      → l'.is_auto_acknowledge ≡ false
      → Holds qt env amqp desktop new_uuid (with_client qt env amqp desktop new_uuid s r cl b) l'
      → Sound qt env amqp desktop new_uuid (with_client qt env amqp desktop new_uuid s r cl b) l'
  renewed s l l' r cl b v found manual holds = record {
    serves = record { service = _; cl = cl; rabbit = refl; client = refl; found = found };
    manual = manual;
    listener = v.listener;
    handler = v.handler;
    c = v.c;
    converts = record {
      there = v.converts.there;
      filed = v.converts.filed;
      known = v.converts.known;
    };
    holds = holds;
  }

  -- The client's listener for the queue of jobs is the one before.
  pub unchanged :
      (s : P) (l : QueueListener) (r : Service) (cl : Connected) (b : amqp.World)
      → Sound qt env amqp desktop new_uuid s l
      → lookup r.config.sub_queue_name cl.listeners ≡ some l
      → Sound qt env amqp desktop new_uuid (with_client qt env amqp desktop new_uuid s r cl b) l
  unchanged s l r cl b v found = renewed s l l r cl b v found v.manual (record {
    held = v.holds.held;
    distinct = v.holds.distinct;
    works_ready = v.holds.works_ready;
  })

  -- The program once the slots have run on all that was emitted.
  pub emits-IsSound :
      (s s' t : P) (l : QueueListener) (r : Service) (cl : Connected) (said : List ClientSignal)
      (b : amqp.World)
      → dispatch qt env amqp desktop new_uuid r.config.sub_queue_name
          (with_client qt env amqp desktop new_uuid s r cl b)
          said
        ≡ some t
      → Sound qt env amqp desktop new_uuid t l
      → emitted qt env amqp desktop new_uuid s r (cl, said, b) ≡ some s'
      → IsSound qt env amqp desktop new_uuid s'
  unfolding emitted
  emits-IsSound s s' t l r cl said b run v e =
      subst (IsSound qt env amqp desktop new_uuid) (some-injective t s' (sym run ∙ e)) (l, v)
