-- ===== src/System/Sound/Losses.antt =====
-- The invariant of the program when the connection is lost and when there is a new one.
use mathlib.Core.Path.{subst}
use mathlib.Core.Option
use mathlib.Core.Option.{some-injective}
use pipelinerunner.Base.{
  ℕ, ◌≡◌, refl, ap, sym, ◌∙◌, inl, inr, Bool, true, false, List, [], ◌∷◌, ◌++◌, map, Option, none,
  some, String, string_eq, lookup, each, lookup-each, nat_eq, Bool-cases, lookup-nil, Dict,
}
use pipelinerunner.Qt.{Qt}
use pipelinerunner.Rabbit.Channel.{Amqp}
use pipelinerunner.Rabbit.Connection.Outside.{Env}
use pipelinerunner.Rabbit.Listener.{QueueListener, ListenerSignal, ready_changed, changed}
use pipelinerunner.Rabbit.Listener
use pipelinerunner.Rabbit.Sender.{SenderSignal}
use pipelinerunner.Rabbit.Client.{
  ClientSignal, connection_changed, of_sender, of_listener, reset_listener, turn_listener,
  handle_connection_changed,
}
use pipelinerunner.Rabbit.Client
use pipelinerunner.Rabbit.Client.Signals.{ready_gained, ready_lost}
use pipelinerunner.Converter.Outside.{Desktop}
use pipelinerunner.Runner.{abort_all_jobs}
use pipelinerunner.System.Events.{dispatch, with_client, emitted}
use pipelinerunner.System.Sound.{Prog, Serves, Holds, Sound, IsSound}
use pipelinerunner.System.Sound.Kept.{job_in}
use pipelinerunner.System.Sound.Slots.{
  breaks, breaks-ready, broken, dispatch-each, dispatch-senders, dispatch-connection,
  dispatch-readiness,
}
use pipelinerunner.System.Sound.Called.{Service, Connected, unchanged, emits-IsSound}

module _ (qt : Qt) (env : Env) (amqp : Amqp) (desktop : Desktop) (new_uuid : ℕ → qt.Uuid) where
  abbrev P : Type 0
  P = Prog qt env amqp desktop new_uuid

  -- Without jobs nothing is asked of the listener.
  pub Holds-idle :
      (s : P) (l : QueueListener)
      → ((u : qt.Uuid) → job_in qt env amqp desktop new_uuid s u ≡ none)
      → Holds qt env amqp desktop new_uuid s l
  Holds-idle s l idle = record {
    held = λ u i. cc (idle u, i.1);
    distinct = λ u w t i j e f. cc (idle u, i.1);
    works_ready = λ e u. idle u;
  }

  -- After a loop that makes every listener unready, and the slot on what it says, no job is left.
  idle_after :
      (s : P) (l : QueueListener) (r : Service qt env amqp desktop new_uuid)
      (cl cl' : Connected qt env amqp desktop new_uuid) (b : amqp.World)
      → Sound qt env amqp desktop new_uuid s l
      → lookup r.config.sub_queue_name cl.listeners ≡ some l
      → (u : qt.Uuid)
      → job_in qt env amqp desktop new_uuid
          (broken qt env amqp desktop new_uuid
            (breaks r.config.sub_queue_name cl.listeners)
            (with_client qt env amqp desktop new_uuid s r cl' b))
          u
        ≡ none
  unfolding abort_all_jobs
  idle_after s l r cl cl' b v found u = elim (Bool-cases l.is_ready) [
    | inl e ↦
        rw (breaks-ready r.config.sub_queue_name l cl.listeners found e)
          (lookup-nil ⦃e = qt.uuid_eq⦄ u)
    | inr e ↦ elim (Bool-cases (breaks r.config.sub_queue_name cl.listeners)) [
      | inl b ↦ rw b (lookup-nil ⦃e = qt.uuid_eq⦄ u)
      | inr b ↦ rw b (v.holds.works_ready e u)
    ]
  ]

  broken_keeps :
      (broke : Bool) (s : P)
      → let t = broken qt env amqp desktop new_uuid broke s in
        (t.world ≡ s.world) × (t.listener_handler ≡ s.listener_handler)
  unfolding abort_all_jobs
  broken_keeps true s = (refl, refl)
  broken_keeps false s = (refl, refl)

  -- What a loop that makes every listener unready leaves.
  lost-Sound :
      (s : P) (l l' : QueueListener) (r : Service qt env amqp desktop new_uuid)
      (cl cl' : Connected qt env amqp desktop new_uuid) (b : amqp.World)
      → Sound qt env amqp desktop new_uuid s l
      → lookup r.config.sub_queue_name cl.listeners ≡ some l
      → lookup r.config.sub_queue_name cl'.listeners ≡ some l'
      → l'.is_auto_acknowledge ≡ false
      → Sound qt env amqp desktop new_uuid
          (broken qt env amqp desktop new_uuid
            (breaks r.config.sub_queue_name cl.listeners)
            (with_client qt env amqp desktop new_uuid s r cl' b))
          l'
  lost-Sound s l l' r cl cl' b v found found' manual =
      let (world, handler) =
        broken_keeps (breaks r.config.sub_queue_name cl.listeners)
          (with_client qt env amqp desktop new_uuid s r cl' b) in
      let idle = idle_after s l r cl cl' b v found in
      record {
        serves =
            subst (λ w. Serves qt env amqp desktop new_uuid w l') (sym world)
              (record { service = _; cl = cl'; rabbit = refl; client = refl; found = found' });
        manual = manual;
        listener = v.listener;
        handler = handler ∙ v.handler;
        c = v.c;
        converts = record {
          there = ap (λ w. w.converter) world ∙ v.converts.there;
          filed = v.converts.filed;
          known = λ u h i. cc (idle u, i);
        };
        holds = Holds-idle _ l' idle;
      }

  resets :
      (channel : Option ℕ) (l : QueueListener)
      → (reset_listener channel l).1 ≡ changed l.is_ready false (ready_changed false)
  unfolding Listener.reset_channel
  resets channel l = refl

  turns :
      (l : QueueListener)
      → (turn_listener false l).1 ≡ changed l.is_ready false (ready_changed false)
  unfolding Listener.set_is_ready
  turns l = refl

  reset_mode :
      (channel : Option ℕ) (l : QueueListener)
      → (reset_listener channel l).0.is_auto_acknowledge ≡ l.is_auto_acknowledge
  unfolding Listener.reset_channel
  reset_mode channel l = refl

  turn_mode :
      (l : QueueListener) → (turn_listener false l).0.is_auto_acknowledge ≡ l.is_auto_acknowledge
  unfolding Listener.set_is_ready
  turn_mode l = refl

  each_manual :
      (f : QueueListener → QueueListener × List ListenerSignal) (name : String)
      (d : Dict String QueueListener) (l : QueueListener)
      → ((m : QueueListener) → (f m).0.is_auto_acknowledge ≡ m.is_auto_acknowledge)
      → lookup name d ≡ some l
      → l.is_auto_acknowledge ≡ false
      → (l' : QueueListener) × (lookup name (each f d).0 ≡ some l')
        × (l'.is_auto_acknowledge ≡ false)
  each_manual f name d l same found manual =
      ((f l).0, lookup-each f name d ∙ ap (Option.map (λ m. (f m).0)) found, same l ∙ manual)

  -- A method that makes every listener unready, says so, and adds a signal of its own.
  loses-IsSound :
      (s s' : P) (l : QueueListener) (r : Service qt env amqp desktop new_uuid)
      (cl cl' : Connected qt env amqp desktop new_uuid)
      (f : QueueListener → QueueListener × List ListenerSignal) (own : ClientSignal)
      (said : List (String × SenderSignal)) (b : amqp.World)
      → Sound qt env amqp desktop new_uuid s l
      → lookup r.config.sub_queue_name cl.listeners ≡ some l
      → cl'.listeners ≡ (each f cl.listeners).0
      → ((m : QueueListener) → (f m).1 ≡ changed m.is_ready false (ready_changed false))
      → ((m : QueueListener) → (f m).0.is_auto_acknowledge ≡ m.is_auto_acknowledge)
      → ((t : P)
          → dispatch qt env amqp desktop new_uuid r.config.sub_queue_name t (own ∷ []) ≡ some t)
      → emitted qt env amqp desktop new_uuid s r
          (cl', map of_sender said ++ (map of_listener (each f cl.listeners).1 ++ own ∷ []), b)
        ≡ some s'
      → IsSound qt env amqp desktop new_uuid s'
  loses-IsSound s s' l r cl cl' f own said b v found same says mode quiet e =
      let sub = r.config.sub_queue_name in
      let x = with_client qt env amqp desktop new_uuid s r cl' b in
      let (l', found', manual) = each_manual f sub cl.listeners l mode found v.manual in
      let run =
        dispatch-senders qt env amqp desktop new_uuid sub x said _
        ∙ dispatch-each qt env amqp desktop new_uuid sub f cl.listeners x (own ∷ []) says
        ∙ quiet _ in
      emits-IsSound qt env amqp desktop new_uuid s s' _ l' r cl' _ b run
        (lost-Sound s l l' r cl cl' b v found (ap (lookup sub) same ∙ found') manual) e

  -- A new connection makes every listener unready, and so does the loss of the old one.
  pub connection-IsSound :
      (s s' : P) (l : QueueListener) (r : Service qt env amqp desktop new_uuid)
      (cl : Connected qt env amqp desktop new_uuid) (up : Bool)
      → Sound qt env amqp desktop new_uuid s l
      → lookup r.config.sub_queue_name cl.listeners ≡ some l
      → emitted qt env amqp desktop new_uuid s r
          (handle_connection_changed qt.HostAddress env amqp cl s.world.broker up)
        ≡ some s'
      → IsSound qt env amqp desktop new_uuid s'
  unfolding handle_connection_changed emitted
  connection-IsSound s s' l r cl false v found e =
      emits-IsSound qt env amqp desktop new_uuid s s' _ l r cl _ s.world.broker
        (dispatch-connection qt env amqp desktop new_uuid r.config.sub_queue_name _ false)
        (unchanged qt env amqp desktop new_uuid s l r cl s.world.broker v found) e
  connection-IsSound s s' l r cl true v found e =
      loses-IsSound s s' l r cl _ (reset_listener _) (connection_changed true) _ _ v found refl
        (resets _) (reset_mode _)
        (λ t. dispatch-connection qt env amqp desktop new_uuid r.config.sub_queue_name t true) e

  pub readiness-IsSound :
      (s s' : P) (l : QueueListener) (r : Service qt env amqp desktop new_uuid)
      (cl : Connected qt env amqp desktop new_uuid) (up : Bool)
      → Sound qt env amqp desktop new_uuid s l
      → lookup r.config.sub_queue_name cl.listeners ≡ some l
      → emitted qt env amqp desktop new_uuid s r
          (Client.handle_ready_changed qt.HostAddress env amqp cl s.world.broker up)
        ≡ some s'
      → IsSound qt env amqp desktop new_uuid s'
  readiness-IsSound s s' l r cl false v found e =
      loses-IsSound s s' l r cl _ (turn_listener false) (Client.ready_changed false) _ _ v found
        refl turns turn_mode
        (λ t. dispatch-readiness qt env amqp desktop new_uuid r.config.sub_queue_name t false)
        (ap (emitted qt env amqp desktop new_uuid s r)
            (sym (ready_lost qt.HostAddress env amqp cl s.world.broker))
          ∙ e)
  readiness-IsSound s s' l r cl true v found e =
      let (same, said) = ready_gained qt.HostAddress env amqp cl s.world.broker in
      let b = (Client.handle_ready_changed qt.HostAddress env amqp cl s.world.broker true).2 in
      emits-IsSound qt env amqp desktop new_uuid s s' _ l r cl _ b
        (dispatch-readiness qt env amqp desktop new_uuid r.config.sub_queue_name _ true)
        (unchanged qt env amqp desktop new_uuid s l r cl b v found)
        (ap (emitted qt env amqp desktop new_uuid s r) (
            ap (λ x. (cl, x, b)) (sym said)
            ∙ ap
                (λ x. (
                  x,
                  (Client.handle_ready_changed qt.HostAddress env amqp cl s.world.broker true).1,
                  b,
                ))
                (sym same))
          ∙ e)
