-- ===== src/System/Sound/Slots.antt =====
-- The slots of RunnerService on what the client emits.
use pipelinerunner.Base.{
  ℕ, ◌≡◌, refl, ap, sym, ◌∙◌, ◌≢◌, inl, inr, Bool, true, false, List, [], ◌∷◌, ◌++◌, map, Option,
  none, some, String, string_eq, lookup, Dict, each, ◌==◌, if◌then◌else◌, Bool-cases, arith,
}
use pipelinerunner.Qt.{Qt}
use pipelinerunner.Rabbit.Channel.{Bytes, Amqp}
use pipelinerunner.Rabbit.Connection.Outside.{Env}
use pipelinerunner.Rabbit.Listener.{
  QueueListener, ListenerSignal, ready, ready_changed, message_received, messages_updated, changed,
}
use pipelinerunner.Rabbit.Sender.{SenderSignal}
use pipelinerunner.Rabbit.Client.{ClientSignal, connection_changed, of_sender, of_listener}
use pipelinerunner.Rabbit.Client
use pipelinerunner.Rabbit.Client.Signals.{of_queue}
use pipelinerunner.Converter.Outside.{Desktop}
use pipelinerunner.Runner.{handle_job_message, abort_all_jobs}
use pipelinerunner.Runner
use pipelinerunner.System.{system}
use pipelinerunner.System.Events.{forward, take_signals, take_signal, dispatch}
use pipelinerunner.System.Sound.{Prog}

-- Whether a loop that makes every listener unready says so of the queue `sub`.
pub breaks : String → Dict String QueueListener → Bool
breaks sub [] = false
breaks sub ((name, l) ∷ d) =
    let rest = breaks sub d in if name == sub then (if l.is_ready then true else rest) else rest

pub breaks-ready :
    (sub : String) (l : QueueListener) (d : Dict String QueueListener)
    → lookup sub d ≡ some l
    → l.is_ready ≡ true
    → breaks sub d ≡ true
unfolding breaks lookup
breaks-ready sub l [] e r = cc
breaks-ready sub l ((name, m) ∷ d) e r = ground (arith, breaks-ready sub l d)

same_name : (name : String) → (name == name) ≡ true
same_name name = ground arith

other_name : (name other : String) → name ≢ other → (name == other) ≡ false
other_name name other n = ground (arith, n)

collapse {ℓ} :
    {A : Type ℓ} (o : Option A) → ◌≡◌ {A = Option A} (elim o [ none ↦ none | some a ↦ some a ]) o
collapse none = refl
collapse (some a) = refl

module _ (qt : Qt) (env : Env) (amqp : Amqp) (desktop : Desktop) (new_uuid : ℕ → qt.Uuid) where
  abbrev P : Type 0
  P = Prog qt env amqp desktop new_uuid

  abbrev run : String → P → List ClientSignal → Option P
  run = dispatch qt env amqp desktop new_uuid

  abbrev take : String → P → ClientSignal → Option P
  take = take_signal qt env amqp desktop new_uuid

  -- The jobs are aborted if the flag is set.
  abbrev pub broken : Bool → P → P
  broken b s = if b then abort_all_jobs qt (system qt env amqp desktop new_uuid) s else s

  pub dispatch-senders :
      (sub : String) (s : P) (said : List (String × SenderSignal)) (rest : List ClientSignal)
      → run sub s (map of_sender said ++ rest) ≡ run sub s rest
  unfolding dispatch take_signal
  dispatch-senders sub s [] rest = refl
  dispatch-senders sub s (x ∷ said) rest = dispatch-senders sub s said rest

  twice : (a b : Bool) (s : P) → broken b (broken a s) ≡ broken (if a then true else b) s
  unfolding abort_all_jobs
  twice true true s = refl
  twice true false s = refl
  twice false b s = refl

  either_way : (a b : Bool) → (if a then b else b) ≡ b
  either_way true b = refl
  either_way false b = refl

  if_same {ℓ} : {A : Type ℓ} (b : Bool) (x y : A) → b ≡ true → (if b then x else y) ≡ x
  if_same b x y e = rw e refl

  if_other {ℓ} : {A : Type ℓ} (b : Bool) (x y : A) → b ≡ false → (if b then x else y) ≡ y
  if_other b x y e = rw e refl

  take_changed :
      (sub name : String) (s : P)
      → take sub s (of_listener (name, ready_changed false)) ≡ some (broken (name == sub) s)
  unfolding take_signal take_signals forward Runner.handle_ready_changed
  take_changed sub name s = elim (Bool-cases (name == sub)) [
    | inl e ↦ if_same (name == sub) _ _ e ∙ rw e refl
    | inr e ↦ if_other (name == sub) _ _ e ∙ rw e refl
  ]

  dispatch-cons :
      (sub : String) (s t : P) (x : ClientSignal) (rest : List ClientSignal)
      → take sub s x ≡ some t
      → run sub s (x ∷ rest) ≡ run sub t rest
  unfolding dispatch
  dispatch-cons sub s t x rest e =
      ap (λ (o : Option P). elim o [ none ↦ none | some s' ↦ run sub s' rest ]) e

  -- A loop that makes listeners unready leads to one `abortAllJobs` at most.
  pub dispatch-each :
      (sub : String) (f : QueueListener → QueueListener × List ListenerSignal)
      (d : Dict String QueueListener) (s : P) (rest : List ClientSignal)
      → ((l : QueueListener) → (f l).1 ≡ changed l.is_ready false (ready_changed false))
      → run sub s (map of_listener (each f d).1 ++ rest) ≡ run sub (broken (breaks sub d) s) rest
  unfolding each breaks
  dispatch-each sub f [] s rest says = refl
  dispatch-each sub f ((name, l) ∷ d) s rest says = elim (Bool-cases l.is_ready) [
    | inl r ↦
        rw (says l, r)
          (dispatch-cons sub s (broken (name == sub) s) (of_listener (name, ready_changed false)) _
              (take_changed sub name s)
            ∙ dispatch-each sub f d (broken (name == sub) s) rest says
            ∙ ap (λ x. run sub x rest) (twice (name == sub) (breaks sub d) s))
    | inr r ↦
        rw (says l, r)
          (dispatch-each sub f d s rest says
            ∙ ap (λ b. run sub (broken b s) rest) (sym (either_way (name == sub) (breaks sub d))))
  ]

  pub dispatch-ready :
      (sub name : String) (s : P) (was : Bool)
      → run sub s (of_queue name (changed was true (ready_changed true) ++ ready ∷ [])) ≡ some s
  unfolding dispatch take_signal take_signals forward Runner.handle_ready_changed
  dispatch-ready sub name s true = ground arith
  dispatch-ready sub name s false = ground arith

  take_received :
      (sub : String) (s : P) (body : Bytes) (priority tag : ℕ)
      → take sub s (of_listener (sub, message_received body priority tag))
        ≡ handle_job_message qt (system qt env amqp desktop new_uuid) s body priority tag
  unfolding take_signal take_signals forward
  take_received sub s body priority tag =
      if_same (sub == sub) _ _ (same_name sub)
      ∙ collapse (handle_job_message qt (system qt env amqp desktop new_uuid) s body priority tag)

  take_updated : (sub : String) (s : P) → take sub s (of_listener (sub, messages_updated)) ≡ some s
  unfolding take_signal take_signals forward
  take_updated sub s = if_same (sub == sub) _ _ (same_name sub)

  dispatch_last : (sub : String) (s : P) (x : ClientSignal) → run sub s (x ∷ []) ≡ take sub s x
  unfolding dispatch
  dispatch_last sub s x = collapse (take sub s x)

  pub dispatch-received :
      (sub : String) (s : P) (body : Bytes) (priority tag : ℕ)
      → run sub s (of_queue sub (messages_updated ∷ message_received body priority tag ∷ []))
        ≡ handle_job_message qt (system qt env amqp desktop new_uuid) s body priority tag
  dispatch-received sub s body priority tag =
      dispatch-cons sub s s (of_listener (sub, messages_updated)) _ (take_updated sub s)
      ∙ dispatch_last sub s (of_listener (sub, message_received body priority tag))
      ∙ take_received sub s body priority tag

  -- The signals of another listener come to no slot.
  pub dispatch-other :
      (sub name : String) (s : P) (said : List ListenerSignal)
      → name ≢ sub
      → run sub s (of_queue name said) ≡ some s
  unfolding dispatch take_signal
  dispatch-other sub name s [] n = refl
  dispatch-other sub name s (x ∷ said) n =
      dispatch-cons sub s s (of_listener (name, x)) (of_queue name said)
        (if_other (name == sub) _ _ (other_name name sub n))
      ∙ dispatch-other sub name s said n

  -- The client's own signals come to no slot either.
  pub dispatch-connection :
      (sub : String) (s : P) (up : Bool) → run sub s (connection_changed up ∷ []) ≡ some s
  unfolding dispatch take_signal
  dispatch-connection sub s up = refl

  pub dispatch-readiness :
      (sub : String) (s : P) (up : Bool) → run sub s (Client.ready_changed up ∷ []) ≡ some s
  unfolding dispatch take_signal
  dispatch-readiness sub s up = refl

  pub dispatch-nothing : (sub : String) (s : P) → run sub s [] ≡ some s
  unfolding dispatch
  dispatch-nothing sub s = refl
