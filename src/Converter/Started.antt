-- ===== src/Converter/Started.antt =====
-- converterservice.cpp, `startJob` where the job at the front starts.
use mathlib.Core.Option.{some-injective}
use mathlib.Core.Option
use pipelinerunner.Base.{
  ℕ, ◌≡◌, refl, ap, ◌∙◌, Bool, true, false, List, ◌∷◌, Option, none, some, String, lookup, nat_eq,
  Bool-cases, inl, inr,
}
use pipelinerunner.Qt.{Qt}
use pipelinerunner.Common.Message.{Message}
use pipelinerunner.Converter.Outside.{Desktop}
use pipelinerunner.Converter.{
  JobHandle, start_job, starting, proceed, begin, guarded, create_dir_if_not_exists, create_env,
  make_env, copy_input, notify_job, start_converter,
}
use pipelinerunner.Converter.Steps.{Conv, begin-SameJobs}

module _ (qt : Qt) (desktop : Desktop) where
  -- A handle with this message.
  handle_of :
      (o : Option (JobHandle qt desktop)) (m : Message qt)
      → Option.map (λ x. x.message) o ≡ some m
      → (j : JobHandle qt desktop) × (o ≡ some j) × (j.message ≡ m)
  handle_of none m e = cc
  handle_of (some j) m e = (j, refl, some-injective _ _ e)

  proceed_begun :
      (s s' : Conv qt desktop) (h : ℕ) (rest : List ℕ)
      → begin qt desktop s h ≡ (s', true)
      → proceed qt desktop (h ∷ rest) s ≡ s'
  unfolding proceed
  proceed_begun s s' h rest b = rw (b, proceed) (ap (λ (r : Conv qt desktop × Bool). r.0) b)

  starting_begun :
      (q : List ℕ) (s s' : Conv qt desktop) (h : ℕ) (rest : List ℕ)
      → q ≡ h ∷ rest
      → begin qt desktop s h ≡ (s', true)
      → starting qt desktop q s ≡ some s'
  unfolding starting
  starting_begun q s s' h rest e b = rw (e, starting) (ap some (proceed_begun s s' h rest b))

  -- Where the three steps succeed on the job at the front, `startJob` ends with them: the queue is the
  -- same, and the job's handle has its message.
  pub start_job_begun :
      (s s' : Conv qt desktop) (h : ℕ) (rest : List ℕ) (j : JobHandle qt desktop)
      → s.received_messages ≡ h ∷ rest
      → lookup h s.handles ≡ some j
      → begin qt desktop s h ≡ (s', true)
      → (start_job qt desktop s ≡ some s')
        × (s'.received_messages ≡ h ∷ rest)
        × (j' : JobHandle qt desktop) × (lookup h s'.handles ≡ some j')
        × (j'.message ≡ j.message)
  unfolding start_job
  start_job_begun s s' h rest j q found b =
      let same = rw b at (begin-SameJobs qt desktop s h) in
      let (j', there, message) =
        handle_of (lookup h s'.handles) j.message
          (same.same_messages h ∙ ap (Option.map (λ x. x.message)) found) in
      (starting_begun s.received_messages s s' h rest q b, same.same_queue ∙ q, j', there, message)

  -- A desktop on which no step of `startJob` fails.
  pub record NeverFails : Type 0 where
    pub alive : (w : desktop.World) (h : ℕ) → desktop.is_alive w h ≡ true
    pub made : (w : desktop.World) (path : String) → (desktop.mkpath w path).0 ≡ true
    pub copied : (w : desktop.World) (from to : String) → (desktop.copy w from to).0 ≡ true

  guarded-true :
      (r : Conv qt desktop × Bool) (f : Conv qt desktop → Conv qt desktop × Bool)
      → r.1 ≡ true
      → ((s : Conv qt desktop) → (f s).1 ≡ true)
      → (guarded qt desktop r f).1 ≡ true
  unfolding guarded
  guarded-true (s, true) f e k = k s
  guarded-true (s, false) f e k = cc

  dir_true :
      NeverFails
      → (s : Conv qt desktop) (path : String)
      → (create_dir_if_not_exists qt desktop s path).1 ≡ true
  unfolding create_dir_if_not_exists
  dir_true d s path = elim (Bool-cases (desktop.dir_exists s.world path)) [
    | inl e ↦ rw e refl
    | inr e ↦ rw e (d.made s.world path)
  ]

  create_env-true :
      NeverFails → (s : Conv qt desktop) (h : ℕ) → (create_env qt desktop s h).1 ≡ true
  unfolding create_env make_env copy_input
  create_env-true d s h =
      rw (d.alive s.world h, create_env)
        (guarded-true _ _ (dir_true d _ _)
          λ s'. guarded-true _ _ (dir_true d _ _) λ s''. d.copied _ _ _)

  -- On such a desktop the three steps succeed.
  pub begin_succeeds :
      NeverFails
      → (s : Conv qt desktop) (h : ℕ) → (s' : Conv qt desktop) × (begin qt desktop s h ≡ (s', true))
  unfolding begin notify_job start_converter
  begin_succeeds d s h =
      let started : (begin qt desktop s h).1 ≡ true =
        guarded-true _ _ (rw (d.alive s.world h, notify_job) refl) λ s'.
          guarded-true _ _ (create_env-true d s' h)
            λ s''. rw (d.alive s''.world h, start_converter) refl in
      ((begin qt desktop s h).0, ap (λ b. ((begin qt desktop s h).0, b)) started)
