-- ===== src/Converter/Queue.antt =====
-- converterservice.cpp: the queue of jobs. The job at the front is the one that runs; when it ends, the
-- jobs behind it follow in order.
use mathlib.Core.Path.{subst}
use pipelinerunner.Base.{
  ℕ, ◌≡◌, refl, ap, sym, ◌∙◌, ◌≢◌, ◌⊎◌, inl, inr, Bool, true, false, List, [], ◌∷◌, ◌++◌, Option,
  none, some, String, lookup, nat_eq, string_eq, Bool-cases,
}
use pipelinerunner.Qt.{Qt}
use pipelinerunner.Converter.Outside.{Desktop}
use pipelinerunner.Converter.{
  JobHandle, notify_job, guarded, create_env, start_converter, begin, retire, proceed, ending,
  end_job,
}
use pipelinerunner.Converter.Handles.{NotIn}
use pipelinerunner.Converter.Steps.{Conv, message_at, begin-SameJobs}
use pipelinerunner.Converter.Retiring.{retire-Retires}

-- Whether the process runs; to start it makes it run.
pub record Process (desktop : Desktop) : Type 0 where
  pub is_running : desktop.World → Bool
  pub start_runs :
      (w : desktop.World) (program : String) (args : List String)
      → is_running (desktop.start_process w program args) ≡ true

module _ (qt : Qt) (desktop : Desktop) where
  guarded-true :
      (r : Conv qt desktop × Bool) (f : Conv qt desktop → Conv qt desktop × Bool)
      → (guarded qt desktop r f).1 ≡ true
      → (guarded qt desktop r f ≡ f r.0) × ((f r.0).1 ≡ true)
  unfolding guarded
  guarded-true (s, true) f e = (refl, e)
  guarded-true (s, false) f e = cc

  start_converter_runs :
      (p : Process desktop) (s : Conv qt desktop) (h : ℕ)
      → (start_converter qt desktop s h).1 ≡ true
      → p.is_running (start_converter qt desktop s h).0.world ≡ true
  unfolding start_converter
  start_converter_runs p s h e = elim (Bool-cases (desktop.is_alive s.world h)) [
    | inl a ↦ rw a (p.start_runs s.world _ _)
    | inr a ↦ cc (rw a at e)
  ]

  pub begin_runs :
      (p : Process desktop) (s : Conv qt desktop) (h : ℕ)
      → (begin qt desktop s h).1 ≡ true
      → p.is_running (begin qt desktop s h).0.world ≡ true
  unfolding begin
  begin_runs p s h e =
      let (e₁, t₁) = guarded-true (notify_job qt desktop s h) _ e in
      let (e₂, t₂) = guarded-true (create_env qt desktop (notify_job qt desktop s h).0 h) _ t₁ in
      subst (λ (r : Conv qt desktop × Bool). p.is_running r.0.world ≡ true) (sym (e₁ ∙ e₂))
        (start_converter_runs p _ h t₂)

  -- How a queue is worked off: the first job that starts stays at the front, and each job in front of
  -- it that does not start ends without a result.
  pub data WorksOff : List ℕ → Conv qt desktop → Conv qt desktop → Type 0 where
    none_left : (s : Conv qt desktop) → WorksOff [] s s
    starts :
        (h : ℕ) (rest : List ℕ) (s : Conv qt desktop)
        → (begin qt desktop s h).1 ≡ true
        → WorksOff (h ∷ rest) s (begin qt desktop s h).0
    fails :
        (h : ℕ) (rest : List ℕ) (s s' : Conv qt desktop)
        → (begin qt desktop s h).1 ≡ false
        → WorksOff rest (retire qt desktop (begin qt desktop s h).0 h rest none) s'
        → WorksOff (h ∷ rest) s s'

  proceed-WorksOff : (q : List ℕ) (s : Conv qt desktop) → WorksOff q s (proceed qt desktop q s)
  unfolding proceed
  proceed-WorksOff [] s = none_left s
  proceed-WorksOff (h ∷ rest) s = elim (Bool-cases (begin qt desktop s h).1) [
    | inl e ↦ rw (e, proceed) (starts h rest s e)
    | inr e ↦
        rw (e, proceed)
          (fails h rest s _ e
            (proceed-WorksOff rest (retire qt desktop (begin qt desktop s h).0 h rest none)))
  ]

  -- The queue `q` has been worked off up to some job. No handle but those of the queue has changed, and
  -- no message.
  pub record Follows (q : List ℕ) (s s' : Conv qt desktop) : Type 0 where
    pub in_order : (ended : List ℕ) × (q ≡ ended ++ s'.received_messages)
    pub others : (k : ℕ) → NotIn k q → lookup k s'.handles ≡ lookup k s.handles
    pub same_next : s'.next_handle ≡ s.next_handle
    pub same_messages : (k : ℕ) → message_at qt desktop s' k ≡ message_at qt desktop s k

  -- A job runs, or the queue is empty and no directory is left.
  abbrev pub Settled : Process desktop → Conv qt desktop → Type 0
  Settled p s =
      ((s.received_messages ≡ []) × (s.job_env.tmp_dir ≡ ""))
      ⊎ ((s.received_messages ≢ []) × (p.is_running s.world ≡ true))

  pub proceed-Follows :
      (q : List ℕ) (s : Conv qt desktop)
      → s.received_messages ≡ q
      → Follows q s (proceed qt desktop q s)
  unfolding proceed
  proceed-Follows [] s e = record {
    in_order = ([], sym e);
    others = λ k n. refl;
    same_next = refl;
    same_messages = λ k. refl;
  }
  proceed-Follows (h ∷ rest) s e =
      let s' = (begin qt desktop s h).0 in
      let b = begin-SameJobs qt desktop s h in
      let r = retire-Retires qt desktop s' h rest none in
      let later = proceed-Follows rest (retire qt desktop s' h rest none) r.popped in
      elim (Bool-cases (begin qt desktop s h).1) [
        | inl eq ↦
            rw (eq, proceed)
              (record {
                in_order = ([], sym (b.same_queue ∙ e));
                others = λ k n. b.same_handles k n.0;
                same_next = b.same_next;
                same_messages = b.same_messages;
              })
        | inr eq ↦
            rw (eq, proceed)
              (record {
                in_order = (h ∷ later.in_order.0, ap (h ∷◌) later.in_order.1);
                others = λ k n. later.others k n.1 ∙ (r.others k n.0 ∙ b.same_handles k n.0);
                same_next = later.same_next ∙ (r.same_next ∙ b.same_next);
                same_messages =
                    λ k. later.same_messages k ∙ (r.same_messages k ∙ b.same_messages k);
              })
      ]

  proceed-Settled :
      (p : Process desktop) (q : List ℕ) (s : Conv qt desktop)
      → s.received_messages ≡ q
      → s.job_env.tmp_dir ≡ ""
      → Settled p (proceed qt desktop q s)
  unfolding proceed
  proceed-Settled p [] s e clean = inl (e, clean)
  proceed-Settled p (h ∷ rest) s e clean =
      let s' = (begin qt desktop s h).0 in
      let r = retire-Retires qt desktop s' h rest none in
      let later = proceed-Settled p rest (retire qt desktop s' h rest none) r.popped r.cleared in
      let same = (begin-SameJobs qt desktop s h).same_queue ∙ e in
      elim (Bool-cases (begin qt desktop s h).1) [
        | inl eq ↦ rw (eq, proceed) (inr (λ none_left. cc, begin_runs p s h eq))
        | inr eq ↦ rw (eq, proceed) later
      ]

  -- The job `h` ends with the result, and those behind it follow.
  pub record Ends (p : Process desktop) (h : ℕ) (rest : List ℕ) (result : Option String)
      (s s' : Conv qt desktop) : Type 0 where
    pub worked : WorksOff rest (retire qt desktop s h rest result) s'
    pub in_order : (ended : List ℕ) × (rest ≡ ended ++ s'.received_messages)
    pub settled : Settled p s'
    pub recorded :
        (j : JobHandle qt desktop)
        → NotIn h rest
        → desktop.is_alive s.world h ≡ true
        → lookup h s.handles ≡ some j
        → (j' : JobHandle qt desktop) × (lookup h s'.handles ≡ some j')
          × (j'.message ≡ j.message)
          × (j'.result ≡ result)
    pub others : (k : ℕ) → k ≢ h → NotIn k rest → lookup k s'.handles ≡ lookup k s.handles
    pub same_next : s'.next_handle ≡ s.next_handle
    pub same_messages : (k : ℕ) → message_at qt desktop s' k ≡ message_at qt desktop s k

  -- With a process that runs once it is started, `endJob` on a queue that is not empty returns: the job at
  -- the front goes, and those behind it follow in order up to the first that starts, which stays at the
  -- front, with its process running, or to the end of the queue, with no directory left; each job before
  -- that could not start, and ends without a result. If somebody still holds the handle of the
  -- job, and it is not in the queue again, it has the result and its message. No handle but those of the
  -- queue changes, and no message.
  pub end_job-Ends :
      (p : Process desktop) (s : Conv qt desktop) (h : ℕ) (rest : List ℕ) (result : Option String)
      → s.received_messages ≡ h ∷ rest
      → (s' : Conv qt desktop) × (end_job qt desktop s result ≡ some s') × Ends p h rest result s s'
  unfolding end_job ending
  end_job-Ends p s h rest result e =
      let t = retire qt desktop s h rest result in
      let r = retire-Retires qt desktop s h rest result in
      let q = proceed-Follows rest t r.popped in
      (
        proceed qt desktop rest t,
        ap (λ w. ending qt desktop w s result) e,
        record {
          worked = proceed-WorksOff rest t;
          in_order = q.in_order;
          settled = proceed-Settled p rest t r.popped r.cleared;
          recorded = λ j n alive e'.
              let (j', f, m, x) = r.finished j alive e' in (j', q.others h n ∙ f, m, x);
          others = λ k n m. q.others k m ∙ r.others k n;
          same_next = q.same_next ∙ r.same_next;
          same_messages = λ k. q.same_messages k ∙ r.same_messages k;
        },
      )
