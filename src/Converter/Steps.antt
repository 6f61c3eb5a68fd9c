-- ===== src/Converter/Steps.antt =====
-- converterservice.cpp: what the steps of a job keep: the queue, the other handles, and every message.
use mathlib.Core.Option
use mathlib.Core.Logic.{if_pos, if_neg}
use pipelinerunner.Base.{
  ℕ, ◌≡◌, refl, ap, ◌∙◌, ◌≢◌, inl, inr, Bool, true, false, Option, some, String, Dict, lookup,
  insert, lookup-insert, nat_eq, string_eq, arith, Bool-cases, Option-cases,
}
use pipelinerunner.Qt.{Qt}
use pipelinerunner.Common.Message.{Message}
use pipelinerunner.Converter.Outside.{Desktop}
use pipelinerunner.Converter.{
  JobHandle, Converter, change, notify_job, create_dir_if_not_exists, name_dirs, copy_input,
  guarded, make_env, create_env, start_converter, begin,
}

module _ (qt : Qt) (desktop : Desktop) where
  abbrev pub Conv : Type 0
  Conv = Converter qt desktop

  -- What each step keeps, the whole chain keeps.
  guarded_keeps :
      (P : Conv → Type 0) (r : Conv × Bool) (f : Conv → Conv × Bool)
      → P r.0
      → ((s : Conv) → P s → P (f s).0)
      → P (guarded qt desktop r f).0
  unfolding guarded
  guarded_keeps P (s, true) f p k = k s p
  guarded_keeps P (s, false) f p k = p

  -- The message behind a handle.
  abbrev pub message_at : Conv → ℕ → Option (Message qt)
  message_at s k = Option.map (λ j. j.message) (lookup k s.handles)

  -- The queue, what the handles but `h` refer to, and every message.
  pub record SameJobs (h : ℕ) (s s' : Conv) : Type 0 where
    pub same_queue : s'.received_messages ≡ s.received_messages
    pub same_handles : (k : ℕ) → k ≢ h → lookup k s'.handles ≡ lookup k s.handles
    pub same_next : s'.next_handle ≡ s.next_handle
    pub same_messages : (k : ℕ) → message_at s' k ≡ message_at s k

  SameJobs-refl : (h : ℕ) (s : Conv) → SameJobs h s s
  SameJobs-refl h s = record {
    same_queue = refl;
    same_handles = λ k n. refl;
    same_next = refl;
    same_messages = λ k. refl;
  }

  SameJobs-trans : (h : ℕ) {s t u : Conv} → SameJobs h s t → SameJobs h t u → SameJobs h s u
  SameJobs-trans h p q = record {
    same_queue = q.same_queue ∙ p.same_queue;
    same_handles = λ k n. q.same_handles k n ∙ p.same_handles k n;
    same_next = q.same_next ∙ p.same_next;
    same_messages = λ k. q.same_messages k ∙ p.same_messages k;
  }

  message-insert :
      (k h : ℕ) (j j' : JobHandle qt desktop) (d : Dict ℕ (JobHandle qt desktop))
      → lookup h d ≡ some j
      → j'.message ≡ j.message
      → Option.map (λ x. x.message) (lookup k (insert h j' d))
        ≡ Option.map (λ x. x.message) (lookup k d)
  message-insert k h j j' d e same = rw (lookup-insert k h j' d) (elim (nat_eq.dec k h) [
    | yes p ↦ rw (if_pos (nat_eq.dec k h) p, p, e) (ap some same)
    | no n ↦ rw (if_neg (nat_eq.dec k h) n) refl
  ])

  pub change-SameJobs :
      (s : Conv) (h : ℕ) (f : JobHandle qt desktop → JobHandle qt desktop)
      → ((j : JobHandle qt desktop) → (f j).message ≡ j.message)
      → SameJobs h s (change qt desktop s h f)
  unfolding change
  change-SameJobs s h f keeps = elim (Option-cases (lookup h s.handles)) [
    | inl e ↦ rw (e, change) (SameJobs-refl h s)
    | inr (j, e) ↦
        rw (e, change)
          (record {
            same_queue = refl;
            same_handles = λ k n. ground (arith, lookup-insert k h (f j) s.handles);
            same_next = refl;
            same_messages = λ k. message-insert k h j (f j) s.handles e (keeps j);
          })
  ]

  create_dir-SameJobs :
      (h : ℕ) (s : Conv) (path : String)
      → SameJobs h s (create_dir_if_not_exists qt desktop s path).0
  unfolding create_dir_if_not_exists
  create_dir-SameJobs h s path = elim (Bool-cases (desktop.dir_exists s.world path)) [
    | inl e ↦ rw e (SameJobs-refl h s)
    | inr e ↦ rw e (record {
      same_queue = refl;
      same_handles = λ k n. refl;
      same_next = refl;
      same_messages = λ k. refl;
    })
  ]

  make_env-SameJobs : (s : Conv) (h : ℕ) → SameJobs h s (make_env qt desktop s h).0
  unfolding make_env copy_input
  make_env-SameJobs s h =
      guarded_keeps (SameJobs h s) _ _ (create_dir-SameJobs h s s.job_env.input_tmp_dir) λ s' p.
        guarded_keeps (SameJobs h s) _ _
          (SameJobs-trans h p (create_dir-SameJobs h s' s'.job_env.output_tmp_dir))
          λ s'' q. record {
            same_queue = q.same_queue;
            same_handles = q.same_handles;
            same_next = q.same_next;
            same_messages = q.same_messages;
          }

  create_env-SameJobs : (s : Conv) (h : ℕ) → SameJobs h s (create_env qt desktop s h).0
  unfolding create_env name_dirs
  create_env-SameJobs s h = elim (Bool-cases (desktop.is_alive s.world h)) [
    | inl e ↦ rw e (
        let p = make_env-SameJobs (name_dirs qt desktop s) h in
        record {
          same_queue = p.same_queue;
          same_handles = p.same_handles;
          same_next = p.same_next;
          same_messages = p.same_messages;
        })
    | inr e ↦ rw e (SameJobs-refl h s)
  ]

  notify_job-SameJobs : (s : Conv) (h : ℕ) → SameJobs h s (notify_job qt desktop s h).0
  unfolding notify_job
  notify_job-SameJobs s h = elim (Bool-cases (desktop.is_alive s.world h)) [
    | inl e ↦ rw e (change-SameJobs s h _ (λ j. refl))
    | inr e ↦ rw e (SameJobs-refl h s)
  ]

  start_converter-SameJobs : (s : Conv) (h : ℕ) → SameJobs h s (start_converter qt desktop s h).0
  unfolding start_converter
  start_converter-SameJobs s h = elim (Bool-cases (desktop.is_alive s.world h)) [
    | inl e ↦ rw e (record {
      same_queue = refl;
      same_handles = λ k n. refl;
      same_next = refl;
      same_messages = λ k. refl;
    })
    | inr e ↦ rw e (SameJobs-refl h s)
  ]

  pub begin-SameJobs : (s : Conv) (h : ℕ) → SameJobs h s (begin qt desktop s h).0
  unfolding begin
  begin-SameJobs s h = guarded_keeps (SameJobs h s) _ _ (notify_job-SameJobs s h) λ s' p.
      guarded_keeps (SameJobs h s) _ _ (SameJobs-trans h p (create_env-SameJobs s' h))
        λ s'' q. SameJobs-trans h q (start_converter-SameJobs s'' h)
