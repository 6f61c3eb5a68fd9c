-- ===== src/Converter/Retiring.antt =====
-- converterservice.cpp: the end of a job up to its removal from the queue.
use mathlib.Core.Option
use pipelinerunner.Base.{
  ℕ, ◌≡◌, refl, ap, ◌∙◌, ◌≢◌, inl, inr, true, List, Option, some, String, lookup, lookup-insert,
  nat_eq, string_eq, arith, Bool-cases,
}
use pipelinerunner.Qt.{Qt}
use pipelinerunner.Converter.Outside.{Desktop}
use pipelinerunner.Converter.{JobHandle, clear, change, finish_handle, retire}
use pipelinerunner.Converter.Steps.{Conv, message_at, SameJobs, change-SameJobs}

module _ (qt : Qt) (desktop : Desktop) where
  finish-SameJobs :
      (s : Conv qt desktop) (h : ℕ) (result : Option String)
      → SameJobs qt desktop h s (finish_handle qt desktop s h result)
  unfolding finish_handle
  finish-SameJobs s h result =
      let p = change-SameJobs qt desktop s h _ (λ j. refl) in
      record {
        same_queue = p.same_queue;
        same_handles = p.same_handles;
        same_next = p.same_next;
        same_messages = p.same_messages;
      }

  clear_lem :
      (s : Conv qt desktop)
      → ((clear qt desktop s).job_env.tmp_dir ≡ "")
        × ((clear qt desktop s).received_messages ≡ s.received_messages)
        × ((clear qt desktop s).handles ≡ s.handles)
        × ((clear qt desktop s).next_handle ≡ s.next_handle)
  unfolding clear
  clear_lem s = ground arith

  -- The job `h` ends: it leaves the queue before `rest`, the directories go, and if somebody still
  -- holds its handle, the handle has the result.
  pub record Retires (h : ℕ) (rest : List ℕ) (result : Option String) (s s' : Conv qt desktop)
      : Type 0 where
    pub popped : s'.received_messages ≡ rest
    pub cleared : s'.job_env.tmp_dir ≡ ""
    pub others : (k : ℕ) → k ≢ h → lookup k s'.handles ≡ lookup k s.handles
    pub same_next : s'.next_handle ≡ s.next_handle
    pub same_messages : (k : ℕ) → message_at qt desktop s' k ≡ message_at qt desktop s k
    pub finished :
        (j : JobHandle qt desktop)
        → desktop.is_alive s.world h ≡ true
        → lookup h s.handles ≡ some j
        → (j' : JobHandle qt desktop) × (lookup h s'.handles ≡ some j')
          × (j'.message ≡ j.message)
          × (j'.result ≡ result)

  finish_lem :
      (s : Conv qt desktop) (h : ℕ) (result : Option String) (j : JobHandle qt desktop)
      → lookup h s.handles ≡ some j
      → (j' : JobHandle qt desktop) × (lookup h (finish_handle qt desktop s h result).handles
          ≡ some j')
        × (j'.message ≡ j.message)
        × (j'.result ≡ result)
  unfolding finish_handle change
  finish_lem s h result j e =
      let j' : JobHandle qt desktop = record j {
        result = result;
        end_time = some (desktop.now s.world);
      } in
      (
        j',
        rw (e, finish_handle, change) (ground (arith, lookup-insert h h j' s.handles)),
        refl,
        refl,
      )

  pub retire-Retires :
      (s : Conv qt desktop) (h : ℕ) (rest : List ℕ) (result : Option String)
      → Retires h rest result s (retire qt desktop s h rest result)
  unfolding retire
  retire-Retires s h rest result = elim (Bool-cases (desktop.is_alive s.world h)) [
    | inl e ↦
        rw (e, retire)
          (let s' = finish_handle qt desktop s h result in
            let p = finish-SameJobs s h result in
            let c = clear_lem s' in
            record {
              popped = refl;
              cleared = c.0;
              others = λ k n. ap (lookup k) c.2 ∙ p.same_handles k n;
              same_next = c.3 ∙ p.same_next;
              same_messages =
                  λ k. ap (λ d. Option.map (λ j. j.message) (lookup k d)) c.2 ∙ p.same_messages k;
              finished = λ j alive e'.
                  let (j', f, m, r) = finish_lem s h result j e' in
                  (j', ap (lookup h) c.2 ∙ f, m, r);
            })
    | inr e ↦
        rw (e, retire)
          (let c = clear_lem s in
            record {
              popped = refl;
              cleared = c.0;
              others = λ k n. ap (lookup k) c.2;
              same_next = c.3;
              same_messages = λ k. ap (λ d. Option.map (λ j. j.message) (lookup k d)) c.2;
              finished = λ j alive e'. cc;
            })
  ]
