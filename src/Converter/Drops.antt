-- ===== src/Converter/Drops.antt =====
-- converterservice.cpp: the calls that end jobs take them off the front of the queue and keep all messages.
use pipelinerunner.Base.{
  ℕ, ◌≡◌, refl, ap, sym, ◌∙◌, inl, inr, Bool, List, [], ◌∷◌, ◌++◌, Option, none, some, String,
  nat_eq, arith, Bool-cases, ◌=ℕ=◌, ◌&&◌,
}
use mathlib.Core.Path.{subst}
use mathlib.Core.Option.{some-injective}
use pipelinerunner.Qt.{Qt}
use pipelinerunner.Converter.Outside.{Desktop}
use pipelinerunner.Converter.{
  starting, end_job, ending, retire, copy_result_file, copying, handle_process_finished,
}
use pipelinerunner.Converter.Steps.{Conv, message_at}
use pipelinerunner.Converter.Retiring.{retire-Retires}
use pipelinerunner.Converter.Queue.{proceed-Follows}

module _ (qt : Qt) (desktop : Desktop) where
  -- What a step does to the handles: it drops jobs from the front, or adds one with a new handle.
  pub record Drops (s s' : Conv qt desktop) : Type 0 where
    pub in_order : (ended : List ℕ) × (s.received_messages ≡ ended ++ s'.received_messages)
    pub same_next : s'.next_handle ≡ s.next_handle
    pub same_messages : (k : ℕ) → message_at qt desktop s' k ≡ message_at qt desktop s k

  pub ending-Drops :
      (q : List ℕ) (s s' : Conv qt desktop) (result : Option String)
      → s.received_messages ≡ q
      → ending qt desktop q s result ≡ some s'
      → Drops s s'
  unfolding ending
  ending-Drops [] s s' result e r = cc
  ending-Drops (h ∷ rest) s s' result e r =
      let t = retire-Retires qt desktop s h rest result in
      let f = proceed-Follows qt desktop rest (retire qt desktop s h rest result) t.popped in
      subst (Drops s) (some-injective _ s' r) (record {
        in_order = (h ∷ f.in_order.0, e ∙ ap (h ∷◌) f.in_order.1);
        same_next = f.same_next ∙ t.same_next;
        same_messages = λ k. f.same_messages k ∙ t.same_messages k;
      })

  pub starting-Drops :
      (q : List ℕ) (s s' : Conv qt desktop)
      → s.received_messages ≡ q
      → starting qt desktop q s ≡ some s'
      → Drops s s'
  unfolding starting
  starting-Drops [] s s' e r = cc
  starting-Drops (h ∷ rest) s s' e r =
      let f = proceed-Follows qt desktop (h ∷ rest) s e in
      subst (Drops s) (some-injective _ s' r) (record {
        in_order = (f.in_order.0, e ∙ f.in_order.1);
        same_next = f.same_next;
        same_messages = f.same_messages;
      })

  -- `copyResultFile` changes nothing but files.
  copying-Drops :
      (q : List ℕ) (s s₁ : Conv qt desktop) (r : Option String)
      → copying qt desktop q s ≡ some (s₁, r)
      → (s₁.received_messages ≡ s.received_messages)
        × (s₁.next_handle ≡ s.next_handle)
        × (s₁.handles ≡ s.handles)
  unfolding copying
  copying-Drops [] s s₁ r e = cc
  copying-Drops (h ∷ rest) s s₁ r e = ground (arith, e)

  Drops-after :
      (s s₁ s' : Conv qt desktop)
      → (s₁.received_messages ≡ s.received_messages)
        × (s₁.next_handle ≡ s.next_handle)
        × (s₁.handles ≡ s.handles)
      → Drops s₁ s'
      → Drops s s'
  Drops-after s s₁ s' (q, n, h) d = record {
    in_order = (d.in_order.0, sym q ∙ d.in_order.1);
    same_next = d.same_next ∙ n;
    same_messages = λ k. rw h at (d.same_messages k);
  }

  copied-Drops :
      (s s' : Conv qt desktop) (copied : Option (Conv qt desktop × Option String))
      → copy_result_file qt desktop s ≡ copied
      → (elim copied [ none ↦ none | some (s₁, result) ↦ end_job qt desktop s₁ result ]) ≡ some s'
      → Drops s s'
  unfolding copy_result_file end_job
  copied-Drops s s' none c e = cc
  copied-Drops s s' (some (s₁, r)) c e =
      Drops-after s s₁ s' (copying-Drops s.received_messages s s₁ r c)
        (ending-Drops s₁.received_messages s₁ s' r refl e)

  pub finished-Drops :
      (s s' : Conv qt desktop) (code : ℕ) (normal : Bool)
      → handle_process_finished qt desktop s code normal ≡ some s'
      → Drops s s'
  unfolding handle_process_finished end_job
  finished-Drops s s' code normal e = elim (Bool-cases (code =ℕ= 0 && normal)) [
    | inl b ↦ copied-Drops s s' (copy_result_file qt desktop s) refl (rw b at e)
    | inr b ↦ ending-Drops s.received_messages s s' none refl (rw b at e)
  ]
