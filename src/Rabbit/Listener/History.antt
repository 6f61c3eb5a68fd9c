-- ===== src/Rabbit/Listener/History.antt =====
-- queuelistener.cpp over any sequence of calls, with the tags whose confirmation returned true.
use pipelinerunner.Base.{
  ℕ, ◌+◌, ◌≤◌, ◌≡◌, refl, Bool, true, false, List, [], ◌∷◌, ◌++◌, Option, lookup, lookup-nil, ◌∙◌,
  lookup-erase, lookup-insert, nat_eq, ◌==◌, is_some, if◌then◌else◌, arith, Option-cases, inl, inr,
}
use pipelinerunner.Rabbit.Channel.{Bytes, Amqp, to_strong_ref}
use pipelinerunner.Rabbit.Listener.{
  QueueListener, CachedMessage, confirm_receiving, add_message, set_is_ready, reset_channel,
}

-- The calls that change a listener.
pub data Call : Type 0 where
  delivers : Bytes → ℕ → ℕ → Call
  turns : Bool → Call
  resets : Option ℕ → Call
  confirms : ℕ → Call

abbrev acked : Bool → ℕ → List ℕ
acked true tag = tag ∷ []
acked false tag = []

module _ (amqp : Amqp) where
  -- The listener, the tags acknowledged, and the library's state.
  unfoldable pub step : QueueListener → amqp.World → Call → QueueListener × List ℕ × amqp.World
  step l w (delivers body priority tag) =
      let (l', _, w') = add_message amqp l w body priority tag in (l', [], w')
  step l w (turns b) = ((set_is_ready l b).0, [], w)
  step l w (resets c) = ((reset_channel l c).0, [], w)
  step l w (confirms tag) =
      let (l', done, w') = confirm_receiving amqp l w tag in (l', acked done tag, w')

  unfoldable pub run : QueueListener → amqp.World → List Call → QueueListener × List ℕ × amqp.World
  run l w [] = (l, [], w)
  run l w (c ∷ cs) =
      let (l', tags, w') = step l w c in
      let (l'', tags', w'') = run l' w' cs in (l'', tags ++ tags', w'')

abbrev pub count : ℕ → List ℕ → ℕ
count tag [] = 0
count tag (t ∷ ts) = (if tag == t then 1 else 0) + count tag ts

abbrev pub deliveries : ℕ → List Call → ℕ
deliveries tag [] = 0
deliveries tag (delivers body priority t ∷ cs) = (if tag == t then 1 else 0) + deliveries tag cs
deliveries tag (turns b ∷ cs) = deliveries tag cs
deliveries tag (resets c ∷ cs) = deliveries tag cs
deliveries tag (confirms t ∷ cs) = deliveries tag cs

-- 1 if the listener holds a message with this tag.
abbrev pub held : ℕ → QueueListener → ℕ
held tag l = if is_some (lookup tag l.messages) then 1 else 0

-- How often a tag was acknowledged to the server, in the library's state: `ack` sends one frame of the
-- tag where it returns true, and none where it returns false.
pub record CountsAcks (amqp : Amqp) : Type 0 where
  pub sent : amqp.World → ℕ → ℕ
  pub sent-ack :
      (w : amqp.World) (c t tag : ℕ)
      → sent (amqp.ack w c t).1 tag
        ≡ (if (amqp.ack w c t).0 then (if tag == t then 1 else 0) else 0) + sent w tag

count-append : (tag : ℕ) (xs ys : List ℕ) → count tag (xs ++ ys) ≡ count tag xs + count tag ys
count-append tag [] ys = omega arith
count-append tag (x ∷ xs) ys = omega (arith, count-append tag xs ys)

deliveries_cons :
    (tag : ℕ) (c : Call) (cs : List Call)
    → deliveries tag (c ∷ cs) ≡ deliveries tag (c ∷ []) + deliveries tag cs
deliveries_cons tag (delivers body priority t) cs = omega arith
deliveries_cons tag (turns b) cs = omega arith
deliveries_cons tag (resets c) cs = omega arith
deliveries_cons tag (confirms t) cs = omega arith

module _ (amqp : Amqp) where
  step-manual :
      (l : QueueListener) (w : amqp.World) (c : Call)
      → (step amqp l w c).0.is_auto_acknowledge ≡ l.is_auto_acknowledge
  unfolding step add_message set_is_ready reset_channel confirm_receiving
  step-manual l w (delivers body priority tag) = ground arith
  step-manual l w (turns true) = refl
  step-manual l w (turns false) = refl
  step-manual l w (resets c) = refl
  step-manual l w (confirms tag) = ground arith

  step-count :
      (l : QueueListener) (w : amqp.World) (c : Call) (tag : ℕ)
      → l.is_auto_acknowledge ≡ false
      → count tag (step amqp l w c).1 + held tag (step amqp l w c).0
        ≤ deliveries tag (c ∷ []) + held tag l
  unfolding step add_message set_is_ready reset_channel confirm_receiving
  step-count l w (delivers body priority t) tag manual =
      ground
        (arith, lookup-insert tag t (record { message = body; priority = priority }) l.messages)
  step-count l w (turns true) tag manual = omega arith
  step-count l w (turns false) tag manual = ground (arith, lookup-nil {V = CachedMessage} tag)
  step-count l w (resets c) tag manual = ground (arith, lookup-nil {V = CachedMessage} tag)
  step-count l w (confirms t) tag manual = ground (arith, lookup-erase tag t l.messages)

  step-sent :
      (acks : CountsAcks amqp) (l : QueueListener) (w : amqp.World) (c : Call) (tag : ℕ)
      → l.is_auto_acknowledge ≡ false
      → acks.sent (step amqp l w c).2 tag ≡ count tag (step amqp l w c).1 + acks.sent w tag
  unfolding step add_message set_is_ready reset_channel confirm_receiving
  step-sent acks l w (delivers body priority t) tag manual = ground arith
  step-sent acks l w (turns b) tag manual = omega arith
  step-sent acks l w (resets c) tag manual = omega arith
  step-sent acks l w (confirms t) tag manual =
      elim (Option-cases (to_strong_ref amqp w l.channel)) [
        | inl gone ↦ ground arith
        | inr (c, e) ↦ ground (arith, acks.sent-ack w c t tag)
      ]

  run-sent :
      (acks : CountsAcks amqp) (cs : List Call) (l : QueueListener) (w : amqp.World) (tag : ℕ)
      → l.is_auto_acknowledge ≡ false
      → acks.sent (run amqp l w cs).2 tag ≡ count tag (run amqp l w cs).1 + acks.sent w tag
  unfolding run
  run-sent acks [] l w tag manual = omega arith
  run-sent acks (c ∷ cs) l w tag manual = omega (
    arith,
    count-append tag (step amqp l w c).1 (run amqp (step amqp l w c).0 (step amqp l w c).2 cs).1,
    step-sent acks l w c tag manual,
    run-sent acks cs (step amqp l w c).0 (step amqp l w c).2 tag (step-manual l w c ∙ manual),
  )

  run-count :
      (cs : List Call) (l : QueueListener) (w : amqp.World) (tag : ℕ)
      → l.is_auto_acknowledge ≡ false
      → count tag (run amqp l w cs).1 + held tag (run amqp l w cs).0
        ≤ deliveries tag cs + held tag l
  unfolding run
  run-count [] l w tag manual = omega arith
  run-count (c ∷ cs) l w tag manual = omega (
    arith,
    count-append tag (step amqp l w c).1 (run amqp (step amqp l w c).0 (step amqp l w c).2 cs).1,
    step-count l w c tag manual,
    deliveries_cons tag c cs,
    run-count cs (step amqp l w c).0 (step amqp l w c).2 tag (step-manual l w c ∙ manual),
  )

  -- For a listener that does not acknowledge by itself, over any calls and with a library whose
  -- acknowledgements are counted as they are sent: those of a tag that were sent are just as many as the
  -- confirmations of it that returned true, and with the message held at the end, if there is one, at
  -- most as many as the messages with that tag that were delivered or held at the start.
  pub acked_le_delivered :
      (acks : CountsAcks amqp) (cs : List Call) (l : QueueListener) (w : amqp.World) (tag : ℕ)
      → l.is_auto_acknowledge ≡ false
      → (acks.sent (run amqp l w cs).2 tag ≡ count tag (run amqp l w cs).1 + acks.sent w tag)
        × (acks.sent (run amqp l w cs).2 tag + held tag (run amqp l w cs).0
            ≤ acks.sent w tag + (deliveries tag cs + held tag l))
  acked_le_delivered acks cs l w tag manual =
      let same = run-sent acks cs l w tag manual in
      (same, omega (arith, same, run-count cs l w tag manual))
