-- ===== src/Rabbit/Sender/Publish.antt =====
-- queuesender.cpp: when `publish` publishes, and what.
use pipelinerunner.Base.{
  ℕ, ◌*◌, ◌^◌, ◌<◌, ◌≡◌, refl, ◌≢◌, Bool, true, false, [], ◌∷◌, ◌++◌, none, some, ◌=ℕ=◌,
  if◌then◌else◌, arith, ◌⊎◌,
}
use pipelinerunner.Rabbit.Channel.{Bytes, Amqp, to_strong_ref}
use pipelinerunner.Rabbit.Sender.{QueueSender, c_string, envelope, publish, publish_on}

-- No byte is zero.
abbrev pub NoZero : Bytes → Type 0
NoZero [] = Unit {0}
NoZero (b ∷ bs) = (b ≢ 0) × NoZero bs

pub c_string_of_NoZero : (bs : Bytes) → NoZero bs → c_string bs ≡ bs
unfolding c_string
c_string_of_NoZero [] h = refl
c_string_of_NoZero (b ∷ bs) h = ground (arith, c_string_of_NoZero bs h.1)

pub c_string_cut : (xs ys : Bytes) → c_string (xs ++ 0 ∷ ys) ≡ c_string xs
unfolding c_string
c_string_cut [] ys = refl
c_string_cut (x ∷ xs) ys = ground (arith, c_string_cut xs ys)

module _ (amqp : Amqp) (s : QueueSender) (w : amqp.World) (message : Bytes) (ttl_s priority : ℕ)
    (persistent : Bool) where
  -- A message goes out only from a ready sender whose channel still exists, to the sender's queue;
  -- else nothing is sent, and the result is false.
  pub publish_cases :
      ((s.is_ready ≡ true)
        × ((c : ℕ) × (to_strong_ref amqp w s.channel ≡ some c)
            × (publish amqp s w message ttl_s priority persistent
                ≡ amqp.publish w c s.queue_name (envelope message ttl_s priority persistent))))
      ⊎ (((s.is_ready ≡ false) ⊎ (to_strong_ref amqp w s.channel ≡ none))
          × (publish amqp s w message ttl_s priority persistent ≡ (false, w)))
  unfolding publish
  publish_cases = ground arith

  -- The first case, with its channel.
  pub publish_ready :
      (c : ℕ)
      → s.is_ready ≡ true
      → to_strong_ref amqp w s.channel ≡ some c
      → publish amqp s w message ttl_s priority persistent
        ≡ amqp.publish w c s.queue_name (envelope message ttl_s priority persistent)
  unfolding publish publish_on
  publish_ready c r e = rw (r, e) refl

-- A message without zero bytes is published whole, and its time to live is exact in milliseconds
-- as long as the product fits 32 bits; without a time to live it never expires.
pub envelope_exact :
    (message : Bytes) (ttl_s priority : ℕ) (persistent : Bool)
    → NoZero message
    → ttl_s * 1000 < 2 ^ 32
    → ((envelope message ttl_s priority persistent).body ≡ message)
      × ((envelope message ttl_s priority persistent).expiration
          ≡ (if ttl_s =ℕ= 0 then none else some (ttl_s * 1000)))
unfolding envelope
envelope_exact message ttl_s priority persistent h lt = (c_string_of_NoZero message h, ground arith)
