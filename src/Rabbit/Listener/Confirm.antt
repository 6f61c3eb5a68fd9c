-- ===== src/Rabbit/Listener/Confirm.antt =====
-- queuelistener.cpp: `confirmReceiving` acknowledges a message that is held, once.
use pipelinerunner.Base.{ℕ, ◌≡◌, ◌≢◌, true, false, none, some, lookup, nat_eq, erase, arith}
use pipelinerunner.Rabbit.Channel.{Amqp, to_strong_ref}
use pipelinerunner.Rabbit.Listener.{QueueListener, confirm_receiving}

module _ (amqp : Amqp) where
  -- What has to hold for a message to be acknowledged, and on which channel it is.
  pub record MayConfirm (l : QueueListener) (w : amqp.World) (tag c : ℕ) : Type 0 where
    pub ready : l.is_ready ≡ true
    pub manual : l.is_auto_acknowledge ≡ false
    pub held : lookup tag l.messages ≢ none
    pub channel : to_strong_ref amqp w l.channel ≡ some c
    pub sent : (amqp.ack w c tag).0 ≡ true

  -- A message that may be confirmed on a channel is acknowledged there, with the result true, and is no
  -- longer held.
  pub confirm_of_MayConfirm :
      (l : QueueListener) (w : amqp.World) (tag c : ℕ)
      → MayConfirm l w tag c
      → confirm_receiving amqp l w tag
        ≡ (record l { messages = erase tag l.messages }, true, (amqp.ack w c tag).1)
  unfolding confirm_receiving
  confirm_of_MayConfirm l w tag c m = ground (arith, m)

  -- Where the result is true, the listener was ready, does not acknowledge by itself and held the message,
  -- its channel still existed, and the acknowledgement was sent on it.
  pub MayConfirm-of_confirm :
      (l : QueueListener) (w : amqp.World) (tag : ℕ)
      → (confirm_receiving amqp l w tag).1 ≡ true
      → (c : ℕ) × MayConfirm l w tag c
  unfolding confirm_receiving
  MayConfirm-of_confirm l w tag h = ground arith

  pub confirm_refused :
      (l : QueueListener) (w : amqp.World) (tag : ℕ)
      → (confirm_receiving amqp l w tag).1 ≡ false
      → (confirm_receiving amqp l w tag).0 ≡ l
  unfolding confirm_receiving
  confirm_refused l w tag h = ground arith
