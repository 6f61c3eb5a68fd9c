-- ===== src/Rabbit/Sender.antt =====
-- pipelineutils/modules/rabbitmq: queuesender.h and queuesender.cpp.
pub mod Publish
use pipelinerunner.Base.{
  ℕ, suc, ◌*◌, ◌%◌, ◌^◌, Bool, true, false, not, List, [], ◌∷◌, ◌++◌, Option, none, some, String,
  if◌then◌else◌, ◌=ℕ=◌,
}
use pipelinerunner.Rabbit.Channel.{Bytes, Envelope, Amqp, to_strong_ref}
use pipelinerunner.Rabbit.Listener.{changed}

pub data SenderSignal : Type 0 where
  ready : SenderSignal
  ready_changed : Bool → SenderSignal

pub record QueueSender : Type 0 where
  pub queue_name : String
  pub is_durable : Bool
  pub is_ready : Bool
  pub channel : Option ℕ

-- The constructor.
unfoldable pub create : String → Bool → Option ℕ → QueueSender
create name durable channel = record {
  queue_name = name;
  is_durable = durable;
  is_ready = false;
  channel = channel;
}

-- `setIsReady`
unfoldable pub set_is_ready : QueueSender → Bool → QueueSender × List SenderSignal
set_is_ready s is_ready = (
  record s { is_ready = is_ready },
  changed s.is_ready is_ready (ready_changed is_ready) ++ (if is_ready then ready ∷ [] else []),
)

-- `resetChannel`
unfoldable pub reset_channel : QueueSender → Option ℕ → QueueSender × List SenderSignal
unfolding set_is_ready
reset_channel s channel = set_is_ready (record s { channel = channel }) false

-- A `const char *` ends at the first zero byte.
unfoldable pub c_string : Bytes → Bytes
c_string [] = []
c_string (b ∷ bs) = let rest = c_string bs in if b =ℕ= 0 then [] else b ∷ rest

-- `ttl_s * 1000` is a 32-bit product.
unfoldable pub envelope : Bytes → ℕ → ℕ → Bool → Envelope
unfolding c_string
envelope message ttl_s priority is_persistent = record {
  body = c_string message;
  is_persistent = is_persistent;
  priority = priority;
  expiration = if ttl_s =ℕ= 0 then none else some ((ttl_s * 1000) % 2 ^ 32);
}

module _ (amqp : Amqp) where
  publish_on : QueueSender → Option ℕ → amqp.World → Envelope → Bool × amqp.World
  publish_on s none w e = (false, w)
  publish_on s (some c) w e = amqp.publish w c s.queue_name e

  unfoldable pub publish : QueueSender → amqp.World → Bytes → ℕ → ℕ → Bool → Bool × amqp.World
  unfolding publish_on
  publish s w message ttl_s priority is_persistent =
      if not s.is_ready
      then (false, w)
      else publish_on s (to_strong_ref amqp w s.channel) w
          (envelope message ttl_s priority is_persistent)
