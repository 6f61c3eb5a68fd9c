-- ===== src/Rabbit/Channel.antt =====
-- What the queues use of AMQP-CPP: a channel (AMQP::Channel, a pointer is a number) and the messages
-- (AMQP::Envelope). `World` is the library's state.
use pipelinerunner.Base.{ℕ, Bool, List, Option, none, some, String, if◌then◌else◌}

abbrev pub Bytes : Type 0
Bytes = List ℕ

-- AMQP::Envelope, as it is published.
pub record Envelope : Type 0 where
  pub body : Bytes
  pub is_persistent : Bool
  pub priority : ℕ
  pub expiration : Option ℕ

pub record Amqp : Type 1 where
  pub World : Type 0
  -- Whether the object behind a QWeakPointer still exists.
  pub is_alive : World → ℕ → Bool
  pub ack : World → ℕ → ℕ → Bool × World
  pub publish : World → ℕ → String → Envelope → Bool × World
  pub set_qos : World → ℕ → ℕ → World
  pub declare_queue : World → ℕ → String → Bool → ℕ → World
  pub consume : World → ℕ → String → World
  pub close_connection : World → ℕ → World
  pub new_connection : World → String → String → ℕ × World
  pub new_channel : World → ℕ → ℕ × World

-- `QWeakPointer::toStrongRef`
abbrev pub to_strong_ref : (amqp : Amqp) → amqp.World → Option ℕ → Option ℕ
to_strong_ref amqp w none = none
to_strong_ref amqp w (some c) = if amqp.is_alive w c then some c else none
