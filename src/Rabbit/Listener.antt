-- ===== src/Rabbit/Listener.antt =====
-- pipelineutils/modules/rabbitmq: queuelistener.h and queuelistener.cpp. A method returns the new
-- listener and the signals that it emits, in order.
pub mod Confirm
pub mod History
use pipelinerunner.Base.{
  ℕ, Bool, true, false, not, ◌||◌, List, [], ◌∷◌, ◌++◌, Option, none, some, String, Dict, lookup,
  insert, erase, nat_eq, is_some, if◌then◌else◌,
}
use pipelinerunner.Rabbit.Channel.{Bytes, Amqp, to_strong_ref}

pub record CachedMessage : Type 0 where
  pub message : Bytes
  pub priority : ℕ

pub data ListenerSignal : Type 0 where
  ready : ListenerSignal
  ready_changed : Bool → ListenerSignal
  message_received : Bytes → ℕ → ℕ → ListenerSignal
  messages_updated : ListenerSignal

pub record QueueListener : Type 0 where
  pub queue_name : String
  pub is_auto_acknowledge : Bool
  pub is_ready : Bool
  pub channel : Option ℕ
  pub messages : Dict ℕ CachedMessage

-- The constructor.
unfoldable pub create : String → Bool → Option ℕ → QueueListener
create name auto channel = record {
  queue_name = name;
  is_auto_acknowledge = auto;
  is_ready = false;
  channel = channel;
  messages = [];
}

abbrev pub changed {ℓ} : {A : Type ℓ} → Bool → Bool → A → List A
changed true true a = []
changed true false a = a ∷ []
changed false true a = a ∷ []
changed false false a = []

-- `setIsReady`
unfoldable pub set_is_ready : QueueListener → Bool → QueueListener × List ListenerSignal
set_is_ready l true =
    (record l { is_ready = true }, changed l.is_ready true (ready_changed true) ++ ready ∷ [])
set_is_ready l false =
    (record l { is_ready = false; messages = [] }, changed l.is_ready false (ready_changed false))

-- `resetChannel`
unfoldable pub reset_channel : QueueListener → Option ℕ → QueueListener × List ListenerSignal
unfolding set_is_ready
reset_channel l channel = set_is_ready (record l { channel = channel }) false

module _ (amqp : Amqp) where
  confirm_on : QueueListener → Option ℕ → amqp.World → ℕ → QueueListener × Bool × amqp.World
  confirm_on l none w tag = (l, false, w)
  confirm_on l (some c) w tag =
      let (sent, w') = amqp.ack w c tag in
      if sent then (record l { messages = erase tag l.messages }, true, w') else (l, false, w')

  -- `confirmReceiving`: the new listener, the result, and the library's state.
  unfoldable pub confirm_receiving :
      QueueListener → amqp.World → ℕ → QueueListener × Bool × amqp.World
  unfolding confirm_on
  confirm_receiving l w tag =
      if not l.is_ready || l.is_auto_acknowledge || not (is_some (lookup tag l.messages))
      then (l, false, w)
      else confirm_on l (to_strong_ref amqp w l.channel) w tag

  acknowledge : Option ℕ → amqp.World → ℕ → amqp.World
  acknowledge none w tag = w
  acknowledge (some c) w tag = (amqp.ack w c tag).1

  -- `addMessage`
  unfoldable pub add_message :
      QueueListener → amqp.World → Bytes → ℕ → ℕ → QueueListener × List ListenerSignal × amqp.World
  unfolding acknowledge
  add_message l w body priority tag =
      if l.is_auto_acknowledge
      then (
        l,
        message_received body priority tag ∷ [],
        acknowledge (to_strong_ref amqp w l.channel) w tag,
      )
      else (
        record l {
          messages = insert tag (record { message = body; priority = priority }) l.messages;
        },
        messages_updated ∷ message_received body priority tag ∷ [],
        w,
      )
