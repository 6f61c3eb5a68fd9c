-- ===== src/Runner/Outside.antt =====
-- What RunnerService uses of the other plugins and of Qt: the services of the locator, the handles of
-- jobs, the queues, which are numbers here, and new identifiers.
use pipelinerunner.Base.{ℕ, Bool, Option, String, Dict}
use pipelinerunner.Qt.{Qt}
use pipelinerunner.Common.Message.{Message}
use pipelinerunner.Rabbit.Channel.{Bytes}
use pipelinerunner.Rabbit.Listener.{CachedMessage}

pub record Services (qt : Qt) : Type 1 where
  pub World : Type 0
  pub create_uuid : World → qt.Uuid × World
  -- IConverterService and IJobHandle.
  pub has_converter : World → Bool
  pub register_job_message : World → Message qt → Option ℕ × World
  pub process_job_message : World → ℕ → Bool × World
  pub connect_finished : World → ℕ → World
  pub message_of : World → ℕ → Message qt
  pub result_of : World → ℕ → Option String
  -- IRabbitService, and the queues it gives.
  pub has_rabbit : World → Bool
  pub pub_queue_sender : World → Option ℕ × World
  pub sub_queue_listener : World → Option ℕ × World
  pub publish : World → ℕ → Bytes → ℕ → ℕ → Bool → Bool × World
  pub confirm_receiving : World → ℕ → ℕ → World
  pub messages : World → ℕ → Dict ℕ CachedMessage
