-- ===== src/RabbitPlugin/Publishing.antt =====
-- rabbitservice.cpp: the queue of results, from its creation to the broker's answer.
use pipelinerunner.Base.{◌≡◌, refl, true, some, string_eq, is_some}
use pipelinerunner.Qt.{Qt}
use pipelinerunner.Rabbit.Channel.{Amqp}
use pipelinerunner.Rabbit.Connection.Outside.{Env}
use pipelinerunner.Rabbit.Client.{queue_declared}
use pipelinerunner.Rabbit.Client.Declared.{ready_after_declared}
use pipelinerunner.RabbitPlugin.{
  RabbitService, pub_queue_sender, is_pub_queue_created, pub_is_durable_queue, RabbitClient,
}

module _ (qt : Qt) (env : Env) (amqp : Amqp) where
  -- For a service whose client is started, once the queue of results was asked for and the broker has
  -- answered that it is declared, the queue counts as created.
  pub is_pub_queue_created-declared :
      (s : RabbitService qt env amqp) (c : RabbitClient qt env amqp) (w : amqp.World)
      → s.client ≡ some c
      → is_some c.handler ≡ true
      → (c' : RabbitClient qt env amqp) × ((pub_queue_sender qt env amqp s w).0.client ≡ some c')
        × (is_pub_queue_created qt env amqp (record s {
          client = some (queue_declared qt.HostAddress env amqp c' s.config.pub_queue_name).0;
        })
            ≡ true)
  unfolding pub_queue_sender is_pub_queue_created
  is_pub_queue_created-declared s c w e started = (
    _,
    rw e refl,
    ready_after_declared qt.HostAddress env amqp c w s.config.pub_queue_name pub_is_durable_queue
        started,
  )
