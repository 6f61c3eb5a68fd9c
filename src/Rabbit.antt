-- ===== src/Rabbit.antt =====
-- pipelineutils/modules/rabbitmq: the client library over AMQP.
pub mod Buffer
pub mod Connection
pub mod Channel
pub mod Listener
pub mod Sender
pub mod Client
