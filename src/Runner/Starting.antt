-- ===== src/Runner/Starting.antt =====
-- runnerservice.cpp, `start` and `checkJobSenderAndListener`: when the service gets its listener.
use pipelinerunner.Base.{ℕ, ◌≡◌, refl, true, none, some}
use pipelinerunner.Qt.{Qt}
use pipelinerunner.Runner.Outside.{Services}
use pipelinerunner.Runner.{RunnerService, start, create_listener_handler}

module _ (qt : Qt) (services : Services qt) where
  open services use {World}

  -- With a rabbit service that gives a sender and a listener, a service without a listener has that one
  -- after its start.
  pub start-listens :
      (s : RunnerService qt services) (sender listener : ℕ) (w w' : World)
      → s.listener_handler ≡ none
      → services.has_rabbit s.world ≡ true
      → services.pub_queue_sender s.world ≡ (some sender, w)
      → services.sub_queue_listener w ≡ (some listener, w')
      → start qt services s ≡ record s { listener_handler = some listener; world = w' }
  unfolding start create_listener_handler
  start-listens s sender listener w w' none_yet rabbit publishes subscribes =
      rw (none_yet, rabbit, publishes, subscribes, start) refl
