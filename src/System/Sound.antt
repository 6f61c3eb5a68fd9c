-- ===== src/System/Sound.antt =====
-- What holds of the whole program between two events.
pub mod Effects
pub mod Kept
pub mod Slots
pub mod Called
pub mod Losses
pub mod Delivered
pub mod Consumed
pub mod Arrived
pub mod Begun
pub mod Invariant
use pipelinerunner.Base.{ℕ, ◌≡◌, ◌≢◌, false, Option, none, some, string_eq, lookup, nat_eq}
use pipelinerunner.Qt.{Qt}
use pipelinerunner.Common.Message.{Message}
use pipelinerunner.Rabbit.Channel.{Amqp}
use pipelinerunner.Rabbit.Connection.Outside.{Env}
use pipelinerunner.Rabbit.Listener.{QueueListener}
use pipelinerunner.RabbitPlugin.{RabbitService, RabbitClient}
use pipelinerunner.Converter.Outside.{Desktop}
use pipelinerunner.Converter.{Converter}
use pipelinerunner.Converter.Steps.{message_at}
use pipelinerunner.Converter.History.{JobsAreFiled}
use pipelinerunner.Runner.Tables.{job_of, tag_of}
use pipelinerunner.System.{Outer, system}
use pipelinerunner.System.Events.{Program}

module _ (qt : Qt) (env : Env) (amqp : Amqp) (desktop : Desktop) (new_uuid : ℕ → qt.Uuid) where
  abbrev pub Prog : Type 0
  Prog = Program qt env amqp desktop new_uuid

  abbrev pub job : Prog → qt.Uuid → Option ℕ
  job s u = job_of qt (system qt env amqp desktop new_uuid) s u

  abbrev pub tag : Prog → qt.Uuid → Option ℕ
  tag s u = tag_of qt (system qt env amqp desktop new_uuid) s u

  -- A message is in work.
  abbrev pub InWork : Prog → qt.Uuid → Type 0
  InWork s u = (h : ℕ) × (job s u ≡ some h)

  -- The listener of the program's queue of jobs.
  pub record Serves (w : Outer qt env amqp desktop new_uuid) (l : QueueListener) : Type 0 where
    pub service : RabbitService qt env amqp
    pub cl : RabbitClient qt env amqp
    pub rabbit : w.rabbit ≡ some service
    pub client : service.client ≡ some cl
    pub found : lookup service.config.sub_queue_name cl.listeners ≡ some l

  -- The converter has the message of every job under its handle.
  pub record Converts (s : Prog) (c : Converter qt desktop) : Type 0 where
    pub there : s.world.converter ≡ some c
    pub filed : JobsAreFiled qt desktop c
    pub known :
        (u : qt.Uuid) (h : ℕ)
        → job s u ≡ some h
        → (m : Message qt) × (message_at qt desktop c h ≡ some m) × (m.message_id ≡ u)

  -- The listener holds the delivery of every message in work, and no two of them are the same.
  pub record Holds (s : Prog) (l : QueueListener) : Type 0 where
    pub held :
        (u : qt.Uuid) → InWork s u → (t : ℕ) × (tag s u ≡ some t) × (lookup t l.messages ≢ none)
    pub distinct :
        (u v : qt.Uuid) (t : ℕ)
        → InWork s u
        → InWork s v
        → tag s u ≡ some t
        → tag s v ≡ some t
        → u ≡ v
    pub works_ready : l.is_ready ≡ false → (u : qt.Uuid) → job s u ≡ none

  -- The listener `l` of the queue of jobs is the client's and wants confirmations, and the two tables agree
  -- with it and with the converter.
  pub record Sound (s : Prog) (l : QueueListener) : Type 0 where
    pub serves : Serves s.world l
    pub manual : l.is_auto_acknowledge ≡ false
    pub listener : ℕ
    pub handler : s.listener_handler ≡ some listener
    pub c : Converter qt desktop
    pub converts : Converts s c
    pub holds : Holds s l

  abbrev pub IsSound : Prog → Type 0
  IsSound s = (l : QueueListener) × Sound s l
