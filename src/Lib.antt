-- ===== src/Lib.antt =====
-- Verification of pipelinerunner, a Qt service that takes conversion jobs from a RabbitMQ queue, runs a
-- converter process for each and publishes the name of the resulting file.
--
-- The program's parts, each with the file that models it:
--   pipelineutils/modules/toolkit: JsonExtractor is Toolkit (Toolkit/Value, Toolkit/Extractor), with
--     extractX as extract_x and an exception as the error of a Result (Base/Results); ipandport.h is
--     Toolkit/IpAndPort, and expected.h is Toolkit/Expected.
--   pipelineutils/modules/rabbitmq: buffer.cpp is Rabbit/Buffer; connectionhandler.cpp is
--     Rabbit/Connection, between a socket and the AMQP parser; queuelistener.cpp and queuesender.cpp are
--     Rabbit/Listener and Rabbit/Sender; rabbitmqclient.cpp, which owns all of these, is Rabbit/Client.
--   src/PipelineRunnerCommon: the structs are Common/Message and Common/Config.
--   src/PipelineRunnerPlugins: ConfigService is Common/Config/Service; RabbitService, which hands out the
--     queues of one client, is RabbitPlugin; ConverterService with JobHandle is Converter, a queue of jobs
--     worked off by one process; RunnerService with ListenerHandler is Runner, which gives the deliveries
--     to the converter, and the results and confirmations to the queues. The four plugins, which start
--     and stop these services, are Application, with what they say of themselves in Application/Info.
--   src/PipelineRunner, which loads the plugins, is Application/Main.
-- System puts the models of ConverterService, JobHandle and RabbitService behind the interfaces that Runner
-- takes as a parameter. A message is followed through all services: System/Starting has its delivery,
-- System/Finishing and System/Publishing the end of its job, and System/Following its life from the one to
-- the other. System/Events has the program's events in any order, with the slots that the signals of the
-- client run: the calls of the connection and of the library on the client, the events of the converter,
-- the slot of `finished` for any handle, and changes of the ConnectionHandler and of the broker.
-- System/Sound says what holds between two events. Its modules Effects, Kept, Slots, Called, Losses,
-- Delivered, Consumed and Arrived follow it over one kind of event each, Begun gives it to a program that
-- starts, and Invariant to every state that is reached. System/Taken, Answered, Returns, Calm, Lasting and
-- Fate say what follows in such a state. The stop of the plugins is no event there. Slots run when the
-- client's method is done, in the order of the signals: `addMessage` emits at its end, and the slot of a
-- broken connection reads nothing of the client.
-- A class is a record, a method a function of the new state, an emitted signal a value in a list or, where
-- the slots act before `emit` returns, a call of the slots. Pointers are numbers or names of queues.
--
-- Other code is a parameter: Qt's values (Qt), sockets and AMQP::Connection (Rabbit/Connection/Outside),
-- AMQP::Channel (Rabbit/Channel), files and processes (Converter/Outside), the service locator
-- (Runner/Outside, Application) and the service of plugins (Application/Main). What is relied on are the
-- records IsDocumented, IsLawful, CountsAcks and Process. Examples has an instance of each, and the
-- theorems at concrete inputs.
--
-- Fuel: `handle_data` runs two rounds more than there are bytes, since each round but the first takes at
-- least one; `handle_ready_read` takes any fuel above the bytes available, since a round reads some. The
-- recursion between startJob and endJob is over the queue, of which each endJob takes one job.
--
-- Not modelled: the event loop and main.cpp, which runs it; logging but for the messages of the application;
-- locks, as each holds over one assignment; and AMQP-CPP, a copy of another project's library.
pub mod Base
pub mod Qt
pub mod Toolkit
pub mod Common
pub mod Rabbit
pub mod RabbitPlugin
pub mod Converter
pub mod Runner
pub mod System
pub mod Application
pub mod Examples
