-- ===== src/Examples/Program.antt =====
-- The theorems on the program's services together.
use pipelinerunner.Base.{
  ℕ, ◌≡◌, refl, ◌≢◌, [], ◌∷◌, Option, some, none, String, true, lookup, nat_eq, ℕ_discrete,
  string_eq, erase,
}
use pipelinerunner.Toolkit.Value.{Fields, field, end, string, find}
use pipelinerunner.Toolkit.Extractor.{extract_uuid, extract_string, extract_json_value}
use pipelinerunner.Common.Message.{Message, message_info, message_from_json, message_to_byte_array}
use pipelinerunner.Rabbit.Listener.Confirm.{MayConfirm}
use pipelinerunner.Rabbit.Sender.{envelope}
use pipelinerunner.Rabbit.Client.{start}
use pipelinerunner.RabbitPlugin.{RabbitService, RabbitClient}
use pipelinerunner.Converter.{Converter, end_job}
use pipelinerunner.Converter.Queue.{Ends, end_job-Ends}
use pipelinerunner.Runner.Outside.{Services}
use pipelinerunner.Runner.{RunnerService, handle_job_finished}
use pipelinerunner.System.{Outer, system, listener_of}
use pipelinerunner.System.Finishing.{with_converter, Finishes, result_is_published_and_confirmed}
use pipelinerunner.System.Publishing.{MayPublish}
use pipelinerunner.System.Starting.{IsNew}
use pipelinerunner.Examples.SampleQt.{sample_qt}
use pipelinerunner.Examples.SampleSocket.{sample_env}
use pipelinerunner.Examples.Queues.{
  sample_amqp, sample_listener, sample_sender, started_client, sample_service,
}
use pipelinerunner.Examples.Runs.{two_jobs-JobsAreFiled}
use pipelinerunner.Examples.Jobs.{sample_desktop, sample_process, sample_job, two_jobs}

abbrev pub next_uuid : ℕ → String
next_uuid n = "9f0"

abbrev pub Whole : Type 0
Whole = Outer sample_qt sample_env sample_amqp sample_desktop next_uuid

abbrev pub services : Services sample_qt
services = system sample_qt sample_env sample_amqp sample_desktop next_uuid

abbrev pub RunnerState : Type 0
RunnerState = RunnerService sample_qt services

-- The sender's queue is declared.
abbrev pub connected : RabbitClient sample_qt sample_env sample_amqp
connected = record started_client { senders = ("out", sample_sender) ∷ [] }

abbrev pub rabbit_service : RabbitService sample_qt sample_env sample_amqp
rabbit_service = record sample_service { client = some connected }

abbrev pub program_world : Whole
program_world = record {
  converter = some two_jobs;
  rabbit = some rabbit_service;
  broker = 0;
  uuids_made = 0;
}

-- The runner knows the message of the first job by the job 0 and the tag 5.
abbrev pub program_runner : RunnerState
program_runner = record {
  listener_handler = some 0;
  jobs = ("7d4", 0) ∷ [];
  jobs_delivery_tags = ("7d4", 5) ∷ [];
  world = program_world;
}

abbrev pub ended :
    (result : Option String)
    → (c : Converter sample_qt sample_desktop) × (end_job sample_qt sample_desktop two_jobs result
        ≡ some c)
      × Ends sample_qt sample_desktop sample_process 0 (1 ∷ []) result two_jobs c
ended result = end_job-Ends sample_qt sample_desktop sample_process two_jobs 0 (1 ∷ []) result refl

-- The world when the first job has ended.
abbrev after : Option String → Whole
after result =
    with_converter sample_qt sample_env sample_amqp sample_desktop next_uuid program_world
      (ended result).0

first-Finishes :
    Finishes sample_qt sample_env sample_amqp sample_desktop next_uuid program_runner two_jobs 0
      (1 ∷ [])
      sample_job
      0
      5
unfolding lookup string_eq ℕ_discrete
first-Finishes = record {
  listens = refl;
  converts = refl;
  in_front = refl;
  filed = two_jobs-JobsAreFiled;
  needed = refl;
  handle = refl;
  job = (0, refl);
  tagged = refl;
}

pub may_publish :
    (w : Whole)
    → w.rabbit ≡ some rabbit_service
    → MayPublish sample_qt sample_env sample_amqp sample_desktop next_uuid w rabbit_service
        connected sample_sender 2
unfolding start lookup string_eq
may_publish w e = record {
  rabbit = e;
  client = refl;
  started = refl;
  found = refl;
  ready = refl;
  alive = refl;
}

pub holds_five : lookup 5 sample_listener.messages ≢ none
unfolding lookup ℕ_discrete
holds_five = λ e. cc

pub may_confirm : (b : ℕ) → MayConfirm sample_amqp sample_listener b 5 2
may_confirm b = record {
  ready = refl;
  manual = refl;
  held = holds_five;
  channel = refl;
  sent = refl;
}

pub finds_listener : lookup "in" connected.listeners ≡ some sample_listener
unfolding start lookup string_eq
finds_listener = refl

result_is_published_and_confirmed_example :
    (s' : RunnerState) × (handle_job_finished sample_qt services
        (record program_runner { world = after (some "b.tif") })
        (some 0)
      ≡ some s')
    × (s'.jobs ≡ erase "7d4" program_runner.jobs)
    × (s'.jobs_delivery_tags ≡ erase "7d4" program_runner.jobs_delivery_tags)
    × (s'.world.broker
        ≡ (sample_amqp.ack
            (sample_amqp.publish 0 2 "out" (
              envelope
                (message_to_byte_array sample_qt
                  (record { message_id = "9f0"; input_file = "b.tif" }))
                0
                0
                true)).1
            2
            5).1)
result_is_published_and_confirmed_example =
    result_is_published_and_confirmed sample_qt sample_env sample_amqp sample_desktop next_uuid
      sample_process program_runner two_jobs (ended (some "b.tif")).0 0 (1 ∷ []) sample_job 0 5
      "b.tif" rabbit_service connected sample_sender sample_listener 2 2 first-Finishes
      (ended (some "b.tif")).1 (may_publish (after (some "b.tif")) refl) finds_listener
      (may_confirm 1)

pub still_listens :
    (c : Converter sample_qt sample_desktop)
    → listener_of sample_qt sample_env sample_amqp sample_desktop next_uuid (some rabbit_service)
      ≡ some sample_listener
unfolding listener_of start lookup string_eq
still_listens c = refl

abbrev pub new_job : Fields ℕ
new_job = field "message_id" (string "a01") (field "input_file" (string "c.tif") end)

abbrev pub new_message : Message sample_qt
new_message = record { message_id = "a01"; input_file = "c.tif" }

pub job-IsNew :
    IsNew sample_qt sample_env sample_amqp sample_desktop next_uuid program_runner two_jobs
      (message_info sample_qt new_job 6 0)
      new_message
unfolding message_info message_from_json extract_uuid extract_string extract_json_value find lookup
    string_eq
job-IsNew = record { named = refl; unknown = refl; converts = refl; read = refl }
