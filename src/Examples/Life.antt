-- ===== src/Examples/Life.antt =====
-- The theorem on the life of a message, on an idle program.
use pipelinerunner.Base.{
  ◌≡◌, refl, [], ◌∷◌, some, true, lookup, nat_eq, ℕ_discrete, string_eq, insert,
}
use pipelinerunner.Toolkit.Value.{find}
use pipelinerunner.Toolkit.Extractor.{extract_uuid, extract_string, extract_json_value}
use pipelinerunner.Common.Message.{message_info, message_from_json, message_to_byte_array}
use pipelinerunner.Rabbit.Sender.{envelope}
use pipelinerunner.Converter.{
  Converter, end_job, begin, start_job, process_job_message, register_job_message,
}
use pipelinerunner.Converter.Started.{NeverFails, begin_succeeds, start_job_begun}
use pipelinerunner.Converter.History.{submit, JobsAreFiled}
use pipelinerunner.Converter.Queue.{Ends, end_job-Ends}
use pipelinerunner.Runner.{handle_job_finished, handle_job_message}
use pipelinerunner.System.Finishing.{with_converter}
use pipelinerunner.System.Following.{new_handle, taken, new_message_is_answered}
use pipelinerunner.System.Starting.{IsNew}
use pipelinerunner.Examples.SampleQt.{sample_qt, write_fields, read_two}
use pipelinerunner.Examples.SampleSocket.{sample_env}
use pipelinerunner.Examples.Queues.{sample_amqp, sample_listener, sample_sender}
use pipelinerunner.Examples.Runs.{both_known, no_front}
use pipelinerunner.Examples.Jobs.{sample_desktop, sample_process, two_jobs}
use pipelinerunner.Examples.Program.{
  next_uuid, services, RunnerState, connected, rabbit_service, program_world, may_publish,
  may_confirm, finds_listener, new_job, new_message,
}

-- The converter with both jobs done, and the runner without jobs.
abbrev no_jobs : Converter sample_qt sample_desktop
no_jobs = record two_jobs { received_messages = [] }

abbrev idle_runner : RunnerState
idle_runner = record {
  listener_handler = some 0;
  jobs = [];
  jobs_delivery_tags = [];
  world = record program_world { converter = some no_jobs };
}

idle-IsNew :
    IsNew sample_qt sample_env sample_amqp sample_desktop next_uuid idle_runner no_jobs
      (message_info sample_qt new_job 5 0)
      new_message
unfolding message_info message_from_json extract_uuid extract_string extract_json_value find lookup
    string_eq
idle-IsNew = record { named = refl; unknown = refl; converts = refl; read = refl }

no_jobs-JobsAreFiled : JobsAreFiled sample_qt sample_desktop no_jobs
no_jobs-JobsAreFiled = record { distinct = tt; given = tt; known = both_known; fresh = no_front }

never_fails : NeverFails sample_qt sample_desktop
never_fails = record { alive = λ w h. refl; made = λ w path. refl; copied = λ w from to. refl }

abbrev submitted : Converter sample_qt sample_desktop
submitted = submit sample_qt sample_desktop no_jobs new_message

submitted_front : submitted.received_messages ≡ 2 ∷ []
unfolding submit process_job_message register_job_message
submitted_front = refl

submitted_handle :
    lookup 2 submitted.handles
    ≡ some (new_handle sample_qt sample_env sample_amqp sample_desktop next_uuid new_message)
unfolding submit process_job_message register_job_message insert lookup ℕ_discrete
submitted_handle = refl

abbrev begun :
    (c : Converter sample_qt sample_desktop) × (begin sample_qt sample_desktop submitted 2
      ≡ (c, true))
begun = begin_succeeds sample_qt sample_desktop never_fails submitted 2

begun_front : begun.0.received_messages ≡ 2 ∷ []
begun_front =
    (start_job_begun sample_qt sample_desktop submitted begun.0 2 []
      (new_handle sample_qt sample_env sample_amqp sample_desktop next_uuid new_message)
      submitted_front submitted_handle begun.1).1

abbrev done :
    (c : Converter sample_qt sample_desktop) × (end_job sample_qt sample_desktop begun.0
        (some "d.tif")
      ≡ some c)
    × Ends sample_qt sample_desktop sample_process 2 [] (some "d.tif") begun.0 c
done = end_job-Ends sample_qt sample_desktop sample_process begun.0 2 [] (some "d.tif") begun_front

new_message_is_answered_example :
    (handle_job_message sample_qt services idle_runner (write_fields new_job) 0 5
      ≡ some (
          taken sample_qt sample_env sample_amqp sample_desktop next_uuid idle_runner no_jobs
            new_message
            (message_info sample_qt new_job 5 0).id
            5))
    × (start_job sample_qt sample_desktop submitted ≡ some begun.0)
    × (s : RunnerState) × (handle_job_finished sample_qt services
          (record (taken sample_qt sample_env sample_amqp sample_desktop next_uuid idle_runner
            no_jobs new_message
            (message_info sample_qt new_job 5 0).id
            5) {
              world =
                  with_converter sample_qt sample_env sample_amqp sample_desktop next_uuid
                    program_world done.0;
            })
          (some 2)
        ≡ some s)
    × (s.world.broker
        ≡ (sample_amqp.ack
            (sample_amqp.publish 0 2 "out" (
              envelope
                (message_to_byte_array sample_qt
                  (record { message_id = "9f0"; input_file = "d.tif" }))
                0
                0
                true)).1
            2
            5).1)
new_message_is_answered_example =
    new_message_is_answered sample_qt sample_env sample_amqp sample_desktop next_uuid sample_process
      idle_runner no_jobs begun.0 done.0 (write_fields new_job) 0 5 0 new_job new_message "d.tif"
      rabbit_service connected sample_sender sample_listener 2 2 refl
      (read_two "message_id" "input_file" "a01" "c.tif") idle-IsNew no_jobs-JobsAreFiled refl refl
      begun.1 refl done.1 (may_publish (idle_runner.world) refl) finds_listener (may_confirm 1)
