-- ===== src/Examples/Interleaving.antt =====
-- The theorems on the program over any of its events, on the program with two jobs.
use mathlib.Core.Path.{subst}
use mathlib.Core.Option.{some-injective}
use pipelinerunner.Base.{
  ℕ, ◌≡◌, refl, ap, sym, ◌∙◌, ◌≢◌, ◌⊎◌, [], ◌∷◌, some, none, String, true, lookup, nat_eq,
  ℕ_discrete, string_eq, erase, arith,
}
use pipelinerunner.Common.Message.{Message}
use pipelinerunner.Rabbit.Listener.{QueueListener}
use pipelinerunner.Runner.{handle_job_finished, send_result}
use pipelinerunner.Converter.Steps.{message_at}
use pipelinerunner.System.Events.{
  calls, broker_moves, Reach, here, later, Call, arrives, emitted, perform, IsFresh,
}
use pipelinerunner.System.Sound.{Sound, IsSound}
use pipelinerunner.System.Finishing.{with_converter}
use pipelinerunner.System.Sound.Invariant.{Reach-IsSound}
use pipelinerunner.System.Answered.{job_in_work_is_answered, Works}
use pipelinerunner.System.Returns.{slots_return}
use pipelinerunner.System.Taken.{IsTaken, new_message-IsTaken}
use pipelinerunner.System.Fate.{Ended, works_until_answered}
use pipelinerunner.Examples.SampleQt.{sample_qt, write_fields, read_two}
use pipelinerunner.Examples.SampleSocket.{sample_env}
use pipelinerunner.Examples.Queues.{sample_amqp, sample_listener}
use pipelinerunner.Examples.Runs.{two_jobs-JobsAreFiled}
use pipelinerunner.Examples.Jobs.{sample_job, sample_desktop, sample_process, two_jobs}
use pipelinerunner.Examples.Program.{
  next_uuid, services, RunnerState, connected, rabbit_service, program_world, program_runner, ended,
  finds_listener, holds_five, new_job, new_message, job-IsNew, still_listens,
}

only_job : (u : String) (h : ℕ) → lookup u program_runner.jobs ≡ some h → (u ≡ "7d4") × (h ≡ 0)
unfolding lookup
only_job u h e = ground arith

known_job :
    (u : String) (h : ℕ)
    → lookup u program_runner.jobs ≡ some h
    → (m : Message sample_qt) × (message_at sample_qt sample_desktop two_jobs h ≡ some m)
      × (m.message_id ≡ u)
unfolding lookup ℕ_discrete
known_job u h e =
    let (id, job) = only_job u h e in
    (sample_job.message, ap (λ k. message_at sample_qt sample_desktop two_jobs k) job, sym id)

held_job :
    (u : String) (h : ℕ)
    → lookup u program_runner.jobs ≡ some h
    → (t : ℕ) × (lookup u program_runner.jobs_delivery_tags ≡ some t)
      × (lookup t sample_listener.messages ≢ none)
unfolding lookup string_eq
held_job u h e =
    (5, ap (λ v. lookup v program_runner.jobs_delivery_tags) (only_job u h e).0, holds_five)

program-Sound :
    Sound sample_qt sample_env sample_amqp sample_desktop next_uuid program_runner sample_listener
program-Sound = record {
  serves = record {
    service = rabbit_service;
    cl = connected;
    rabbit = refl;
    client = refl;
    found = finds_listener;
  };
  manual = refl;
  listener = 0;
  handler = refl;
  c = two_jobs;
  converts = record { there = refl; filed = two_jobs-JobsAreFiled; known = known_job };
  holds = record {
    held = λ u i. held_job u i.0 i.1;
    distinct = λ u v t i j e f. (only_job u i.0 i.1).0 ∙ sym (only_job v j.0 j.1).0;
    works_ready = λ e u. cc e;
  };
}

-- A new message arrives with the tag 6, and all slots run.
new_tag : IsFresh sample_qt sample_env sample_amqp sample_desktop next_uuid connected "in" 6
unfolding lookup ℕ_discrete string_eq
new_tag l e =
    subst (λ (x : QueueListener). (x.is_ready ≡ true) × (lookup 6 x.messages ≡ none))
      (some-injective sample_listener l (sym finds_listener ∙ e)) (refl, refl)

abbrev arrival : Call
arrival = arrives "in" (write_fields new_job) 0 6

abbrev after_arrival :
    (s : RunnerState) × (emitted sample_qt sample_env sample_amqp sample_desktop next_uuid
        program_runner rabbit_service
        (perform sample_qt sample_env sample_amqp sample_desktop next_uuid connected 0 arrival)
      ≡ some s)
after_arrival =
    (slots_return sample_qt sample_env sample_amqp sample_desktop next_uuid program_runner
      program_runner rabbit_service connected arrival 0 (sample_listener, program-Sound) here).0

-- After that the broker changes.
arrival-Reach :
    Reach sample_qt sample_env sample_amqp sample_desktop next_uuid program_runner
      (record (after_arrival.0) { world = record (after_arrival.0.world) { broker = 9 } })
arrival-Reach =
    later (later here (calls rabbit_service connected arrival refl refl new_tag after_arrival.1))
      (broker_moves 9)

Reach-IsSound_example :
    IsSound sample_qt sample_env sample_amqp sample_desktop next_uuid
      (record (after_arrival.0) { world = record (after_arrival.0.world) { broker = 9 } })
Reach-IsSound_example =
    Reach-IsSound sample_qt sample_env sample_amqp sample_desktop next_uuid program_runner
      (record (after_arrival.0) { world = record (after_arrival.0.world) { broker = 9 } })
      (sample_listener, program-Sound) arrival-Reach

slots_return_example :
    ((s : RunnerState) × (emitted sample_qt sample_env sample_amqp sample_desktop next_uuid
          program_runner rabbit_service
          (perform sample_qt sample_env sample_amqp sample_desktop next_uuid connected 0 arrival)
        ≡ some s))
    × ((s : RunnerState) × (handle_job_finished sample_qt services program_runner (some 0)
          ≡ some s))
slots_return_example =
    slots_return sample_qt sample_env sample_amqp sample_desktop next_uuid program_runner
      program_runner rabbit_service connected arrival 0 (sample_listener, program-Sound) here

first_job : lookup "7d4" program_runner.jobs ≡ some 0
unfolding lookup string_eq
first_job = refl

abbrev moved : RunnerState
moved = record program_runner { world = record program_world { broker = 3 } }

first-Works :
    Works sample_qt sample_env sample_amqp sample_desktop next_uuid moved two_jobs 0
      (1 ∷ [])
      "7d4"
      5
unfolding lookup string_eq
first-Works = record { converts = refl; in_front = refl; needed = refl; job = refl; tagged = refl }

-- The first job ends without a result, after the broker has moved.
job_in_work_is_answered_example :
    (s : RunnerState) × (handle_job_finished sample_qt services
        (record moved {
          world =
              with_converter sample_qt sample_env sample_amqp sample_desktop next_uuid
                (moved.world)
                (ended none).0;
        })
        (some 0)
      ≡ some s)
    × (s.jobs ≡ erase "7d4" moved.jobs)
    × (s.jobs_delivery_tags ≡ erase "7d4" moved.jobs_delivery_tags)
    × (s.world.broker ≡ (sample_amqp.ack 3 2 5).1)
unfolding send_result
job_in_work_is_answered_example =
    job_in_work_is_answered sample_qt sample_env sample_amqp sample_desktop next_uuid sample_process
      program_runner moved two_jobs (ended none).0 0 (1 ∷ []) "7d4" 5 none sample_listener 2
      (sample_listener, program-Sound) (later here (broker_moves 3)) first-Works (ended none).1
      (still_listens (ended none).0) refl refl

-- The message of the first job, after the arrival of another one and a change of the broker.
works_until_answered_example :
    (lookup "7d4" (after_arrival.0).jobs ≡ some 0)
    ⊎ Ended sample_qt sample_env sample_amqp sample_desktop next_uuid program_runner
        (record (after_arrival.0) { world = record (after_arrival.0.world) { broker = 9 } })
        "7d4"
        0
works_until_answered_example =
    works_until_answered sample_qt sample_env sample_amqp sample_desktop next_uuid program_runner
      (record (after_arrival.0) { world = record (after_arrival.0.world) { broker = 9 } }) "7d4" 0
      (sample_listener, program-Sound) arrival-Reach first_job

-- The arrival of another message in that program.
new_message-IsTaken_example :
    (s : RunnerState) × (emitted sample_qt sample_env sample_amqp sample_desktop next_uuid
        program_runner rabbit_service
        (perform sample_qt sample_env sample_amqp sample_desktop next_uuid connected 0 arrival)
      ≡ some s)
    × IsTaken sample_qt sample_env sample_amqp sample_desktop next_uuid s two_jobs new_message 6
new_message-IsTaken_example =
    new_message-IsTaken sample_qt sample_env sample_amqp sample_desktop next_uuid program_runner
      program_runner rabbit_service connected two_jobs (write_fields new_job) 0 6 new_job
      new_message (sample_listener, program-Sound) here refl refl
      (read_two "message_id" "input_file" "a01" "c.tif") job-IsNew
