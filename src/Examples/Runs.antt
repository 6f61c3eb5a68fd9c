-- ===== src/Examples/Runs.antt =====
-- The theorems on runs: a buffer, a listener and the converter over some calls.
use pipelinerunner.Base.{
  ℕ, zero, suc, ◌<◌, ◌≤◌, ◌≡◌, refl, List, [], ◌∷◌, some, none, take, drop, length, arith, lookup,
  nat_eq, string_eq, assertion_failed, ℕ_discrete,
}
use pipelinerunner.Common.Message.{Message}
use pipelinerunner.Rabbit.Buffer.{Buffer, contents, size}
use pipelinerunner.Rabbit.Buffer.Laws.{IsValid}
use pipelinerunner.Rabbit.Buffer.Refinement
use pipelinerunner.Rabbit.Buffer.Refinement.{run_refines, view, perform, promise}
use pipelinerunner.Rabbit.Connection.Outside.{Env, failed}
use pipelinerunner.Rabbit.Connection.{Handler, init, handle_data}
use pipelinerunner.Rabbit.Connection.Shifting.{init-HandlerIsValid}
use pipelinerunner.Rabbit.Connection.Failure.{handle_data_fails}
use pipelinerunner.Converter.{
  Converter, handle_process_error, end_job, process_job_message, register_job_message,
}
use pipelinerunner.Converter.History as ConverterHistory
use pipelinerunner.Converter.History.{JobsAreFiled, run-JobsAreFiled}
use pipelinerunner.Converter.Steps.{message_at}
use pipelinerunner.Converter.Queue.{Ends, end_job-Ends}
use pipelinerunner.Examples.SampleQt.{sample_qt}
use pipelinerunner.Examples.SampleSocket.{sample_env, six_waiting}
use pipelinerunner.Examples.Connections.{two_of_four}
use pipelinerunner.Examples.Jobs.{sample_desktop, sample_process, sample_job, two_jobs}

abbrev buffer_calls : List Refinement.Call
buffer_calls = Refinement.writes (1 ∷ 2 ∷ 3 ∷ []) ∷ Refinement.shifts 3 ∷ Refinement.resizes 6 ∷ []

run_refines_example :
    (b : Buffer) × (Refinement.run perform two_of_four buffer_calls ≡ some b)
    × IsValid b
    × (view b ≡ record { waiting = 2 ∷ []; capacity = 6 })
unfolding Refinement.run promise view contents size length take drop
run_refines_example =
    run_refines buffer_calls two_of_four (record { waiting = 2 ∷ []; capacity = 6 }) (omega arith)
      refl

-- A socket whose writes fail.
abbrev broken_env : Env
broken_env = record sample_env { write = λ w bytes. (failed, w) }

abbrev broken_handler : Handler broken_env
broken_handler = init broken_env six_waiting

handle_data_fails_example : handle_data broken_env broken_handler 1 (9 ∷ 8 ∷ []) ≡ assertion_failed
handle_data_fails_example =
    handle_data_fails broken_env (λ w bytes. refl) broken_handler 1 9 (8 ∷ [])
      (init-HandlerIsValid broken_env six_waiting).output

pub no_front : (k : ℕ) → 2 ≤ k → message_at sample_qt sample_desktop two_jobs k ≡ none
unfolding message_at lookup
no_front k h = ground arith

pub both_known :
    (k : ℕ)
    → k < 2
    → (m : Message sample_qt) × (message_at sample_qt sample_desktop two_jobs k ≡ some m)
unfolding lookup ℕ_discrete
both_known zero h = (sample_job.message, refl)
both_known (suc zero) h = (sample_job.message, refl)
both_known (suc (suc k)) h = absurd (omega (arith, h))

pub two_jobs-JobsAreFiled : JobsAreFiled sample_qt sample_desktop two_jobs
two_jobs-JobsAreFiled = record {
  distinct = (((λ e. absurd (omega (arith, e))), tt), (tt, tt));
  given = (omega arith, (omega arith, tt));
  known = both_known;
  fresh = no_front;
}

abbrev third_message : Message sample_qt
third_message = record { message_id = "a01"; input_file = "c.tif" }

abbrev converter_events : List (ConverterHistory.Event sample_qt sample_desktop)
converter_events = ConverterHistory.submits third_message ∷ ConverterHistory.process_fails ∷ []

three_jobs :
    (ConverterHistory.submit sample_qt sample_desktop two_jobs third_message).received_messages
    ≡ 0 ∷ 1 ∷ 2 ∷ []
unfolding ConverterHistory.submit process_job_message register_job_message
three_jobs = refl

-- The first job ended without a result.
abbrev after_events :
    (s : Converter sample_qt sample_desktop) × (end_job sample_qt sample_desktop
        (ConverterHistory.submit sample_qt sample_desktop two_jobs third_message)
        none
      ≡ some s)
    × Ends sample_qt sample_desktop sample_process 0
        (1 ∷ 2 ∷ [])
        none
        (ConverterHistory.submit sample_qt sample_desktop two_jobs third_message)
        s
after_events =
    end_job-Ends sample_qt sample_desktop sample_process
      (ConverterHistory.submit sample_qt sample_desktop two_jobs third_message) 0 (1 ∷ 2 ∷ []) none
      three_jobs

fails_after_submit :
    (s s' : Converter sample_qt sample_desktop) (m : Message sample_qt)
    → end_job sample_qt sample_desktop (ConverterHistory.submit sample_qt sample_desktop s m) none
      ≡ some s'
    → ConverterHistory.run sample_qt sample_desktop s
        (ConverterHistory.submits m ∷ ConverterHistory.process_fails ∷ [])
      ≡ some s'
unfolding ConverterHistory.run ConverterHistory.step handle_process_error
fails_after_submit s s' m e = rw (e, ConverterHistory.run) refl

run-JobsAreFiled_example :
    JobsAreFiled sample_qt sample_desktop after_events.0
    × ((k : ℕ) (m : Message sample_qt)
        → message_at sample_qt sample_desktop two_jobs k ≡ some m
        → message_at sample_qt sample_desktop after_events.0 k ≡ some m)
run-JobsAreFiled_example =
    run-JobsAreFiled sample_qt sample_desktop converter_events two_jobs after_events.0
      two_jobs-JobsAreFiled
      (fails_after_submit two_jobs after_events.0 third_message after_events.1)
