-- ===== src/Converter/Crash.antt =====
-- converterservice.cpp: a converter that crashes. QProcess then emits `errorOccurred` and `finished`,
-- and the service ends a job at each of the two.
use pipelinerunner.Base.{ℕ, ◌≡◌, refl, ap, false, [], ◌∷◌, Option, none, some, String, arith}
use pipelinerunner.Qt.{Qt}
use pipelinerunner.Converter.Outside.{Desktop}
use pipelinerunner.Converter.{
  Converter, end_job, ending, proceed, retire, handle_process_error, handle_process_finished,
}

module _ (qt : Qt) (desktop : Desktop) where
  last_retired :
      (s s' : Converter qt desktop) (h : ℕ) (result : Option String)
      → s.received_messages ≡ h ∷ []
      → end_job qt desktop s result ≡ some s'
      → s'.received_messages ≡ []
  unfolding end_job ending proceed retire
  last_retired s s' h result e r = ground arith

  -- When the process of the only job crashes, the error ends the job and empties the queue, and the
  -- end of the process that follows takes the front of an empty queue, which is undefined.
  pub crash_of_last_job :
      (s : Converter qt desktop) (h exit_code : ℕ)
      → s.received_messages ≡ h ∷ []
      → (s' : Converter qt desktop) × (handle_process_error qt desktop s ≡ some s')
        × (s'.received_messages ≡ [])
        × (handle_process_finished qt desktop s' exit_code false ≡ none)
  unfolding handle_process_error handle_process_finished end_job ending proceed retire
  crash_of_last_job s h exit_code e =
      (retire qt desktop s h [] none, ap (λ w. ending qt desktop w s none) e, refl, ground arith)
