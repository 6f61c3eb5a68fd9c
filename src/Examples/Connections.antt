-- ===== src/Examples/Connections.antt =====
-- The theorems on buffers and on the connection handler at a small socket.
use pipelinerunner.Base.{[], ◌∷◌, length, Returns, arith}
use pipelinerunner.Rabbit.Buffer.{Buffer}
use pipelinerunner.Rabbit.Connection.{
  Handler, init, handle_data, check_connection, read_round, handle_ready_read,
}
use pipelinerunner.Rabbit.Connection.Sent.{Delivers}
use pipelinerunner.Rabbit.Connection.Output.{handle_data-Delivers}
use pipelinerunner.Rabbit.Connection.Shifting.{init-HandlerIsValid}
use pipelinerunner.Rabbit.Connection.Reading.{
  Reads, read_round-Reads, IsFinished, handle_ready_read-Returns,
}
use pipelinerunner.Examples.SampleSocket.{sample_env, sample_lawful, six_waiting}

abbrev pub sample_handler : Handler sample_env
sample_handler = init sample_env six_waiting

abbrev pub two_of_four : Buffer
two_of_four = record { bytes = 7 ∷ 8 ∷ 0 ∷ 0 ∷ []; in_use = 2 }

handle_data-Delivers_example :
    Returns
      (Delivers sample_env (check_connection sample_env sample_handler 1) (9 ∷ 8 ∷ 7 ∷ 6 ∷ 5 ∷ []))
      (handle_data sample_env sample_handler 1 (9 ∷ 8 ∷ 7 ∷ 6 ∷ 5 ∷ []))
handle_data-Delivers_example =
    handle_data-Delivers sample_env sample_lawful sample_handler 1 (9 ∷ 8 ∷ 7 ∷ 6 ∷ 5 ∷ [])
      (init-HandlerIsValid sample_env six_waiting).output

read_round-Reads_example :
    Returns (Reads sample_env sample_lawful sample_handler) (read_round sample_env sample_handler)
read_round-Reads_example =
    read_round-Reads sample_env sample_lawful sample_handler
      (init-HandlerIsValid sample_env six_waiting)

handle_ready_read-Returns_example :
    Returns (IsFinished sample_env sample_lawful) (handle_ready_read sample_env 7 sample_handler)
unfolding length init
handle_ready_read-Returns_example =
    handle_ready_read-Returns sample_env sample_lawful 7 sample_handler
      (init-HandlerIsValid sample_env six_waiting) (omega arith)
