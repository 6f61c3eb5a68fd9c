-- ===== src/Rabbit/Connection/Failure.antt =====
-- connectionhandler.cpp: `sendDataFromBuffer` on a socket that refuses to write.
use pipelinerunner.Base.{
  ℕ, zero, suc, ◌+◌, ◌≤◌, ◌<◌, ◌≡◌, refl, false, List, ◌∷◌, arith, length, assertion_failed, ◌=ℕ=◌,
}
use pipelinerunner.Rabbit.Buffer.{Buffer, size, data_size, contents, shift_left}
use pipelinerunner.Rabbit.Buffer
use pipelinerunner.Rabbit.Buffer.Laws.{
  available_size_valid, shift_left_too_far, size-write, write-IsValid, in_use-write,
}
use pipelinerunner.Rabbit.Connection.Outside.{Env, failed}
use pipelinerunner.Rabbit.Connection.Sent.{OutputIsValid}
use pipelinerunner.Rabbit.Connection.Output.{check_connection-OutputIsValid}
use pipelinerunner.Rabbit.Connection.{
  Handler, out_buffer_size, handle_data, send_all, send_round, send_data_from_buffer, shift_out,
  to_size, check_connection,
}

module _ (env : Env)
    (fails : (w : env.World) (bytes : List ℕ) → (env.write w bytes).0 ≡ failed) where
  shift_out_fails :
      (h : Handler env)
      → 0 < h.out_buffer.in_use
      → h.out_buffer.in_use ≤ out_buffer_size
      → shift_out env h (to_size failed) ≡ assertion_failed
  unfolding shift_out
  shift_out_fails h some_left fits =
      rw
        (
          shift_left_too_far h.out_buffer (to_size failed) some_left (omega (arith, fits)),
          shift_out,
        )
        refl

  send_fails :
      (h : Handler env)
      → 0 < h.out_buffer.in_use
      → h.out_buffer.in_use ≤ out_buffer_size
      → send_data_from_buffer env h ≡ assertion_failed
  unfolding send_data_from_buffer shift_out
  send_fails h some_left fits =
      let nonempty : (h.out_buffer.in_use =ℕ= 0) ≡ false = ground arith in
      rw (nonempty, fails h.world (contents h.out_buffer))
        (shift_out_fails (record h { world = (env.write h.world (contents h.out_buffer)).1 })
          some_left fits)

  round_fails :
      (h : Handler env) (x : ℕ) (rest : List ℕ)
      → OutputIsValid h.out_buffer
      → send_round env h (x ∷ rest) ≡ assertion_failed
  unfolding send_round length
  round_fails h x rest v =
      let b = (Buffer.write h.out_buffer (x ∷ rest)).0 in
      let n = in_use-write h.out_buffer (x ∷ rest) v.inside in
      let inside : b.in_use ≤ size b = write-IsValid h.out_buffer (x ∷ rest) v.inside in
      let same = size-write h.out_buffer (x ∷ rest) v.inside in
      rw
        (send_fails (record h { out_buffer = b })
          (omega (arith, n, v.sized, available_size_valid h.out_buffer v.inside))
          (omega (arith, inside, same, v.sized)))
        refl

  all_fails :
      (fuel : ℕ) (h : Handler env) (x : ℕ) (rest : List ℕ)
      → 0 < fuel
      → OutputIsValid h.out_buffer
      → send_all env fuel h (x ∷ rest) ≡ assertion_failed
  unfolding send_all
  all_fails zero h x rest n v = absurd (omega arith)
  all_fails (suc fuel) h x rest n v = rw (round_fails h x rest v) refl

  -- On a socket whose writes fail, `onData` with a valid output buffer of the initial size and at least
  -- one byte fails the assertion of `shiftLeft`: the result -1 of the write is taken for a size.
  pub handle_data_fails :
      (h : Handler env) (c x : ℕ) (rest : List ℕ)
      → OutputIsValid h.out_buffer
      → handle_data env h c (x ∷ rest) ≡ assertion_failed
  unfolding handle_data
  handle_data_fails h c x rest v =
      all_fails (length (x ∷ rest) + 2) (check_connection env h c) x rest (omega arith)
        (check_connection-OutputIsValid env h c v)
