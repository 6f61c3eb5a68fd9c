-- ===== src/Rabbit/Connection/Quiet.antt =====
-- connectionhandler.cpp: the callbacks of the library that leave the input buffer.
use pipelinerunner.Base.{ℕ, ◌≡◌, refl, ◌∙◌, List, [], ◌∷◌, some, arith, Returns, Returns->>=}
use pipelinerunner.Rabbit.Connection.Outside.{
  Env, IsLawful, Callback, on_data, on_ready, on_error, on_closed,
}
use pipelinerunner.Rabbit.Connection.Sent.{OutputIsValid}
use pipelinerunner.Rabbit.Connection.Output.{handle_data-Delivers}
use pipelinerunner.Rabbit.Connection.{
  Handler, check_connection, handle_data, call_back, call_back_all,
}

-- On the connection that the handler has, the library sends data or reports an error.
abbrev pub AllQuiet : ℕ → List Callback → Type 0
AllQuiet c [] = Unit
AllQuiet c (on_data d bytes ∷ cs) = (d ≡ c) × AllQuiet c cs
AllQuiet c (on_error d ∷ cs) = AllQuiet c cs
AllQuiet c (on_ready d ∷ cs) = ⊥
AllQuiet c (on_closed d ∷ cs) = ⊥

module _ (env : Env) where
  abbrev KeepsInput : ℕ → Handler env → Handler env → Type 0
  KeepsInput c h i =
      (i.input_buffer ≡ h.input_buffer) × (i.connection ≡ some c) × OutputIsValid i.out_buffer

  module _ (lawful : IsLawful env) where
    check_connection_same :
        (h : Handler env) (c : ℕ)
        → h.connection ≡ some c
        → ((check_connection env h c).input_buffer ≡ h.input_buffer)
          × ((check_connection env h c).connection ≡ some c)
    unfolding check_connection
    check_connection_same h c e = ground arith

    handle_data_quiet :
        (h : Handler env) (c : ℕ) (bytes : List ℕ)
        → h.connection ≡ some c
        → OutputIsValid h.out_buffer
        → Returns (KeepsInput c h) (handle_data env h c bytes)
    handle_data_quiet h c bytes at v =
        let (i, e, d) = handle_data-Delivers env lawful h c bytes v in
        let same = check_connection_same h c at in
        (i, e, (d.same.same_input ∙ same.0, d.same.same_connection ∙ same.1, d.valid))

    -- Such callbacks leave the input buffer.
    pub call_back_all_quiet :
        (cs : List Callback) (h : Handler env) (c : ℕ)
        → h.connection ≡ some c
        → OutputIsValid h.out_buffer
        → AllQuiet c cs
        → Returns (KeepsInput c h) (call_back_all env h cs)
    unfolding call_back_all call_back
    call_back_all_quiet [] h c at v q = (h, refl, (refl, at, v))
    call_back_all_quiet (on_data d bytes ∷ cs) h c at v q =
        Returns->>= (KeepsInput c h) (KeepsInput c h) (call_back env h (on_data d bytes)) _
          (rw (q.0) (handle_data_quiet h c bytes at v))
          λ i k.
            let (j, e, k') = call_back_all_quiet cs i c k.1 k.2 q.1 in
            (j, e, (k'.0 ∙ k.0, k'.1, k'.2))
    call_back_all_quiet (on_error d ∷ cs) h c at v q = call_back_all_quiet cs h c at v q
    call_back_all_quiet (on_ready d ∷ cs) h c at v q = absurd q
    call_back_all_quiet (on_closed d ∷ cs) h c at v q = absurd q
