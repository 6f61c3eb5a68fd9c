-- ===== src/Examples/SampleSocket.antt =====
-- A small socket, which takes at most four bytes at once; and a parser that handles all it is given.
use pipelinerunner.Base.{
  ℕ, ◌<◌, refl, ◌≢◌, List, [], ◌∷◌, ◌++◌, min, arith, length, take, drop, length-take, length-drop,
  false,
}
use pipelinerunner.Rabbit.Connection.Outside.{Env, IsLawful, wrote, on_ready}

pub record Socket : Type 0 where
  pub pending : List ℕ
  pub sent : List ℕ

abbrev pub sample_env : Env
sample_env = record {
  World = Socket;
  bytes_available = λ w. length w.pending;
  read = λ w n. (take n w.pending, record w { pending = drop n w.pending });
  write = λ w bytes. (
    wrote (min 4 (length bytes)),
    record w { sent = w.sent ++ take (min 4 (length bytes)) bytes },
  );
  is_connecting = λ w. false;
  connect_to_host = λ w. w;
  start_timer = λ w. w;
  parse = λ w c bytes. record { count = length bytes; callbacks = on_ready c ∷ []; after = w };
  close = λ w c. ([], w);
  slots = λ w s. ([], w);
  sent = λ w. w.sent;
}

some_length : (bytes : List ℕ) → bytes ≢ [] → 0 < length bytes
unfolding length
some_length [] n = absurd (n refl)
some_length (b ∷ bs) n = omega arith

pub sample_lawful : IsLawful sample_env
sample_lawful = record {
  write_takes = λ w bytes n.
      (min 4 (length bytes), refl, omega (arith, some_length bytes n), omega arith, refl);
  length-read = λ w n h. omega (arith, h, length-take n w.pending);
  parse-le = λ w c bytes. omega arith;
  available-read = λ w n h. omega (arith, length-drop n w.pending);
  available-write = λ w bytes. refl;
  available-parse = λ w c bytes. refl;
  available-close = λ w c. refl;
  available-slots = λ w s. refl;
}

-- Six bytes wait.
abbrev pub six_waiting : Socket
six_waiting = record { pending = 1 ∷ 2 ∷ 3 ∷ 4 ∷ 5 ∷ 6 ∷ []; sent = [] }
