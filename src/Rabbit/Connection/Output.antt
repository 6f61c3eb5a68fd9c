-- ===== src/Rabbit/Connection/Output.antt =====
-- connectionhandler.cpp: `onData` and what it calls.
use mathlib.Core.List.{append_assoc, append-nil}
use pipelinerunner.Base.{
  ℕ, zero, suc, ◌+◌, ◌≤◌, ◌<◌, ◌≡◌, refl, sym, ap, ◌∙◌, ◌≢◌, false, List, [], ◌∷◌, ◌++◌, arith, inl,
  inr, Bool-cases, length, take, drop, length-drop, take-append-drop, Returns, Returns->>=, ◌=ℕ=◌,
}
use pipelinerunner.Rabbit.Buffer.{Buffer, size, data_size, available_size, contents}
use pipelinerunner.Rabbit.Buffer
use pipelinerunner.Rabbit.Buffer.Laws.{
  available_size_valid, length-contents, size-write, write-IsValid, write-taken, contents-write,
  shift_left_ok,
}
use pipelinerunner.Rabbit.Connection.Outside.{Env, IsLawful}
use pipelinerunner.Rabbit.Connection.{
  Handler, out_buffer_size, shift_out, send_data_from_buffer, send_round, send_all,
  check_connection, handle_data,
}
use pipelinerunner.Rabbit.Connection.Sent.{
  length_nil, length_cons, OutputIsValid, outgoing, Sends, SameInput-refl, Rounds, Delivers,
  Delivers-after,
}

module _ (env : Env) where
  pub check_connection-OutputIsValid :
      (h : Handler env) (c : ℕ)
      → OutputIsValid h.out_buffer
      → OutputIsValid (check_connection env h c).out_buffer
  unfolding check_connection Buffer.drain
  check_connection-OutputIsValid h c v = ground arith

  module _ (lawful : IsLawful env) where
    shift_out-Sends :
        (h : Handler env) (w : env.World) (n : ℕ)
        → OutputIsValid h.out_buffer
        → 0 < n
        → n ≤ length (contents h.out_buffer)
        → env.sent w ≡ env.sent h.world ++ take n (contents h.out_buffer)
        → env.bytes_available w ≡ env.bytes_available h.world
        → Returns (Sends env h) (shift_out env (record h { world = w }) n)
    unfolding shift_out
    shift_out-Sends h w n v pos le e available =
        let (b, eq, used, sized, held) =
          shift_left_ok h.out_buffer n v.inside
            (omega (arith, length-contents h.out_buffer v.inside)) in
        rw (eq, shift_out)
          (
            record h { world = w; out_buffer = b },
            refl,
            record {
              same = record {
                same_input = refl;
                same_tmp = refl;
                same_resized = refl;
                same_connection = refl;
                same_connected = refl;
                same_ready = refl;
                same_available = available;
              };
              valid = record { inside = omega arith; sized = omega arith };
              room = omega (arith, length-contents h.out_buffer v.inside);
              outgoing_kept =
                  rw (e, held, append_assoc)
                    (ap (◌++◌ (env.sent h.world)) (take-append-drop n (contents h.out_buffer)));
            },
          )

    pub send-Sends :
        (h : Handler env)
        → OutputIsValid h.out_buffer
        → Returns (Sends env h) (send_data_from_buffer env h)
    unfolding send_data_from_buffer
    send-Sends h v = elim (Bool-cases (data_size h.out_buffer =ℕ= 0)) [
      | inl e ↦ rw e (
        h,
        refl,
        record {
          same = SameInput-refl env h;
          valid = v;
          room = ground arith;
          outgoing_kept = refl;
        },
      )
      | inr e ↦
          (let (n, eq, pos, le, sent) =
              lawful.write_takes h.world (contents h.out_buffer) (nonempty e) in
            rw (e, eq) (shift_out-Sends h _ n v pos le sent (lawful.available-write h.world _)))
    ]
      where
        nonempty : (data_size h.out_buffer =ℕ= 0) ≡ false → contents h.out_buffer ≢ []
        nonempty e p =
            ground (arith, ap length p, length-contents h.out_buffer v.inside, length_nil)

    send_round-Rounds :
        (h : Handler env) (rest : List ℕ)
        → OutputIsValid h.out_buffer
        → Returns (Rounds env h rest) (send_round env h rest)
    unfolding send_round
    send_round-Rounds h rest v =
        Returns->>= (Sends env (record h { out_buffer = b })) (Rounds env h rest)
          (send_data_from_buffer env (record h { out_buffer = b })) _
          (send-Sends (record h { out_buffer = b })
            (record {
              inside = write-IsValid h.out_buffer rest v.inside;
              sized = size-write h.out_buffer rest v.inside ∙ v.sized;
            }))
          λ h' s. ((h', drop taken rest), refl, round h' s)
      where
        b : Buffer
        b = (Buffer.write h.out_buffer rest).0

        taken : ℕ
        taken = (Buffer.write h.out_buffer rest).1

        total :
            (h' : Handler env)
            → Sends env (record h { out_buffer = b }) h'
            → outgoing env h' ++ drop taken rest ≡ outgoing env h ++ rest
        total h' s = rw (
          s.outgoing_kept,
          contents-write h.out_buffer rest v.inside,
          append_assoc (env.sent h.world),
          append_assoc (env.sent h.world),
          append_assoc (contents h.out_buffer),
          take-append-drop taken rest,
        )

        round :
            (h' : Handler env)
            → Sends env (record h { out_buffer = b }) h'
            → Rounds env h rest (h', drop taken rest)
        round h' s = record {
          same = record {
            same_input = s.same.same_input;
            same_tmp = s.same.same_tmp;
            same_resized = s.same.same_resized;
            same_connection = s.same.same_connection;
            same_connected = s.same.same_connected;
            same_ready = s.same.same_ready;
            same_available = s.same.same_available;
          };
          valid = s.valid;
          room = s.room;
          outgoing_total = total h' s;
          left = omega (arith, length-drop taken rest, write-taken h.out_buffer rest v.inside);
        }

    -- With room in the buffer each round takes a byte, so the rounds are at most the bytes.
    send_all-Delivers_room :
        (fuel : ℕ) (h : Handler env) (rest : List ℕ)
        → OutputIsValid h.out_buffer
        → h.out_buffer.in_use < out_buffer_size
        → length rest < fuel
        → Returns (Delivers env h rest) (send_all env fuel h rest)
    unfolding send_all
    send_all-Delivers_room zero h rest v room enough = absurd (omega arith)
    send_all-Delivers_room (suc fuel) h [] v room enough = (
      h,
      refl,
      record { same = SameInput-refl env h; valid = v; outgoing_all = sym (append-nil _) },
    )
    send_all-Delivers_room (suc fuel) h (x ∷ rest) v room enough =
        Returns->>= (Rounds env h (x ∷ rest)) (Delivers env h (x ∷ rest))
          (send_round env h (x ∷ rest)) _ (send_round-Rounds h (x ∷ rest) v)
          λ (h', rest') r.
            Delivers-after env (h', rest') r
              (send_all-Delivers_room fuel h' rest' r.valid r.room (
                omega (
                  arith,
                  r.left,
                  length_cons x rest,
                  v.sized,
                  available_size_valid h.out_buffer v.inside,
                )))

    send_all-Delivers :
        (fuel : ℕ) (h : Handler env) (rest : List ℕ)
        → OutputIsValid h.out_buffer
        → length rest + 1 < fuel
        → Returns (Delivers env h rest) (send_all env fuel h rest)
    unfolding send_all
    send_all-Delivers zero h rest v enough = absurd (omega arith)
    send_all-Delivers (suc fuel) h [] v enough = (
      h,
      refl,
      record { same = SameInput-refl env h; valid = v; outgoing_all = sym (append-nil _) },
    )
    send_all-Delivers (suc fuel) h (x ∷ rest) v enough =
        Returns->>= (Rounds env h (x ∷ rest)) (Delivers env h (x ∷ rest))
          (send_round env h (x ∷ rest)) _ (send_round-Rounds h (x ∷ rest) v)
          λ (h', rest') r.
            Delivers-after env (h', rest') r
              (send_all-Delivers_room fuel h' rest' r.valid r.room (omega (arith, r.left)))

    -- With a lawful socket and a valid output buffer of the initial size, `onData` returns for
    -- any bytes, with the output buffer valid, the input side as it was after the connection was checked,
    -- and, of what the socket took and what the buffer holds together, just these bytes more.
    pub handle_data-Delivers :
        (h : Handler env) (c : ℕ) (bytes : List ℕ)
        → OutputIsValid h.out_buffer
        → Returns (Delivers env (check_connection env h c) bytes) (handle_data env h c bytes)
    unfolding handle_data
    handle_data-Delivers h c bytes v =
        send_all-Delivers (length bytes + 2) (check_connection env h c) bytes
          (check_connection-OutputIsValid h c v) (omega arith)
