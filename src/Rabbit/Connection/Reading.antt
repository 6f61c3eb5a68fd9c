-- ===== src/Rabbit/Connection/Reading.antt =====
-- connectionhandler.cpp: the loop of `handleReadyRead`, from the socket to the parser.
use mathlib.Core.Path.{subst, ap₂}
use pipelinerunner.Base.{
  ℕ, zero, suc, ◌+◌, ◌-◌, ◌≤◌, ◌<◌, ◌≡◌, refl, ◌∙◌, ◌⊎◌, Bool, true, false, List, ◌++◌, arith, inl,
  inr, Bool-cases, length, take, done, ◌>>=◌, Returns, Returns->>=, ltb, ◌=ℕ=◌,
}
use pipelinerunner.Rabbit.Buffer.{Buffer, size, data_size, available_size, contents, memcpy}
use pipelinerunner.Rabbit.Buffer
use pipelinerunner.Rabbit.Buffer.Laws.{
  IsValid, available_size_valid, size-resize, in_use-resize, contents-resize, length-memcpy,
  take-memcpy_front,
}
use pipelinerunner.Rabbit.Connection.Outside.{Env, IsLawful}
use pipelinerunner.Rabbit.Connection.Callbacks.{
  Keeps, Keeps-trans, close-Keeps, set_connected-Keeps,
}
use pipelinerunner.Rabbit.Connection.{
  Handler, in_buffer_size, temp_buffer_size, deliver, read_socket, to_read, overfull, read_round,
  set_connected, close, handle_ready_read,
}
use pipelinerunner.Rabbit.Connection.Shifting.{HandlerIsValid, InputIsSized, Keeps-HandlerIsValid}
use pipelinerunner.Rabbit.Connection.Input.{
  Left, Left-of_fields, Feeds, chunk, read_world, length-chunk, deliver-Feeds,
}

module _ (env : Env) where
  module _ (lawful : IsLawful env) where
    pub record Reads (h : Handler env) (r : Handler env × Bool) : Type 0 where
      pub valid : HandlerIsValid r.0
      pub fed :
          r.1 ≡ true
          → Left env h
              (read_world env lawful h)
              h.connection
              (contents h.input_buffer ++ chunk env lawful h)
              r.0
      pub stopped :
          r.1 ≡ false
          → (h.is_input_buffer_resized ≡ true)
            × (r.0.is_input_buffer_resized ≡ true)
            × (available_size h.input_buffer < to_read env h)
      pub available : env.bytes_available r.0.world ≡ env.bytes_available h.world - to_read env h

    module _ (h : Handler env) (v : HandlerIsValid h) where
      abbrev after_read : Handler env
      after_read = read_socket env h (to_read env h)

      available-after_read :
          env.bytes_available (read_world env lawful h)
          ≡ env.bytes_available h.world - to_read env h
      available-after_read = lawful.available-read h.world (to_read env h) (omega arith)

      chunk_fits : length (chunk env lawful h) ≤ length h.tmp_buffer
      chunk_fits = omega (arith, length-chunk env lawful h, v.tmp_sized)

      tmp_holds :
          take (to_read env h) (memcpy h.tmp_buffer 0 (chunk env lawful h)) ≡ chunk env lawful h
      tmp_holds =
          take-memcpy_front (to_read env h) h.tmp_buffer (chunk env lawful h) chunk_fits
            (length-chunk env lawful h)

      length-tmp : length (memcpy h.tmp_buffer 0 (chunk env lawful h)) ≡ temp_buffer_size
      length-tmp =
          length-memcpy h.tmp_buffer (chunk env lawful h) 0 (omega (arith, chunk_fits))
          ∙ v.tmp_sized

      -- The round goes on, from a handler whose input buffer holds the same and has room.
      deliver-Reads :
          (b : Buffer) (resized : Bool)
          → IsValid b
          → InputIsSized resized (size b)
          → contents b ≡ contents h.input_buffer
          → to_read env h ≤ available_size b
          → Returns (Reads h) (
              deliver env
                (record h {
                  input_buffer = b;
                  is_input_buffer_resized = resized;
                  tmp_buffer = memcpy h.tmp_buffer 0 (chunk env lawful h);
                  world = read_world env lawful h;
                })
                (to_read env h)
              >>= λ h''. done (h'', true))
      deliver-Reads b resized inside sized same room =
          Returns->>= (Feeds env lawful h' (to_read env h)) (Reads h)
            (deliver env h' (to_read env h)) _
            (deliver-Feeds env lawful h' (to_read env h) valid (omega arith) room)
            λ j f. (
              (j, true),
              refl,
              record {
                valid = f.valid;
                fed = λ _.
                    subst
                      (λ (fed : List ℕ). Left env h (read_world env lawful h) h.connection fed j)
                      (ap₂ ◌++◌ same tmp_holds)
                      (Left-of_fields env h h' (read_world env lawful h) h.connection _ j refl refl
                        refl f.left);
                stopped = λ e. cc;
                available = f.available ∙ available-after_read;
              },
            )
        where
          h' : Handler env
          h' = record h {
            input_buffer = b;
            is_input_buffer_resized = resized;
            tmp_buffer = memcpy h.tmp_buffer 0 (chunk env lawful h);
            world = read_world env lawful h;
          }

          valid : HandlerIsValid h'
          valid = record {
            input_inside = inside;
            input_sized = sized;
            output = v.output;
            tmp_sized = length-tmp;
          }

      overfull-Reads :
          (resized : Bool)
          → h.is_input_buffer_resized ≡ resized
          → available_size h.input_buffer < to_read env h
          → Returns (Reads h) (overfull env resized after_read (to_read env h))
      unfolding overfull read_socket
      overfull-Reads false e full =
          deliver-Reads (Buffer.resize h.input_buffer wider) true inside
            (
              omega (arith, size-resize h.input_buffer wider, sized, free),
              omega (arith, size-resize h.input_buffer wider, sized, free),
            )
            (contents-resize h.input_buffer wider (omega (arith, sized, v.input_inside, free))
              v.input_inside)
            (omega (
              arith,
              in_use-resize h.input_buffer wider,
              size-resize h.input_buffer wider,
              sized,
              v.input_inside,
              free,
              available_size_valid (Buffer.resize h.input_buffer wider) inside,
            ))
        where
          wider : ℕ
          wider = in_buffer_size + to_read env h - available_size h.input_buffer

          sized : size h.input_buffer ≡ in_buffer_size
          sized = subst (λ (r : Bool). InputIsSized r (size h.input_buffer)) e v.input_sized

          free : available_size h.input_buffer ≡ size h.input_buffer - h.input_buffer.in_use
          free = available_size_valid h.input_buffer v.input_inside

          inside : IsValid (Buffer.resize h.input_buffer wider)
          inside = omega (
            arith,
            in_use-resize h.input_buffer wider,
            size-resize h.input_buffer wider,
            sized,
            v.input_inside,
            free,
          )
      overfull-Reads true e full =
          Returns->>= (Keeps env after_read) (Reads h) (close env after_read) _
            (close-Keeps env lawful after_read v.output)
            λ i k.
              Returns->>= (Keeps env i) (Reads h) (set_connected env i false) _
                (set_connected-Keeps env lawful i false k.output)
                λ j k'. (
                  (j, false),
                  refl,
                  record {
                    valid =
                        Keeps-HandlerIsValid env after_read j valid
                          (Keeps-trans env after_read i j k k');
                    fed = λ e'. cc;
                    stopped = λ _. (e, k'.resized ∙ (k.resized ∙ e), full);
                    available = k'.available ∙ (k.available ∙ available-after_read);
                  },
                )
        where
          valid : HandlerIsValid after_read
          valid = record {
            input_inside = v.input_inside;
            input_sized = v.input_sized;
            output = v.output;
            tmp_sized = length-tmp;
          }

      -- With a lawful socket a round returns from every valid handler, and keeps it valid. If it goes on,
      -- then without a connection the input buffer holds what waited followed by the bytes read; with one
      -- the parser is handed just these bytes, if there are any, its callbacks run on a handler that holds
      -- them, and afterwards what the parser handled is dropped from what they left in the buffer. They
      -- leave all of it where they only send on the same connection or report an error; others may empty
      -- it. If the round stops, the buffer had been widened before and had no room for the bytes.
      pub read_round-Reads : Returns (Reads h) (read_round env h)
      unfolding read_round read_socket
      read_round-Reads = elim (Bool-cases (ltb (available_size h.input_buffer) (to_read env h))) [
        | inl e ↦ rw e (overfull-Reads h.is_input_buffer_resized refl (ground arith))
        | inr e ↦ rw e (
            deliver-Reads h.input_buffer h.is_input_buffer_resized v.input_inside v.input_sized refl
              (ground arith))
      ]

    -- The loop ended with nothing left to read, or by closing after a widening.
    abbrev pub IsFinished : Handler env → Type 0
    IsFinished h =
        HandlerIsValid h × ((env.bytes_available h.world ≡ 0) ⊎ (h.is_input_buffer_resized ≡ true))

    next_round :
        (fuel : ℕ) (h : Handler env) (r : Handler env × Bool)
        → Reads h r
        → 0 < env.bytes_available h.world
        → env.bytes_available h.world < suc fuel
        → (HandlerIsValid r.0
            → env.bytes_available r.0.world < fuel
            → Returns IsFinished (handle_ready_read env fuel r.0))
        → Returns IsFinished (elim r.1 [ true ↦ handle_ready_read env fuel r.0 | false ↦ done r.0 ])
    next_round fuel h (i, true) r some_left enough rest = rest r.valid (omega (arith, r.available))
    next_round fuel h (i, false) r some_left enough rest =
        (i, refl, (r.valid, inr (r.stopped refl).1))

    -- With a lawful socket, from a valid handler and with fuel above the bytes available, the loop of
    -- `handleReadyRead` returns, with a valid handler and with all bytes read or the input buffer widened.
    pub handle_ready_read-Returns :
        (fuel : ℕ) (h : Handler env)
        → HandlerIsValid h
        → env.bytes_available h.world < fuel
        → Returns IsFinished (handle_ready_read env fuel h)
    unfolding handle_ready_read
    handle_ready_read-Returns zero h v enough = absurd (omega arith)
    handle_ready_read-Returns (suc fuel) h v enough =
        elim (Bool-cases (env.bytes_available h.world =ℕ= 0)) [
          | inl e ↦ rw (e, handle_ready_read) (h, refl, (v, inl (ground arith)))
          | inr e ↦
              rw (e, handle_ready_read)
                (Returns->>= (Reads h) IsFinished (read_round env h) _ (read_round-Reads h v)
                  λ r reads.
                    next_round fuel h r reads (ground arith) enough
                      (handle_ready_read-Returns fuel r.0))
        ]
