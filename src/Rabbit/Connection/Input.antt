-- ===== src/Rabbit/Connection/Input.antt =====
-- connectionhandler.cpp: one delivery of bytes to the parser.
use mathlib.Core.Path.{subst}
use pipelinerunner.Base.{
  ℕ, ◌≤◌, ◌≡◌, refl, sym, ap, ◌∙◌, ◌⊎◌, List, [], ◌++◌, Option, none, some, arith, inl, inr,
  Bool-cases, length, take, drop, length-take, take_all, Returns, Outcome, done, ◌>>=◌, ◌=ℕ=◌,
}
use pipelinerunner.Rabbit.Buffer.{Buffer, size, data_size, available_size, contents, memcpy}
use pipelinerunner.Rabbit.Buffer
use pipelinerunner.Rabbit.Buffer.Laws.{
  length-contents, size-write, write-IsValid, write-taken, contents-write, contents_empty,
}
use pipelinerunner.Rabbit.Connection.Outside.{Env, IsLawful}
use pipelinerunner.Rabbit.Connection.Quiet.{AllQuiet, call_back_all_quiet}
use pipelinerunner.Rabbit.Connection.Callbacks.{KeptOrDrained, call_back_all-Keeps}
use pipelinerunner.Rabbit.Connection.{
  Handler, temp_buffer_size, call_back_all, shift_input, parse_input, deliver, to_read,
}
use pipelinerunner.Rabbit.Connection.Shifting.{
  HandlerIsValid, InputIsSized, Keeps-HandlerIsValid, Shifts, shift_input_fits, shift_input_drained,
}

module _ (env : Env) where
  -- The parser of the connection `c` is handed `fed` in the world `w`. What it calls back runs in a
  -- handler that holds these bytes, and is else the given one `h`; quiet callbacks leave the bytes, and
  -- others may empty the buffer. Then what the parser handled is dropped, and no more happens.
  pub record Hands (h : Handler env) (w : env.World) (c : ℕ) (fed : List ℕ) (h' : Handler env)
      : Type 0 where
    pub before : Handler env
    pub after : Handler env
    pub given : contents before.input_buffer ≡ fed
    pub parsed : before.world ≡ (env.parse w c fed).after
    pub same_connection : before.connection ≡ some c
    pub same_out : before.out_buffer ≡ h.out_buffer
    pub same_connected : before.is_connected ≡ h.is_connected
    pub same_ready : before.is_ready ≡ h.is_ready
    pub called : call_back_all env before (env.parse w c fed).callbacks ≡ done after
    pub quiet : AllQuiet c (env.parse w c fed).callbacks → contents after.input_buffer ≡ fed
    pub kept : (contents after.input_buffer ≡ fed) ⊎ (contents after.input_buffer ≡ [])
    pub left :
        contents h'.input_buffer ≡ drop (env.parse w c fed).count (contents after.input_buffer)
    pub last_world : h'.world ≡ after.world
    pub last_out : h'.out_buffer ≡ after.out_buffer
    pub last_connection : h'.connection ≡ after.connection

  -- What becomes of the bytes `fed`: without a connection they wait, and with one the parser is handed
  -- them, if there are any.
  abbrev pub Left : Handler env → env.World → Option ℕ → List ℕ → Handler env → Type 0
  Left h w none fed h' = (contents h'.input_buffer ≡ fed) × (h'.world ≡ w)
  Left h w (some c) fed h' =
      ((fed ≡ []) × (contents h'.input_buffer ≡ []) × (h'.world ≡ w)) ⊎ Hands h w c fed h'

  -- It depends on these fields of the handler alone.
  pub Left-of_fields :
      (h k : Handler env) (w : env.World) (c : Option ℕ) (fed : List ℕ) (h' : Handler env)
      → k.out_buffer ≡ h.out_buffer
      → k.is_connected ≡ h.is_connected
      → k.is_ready ≡ h.is_ready
      → Left k w c fed h'
      → Left h w c fed h'
  Left-of_fields h k w none fed h' o d r l = l
  Left-of_fields h k w (some c) fed h' o d r (inl l) = inl l
  Left-of_fields h k w (some c) fed h' o d r (inr l) = inr (record {
    before = l.before;
    after = l.after;
    given = l.given;
    parsed = l.parsed;
    same_connection = l.same_connection;
    same_out = l.same_out ∙ o;
    same_connected = l.same_connected ∙ d;
    same_ready = l.same_ready ∙ r;
    called = l.called;
    quiet = l.quiet;
    kept = l.kept;
    left = l.left;
    last_world = l.last_world;
    last_out = l.last_out;
    last_connection = l.last_connection;
  })

  pub record Parses (h : Handler env) (c : Option ℕ) (h' : Handler env) : Type 0 where
    pub valid : HandlerIsValid h'
    pub left : Left h h.world c (contents h.input_buffer) h'
    pub available : env.bytes_available h'.world ≡ env.bytes_available h.world

  done_injective : (i j : Handler env) → ◌≡◌ {A = Outcome (Handler env)} (done i) (done j) → i ≡ j
  done_injective i j e = cc

  module _ (lawful : IsLawful env) where
    module _ (h : Handler env) (c : ℕ) (v : HandlerIsValid h) where
      abbrev parsed_count : ℕ
      parsed_count = (env.parse h.world c (contents h.input_buffer)).count

      abbrev parsing : Handler env
      parsing = record h { world = (env.parse h.world c (contents h.input_buffer)).after }

      parsing-HandlerIsValid : HandlerIsValid parsing
      parsing-HandlerIsValid = record {
        input_inside = v.input_inside;
        input_sized = v.input_sized;
        output = v.output;
        tmp_sized = v.tmp_sized;
      }

      parsed-le : parsed_count ≤ h.input_buffer.in_use
      parsed-le = omega (
        arith,
        lawful.parse-le h.world c (contents h.input_buffer),
        length-contents h.input_buffer v.input_inside,
      )

      -- What was called back left the buffer or emptied it, so that the count can be shifted.
      shift_after :
          (i : Handler env)
          → HandlerIsValid i
          → KeptOrDrained h.input_buffer i.input_buffer
          → Returns (Shifts env i parsed_count) (shift_input env i parsed_count)
      unfolding Buffer.drain
      shift_after i vi (inl kept) =
          shift_input_fits env i parsed_count vi
            (omega (arith, parsed-le, ap (λ (b : Buffer). b.in_use) kept))
      shift_after i vi (inr drained) =
          shift_input_drained env i parsed_count vi (ap (λ (b : Buffer). b.in_use) drained)
            (omega (arith, parsed-le, v.input_inside, ap (λ (b : Buffer). size b) drained))

      contents_kept :
          (b : Buffer)
          → KeptOrDrained h.input_buffer b
          → (contents b ≡ contents h.input_buffer) ⊎ (contents b ≡ [])
      unfolding Buffer.drain
      contents_kept b (inl kept) = inl (ap contents kept)
      contents_kept b (inr drained) = inr (contents_empty b (ap (λ (x : Buffer). x.in_use) drained))

      -- The handler that the callbacks lead to is only one.
      quiet_contents :
          (i : Handler env)
          → h.connection ≡ some c
          → call_back_all env parsing (env.parse h.world c (contents h.input_buffer)).callbacks
            ≡ done i
          → AllQuiet c (env.parse h.world c (contents h.input_buffer)).callbacks
          → contents i.input_buffer ≡ contents h.input_buffer
      quiet_contents i at e q =
          let (j, e', k) =
            call_back_all_quiet env lawful (env.parse h.world c (contents h.input_buffer)).callbacks
              parsing c at v.output q in
          let same : j ≡ i = done_injective j i (sym e' ∙ e) in
          ap (λ (x : Handler env). contents x.input_buffer) (sym same) ∙ ap contents k.0

      call-Parses :
          h.connection ≡ some c
          → Returns (Parses h (some c)) (
              call_back_all env parsing (env.parse h.world c (contents h.input_buffer)).callbacks
              >>= λ i. shift_input env i parsed_count)
      call-Parses at =
          let (i, e, k) =
            call_back_all-Keeps env lawful parsing
              (env.parse h.world c (contents h.input_buffer)).callbacks v.output in
          let (j, e', s) =
            shift_after i (Keeps-HandlerIsValid env parsing i parsing-HandlerIsValid k) k.input in
          (
            j,
            rw e e',
            record {
              valid = s.valid;
              left = inr (record {
                before = parsing;
                after = i;
                given = refl;
                parsed = refl;
                same_connection = at;
                same_out = refl;
                same_connected = refl;
                same_ready = refl;
                called = e;
                quiet = quiet_contents i at e;
                kept = contents_kept i.input_buffer k.input;
                left = s.held;
                last_world = s.same_world;
                last_out = s.same_out;
                last_connection = s.same_connection;
              });
              available =
                  ap env.bytes_available s.same_world
                  ∙ (k.available ∙ lawful.available-parse h.world c (contents h.input_buffer));
            },
          )

    parse_input-Parses :
        (c : Option ℕ) (h : Handler env)
        → HandlerIsValid h
        → h.connection ≡ c
        → Returns (Parses h c) (parse_input env c h)
    unfolding parse_input
    parse_input-Parses none h v at =
        (h, refl, record { valid = v; left = (refl, refl); available = refl })
    parse_input-Parses (some c) h v at = elim (Bool-cases (data_size h.input_buffer =ℕ= 0)) [
      | inl e ↦ rw e (
        h,
        refl,
        record {
          valid = v;
          left =
              (let none_held : contents h.input_buffer ≡ [] =
                  contents_empty h.input_buffer (ground arith) in
                inl (none_held, none_held, refl));
          available = refl;
        },
      )
      | inr e ↦ rw e (call-Parses h c v at)
    ]

    -- The bytes that a round reads, and the world after it.
    abbrev pub chunk : Handler env → List ℕ
    chunk h = (env.read h.world (to_read env h)).0

    abbrev pub read_world : Handler env → env.World
    read_world h = (env.read h.world (to_read env h)).1

    pub length-chunk : (h : Handler env) → length (chunk h) ≡ to_read env h
    length-chunk h = lawful.length-read h.world (to_read env h) (omega arith)

    -- What `deliver` does where the buffer has room for the bytes read.
    pub record Feeds (h : Handler env) (n : ℕ) (h' : Handler env) : Type 0 where
      pub valid : HandlerIsValid h'
      pub left : Left h h.world h.connection (contents h.input_buffer ++ take n h.tmp_buffer) h'
      pub available : env.bytes_available h'.world ≡ env.bytes_available h.world

    pub deliver-Feeds :
        (h : Handler env) (n : ℕ)
        → HandlerIsValid h
        → n ≤ temp_buffer_size
        → n ≤ available_size h.input_buffer
        → Returns (Feeds h n) (deliver env h n)
    unfolding deliver
    deliver-Feeds h n v small room =
        let (j, e, p) = parse_input-Parses h.connection h' valid refl in
        (
          j,
          e,
          record {
            valid = p.valid;
            left =
                Left-of_fields h h' h.world h.connection _ j refl refl refl
                  (subst (λ (fed : List ℕ). Left h' h.world h.connection fed j) fed p.left);
            available = p.available;
          },
        )
      where
        bytes : List ℕ
        bytes = take n h.tmp_buffer

        length-bytes : length bytes ≡ n
        length-bytes = omega (arith, length-take n h.tmp_buffer, v.tmp_sized)

        h' : Handler env
        h' = record h { input_buffer = (Buffer.write h.input_buffer bytes).0 }

        valid : HandlerIsValid h'
        valid = record {
          input_inside = write-IsValid h.input_buffer bytes v.input_inside;
          input_sized =
              subst (InputIsSized h.is_input_buffer_resized)
                (sym (size-write h.input_buffer bytes v.input_inside)) v.input_sized;
          output = v.output;
          tmp_sized = v.tmp_sized;
        }

        fed : contents h'.input_buffer ≡ contents h.input_buffer ++ bytes
        fed =
            contents-write h.input_buffer bytes v.input_inside
            ∙ ap (◌++◌ (contents h.input_buffer)) (
                take_all _ bytes
                  (omega (arith, write-taken h.input_buffer bytes v.input_inside, length-bytes)))
