-- ===== src/Rabbit/Connection/Shifting.antt =====
-- connectionhandler.cpp: the sizes of the buffers, and the shift after the parser handled some bytes.
use mathlib.Core.Path.{subst}
use pipelinerunner.Base.{
  ℕ, ◌+◌, ◌-◌, ◌≤◌, ◌<◌, ◌≡◌, refl, sym, ap, ◌∙◌, Bool, true, false, [], arith, length, drop,
  drop_all, length-replicate, Returns,
}
use pipelinerunner.Rabbit.Buffer.{Buffer, size, data_size, available_size, contents, memcpy}
use pipelinerunner.Rabbit.Buffer
use pipelinerunner.Rabbit.Buffer.Laws.{
  IsValid, size-resize, in_use-resize, contents-resize, shift_left_ok, shift_left_empty,
  contents_empty, create-IsValid, size-create,
}
use pipelinerunner.Rabbit.Connection.Outside.{Env}
use pipelinerunner.Rabbit.Connection.Sent.{OutputIsValid, length_nil}
use pipelinerunner.Rabbit.Connection.Callbacks.{Keeps}
use pipelinerunner.Rabbit.Connection.{
  Handler, in_buffer_size, temp_buffer_size, shrink, shift_input, init,
}

-- The input buffer has its first size, or one size larger by at most a read.
abbrev pub InputIsSized : Bool → ℕ → Type 0
InputIsSized false n = n ≡ in_buffer_size
InputIsSized true n = (in_buffer_size < n) × (n ≤ in_buffer_size + temp_buffer_size)

pub record HandlerIsValid {env : Env} (h : Handler env) : Type 0 where
  pub input_inside : IsValid h.input_buffer
  pub input_sized : InputIsSized h.is_input_buffer_resized (size h.input_buffer)
  pub output : OutputIsValid h.out_buffer
  pub tmp_sized : length h.tmp_buffer ≡ temp_buffer_size

module _ (env : Env) where
  -- Emptied buffers keep their size.
  pub Keeps-HandlerIsValid :
      (h h' : Handler env) → HandlerIsValid h → Keeps env h h' → HandlerIsValid h'
  unfolding Buffer.drain
  Keeps-HandlerIsValid h h' v k = ground arith

  shrink-HandlerIsValid :
      (h : Handler env) (count : ℕ)
      → HandlerIsValid h
      → h.input_buffer.in_use + count ≤ size h.input_buffer
      → HandlerIsValid (shrink env h count)
  unfolding shrink
  shrink-HandlerIsValid h count v fits = ground (
    arith,
    size-resize h.input_buffer (size h.input_buffer - count),
    size-resize h.input_buffer in_buffer_size,
    in_use-resize h.input_buffer (size h.input_buffer - count),
    in_use-resize h.input_buffer in_buffer_size,
  )

  contents-shrink :
      (h : Handler env) (count : ℕ)
      → HandlerIsValid h
      → h.input_buffer.in_use + count ≤ size h.input_buffer
      → contents (shrink env h count).input_buffer ≡ contents h.input_buffer
  unfolding shrink
  contents-shrink h count v fits = ground (
    arith,
    contents-resize h.input_buffer (size h.input_buffer - count),
    contents-resize h.input_buffer in_buffer_size,
  )

  -- What is left of a buffer that holds `held`, after a parser handled `count` bytes.
  pub record Shifts (h : Handler env) (count : ℕ) (h' : Handler env) : Type 0 where
    pub valid : HandlerIsValid h'
    pub held : contents h'.input_buffer ≡ drop count (contents h.input_buffer)
    pub same_world : h'.world ≡ h.world
    pub same_out : h'.out_buffer ≡ h.out_buffer
    pub same_connection : h'.connection ≡ h.connection

  shrink_keeps :
      (h : Handler env) (count : ℕ)
      → ((shrink env h count).world ≡ h.world)
        × ((shrink env h count).out_buffer ≡ h.out_buffer)
        × ((shrink env h count).connection ≡ h.connection)
  unfolding shrink
  shrink_keeps h count = ground arith

  pub shift_input_fits :
      (h : Handler env) (count : ℕ)
      → HandlerIsValid h
      → count ≤ h.input_buffer.in_use
      → Returns (Shifts h count) (shift_input env h count)
  unfolding shift_input
  shift_input_fits h count v le =
      let (b, e, used, sized, held) = shift_left_ok h.input_buffer count v.input_inside le in
      let h' : Handler env = record h { input_buffer = b } in
      let valid : HandlerIsValid h' = record {
        input_inside = omega (arith, v.input_inside);
        input_sized = subst (InputIsSized h.is_input_buffer_resized) (sym sized) v.input_sized;
        output = v.output;
        tmp_sized = v.tmp_sized;
      } in
      let fits : b.in_use + count ≤ size b = omega (arith, v.input_inside) in
      rw (e, shift_input)
        (
          shrink env h' count,
          refl,
          record {
            valid = shrink-HandlerIsValid h' count valid fits;
            held = contents-shrink h' count valid fits ∙ held;
            same_world = (shrink_keeps h' count).0;
            same_out = (shrink_keeps h' count).1;
            same_connection = (shrink_keeps h' count).2;
          },
        )

  -- A callback may have emptied the buffer meanwhile, and then nothing is shifted.
  pub shift_input_drained :
      (h : Handler env) (count : ℕ)
      → HandlerIsValid h
      → h.input_buffer.in_use ≡ 0
      → count ≤ size h.input_buffer
      → Returns (Shifts h count) (shift_input env h count)
  unfolding shift_input
  shift_input_drained h count v empty le =
      let fits : h.input_buffer.in_use + count ≤ size h.input_buffer = omega arith in
      rw (shift_left_empty h.input_buffer count empty, shift_input)
        (
          shrink env h count,
          refl,
          record {
            valid = shrink-HandlerIsValid h count v fits;
            held =
                contents-shrink h count v fits
                ∙ (contents_empty h.input_buffer empty
                    ∙ sym (drop_empty (contents_empty h.input_buffer empty)));
            same_world = (shrink_keeps h count).0;
            same_out = (shrink_keeps h count).1;
            same_connection = (shrink_keeps h count).2;
          },
        )
    where
      drop_empty : contents h.input_buffer ≡ [] → drop count (contents h.input_buffer) ≡ []
      drop_empty e = ap (drop count) e ∙ drop_all count [] (omega (arith, length_nil))

  pub init-HandlerIsValid : (w : env.World) → HandlerIsValid (init env w)
  unfolding init
  init-HandlerIsValid w = record {
    input_inside = create-IsValid in_buffer_size;
    input_sized = size-create in_buffer_size;
    output = record { inside = create-IsValid _; sized = size-create _ };
    tmp_sized = length-replicate temp_buffer_size 0;
  }
