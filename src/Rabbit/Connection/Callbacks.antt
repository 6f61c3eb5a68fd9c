-- ===== src/Rabbit/Connection/Callbacks.antt =====
-- connectionhandler.cpp: what the library and the slots call back (`onData`, `onReady`, `onError`,
-- `onClosed`), `emit`, `setReady`, `setConnected` and `close`.
use pipelinerunner.Base.{
  ℕ, ◌≡◌, refl, ◌∙◌, ◌⊎◌, Bool, true, false, if◌then◌else◌, List, [], ◌∷◌, Option, none, some,
  arith, inl, Outcome, done, ◌>>=◌, Returns, Returns->>=,
}
use pipelinerunner.Rabbit.Buffer.{Buffer}
use pipelinerunner.Rabbit.Buffer
use pipelinerunner.Rabbit.Connection.Outside.{
  Env, IsLawful, Signal, connection_changed, ready_changed, Callback, on_data, on_ready, on_error,
  on_closed,
}
use pipelinerunner.Rabbit.Connection.Sent.{OutputIsValid}
use pipelinerunner.Rabbit.Connection.Output.{send-Sends, handle_data-Delivers}
use pipelinerunner.Rabbit.Connection.{
  Handler, send_data_from_buffer, check_connection, handle_data, handle_all_data, emit, set_ready,
  set_connected, call_back, call_back_all, close, close_connection,
}

-- The input buffer is as it was, or emptied for a new connection.
abbrev pub KeptOrDrained : Buffer → Buffer → Type 0
KeptOrDrained b b' = (b' ≡ b) ⊎ (b' ≡ Buffer.drain b)

KeptOrDrained-trans : (a b c : Buffer) → KeptOrDrained a b → KeptOrDrained b c → KeptOrDrained a c
unfolding Buffer.drain
KeptOrDrained-trans a b c p q = ground arith

module _ (env : Env) where
  pub record Keeps (h h' : Handler env) : Type 0 where
    pub input : KeptOrDrained h.input_buffer h'.input_buffer
    pub tmp : h'.tmp_buffer ≡ h.tmp_buffer
    pub resized : h'.is_input_buffer_resized ≡ h.is_input_buffer_resized
    pub output : OutputIsValid h'.out_buffer
    pub available : env.bytes_available h'.world ≡ env.bytes_available h.world

  pub Keeps-refl : (h : Handler env) → OutputIsValid h.out_buffer → Keeps h h
  Keeps-refl h v = record {
    input = inl refl;
    tmp = refl;
    resized = refl;
    output = v;
    available = refl;
  }

  pub Keeps-trans : (h i j : Handler env) → Keeps h i → Keeps i j → Keeps h j
  Keeps-trans h i j p q = record {
    input = KeptOrDrained-trans h.input_buffer i.input_buffer j.input_buffer p.input q.input;
    tmp = q.tmp ∙ p.tmp;
    resized = q.resized ∙ p.resized;
    output = q.output;
    available = q.available ∙ p.available;
  }

  pub then_Keeps :
      (h : Handler env) (m : Outcome (Handler env)) (f : Handler env → Outcome (Handler env))
      → Returns (Keeps h) m
      → ((i : Handler env) → Keeps h i → Returns (Keeps i) (f i))
      → Returns (Keeps h) (m >>= f)
  then_Keeps h m f p q =
      Returns->>= (Keeps h) (Keeps h) m f p
        λ i k. let (j, e, k') = q i k in (j, e, Keeps-trans h i j k k')

  if_Keeps :
      (b : Bool) (h : Handler env) (m : Outcome (Handler env))
      → OutputIsValid h.out_buffer
      → Returns (Keeps h) m
      → Returns (Keeps h) (if b then m else done h)
  if_Keeps true h m v r = r
  if_Keeps false h m v r = (h, refl, Keeps-refl h v)

  module _ (lawful : IsLawful env) where
    check_connection-Keeps :
        (h : Handler env) (c : ℕ) → OutputIsValid h.out_buffer → Keeps h (check_connection env h c)
    unfolding check_connection Buffer.drain
    check_connection-Keeps h c v = ground arith

    pub handle_data-Keeps :
        (h : Handler env) (c : ℕ) (bytes : List ℕ)
        → OutputIsValid h.out_buffer
        → Returns (Keeps h) (handle_data env h c bytes)
    handle_data-Keeps h c bytes v =
        let (h', e, d) = handle_data-Delivers env lawful h c bytes v in
        (
          h',
          e,
          Keeps-trans h (check_connection env h c) h' (check_connection-Keeps h c v) (record {
            input = inl d.same.same_input;
            tmp = d.same.same_tmp;
            resized = d.same.same_resized;
            output = d.valid;
            available = d.same.same_available;
          }),
        )

    handle_all_data-Keeps :
        (h : Handler env) (calls : List (ℕ × List ℕ))
        → OutputIsValid h.out_buffer
        → Returns (Keeps h) (handle_all_data env h calls)
    unfolding handle_all_data
    handle_all_data-Keeps h [] v = (h, refl, Keeps-refl h v)
    handle_all_data-Keeps h ((c, bytes) ∷ calls) v =
        then_Keeps h (handle_data env h c bytes) _ (handle_data-Keeps h c bytes v)
          λ i k. handle_all_data-Keeps i calls k.output

    emit-Keeps :
        (h : Handler env) (s : Signal)
        → OutputIsValid h.out_buffer
        → Returns (Keeps h) (emit env h s)
    unfolding emit
    emit-Keeps h s v =
        let (i, e, k) =
          handle_all_data-Keeps (record h { world = (env.slots h.world s).1 })
            (env.slots h.world s).0 v in
        (
          i,
          e,
          record {
            input = k.input;
            tmp = k.tmp;
            resized = k.resized;
            output = k.output;
            available = k.available ∙ lawful.available-slots h.world s;
          },
        )

    pub set_ready-Keeps :
        (h : Handler env) (ready : Bool)
        → OutputIsValid h.out_buffer
        → Returns (Keeps h) (set_ready env h ready)
    unfolding set_ready
    set_ready-Keeps h ready v =
        then_Keeps h _ _ (if_Keeps _ h _ v (emit-Keeps h (ready_changed ready) v)) λ i k. (
          record i { is_ready = ready },
          refl,
          record {
            input = inl refl;
            tmp = refl;
            resized = refl;
            output = k.output;
            available = refl;
          },
        )

    set_flag-Keeps :
        (i : Handler env) (connected : Bool)
        → OutputIsValid i.out_buffer
        → Returns (Keeps i) (
            if connected
            then done (record i { is_connected = connected })
            else set_ready env (record i { is_connected = connected }) false)
    set_flag-Keeps i true v = (
      record i { is_connected = true },
      refl,
      record { input = inl refl; tmp = refl; resized = refl; output = v; available = refl },
    )
    set_flag-Keeps i false v =
        let (j, e, k) = set_ready-Keeps (record i { is_connected = false }) false v in
        (
          j,
          e,
          record {
            input = k.input;
            tmp = k.tmp;
            resized = k.resized;
            output = k.output;
            available = k.available;
          },
        )

    pub set_connected-Keeps :
        (h : Handler env) (connected : Bool)
        → OutputIsValid h.out_buffer
        → Returns (Keeps h) (set_connected env h connected)
    unfolding set_connected
    set_connected-Keeps h connected v =
        then_Keeps h _ _ (if_Keeps _ h _ v (emit-Keeps h (connection_changed connected) v))
          λ i k. set_flag-Keeps i connected k.output

    call_back-Keeps :
        (h : Handler env) (c : Callback)
        → OutputIsValid h.out_buffer
        → Returns (Keeps h) (call_back env h c)
    unfolding call_back
    call_back-Keeps h (on_data c bytes) v = handle_data-Keeps h c bytes v
    call_back-Keeps h (on_ready c) v = set_ready-Keeps h true v
    call_back-Keeps h (on_error c) v = (h, refl, Keeps-refl h v)
    call_back-Keeps h (on_closed c) v = set_connected-Keeps h false v

    pub call_back_all-Keeps :
        (h : Handler env) (cs : List Callback)
        → OutputIsValid h.out_buffer
        → Returns (Keeps h) (call_back_all env h cs)
    unfolding call_back_all
    call_back_all-Keeps h [] v = (h, refl, Keeps-refl h v)
    call_back_all-Keeps h (c ∷ cs) v =
        then_Keeps h (call_back env h c) _ (call_back-Keeps h c v)
          λ i k. call_back_all-Keeps i cs k.output

    send-Keeps :
        (h : Handler env)
        → OutputIsValid h.out_buffer
        → Returns (Keeps h) (send_data_from_buffer env h)
    send-Keeps h v =
        let (i, e, s) = send-Sends env lawful h v in
        (
          i,
          e,
          record {
            input = inl s.same.same_input;
            tmp = s.same.same_tmp;
            resized = s.same.same_resized;
            output = s.valid;
            available = s.same.same_available;
          },
        )

    close_connection-Keeps :
        (c : Option ℕ) (i : Handler env)
        → OutputIsValid i.out_buffer
        → Returns (Keeps i) (close_connection env c i)
    unfolding close_connection
    close_connection-Keeps none i v = (i, refl, Keeps-refl i v)
    close_connection-Keeps (some c) i v =
        let (j, e', k) =
          call_back_all-Keeps (record i { world = (env.close i.world c).1 }) (env.close i.world c).0
            v in
        (
          j,
          e',
          record {
            input = k.input;
            tmp = k.tmp;
            resized = k.resized;
            output = k.output;
            available = k.available ∙ lawful.available-close i.world c;
          },
        )

    pub close-Keeps :
        (h : Handler env) → OutputIsValid h.out_buffer → Returns (Keeps h) (close env h)
    unfolding close
    close-Keeps h v =
        then_Keeps h (send_data_from_buffer env h) _ (send-Keeps h v)
          λ i k. close_connection-Keeps i.connection i k.output
