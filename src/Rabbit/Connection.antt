-- ===== src/Rabbit/Connection.antt =====
-- pipelineutils/modules/rabbitmq/src/connectionhandler.h and connectionhandler.cpp. A method takes the
-- handler and returns the new one; a failed assertion of the buffer ends the run.
pub mod Outside
pub mod Sent
pub mod Output
pub mod Callbacks
pub mod Quiet
pub mod Shifting
pub mod Failure
pub mod Input
pub mod Reading
use pipelinerunner.Base.{
  ℕ, zero, suc, ◌+◌, ◌-◌, ◌*◌, ◌^◌, min, Bool, true, false, not, ◌&&◌, List, [], ◌∷◌, Option, none,
  some, ltb, ◌=ℕ=◌, if◌then◌else◌, is_empty, length, take, drop, replicate, Outcome, done,
  assertion_failed, out_of_fuel, ◌>>=◌,
}
use pipelinerunner.Rabbit.Buffer.{Buffer, create, size, data_size, available_size, contents, memcpy}
use pipelinerunner.Rabbit.Buffer
use Outside.{
  Written, wrote, failed, Callback, on_data, on_ready, on_error, on_closed, Signal,
  connection_changed, ready_changed, Parsed, Env,
}

-- `IN_BUFFER_SIZE`
abbrev pub in_buffer_size : ℕ
in_buffer_size = 8 * 1024 * 1024

-- `OUT_BUFFER_SIZE`
abbrev pub out_buffer_size : ℕ
out_buffer_size = 1 * 1024 * 1024

-- `TEMP_BUFFER_SIZE`: `024` is an octal literal.
abbrev pub temp_buffer_size : ℕ
temp_buffer_size = 1 * 0o24 * 1024

-- `size_t` of a `qint64`: -1 wraps to the largest value.
abbrev to_size : Written → ℕ
to_size (wrote n) = n
to_size failed = 2 ^ 64 - 1

module _ (env : Env) where
  open env use {World}

  pub record Handler : Type 0 where
    pub is_connected : Bool
    pub is_ready : Bool
    pub connection : Option ℕ
    pub input_buffer : Buffer
    pub out_buffer : Buffer
    pub tmp_buffer : List ℕ
    pub is_input_buffer_resized : Bool
    pub world : World

  -- The constructor.
  unfoldable pub init : World → Handler
  init w = record {
    is_connected = false;
    is_ready = false;
    connection = none;
    input_buffer = create in_buffer_size;
    out_buffer = create out_buffer_size;
    tmp_buffer = replicate temp_buffer_size 0;
    is_input_buffer_resized = false;
    world = w;
  }

  abbrev set_input : Handler → Buffer → Handler
  set_input h b = record h { input_buffer = b }

  abbrev set_out : Handler → Buffer → Handler
  set_out h b = record h { out_buffer = b }

  shift_out : Handler → ℕ → Outcome Handler
  shift_out h count = elim (Buffer.shift_left h.out_buffer count) [
    | none ↦ assertion_failed
    | some b ↦ done (set_out h b)
  ]

  pub send_data_from_buffer : Handler → Outcome Handler
  send_data_from_buffer h =
      if data_size h.out_buffer =ℕ= 0
      then done h
      else (let (written, w) = env.write h.world (contents h.out_buffer) in
          shift_out (record h { world = w }) (to_size written))

  pub check_connection : Handler → ℕ → Handler
  check_connection h c = elim h.connection [
    | none ↦ record h { connection = some c }
    | some d ↦ if d =ℕ= c then h else record h {
      out_buffer = Buffer.drain h.out_buffer;
      input_buffer = Buffer.drain h.input_buffer;
      connection = some c;
    }
  ]

  -- One round of the loop of `onData`, on the bytes from `data + written` on.
  pub send_round : Handler → List ℕ → Outcome (Handler × List ℕ)
  send_round h rest = do
    let (b, taken) = Buffer.write h.out_buffer rest
    h' ← send_data_from_buffer (set_out h b)
    done (h', drop taken rest)

  pub send_all : ℕ → Handler → List ℕ → Outcome Handler
  send_all zero h rest = out_of_fuel
  send_all (suc fuel) h rest = elim (is_empty rest) [
    | true ↦ done h
    | false ↦ send_round h rest >>= λ (h', rest'). send_all fuel h' rest'
  ]

  -- `onData`. Only the first round can find the buffer full, so two rounds more than there are bytes
  -- are enough where the socket takes bytes.
  pub handle_data : Handler → ℕ → List ℕ → Outcome Handler
  handle_data h c bytes = send_all (length bytes + 2) (check_connection h c) bytes

  pub handle_all_data : Handler → List (ℕ × List ℕ) → Outcome Handler
  handle_all_data h [] = done h
  handle_all_data h ((c, bytes) ∷ calls) = handle_data h c bytes >>= λ h'. handle_all_data h' calls

  -- `emit`: the slots run before it returns.
  pub emit : Handler → Signal → Outcome Handler
  emit h s = let (calls, w) = env.slots h.world s in handle_all_data (record h { world = w }) calls

  abbrev differ : Bool → Bool → Bool
  differ true b = not b
  differ false b = b

  pub set_ready : Handler → Bool → Outcome Handler
  set_ready h ready = do
    h' ← if differ h.is_ready ready then emit h (ready_changed ready) else done h
    done (record h' { is_ready = ready })

  pub set_connected : Handler → Bool → Outcome Handler
  set_connected h connected = do
    h' ← if differ h.is_connected connected then emit h (connection_changed connected) else done h
    let h'' = record h' { is_connected = connected }
    if connected then done h'' else set_ready h'' false

  -- What the library calls back, in order.
  pub call_back : Handler → Callback → Outcome Handler
  call_back h (on_data c bytes) = handle_data h c bytes
  call_back h (on_ready c) = set_ready h true
  call_back h (on_error c) = done h
  call_back h (on_closed c) = set_connected h false

  pub call_back_all : Handler → List Callback → Outcome Handler
  call_back_all h [] = done h
  call_back_all h (c ∷ cs) = call_back h c >>= λ h'. call_back_all h' cs

  close_connection : Option ℕ → Handler → Outcome Handler
  close_connection none h = done h
  close_connection (some c) h =
      let (callbacks, w) = env.close h.world c in call_back_all (record h { world = w }) callbacks

  pub close : Handler → Outcome Handler
  close h = send_data_from_buffer h >>= λ h'. close_connection h'.connection h'

  pub try_connect : Handler → Handler
  try_connect h =
      if not h.is_connected && not (env.is_connecting h.world)
      then record h { world = env.connect_to_host h.world }
      else h

  -- `start`; the calls of `connect` are the wiring that `Env.slots` and the handlers below stand for.
  pub start : Handler → Handler
  start = try_connect

  pub handle_connected : Handler → Outcome Handler
  handle_connected h = set_connected h true

  restart_timer : Handler → Handler
  restart_timer h = record h { world = env.start_timer h.world }

  pub handle_disconnected : Handler → Outcome Handler
  unfolding restart_timer
  handle_disconnected h = do h' ← set_connected h false; done (restart_timer h')

  pub handle_socket_error : Handler → Outcome Handler
  unfolding restart_timer
  handle_socket_error h = do h' ← set_connected h false; done (restart_timer h')

  -- After `parse` has handled `count` bytes and they are shifted out.
  pub shrink : Handler → ℕ → Handler
  shrink h count =
      if h.is_input_buffer_resized && not (count =ℕ= 0)
      then (let not_handled = size h.input_buffer - count in
          if ltb in_buffer_size not_handled
          then set_input h (Buffer.resize h.input_buffer not_handled)
          else record h {
            input_buffer = Buffer.resize h.input_buffer in_buffer_size;
            is_input_buffer_resized = false;
          })
      else h

  pub shift_input : Handler → ℕ → Outcome Handler
  shift_input h count = elim (Buffer.shift_left h.input_buffer count) [
    | none ↦ assertion_failed
    | some b ↦ done (shrink (set_input h b) count)
  ]

  -- `if (_connection && _inputBuffer.dataSize())`
  parse_input : Option ℕ → Handler → Outcome Handler
  parse_input none h = done h
  parse_input (some c) h =
      if data_size h.input_buffer =ℕ= 0
      then done h
      else (let p = env.parse h.world c (contents h.input_buffer) in
          call_back_all (record h { world = p.after }) p.callbacks >>= λ h'. shift_input h' p.count)

  -- The end of a round: the bytes read go into the input buffer, and what it holds is parsed.
  pub deliver : Handler → ℕ → Outcome Handler
  deliver h n =
      let h' = set_input h (Buffer.write h.input_buffer (take n h.tmp_buffer)).0 in
      parse_input h'.connection h'

  -- `_socket.read(_tmpBuffer.data(), n)`
  pub read_socket : Handler → ℕ → Handler
  read_socket h n =
      let (bytes, w) = env.read h.world n in
      record h { tmp_buffer = memcpy h.tmp_buffer 0 bytes; world = w }

  abbrev pub to_read : Handler → ℕ
  to_read h = min (env.bytes_available h.world) temp_buffer_size

  -- No room for the bytes read: the buffer grows once, and the second time the connection is closed.
  overfull : Bool → Handler → ℕ → Outcome (Handler × Bool)
  overfull false h n = do
    let wider = in_buffer_size + n - available_size h.input_buffer
    h' ←
        deliver
          (record h {
            input_buffer = Buffer.resize h.input_buffer wider;
            is_input_buffer_resized = true;
          })
          n
    done (h', true)
  overfull true h n = do closed ← close h; off ← set_connected closed false; done (off, false)

  -- One round of the loop of `handleReadyRead`; the flag says whether the loop goes on.
  pub read_round : Handler → Outcome (Handler × Bool)
  read_round h =
      let n = to_read h in
      let h' = read_socket h n in
      if ltb (available_size h'.input_buffer) n
      then overfull h'.is_input_buffer_resized h' n
      else (deliver h' n >>= λ h''. done (h'', true))

  pub handle_ready_read : ℕ → Handler → Outcome Handler
  handle_ready_read zero h = out_of_fuel
  handle_ready_read (suc fuel) h = elim (env.bytes_available h.world =ℕ= 0) [
    | true ↦ done h
    | false ↦ read_round h >>= λ (h', go_on). elim go_on [
      | true ↦ handle_ready_read fuel h'
      | false ↦ done h'
    ]
  ]
