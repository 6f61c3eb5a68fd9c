-- ===== src/Rabbit/Connection/Outside.antt =====
-- What ConnectionHandler uses of Qt and of AMQP-CPP: the socket (QTcpSocket), the timer (QTimer), an
-- AMQP connection (AMQP::Connection, a pointer is a number) and the slots that other objects have
-- connected to its signals. `World` is their state.
use pipelinerunner.Base.{ℕ, ◌-◌, ◌≤◌, ◌<◌, ◌≡◌, ◌≢◌, Bool, List, [], ◌++◌, length, take}

-- The result of `QIODevice::write`, which is -1 on an error.
pub data Written : Type 0 where
  wrote : ℕ → Written
  failed : Written

-- The virtual functions of AMQP::ConnectionHandler, as the library calls them back.
pub data Callback : Type 0 where
  on_data : ℕ → List ℕ → Callback
  on_ready on_error on_closed : ℕ → Callback

pub data Signal : Type 0 where
  connection_changed ready_changed : Bool → Signal

-- `AMQP::Connection::parse`: how many bytes it handled, and what it called back meanwhile.
pub record Parsed (World : Type 0) : Type 0 where
  pub count : ℕ
  pub callbacks : List Callback
  pub after : World

pub record Env : Type 1 where
  pub World : Type 0
  pub bytes_available : World → ℕ
  pub read : World → ℕ → List ℕ × World
  pub write : World → List ℕ → Written × World
  pub is_connecting : World → Bool
  pub connect_to_host : World → World
  pub start_timer : World → World
  pub parse : World → ℕ → List ℕ → Parsed World
  pub close : World → ℕ → List Callback × World
  -- The slots that a signal runs, before `emit` returns, call back by `onData` alone.
  pub slots : World → Signal → List (ℕ × List ℕ) × World
  -- The bytes that the socket has taken so far.
  pub sent : World → List ℕ

-- The documented behaviour of an open socket and of the parser.
pub record IsLawful (e : Env) : Type 0 where
  -- A socket with a connection takes some of what it is offered.
  pub write_takes :
      (w : e.World) (bytes : List ℕ)
      → bytes ≢ []
      → (n : ℕ) × ((e.write w bytes).0 ≡ wrote n)
        × (0 < n)
        × (n ≤ length bytes)
        × (e.sent (e.write w bytes).1 ≡ e.sent w ++ take n bytes)
  -- A read of no more than is available gives that many bytes.
  pub length-read : (w : e.World) (n : ℕ) → n ≤ e.bytes_available w → length (e.read w n).0 ≡ n
  -- The parser reports no more bytes than it was given.
  pub parse-le : (w : e.World) (c : ℕ) (bytes : List ℕ) → (e.parse w c bytes).count ≤ length bytes
  -- Bytes arrive only when the event loop runs, so none of these calls makes more available.
  pub available-read :
      (w : e.World) (n : ℕ)
      → n ≤ e.bytes_available w
      → e.bytes_available (e.read w n).1 ≡ e.bytes_available w - n
  pub available-write :
      (w : e.World) (bytes : List ℕ) → e.bytes_available (e.write w bytes).1 ≡ e.bytes_available w
  pub available-parse :
      (w : e.World) (c : ℕ) (bytes : List ℕ)
      → e.bytes_available (e.parse w c bytes).after ≡ e.bytes_available w
  pub available-close :
      (w : e.World) (c : ℕ) → e.bytes_available (e.close w c).1 ≡ e.bytes_available w
  pub available-slots :
      (w : e.World) (s : Signal) → e.bytes_available (e.slots w s).1 ≡ e.bytes_available w
