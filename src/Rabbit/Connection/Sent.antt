-- ===== src/Rabbit/Connection/Sent.antt =====
-- connectionhandler.cpp: what sending keeps, and what a round and a whole call send.
use pipelinerunner.Base.{
  ℕ, suc, ◌-◌, ◌<◌, ◌≡◌, refl, ◌∙◌, min, List, [], ◌∷◌, ◌++◌, length, Outcome, Returns,
}
use pipelinerunner.Rabbit.Buffer.{Buffer, size, available_size, contents}
use pipelinerunner.Rabbit.Buffer.Laws.{IsValid}
use pipelinerunner.Rabbit.Connection.Outside.{Env}
use pipelinerunner.Rabbit.Connection.{Handler, out_buffer_size}

pub length_nil : length {A = ℕ} [] ≡ 0
unfolding length
length_nil = refl

pub length_cons : (x : ℕ) (xs : List ℕ) → length (x ∷ xs) ≡ suc (length xs)
unfolding length
length_cons x xs = refl

-- The output buffer is well formed.
pub record OutputIsValid (b : Buffer) : Type 0 where
  pub inside : IsValid b
  pub sized : size b ≡ out_buffer_size

module _ (env : Env) where
  -- What is on its way to the server: the bytes that the socket has, and those that wait.
  abbrev pub outgoing : Handler env → List ℕ
  outgoing h = env.sent h.world ++ contents h.out_buffer

  -- Nothing but the output buffer and the world differs.
  pub record SameInput (h h' : Handler env) : Type 0 where
    pub same_input : h'.input_buffer ≡ h.input_buffer
    pub same_tmp : h'.tmp_buffer ≡ h.tmp_buffer
    pub same_resized : h'.is_input_buffer_resized ≡ h.is_input_buffer_resized
    pub same_connection : h'.connection ≡ h.connection
    pub same_connected : h'.is_connected ≡ h.is_connected
    pub same_ready : h'.is_ready ≡ h.is_ready
    pub same_available : env.bytes_available h'.world ≡ env.bytes_available h.world

  pub record Sends (h h' : Handler env) : Type 0 where
    pub same : SameInput h h'
    pub valid : OutputIsValid h'.out_buffer
    pub room : h'.out_buffer.in_use < out_buffer_size
    pub outgoing_kept : outgoing h' ≡ outgoing h

  pub SameInput-refl : (h : Handler env) → SameInput h h
  SameInput-refl h = record {
    same_input = refl;
    same_tmp = refl;
    same_resized = refl;
    same_connection = refl;
    same_connected = refl;
    same_ready = refl;
    same_available = refl;
  }

  pub SameInput-trans : {h i j : Handler env} → SameInput h i → SameInput i j → SameInput h j
  SameInput-trans p q = record {
    same_input = q.same_input ∙ p.same_input;
    same_tmp = q.same_tmp ∙ p.same_tmp;
    same_resized = q.same_resized ∙ p.same_resized;
    same_connection = q.same_connection ∙ p.same_connection;
    same_connected = q.same_connected ∙ p.same_connected;
    same_ready = q.same_ready ∙ p.same_ready;
    same_available = q.same_available ∙ p.same_available;
  }

  -- What a round of `onData` does to the bytes `rest` that it is given.
  pub record Rounds (h : Handler env) (rest : List ℕ) (r : Handler env × List ℕ) : Type 0 where
    pub same : SameInput h r.0
    pub valid : OutputIsValid r.0.out_buffer
    pub room : r.0.out_buffer.in_use < out_buffer_size
    pub outgoing_total : outgoing r.0 ++ r.1 ≡ outgoing h ++ rest
    pub left : length r.1 ≡ length rest - min (length rest) (available_size h.out_buffer)

  -- The bytes are at the socket or wait in the buffer, behind what was there, and none is lost.
  pub record Delivers (h : Handler env) (bytes : List ℕ) (h' : Handler env) : Type 0 where
    pub same : SameInput h h'
    pub valid : OutputIsValid h'.out_buffer
    pub outgoing_all : outgoing h' ≡ outgoing h ++ bytes

  pub Delivers-after :
      {h : Handler env} {rest : List ℕ} (r : Handler env × List ℕ)
      → Rounds h rest r
      → {m : Outcome (Handler env)} → Returns (Delivers r.0 r.1) m
      → Returns (Delivers h rest) m
  Delivers-after r first (h', e, d) = (
    h',
    e,
    record {
      same = SameInput-trans first.same d.same;
      valid = d.valid;
      outgoing_all = d.outgoing_all ∙ first.outgoing_total;
    },
  )
