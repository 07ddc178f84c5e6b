-- ===== src/Streams.antt =====
-- The connections of the sender and their pumps: `_tryStart`, `_relayPump`, `_p2pPump` and
-- `_waitForDrain` of web/static/js/transfer.js. JavaScript runs a handler to its next `await`; a
-- schedule of events here is any interleaving of single rounds of the pumps' loops with what
-- happens to the connections.
pub mod Schedule
pub mod Flight
pub mod Rounds
pub mod Conns
pub mod Invariant
pub mod Starting
pub mod Events
pub mod Exactly
pub mod Quiet
pub mod Stall
pub mod Again
pub mod Closed
pub mod Destroyed
pub mod Abandoned
pub mod Backpressure
pub mod Healthy
pub mod Finish
use p2ptransfer.Base.{
  ℕ, zero, suc, ◌+◌, ◌-◌, ◌*◌, List, [], ◌∷◌, ◌++◌, map, Option, none, some, Bool, true, false, not,
  ltb, ◌==◌, ◌&&◌, ◌||◌, if◌then◌else◌, length, get_elem?, set,
}
use p2ptransfer.Wire.{Bytes}
use p2ptransfer.Batch.{Chunk, Claim, read_claim}
use p2ptransfer.Sender.{
  Engine, new_engine, more_work, requeue, claim_batch, count_sent, drained, start_sending,
}

pub data Kind : Type 0 where
  relay p2p : Kind

-- `RELAY_BUF_HIGH` and `P2P_BUF_HIGH`
abbrev pub buf_high : Kind → ℕ
buf_high relay = 8 * 1024 * 1024
buf_high p2p = 1 * 1024 * 1024

-- Where a pump stands: not started; at the test of its outer loop; awaiting the read of a claim; at
-- the top of its inner loop; waiting for the buffer to drain; returned; or left by the exception of
-- a read that failed, with the claim that it had made.
pub data Pump : Type 0 where
  unstarted testing ended : Pump
  reading rejected : Claim → Pump
  sending waiting : List Chunk → Pump

-- A WebSocket or a data channel. `ready` is whether its `onopen` has run (`relayConns[idx]` is set,
-- or `conn.ready`), `open` whether its `readyState` is open.
pub record Conn : Type 0 where
  pub kind : Kind
  pub ready : Bool
  pub open_now : Bool
  pub buffered : ℕ
  pub pump_started : Bool
  pub pump : Pump

-- `sent` is every chunk that a `send` has taken, in order.
pub record System : Type 0 where
  pub engine : Engine
  pub conns : List Conn
  pub sent : List Chunk

pub new_conn : Kind → Conn
new_conn kind = record {
  kind = kind;
  ready = false;
  open_now = false;
  buffered = 0;
  pump_started = false;
  pump = unstarted;
}

-- The indices of the chunks of a batch, as `_requeue` takes them.
abbrev pub indices : List Chunk → List ℕ
indices = map λ c. c.index

-- What a round of a pump does to the engine and to its own connection, and what it sends.
pub record Round : Type 0 where
  pub engine : Engine
  pub conn : Conn
  pub out : List Chunk

-- The pump moves on and nothing else changes.
abbrev goes : Pump → Engine → Conn → Round
goes p e c = record { engine = e; conn = record c { pump = p }; out = [] }

-- `_requeue` of the rest of the batch, and the pump returns.
give_up : List Chunk → Engine → Conn → Round
give_up batch e c = record {
  engine = requeue (indices batch) e;
  conn = record c { pump = ended };
  out = [];
}

-- `send(chunk.data)`, which may throw.
try_send : Bool → Chunk → List Chunk → Engine → Conn → Round
unfolding give_up
try_send throws chunk rest e c =
    let done : Round = record {
      engine = count_sent chunk.size e;
      conn = record c { pump = sending rest; buffered = c.buffered + length chunk.frame };
      out = chunk ∷ [];
    } in
    if throws then give_up (chunk ∷ rest) e c else done

-- The test for backpressure, and the send if there is room.
send_or_wait : Bool → Chunk → List Chunk → Engine → Conn → Round
unfolding try_send
send_or_wait throws chunk rest e c =
    if ltb (buf_high c.kind) c.buffered
    then goes (waiting (chunk ∷ rest)) e c
    else try_send throws chunk rest e c

-- A round of the inner loop of either pump, from its top.
inner : Bool → Chunk → List Chunk → Engine → Conn → Round
unfolding give_up send_or_wait
inner throws chunk rest e c =
    if c.open_now then send_or_wait throws chunk rest e c else give_up (chunk ∷ rest) e c

-- A relay pump that has yielded looks at the buffer first, and at the connection only if the buffer
-- is still full. A P2P pump is called back, and starts at the top of its loop.
resumed : Kind → Bool → Chunk → List Chunk → Engine → Conn → Round
unfolding give_up inner try_send
resumed relay throws chunk rest e c =
    let still_full =
      if c.open_now then goes (waiting (chunk ∷ rest)) e c else give_up (chunk ∷ rest) e c in
    if ltb (buf_high relay) c.buffered then still_full else try_send throws chunk rest e c
resumed p2p throws chunk rest e c = inner throws chunk rest e c

-- The end of a batch: a P2P pump returns if its channel is not open.
batch_done : Kind → Engine → Conn → Round
batch_done relay e c = goes testing e c
batch_done p2p e c = if c.open_now then goes testing e c else goes ended e c

-- The outer loop's test, and the claim.
next_batch : Engine → Conn → Round
next_batch e c =
    let claim = claim_batch e in
    if more_work e then goes (reading claim.0) claim.1 c else goes ended e c

-- The read of a claim has ended.
batch_read : Option (List Chunk) → Claim → Engine → Conn → Round
batch_read none claim e c = goes (rejected claim) e c
batch_read (some []) claim e c = goes ended e c
batch_read (some (chunk ∷ rest)) claim e c = goes (sending (chunk ∷ rest)) e c

-- One round of a pump. `throws` is whether `send` throws, if it is called.
unfoldable pub round : Bool → Engine → Pump → Conn → Round
unfolding next_batch batch_read batch_done inner resumed
round throws e unstarted c = goes unstarted e c
round throws e ended c = goes ended e c
round throws e (rejected claim) c = goes (rejected claim) e c
round throws e testing c = next_batch e c
round throws e (reading claim) c = batch_read (read_claim e.file claim) claim e c
round throws e (sending []) c = batch_done c.kind e c
round throws e (sending (chunk ∷ rest)) c = inner throws chunk rest e c
round throws e (waiting []) c = batch_done c.kind e c
round throws e (waiting (chunk ∷ rest)) c = resumed c.kind throws chunk rest e c

-- The read of a claim fails: the promise of `_readBatch` is rejected, and the pump ends with it.
unfoldable pub read_fails : Pump → Pump
read_fails (reading claim) = rejected claim
read_fails p = p
