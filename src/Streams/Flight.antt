-- ===== src/Streams/Flight.antt =====
-- What a pump holds, and what a round of it keeps: no chunk is lost or doubled, the counters agree
-- with what has been sent, and each chunk that is sent is the file's.
use p2ptransfer.Base.{
  ℕ, ◌+◌, ◌≤◌, ◌≡◌, refl, sym, ap, ap₂, List, [], ◌∷◌, map, not, ◌&&◌, ◌||◌, ◌==◌, ltb, length,
  count, inside, All,
}
use p2ptransfer.Wire.{Bytes, chunks_of}
use p2ptransfer.Batch.{Chunk, claimed, read_chunk}
use p2ptransfer.Batch.Fast.{index-read_chunk}
use p2ptransfer.Sender.{Engine}
use p2ptransfer.Streams.{
  Pump, unstarted, testing, ended, reading, rejected, sending, waiting, Conn, Round, indices,
}

-- The indices of the chunks that a pump has claimed and not sent.
abbrev pub flight : Pump → List ℕ
flight unstarted = []
flight testing = []
flight ended = []
flight (reading claim) = claimed claim
flight (rejected claim) = claimed claim
flight (sending batch) = indices batch
flight (waiting batch) = indices batch

abbrev pub sizes : List Chunk → ℕ
sizes [] = 0
sizes (c ∷ cs) = c.size + sizes cs

module _ (file : Bytes) where
  -- A chunk with the header, the payload and the size of its index.
  abbrev pub IsGenuine : Chunk → Type 0
  IsGenuine c = c ≡ read_chunk file c.index

  -- A claim lies within the file, and the chunks of a batch are the file's.
  abbrev pub IsSound : Pump → Type 0
  IsSound unstarted = Unit {0}
  IsSound testing = Unit {0}
  IsSound ended = Unit {0}
  IsSound (reading claim) = claim.start + claim.count ≤ chunks_of (length file)
  IsSound (rejected claim) = claim.start + claim.count ≤ chunks_of (length file)
  IsSound (sending batch) = All IsGenuine batch
  IsSound (waiting batch) = All IsGenuine batch

  pub IsGenuine-map :
      (is : List ℕ)
      → (indices (map (read_chunk file) is) ≡ is) × All IsGenuine (map (read_chunk file) is)
  IsGenuine-map [] = (refl, tt)
  IsGenuine-map (i ∷ is) =
      let rest = IsGenuine-map is in
      let at = index-read_chunk file i in
      (ap₂ ◌∷◌ at rest.0, (ap (read_chunk file) (sym at), rest.1))

  -- What the engine says of itself.
  pub record Fits (e : Engine) : Type 0 where
    pub file_kept : e.file ≡ file
    pub total : e.total_chunks ≡ chunks_of (length file)
    pub next_le : e.next_chunk_index ≤ chunks_of (length file)

  -- How a round stands to the engine, the pump and the connection before it.
  pub record Keeps (e : Engine) (p : Pump) (c : Conn) (r : Round) : Type 0 where
    pub fits : Fits r.engine
    pub counts :
        (a : ℕ)
        → count a (indices r.out)
            + count a r.engine.retry_indices
            + count a (flight r.conn.pump)
            + inside 0 e.next_chunk_index a
          ≡ count a e.retry_indices + count a (flight p) + inside 0 r.engine.next_chunk_index a
    pub lengths :
        length r.out
          + length r.engine.retry_indices
          + length (flight r.conn.pump)
          + e.next_chunk_index
        ≡ length e.retry_indices + length (flight p) + r.engine.next_chunk_index
    pub sound : IsSound r.conn.pump
    pub genuine : All IsGenuine r.out
    pub sent : r.engine.sent_chunks ≡ e.sent_chunks + length r.out
    pub bytes : r.engine.bytes_transferred ≡ e.bytes_transferred + sizes r.out
    pub started : r.engine.sending_started ≡ e.sending_started
    pub fired :
        r.engine.complete_fired
        ≡ (e.complete_fired || (ltb 0 (length r.out) && (r.engine.sent_chunks == e.total_chunks)))
    pub draining :
        r.engine.draining ≡ (e.draining || (not e.complete_fired && r.engine.complete_fired))
    pub completions : r.engine.completions ≡ e.completions
    pub kept_conn :
        (r.conn.kind ≡ c.kind) × (r.conn.pump_started ≡ c.pump_started) × (r.conn.ready ≡ c.ready)
