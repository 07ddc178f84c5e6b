-- ===== src/Batch.antt =====
-- Reading chunks from the file: `_readBatch` of web/static/js/transfer.js, after its claim. A claim
-- is what its synchronous part took from the retry queue and from the counter.
pub mod Fast
use p2ptransfer.Base.{
  ℕ, zero, suc, ◌+◌, ◌-◌, ◌*◌, min, List, [], ◌∷◌, ◌++◌, map, Option, none, some, Bool, true, false,
  ltb, leb, ◌==◌, ◌&&◌, if◌then◌else◌, ◌>>=◌, length, range_from,
}
use p2ptransfer.Wire.{Bytes, chunk_payload_size, slice, frame}

-- An entry of `batch`. The field `frame` is `data`.
pub record Chunk : Type 0 where
  pub frame : Bytes
  pub size : ℕ
  pub index : ℕ

-- `retryIdx`, `startIdx` and `count`. A count that is negative in the source is 0 here: it is only
-- compared with 0.
pub record Claim : Type 0 where
  pub retry : List ℕ
  pub start : ℕ
  pub count : ℕ

-- The body of the loop over `retryIdx`: one disk read for one chunk.
unfoldable pub read_chunk : Bytes → ℕ → Chunk
read_chunk file chunk_idx =
    let start = chunk_idx * chunk_payload_size in
    let end = min (start + chunk_payload_size) (length file) in
    let buf = slice start end file in
    record { frame = frame chunk_idx buf; size = length buf; index = chunk_idx }

-- The body of the loop over the new claim: a chunk cut out of the one large read. A negative
-- `chunkLen` would make `new Uint8Array` or `combined.set` throw, which is `none`.
unfoldable pub cut : Bytes → ℕ → ℕ → Option Chunk
cut big start_idx i =
    let chunk_idx = start_idx + i in
    let offset = i * chunk_payload_size in
    let end = min (offset + chunk_payload_size) (length big) in
    if ltb end offset
    then none
    else some (record {
      frame = frame chunk_idx (slice offset end big);
      size = end - offset;
      index = chunk_idx;
    })

-- The loop itself, for `n` rounds from `i` on.
unfoldable pub cut_all : Bytes → ℕ → ℕ → ℕ → Option (List Chunk)
cut_all big start_idx i zero = some []
cut_all big start_idx i (suc n) = do
  chunk ← cut big start_idx i
  chunks ← cut_all big start_idx (suc i) n
  some (chunk ∷ chunks)

-- The fast path: one read for the whole range.
unfoldable pub read_range : Bytes → ℕ → ℕ → Option (List Chunk)
read_range file start_idx count =
    let byte_start = start_idx * chunk_payload_size in
    let byte_end = min ((start_idx + count) * chunk_payload_size) (length file) in
    cut_all (slice byte_start byte_end file) start_idx 0 count

unfoldable pub read_claim : Bytes → Claim → Option (List Chunk)
read_claim file c = if (length c.retry == 0) && leb c.count 0 then some [] else do
  let retried = map (read_chunk file) c.retry
  fresh ← if ltb 0 c.count then read_range file c.start c.count else some []
  some (retried ++ fresh)

-- The indices that a claim holds.
abbrev pub claimed : Claim → List ℕ
claimed c = c.retry ++ range_from c.start c.count
