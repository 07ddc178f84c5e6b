-- ===== src/Sender.antt =====
-- The sending half of `TransferEngine` in web/static/js/transfer.js, without its connections: the
-- counters and the retry queue, `_moreWork`, `_requeue`, the claim of `_readBatch` and `_checkDone`.
-- `onComplete` is counted in `completions`; times and the calls of `onProgress` are left out.
pub mod Claiming
use p2ptransfer.Base.{
  ℕ, zero, suc, ◌+◌, ◌-◌, min, List, [], ◌∷◌, ◌++◌, Bool, true, false, not, ltb, ◌==◌, ◌&&◌, ◌||◌,
  if◌then◌else◌, length,
}
use p2ptransfer.Wire.{Bytes, chunks_of}
use p2ptransfer.Batch.{Chunk, Claim}

abbrev pub batch_size : ℕ
batch_size = 64

-- The fields of the engine that the sender uses. `draining` is whether `_waitForDrain` has been
-- called and has not returned, `stats` whether the interval of `_startStatsInterval` runs.
pub record Engine : Type 0 where
  pub file : Bytes
  pub total_chunks : ℕ
  pub sent_chunks : ℕ
  pub bytes_transferred : ℕ
  pub next_chunk_index : ℕ
  pub retry_indices : List ℕ
  pub sending_started : Bool
  pub complete_fired : Bool
  pub draining : Bool
  pub stats : Bool
  pub completions : ℕ

-- The constructor, and what `createOffer(file)` sets.
unfoldable pub new_engine : Bytes → Engine
new_engine file = record {
  file = file;
  total_chunks = chunks_of (length file);
  sent_chunks = 0;
  bytes_transferred = 0;
  next_chunk_index = 0;
  retry_indices = [];
  sending_started = false;
  complete_fired = false;
  draining = false;
  stats = false;
  completions = 0;
}

-- `_moreWork()`
unfoldable pub more_work : Engine → Bool
more_work e = ltb e.next_chunk_index e.total_chunks || ltb 0 (length e.retry_indices)

-- `_requeue(indices)`
unfoldable pub requeue : List ℕ → Engine → Engine
requeue indices e = record e { retry_indices = e.retry_indices ++ indices }

-- The loop that drains the retry queue: at most `room` indices, and what stays in the queue.
unfoldable pub take_retries : ℕ → List ℕ → List ℕ × List ℕ
take_retries zero queue = ([], queue)
take_retries (suc room) [] = ([], [])
take_retries (suc room) (i ∷ queue) = let rest = take_retries room queue in (i ∷ rest.0, rest.1)

-- The synchronous part of `_readBatch()`. `Math.min` is below 0 only where the count is 0 here.
unfoldable pub claim_batch : Engine → Claim × Engine
claim_batch e =
    let taken = take_retries batch_size e.retry_indices in
    let remaining = batch_size - length taken.0 in
    let count = min remaining (e.total_chunks - e.next_chunk_index) in
    (
      record { retry = taken.0; start = e.next_chunk_index; count = count },
      record e { retry_indices = taken.1; next_chunk_index = e.next_chunk_index + count },
    )

-- `_checkDone()`
unfoldable pub check_done : Engine → Engine
check_done e =
    if (e.sent_chunks == e.total_chunks) && not e.complete_fired
    then record e { complete_fired = true; draining = true }
    else e

-- What follows a successful `send` in both pumps.
unfoldable pub count_sent : ℕ → Engine → Engine
unfolding check_done
count_sent size e =
    check_done
      (record e { sent_chunks = e.sent_chunks + 1; bytes_transferred = e.bytes_transferred + size })

-- `_waitForDrain` finds all buffers empty and returns, and what `_checkDone` does then.
unfoldable pub drained : Engine → Engine
drained e =
    if e.draining
    then record e { draining = false; stats = false; completions = e.completions + 1 }
    else e

-- The first start of `_tryStart()`.
unfoldable pub start_sending : Engine → Engine
start_sending e = record e {
  sending_started = true;
  sent_chunks = 0;
  bytes_transferred = 0;
  next_chunk_index = 0;
  stats = true;
}
