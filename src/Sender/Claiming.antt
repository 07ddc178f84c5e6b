-- ===== src/Sender/Claiming.antt =====
-- What `_readBatch` claims: nothing is claimed twice, and nothing falls between the queue and the
-- counter.
use p2ptransfer.Base.{
  ℕ, zero, suc, ◌+◌, ◌-◌, ◌≤◌, ◌<◌, min, ◌≡◌, refl, List, [], ◌∷◌, true, arith, length, count,
  count-append, count-range_from, inside, range_from, length-append, length-range_from,
}
use p2ptransfer.Batch.{Claim, claimed}
use p2ptransfer.Sender.{Engine, batch_size, take_retries, claim_batch, more_work}

count-take_retries :
    (a room : ℕ) (queue : List ℕ)
    → count a (take_retries room queue).0 + count a (take_retries room queue).1 ≡ count a queue
unfolding take_retries
count-take_retries a zero queue = omega arith
count-take_retries a (suc room) [] = refl
count-take_retries a (suc room) (i ∷ queue) = omega (arith, count-take_retries a room queue)

length-take_retries :
    (room : ℕ) (queue : List ℕ)
    → (length (take_retries room queue).0 + length (take_retries room queue).1 ≡ length queue)
      × (length (take_retries room queue).0 ≡ min room (length queue))
unfolding take_retries
length-take_retries zero queue = omega arith
length-take_retries (suc room) [] = omega arith
length-take_retries (suc room) (i ∷ queue) = omega (arith, length-take_retries room queue)

inside-add : (a n k : ℕ) → inside n k a + inside 0 n a ≡ inside 0 (n + k) a
inside-add a n k = ground arith

-- How a claim stands to the engine that made it.
pub record Claims (e : Engine) (c : Claim) (e' : Engine) : Type 0 where
  pub counts :
      (a : ℕ)
      → count a (claimed c) + count a e'.retry_indices + inside 0 e.next_chunk_index a
        ≡ count a e.retry_indices + inside 0 e'.next_chunk_index a
  pub sizes :
      length (claimed c) + length e'.retry_indices + e.next_chunk_index
      ≡ length e.retry_indices + e'.next_chunk_index
  pub in_range : c.start + c.count ≤ e.total_chunks
  pub advanced : e'.next_chunk_index ≡ c.start + c.count
  pub at_most : length (claimed c) ≤ batch_size

-- A claim moves chunks out of the retry queue and off the front of the unclaimed range and loses or
-- repeats none; it stays within the file, advances the next index by what it took from the range, and
-- holds at most a batch.
pub claim_batch-Claims :
    (e : Engine)
    → e.next_chunk_index ≤ e.total_chunks
    → Claims e (claim_batch e).0 (claim_batch e).1
unfolding claim_batch
claim_batch-Claims e le =
    let taken = take_retries batch_size e.retry_indices in
    let n = min (batch_size - length taken.0) (e.total_chunks - e.next_chunk_index) in
    record {
      counts = λ a. omega (
        arith,
        count-append a taken.0 (range_from e.next_chunk_index n),
        count-range_from a e.next_chunk_index n,
        count-take_retries a batch_size e.retry_indices,
        inside-add a e.next_chunk_index n,
      );
      sizes = omega (
        arith,
        length-append taken.0 (range_from e.next_chunk_index n),
        length-range_from e.next_chunk_index n,
        length-take_retries batch_size e.retry_indices,
      );
      in_range = omega arith;
      advanced = refl;
      at_most = omega (
        arith,
        length-append taken.0 (range_from e.next_chunk_index n),
        length-range_from e.next_chunk_index n,
        length-take_retries batch_size e.retry_indices,
      );
    }

-- The outer loop of a pump does not spin: while there is work, a claim holds a chunk.
pub claim_batch-nonempty :
    (e : Engine) → more_work e ≡ true → 0 < length (claimed (claim_batch e).0)
unfolding claim_batch more_work
claim_batch-nonempty e w =
    let taken = take_retries batch_size e.retry_indices in
    let n = min (batch_size - length taken.0) (e.total_chunks - e.next_chunk_index) in
    ground (
      arith,
      length-append taken.0 (range_from e.next_chunk_index n),
      length-range_from e.next_chunk_index n,
      length-take_retries batch_size e.retry_indices,
    )
