-- ===== src/Tests/Files.antt =====
-- Frames, chunks and claims of a small file.
use p2ptransfer.Base.{
  ◌+◌, ◌≤◌, ◌≡◌, refl, [], ◌∷◌, map, flatten, some, true, false, arith, length, range_from,
}
use p2ptransfer.Wire.{Bytes, chunks_of, payload, frame, set_uint32, get_uint32}
use p2ptransfer.Wire.Codec.{get_uint32-frame}
use p2ptransfer.Wire.Split.{flatten-payload_all}
use p2ptransfer.Batch.{Claim, claimed, read_chunk, read_claim}
use p2ptransfer.Batch.Fast.{read_claim-map}
use p2ptransfer.Sender.{Engine, claim_batch, take_retries}
use p2ptransfer.Sender.Claiming.{Claims, claim_batch-Claims}

abbrev small_file : Bytes
small_file = 10 ∷ 20 ∷ 30 ∷ []

small_file_chunks : chunks_of (length small_file) ≡ 1
unfolding chunks_of
small_file_chunks = refl

one_over : chunks_of 65533 ≡ 2
unfolding chunks_of
one_over = refl

header_of_258 : frame 258 small_file ≡ 0 ∷ 0 ∷ 1 ∷ 2 ∷ 10 ∷ 20 ∷ 30 ∷ []
unfolding frame set_uint32
header_of_258 = refl

reads_258 : get_uint32 (frame 258 small_file) ≡ some 258
reads_258 = get_uint32-frame 258 small_file (omega arith)

flatten-payload_all_example :
    flatten (map (payload small_file) (range_from 0 (chunks_of (length small_file)))) ≡ small_file
flatten-payload_all_example = flatten-payload_all small_file

abbrev retry_claim : Claim
retry_claim = record { retry = 0 ∷ []; start = 0; count = 1 }

retry_claim_fits : retry_claim.start + retry_claim.count ≤ chunks_of (length small_file)
unfolding chunks_of
retry_claim_fits = omega arith

read_claim-map_example :
    read_claim small_file retry_claim ≡ some (map (read_chunk small_file) (claimed retry_claim))
read_claim-map_example = read_claim-map small_file retry_claim retry_claim_fits

-- A chunk that a failed pump has given back, and none that is new.
abbrev retrying : Engine
retrying = record {
  file = small_file;
  total_chunks = 1;
  sent_chunks = 0;
  bytes_transferred = 0;
  next_chunk_index = 1;
  retry_indices = 0 ∷ [];
  sending_started = true;
  complete_fired = false;
  draining = false;
  stats = true;
  completions = 0;
}

retry_is_claimed : (claim_batch retrying).0 ≡ record { retry = 0 ∷ []; start = 1; count = 0 }
unfolding claim_batch take_retries
retry_is_claimed = refl

claim_batch-Claims_example : Claims retrying (claim_batch retrying).0 (claim_batch retrying).1
claim_batch-Claims_example = claim_batch-Claims retrying (omega arith)
