-- ===== src/Tests/Runs.antt =====
-- A run from the start, and the shortest one that completes.
use p2ptransfer.Base.{◌≡◌, refl, List, [], ◌∷◌, true, false}
use p2ptransfer.Wire.{Bytes, chunks_of, slice, frame, set_uint32}
use p2ptransfer.Batch.{read_claim, read_range, cut_all, cut}
use p2ptransfer.Sender.{more_work, start_sending, claim_batch, take_retries, count_sent, requeue}
use p2ptransfer.Streams.{System}
use p2ptransfer.Streams.Schedule.{Event, opens, drains, turns, polls, run, create_offer}

abbrev pub one_chunk : Bytes
one_chunk = 10 ∷ 20 ∷ 30 ∷ []

-- A run from the start, with all that it calls.
unfoldable pub simulate : Bytes → List Event → System
unfolding run create_offer chunks_of read_claim read_range cut_all cut frame set_uint32 slice
    more_work start_sending claim_batch take_retries count_sent requeue
simulate file es = run es (create_offer file)

-- The first relay connection opens, claims the chunk, reads it and sends it; its buffer drains.
abbrev pub one_relay : List Event
one_relay = opens 0 50 ∷ turns false 0 ∷ turns false 0 ∷ turns false 0 ∷ drains 0 100 ∷ polls ∷ []

one_relay_completes : (run one_relay (create_offer one_chunk)).engine.completions ≡ 1
unfolding simulate
one_relay_completes = refl

pub one_relay_fired : (run one_relay (create_offer one_chunk)).engine.complete_fired ≡ true
unfolding simulate
one_relay_fired = refl
