-- ===== src/Tests/Sending.antt =====
-- Schedules of the sender on a file of one chunk.
use p2ptransfer.Base.{
  ltb, ◌&&◌, ◌==◌, if◌then◌else◌, ℕ, ◌+◌, ◌^◌, ◌≤◌, ◌<◌, ◌≡◌, refl, List, [], ◌∷◌, ◌++◌, true,
  false, arith, length, count, inside, All, inl,
}
use p2ptransfer.Wire.{chunks_of}
use p2ptransfer.Tests.Runs.{simulate, one_chunk, one_relay, one_relay_fired}
use p2ptransfer.Streams.{System, Conn, indices, testing, relay}
use p2ptransfer.Streams.Conns.{flights}
use p2ptransfer.Streams.Exactly.{
  after-Inv, run-conserves, complete-sent_all, run-completes, run-Readable, empty-never_completes,
  Readable,
}
use p2ptransfer.Streams.Stall.{IsStalled, Frozen, run-Frozen}
use p2ptransfer.Streams.Backpressure.{Within, create_offer-Within}
use p2ptransfer.Streams.Healthy.{to_do}
use p2ptransfer.Streams.Finish.{IsServing, serve, serve-completes}
use p2ptransfer.Streams.Schedule.{Event, opens, closes, turns, run, create_offer}

run-conserves_example :
    (count 0 (indices (run one_relay (create_offer one_chunk)).sent)
        + count 0 (run one_relay (create_offer one_chunk)).engine.retry_indices
        + count 0 (flights (run one_relay (create_offer one_chunk)).conns)
      ≡ inside 0 (run one_relay (create_offer one_chunk)).engine.next_chunk_index 0)
    × (count 0 (indices (run one_relay (create_offer one_chunk)).sent)
        ≤ inside 0 (chunks_of (length one_chunk)) 0)
run-conserves_example = run-conserves one_chunk one_relay 0

complete-sent_all_example :
    ((a : ℕ)
      → count a (indices (run one_relay (create_offer one_chunk)).sent)
        ≡ inside 0 (chunks_of (length one_chunk)) a)
    × (length (run one_relay (create_offer one_chunk)).sent ≡ chunks_of (length one_chunk))
    × ((run one_relay (create_offer one_chunk)).engine.retry_indices ≡ [])
    × (flights (run one_relay (create_offer one_chunk)).conns ≡ [])
complete-sent_all_example = complete-sent_all one_chunk one_relay one_relay_fired

run-completes_example :
    ((run one_relay (create_offer one_chunk)).engine.complete_fired ≡ (
      ltb 0 (chunks_of (length one_chunk))
      && (length (run one_relay (create_offer one_chunk)).sent == chunks_of (length one_chunk))))
    × ((run one_relay (create_offer one_chunk)).engine.completions
          + (if (run one_relay (create_offer one_chunk)).engine.draining then 1 else 0)
        ≡ (if (run one_relay (create_offer one_chunk)).engine.complete_fired then 1 else 0))
run-completes_example = run-completes one_chunk one_relay

few_chunks : chunks_of (length one_chunk) ≤ 2 ^ 32
unfolding chunks_of
few_chunks = omega arith

run-Readable_example : All (Readable one_chunk) (run one_relay (create_offer one_chunk)).sent
run-Readable_example = run-Readable one_chunk one_relay few_chunks

create_offer-Within_example : All Within (run one_relay (create_offer one_chunk)).conns
create_offer-Within_example = create_offer-Within one_chunk one_relay (omega arith)

empty-never_completes_example :
    ((run one_relay (create_offer [])).sent ≡ [])
    × ((run one_relay (create_offer [])).engine.complete_fired ≡ false)
    × ((run one_relay (create_offer [])).engine.completions ≡ 0)
empty-never_completes_example = empty-never_completes [] one_relay refl

-- The first connection claims the only chunk; the others open, find nothing to claim, and return;
-- then the first one closes before it has sent the chunk.
open_and_leave : ℕ → List Event
open_and_leave i = opens i 0 ∷ turns false i ∷ []

abbrev late_failure : List Event
late_failure =
    opens 0 50 ∷ turns false 0 ∷ turns false 0 ∷ open_and_leave 1
    ++ open_and_leave 2
    ++ open_and_leave 3
    ++ open_and_leave 4
    ++ open_and_leave 5
    ++ open_and_leave 6
    ++ open_and_leave 7
    ++ open_and_leave 8
    ++ open_and_leave 9
    ++ open_and_leave 10
    ++ open_and_leave 11
    ++ closes 0 ∷ turns false 0 ∷ []

abbrev stalled : System
stalled = run late_failure (create_offer one_chunk)

late_failure_requeues : stalled.engine.retry_indices ≡ 0 ∷ []
unfolding simulate open_and_leave
late_failure_requeues = refl

stalled-IsStalled : IsStalled stalled
unfolding simulate open_and_leave
stalled-IsStalled = record {
  started = refl;
  spent = (
    (refl, tt),
    (
      (refl, tt),
      (
        (refl, tt),
        (
          (refl, tt),
          (
            (refl, tt),
            (
              (refl, tt),
              (
                (refl, tt),
                ((refl, tt), ((refl, tt), ((refl, tt), ((refl, tt), ((refl, tt), tt))))),
              ),
            ),
          ),
        ),
      ),
    ),
  );
  incomplete = refl;
  not_draining = refl;
}

run-Frozen_example : Frozen stalled (run one_relay stalled)
run-Frozen_example = run-Frozen one_relay stalled stalled-IsStalled

-- The first relay connection has opened.
abbrev opened : System
opened = run (opens 0 50 ∷ []) (create_offer one_chunk)

abbrev serving : Conn
serving = record {
  kind = relay;
  ready = true;
  open_now = true;
  buffered = 50;
  pump_started = true;
  pump = testing;
}

opened-IsServing : IsServing 0 opened serving
unfolding simulate
opened-IsServing = record { at = refl; up = refl; room = omega arith; alone = refl; going = inl tt }

opened_rounds : to_do opened.engine serving.pump ≤ 5
unfolding simulate
opened_rounds = omega arith

some_chunks : 0 < chunks_of (length one_chunk)
unfolding chunks_of
some_chunks = omega arith

serve-completes_example :
    (length (run (serve 0 5) opened).sent ≡ chunks_of (length one_chunk))
    × ((run (serve 0 5) opened).engine.complete_fired ≡ true)
serve-completes_example =
    serve-completes one_chunk 0 5 opened serving some_chunks (after-Inv one_chunk (opens 0 50 ∷ []))
      opened-IsServing opened_rounds
