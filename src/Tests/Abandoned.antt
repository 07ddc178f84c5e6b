-- ===== src/Tests/Abandoned.antt =====
-- A data channel that closes while its pump waits for the buffer to drain.
use p2ptransfer.Base.{◌*◌, true, ◌≡◌, refl, List, [], ◌∷◌, false}
use p2ptransfer.Streams.{waiting, p2p}
use p2ptransfer.Streams.Abandoned.{At, Holds, run-abandoned}
use p2ptransfer.Streams.Schedule.{Event, opens, closes, turns, polls, run, create_offer}
use p2ptransfer.Tests.Runs.{simulate, one_chunk}
use p2ptransfer.Tests.Whole.{the_chunk}

-- The first data channel, at place 8, opens with a full buffer, and claims the only chunk.
abbrev fills_up : List Event
fills_up = opens 8 (2 * 1024 * 1024) ∷ turns false 8 ∷ turns false 8 ∷ turns false 8 ∷ []

-- It closes, and a relay finds nothing left to claim.
abbrev goes_on : List Event
goes_on = closes 8 ∷ opens 0 0 ∷ turns false 0 ∷ polls ∷ []

fills_up-At : At 8 (Holds (the_chunk ∷ [])) (run fills_up (create_offer one_chunk)).conns
unfolding simulate
fills_up-At = (
  record {
    kind = p2p;
    ready = true;
    open_now = true;
    buffered = 2 * 1024 * 1024;
    pump_started = true;
    pump = waiting (the_chunk ∷ []);
  },
  refl,
  (refl, refl),
)

run-abandoned_example :
    At 8 (Holds (the_chunk ∷ [])) (run goes_on (run fills_up (create_offer one_chunk))).conns
    × ((run goes_on (run fills_up (create_offer one_chunk))).engine.complete_fired ≡ false)
    × ((run goes_on (run fills_up (create_offer one_chunk))).engine.completions ≡ 0)
run-abandoned_example =
    run-abandoned one_chunk fills_up goes_on 8 the_chunk [] fills_up-At (tt, (tt, (refl, (tt, tt))))
