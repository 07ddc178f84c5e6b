-- ===== src/Tests/Workers.antt =====
-- Two downloads in one service worker.
use p2ptransfer.Base.{length, ◌≡◌, refl, List, [], ◌∷◌, ◌++◌, arith}
use p2ptransfer.Worker.{
  Worker, cancelled, errored, register, chunk, close, abort, Event, message, fetch, cancel,
  download, other, step, run, on_fetch, mime_or_default, streaming, not_found,
}
use p2ptransfer.Worker.Streams.{IsSound}
use p2ptransfer.Worker.Sound.{run-IsSound}
use p2ptransfer.Worker.Isolated.{Untouched, step-Untouched}
use p2ptransfer.Worker.Stages.{Ended}
use p2ptransfer.Worker.Delivery.{
  posted_chunks, fetched_then_closed, closed_then_fetched, run-delivers, run-delivers_late,
}

-- `streams` when the script starts.
abbrev pub new_worker : Worker
new_worker = record { streams = []; opened = [] }

pub new_worker-IsSound : IsSound new_worker
new_worker-IsSound = record { owned = λ id e c at ctl. absurd (ground arith); distinct = tt }

-- The other download, 7, is registered and requested.
abbrev other_download : List Event
other_download = message 7 (register "b.bin" 1 "text/plain") ∷ fetch (download 7) ∷ []

abbrev busy : Worker
busy = run other_download new_worker

busy-IsSound : IsSound busy
busy-IsSound = run-IsSound other_download new_worker-IsSound

abbrev before : List Event
before = message 3 (chunk (1 ∷ [])) ∷ message 7 (chunk (9 ∷ [])) ∷ []

abbrev after : List Event
after = message 7 close ∷ message 3 (chunk (2 ∷ [])) ∷ fetch other ∷ []

run-delivers_example :
    let asked = run before (step (message 3 (register "a.bin" 2 "")) busy) in
    ((on_fetch (download 3) asked).1
      ≡ streaming (length asked.opened) (mime_or_default "") "a.bin" 2)
    × Ended 3
        (length asked.opened)
        (posted_chunks 3 before ++ posted_chunks 3 after)
        (run (fetched_then_closed 3 "a.bin" 2 "" before after) busy)
run-delivers_example =
    run-delivers 3 "a.bin" 2 "" before after busy busy-IsSound (tt, (tt, tt)) (refl, (tt, (tt, tt)))

run-delivers_late_example :
    let asked =
      run after
        (step (message 3 close) (run before (step (message 3 (register "a.bin" 2 "")) busy))) in
    ((on_fetch (download 3) asked).1
      ≡ streaming (length asked.opened) (mime_or_default "") "a.bin" 2)
    × Ended 3
        (length asked.opened)
        (posted_chunks 3 before ++ posted_chunks 3 after)
        (run (closed_then_fetched 3 "a.bin" 2 "" before after) busy)
run-delivers_late_example =
    run-delivers_late 3 "a.bin" 2 "" before after busy busy-IsSound (tt, (tt, tt))
      (refl, (tt, (tt, tt)))

step-Untouched_example : Untouched 3 busy (step (message 7 abort) busy)
step-Untouched_example = step-Untouched 3 (message 7 abort) busy-IsSound refl

run-IsSound_example : IsSound (run other_download new_worker)
run-IsSound_example = run-IsSound other_download new_worker-IsSound

-- Runs of single events.
answers : (on_fetch (download 7) busy).1 ≡ streaming 1 "text/plain" "b.bin" 1
unfolding run step on_fetch mime_or_default
answers = refl

refuses : (on_fetch (download 3) busy).1 ≡ not_found
unfolding run step on_fetch mime_or_default
refuses = refl

cancelled_stream :
    run (cancel 7 0 ∷ message 7 (chunk (9 ∷ [])) ∷ []) busy
    ≡ record { streams = []; opened = record { owner = 7; queue = []; status = cancelled } ∷ [] }
unfolding run step
cancelled_stream = refl

-- A stream that is closed but not read through can still be cancelled, one that is empty cannot; its
-- `cancel` deletes the id, whoever has registered it meanwhile.
cancelled_late :
    run
      (message 7 (chunk (9 ∷ []))
        ∷ message 7 close
        ∷ message 7 (register "c.bin" 1 "")
        ∷ cancel 7 0
        ∷ [])
      busy
    ≡ record {
      streams = [];
      opened = record { owner = 7; queue = (9 ∷ []) ∷ []; status = cancelled } ∷ [];
    }
unfolding run step
cancelled_late = refl

cancelled_empty :
    run (cancel 7 0 ∷ []) (run (message 7 close ∷ []) busy) ≡ run (message 7 close ∷ []) busy
unfolding run step
cancelled_empty = refl

aborted_stream :
    (run (message 7 (chunk (9 ∷ [])) ∷ message 7 abort ∷ []) busy).opened
    ≡ record { owner = 7; queue = (9 ∷ []) ∷ []; status = errored } ∷ []
unfolding run step
aborted_stream = refl
