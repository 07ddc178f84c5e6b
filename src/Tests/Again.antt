-- ===== src/Tests/Again.antt =====
-- A second offer behind a complete transfer, and a relay that closes while its pump yields.
use p2ptransfer.Base.{
  ◌*◌, ◌+◌, ◌≡◌, refl, arith, All, inl, inr, List, [], ◌∷◌, ◌++◌, some, get_elem?, count, true,
  false,
}
use p2ptransfer.Streams.{Conn, relay, waiting, indices}
use p2ptransfer.Streams.Again.{run-sends_nothing}
use p2ptransfer.Streams.Destroyed.{IsAtEase, run-destroyed}
use p2ptransfer.EndToEnd.{frames}
use p2ptransfer.EndToEnd.Lost.{lost_on_closed}
use p2ptransfer.Receiver.{handle_all}
use p2ptransfer.Streams.Schedule.{
  Event, opens, closes, drains, turns, polls, run, step, create_offer, offer_again, destroy,
}
use p2ptransfer.Tests.Runs.{simulate, one_chunk, one_relay, one_relay_fired}
use p2ptransfer.Tests.Whole
use p2ptransfer.Tests.Whole.{the_chunk, few_chunks, waiting-IsReady}

-- The first of the new relays and an old one open.
abbrev rejoined : List Event
rejoined = opens 12 50 ∷ opens 1 0 ∷ turns false 12 ∷ turns false 1 ∷ turns false 12 ∷ polls ∷ []

one_relay_drained : (run one_relay (create_offer one_chunk)).engine.draining ≡ false
unfolding simulate
one_relay_drained = refl

run-sends_nothing_example :
    ((run rejoined (offer_again one_chunk (run one_relay (create_offer one_chunk)))).sent
      ≡ (run one_relay (create_offer one_chunk)).sent)
    × ((run rejoined
          (offer_again one_chunk (run one_relay (create_offer one_chunk)))).engine.completions
        ≡ (run one_relay (create_offer one_chunk)).engine.completions)
run-sends_nothing_example =
    run-sends_nothing one_chunk one_relay rejoined one_relay_fired one_relay_drained

-- The first relay opens with a full buffer and claims the only chunk; its buffer empties and it
-- closes before its pump comes back.
abbrev yields : List Event
yields =
    opens 0 (9 * 1024 * 1024)
    ∷ turns false 0
    ∷ turns false 0
    ∷ turns false 0
    ∷ drains 0 (9 * 1024 * 1024)
    ∷ closes 0
    ∷ []

-- A data channel finds nothing left to claim.
abbrev others : List Event
others = opens 8 0 ∷ turns false 8 ∷ turns false 0 ∷ []

abbrev closed_relay : Conn
closed_relay = record {
  kind = relay;
  ready = true;
  open_now = false;
  buffered = 0;
  pump_started = true;
  pump = waiting (the_chunk ∷ []);
}

yields-at : get_elem? (run yields (create_offer one_chunk)).conns 0 ≡ some closed_relay
unfolding simulate
yields-at = refl

-- Nothing is delivered; the sender declares the transfer complete all the same.
lost_on_closed_example :
    ((step (turns false 0) (run yields (create_offer one_chunk))).engine.sent_chunks
      ≡ (run yields (create_offer one_chunk)).engine.sent_chunks + 1)
    × (count 0 (indices (run (yields ++ turns false 0 ∷ others) (create_offer one_chunk)).sent) ≡ 1)
    × (count 0
          (run (yields ++ turns false 0 ∷ others) (create_offer one_chunk)).engine.retry_indices
        ≡ 0)
    × ((handle_all (frames []) Whole.waiting).completions ≡ 0)
lost_on_closed_example =
    lost_on_closed one_chunk yields others 0 closed_relay the_chunk [] [] [] Whole.waiting
      few_chunks yields-at refl refl refl (omega arith) tt tt waiting-IsReady

sender_completes :
    (run (yields ++ turns false 0 ∷ others) (create_offer one_chunk)).engine.complete_fired ≡ true
unfolding simulate
sender_completes = refl

-- One relay holds the chunk, which it gives back behind `destroy`; another opens then.
abbrev holding : List Event
holding = opens 0 0 ∷ turns false 0 ∷ turns false 0 ∷ []

abbrev winding_down : List Event
winding_down = turns false 0 ∷ turns false 0 ∷ polls ∷ []

at_ease : All IsAtEase (run holding (create_offer one_chunk)).conns
unfolding simulate
at_ease = (
  (inl refl, tt),
  (
    (inr refl, tt),
    (
      (inr refl, tt),
      (
        (inr refl, tt),
        (
          (inr refl, tt),
          (
            (inr refl, tt),
            (
              (inr refl, tt),
              (
                (inr refl, tt),
                ((inr refl, tt), ((inr refl, tt), ((inr refl, tt), ((inr refl, tt), tt)))),
              ),
            ),
          ),
        ),
      ),
    ),
  ),
)

run-destroyed_example :
    (run winding_down (destroy (run holding (create_offer one_chunk)))).sent
    ≡ (run holding (create_offer one_chunk)).sent
run-destroyed_example =
    run-destroyed (run holding (create_offer one_chunk)) winding_down at_ease (tt, (tt, (tt, tt)))

-- A relay that was not open yet is not closed, and sends the file when it opens.
late_relay_sends :
    (run
      (opens 0 0 ∷ turns false 0 ∷ turns false 0 ∷ turns false 0 ∷ [])
      (destroy (create_offer one_chunk))).sent
    ≡ the_chunk ∷ []
unfolding simulate destroy
late_relay_sends = refl
