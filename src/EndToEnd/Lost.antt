-- ===== src/EndToEnd/Lost.antt =====
-- What a chunk that a closed relay has taken means for the receiver.
use p2ptransfer.Base.{
  ℕ, ◌+◌, ◌^◌, ◌≤◌, ◌<◌, ◌≡◌, ◌≢◌, refl, List, [], ◌∷◌, ◌++◌, some, false, arith, length, count,
  get_elem?, All,
}
use p2ptransfer.Wire.{Bytes, chunks_of, payload}
use p2ptransfer.Worker.{Message}
use p2ptransfer.Batch.{Chunk}
use p2ptransfer.Receiver.{Receiver, handle_all}
use p2ptransfer.Receiver.Delivery.{arrives}
use p2ptransfer.Receiver.Transfer.{IsReady, HasReached, handle_all-HasReached}
use p2ptransfer.Streams.{Conn, relay, buf_high, waiting, indices}
use p2ptransfer.Streams.Closed.{sent_unchecked}
use p2ptransfer.Streams.Exactly.{run-conserves}
use p2ptransfer.Streams.Schedule.{Event, turns, step, run, create_offer}
use p2ptransfer.EndToEnd.{Among, carried, frames}

not_arrived : (j : ℕ) (ds : List Chunk) → All (λ d. d.index ≢ j) ds → arrives j (indices ds) ≡ false
not_arrived j [] h = refl
not_arrived j (d ∷ ds) h = ground (arith, h.0, not_arrived j ds h.1)

-- Without one of the chunks no transfer completes.
never_whole :
    {content : ℕ → Bytes} {before : List Message} {total : ℕ} {is : List ℕ} {r : Receiver} (j : ℕ)
    → j < total
    → arrives j is ≡ false
    → (due : ℕ) × HasReached content before total is due r
    → r.completions ≡ 0
never_whole j lt missing (due, h) =
    ground (arith, lt, missing, h.completions, h.arrived j, h.in_range)

-- A relay pump has yielded to a full buffer, and its socket has closed meanwhile; the buffer is not
-- full any more. When the pump goes on, its next chunk is counted as sent. Whatever happens
-- afterwards, under any schedule, no pump sends that chunk again and it does not get back into the
-- retry queue; and a receiver that was ready never completes the transfer, whatever frames of other
-- chunks the network delivers, since those of the closed socket are not delivered. The chunks are
-- numbered by 32 bits.
pub lost_on_closed :
    (file : Bytes) (es fs : List Event) (i : ℕ) (c : Conn) (chunk : Chunk) (rest : List Chunk)
    (before : List Message) (ds : List Chunk) (r : Receiver)
    → chunks_of (length file) ≤ 2 ^ 32
    → get_elem? (run es (create_offer file)).conns i ≡ some c
    → c.kind ≡ relay
    → c.open_now ≡ false
    → c.pump ≡ waiting (chunk ∷ rest)
    → c.buffered ≤ buf_high relay
    → All (λ d. Among d (run (es ++ turns false i ∷ fs) (create_offer file)).sent) ds
    → All (λ d. d.index ≢ chunk.index) ds
    → IsReady before (chunks_of (length file)) r
    → ((step (turns false i) (run es (create_offer file))).engine.sent_chunks
        ≡ (run es (create_offer file)).engine.sent_chunks + 1)
      × (count chunk.index (indices (run (es ++ turns false i ∷ fs) (create_offer file)).sent) ≡ 1)
      × (count chunk.index (run (es ++ turns false i ∷ fs) (create_offer file)).engine.retry_indices
          ≡ 0)
      × ((handle_all (frames ds) r).completions ≡ 0)
lost_on_closed file es fs i c chunk rest before ds r fits at k shut w room among others ready =
    let sent = sent_unchecked file es fs i c chunk rest at k w room in
    let inside_file = (run-conserves file (es ++ turns false i ∷ fs) chunk.index).1 in
    (
      sent.1,
      sent.2,
      sent.3,
      never_whole chunk.index (ground (arith, sent.2, inside_file))
          (not_arrived chunk.index ds others)
          (handle_all-HasReached (payload file) before (chunks_of (length file)) (indices ds)
            (frames ds) r (carried file (es ++ turns false i ∷ fs) fits before ds among) ready),
    )
