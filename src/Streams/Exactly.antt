-- ===== src/Streams/Exactly.antt =====
-- What a schedule can and cannot do to the chunks of a file.
use p2ptransfer.Base.{
  ℕ, ◌+◌, ◌^◌, ◌≤◌, ◌<◌, ◌≡◌, refl, sym, ap, ◌∙◌, subst, List, [], ◌∷◌, some, true, false, arith,
  length, count, inside, All, drop, ltb, ◌==◌, ◌&&◌, if◌then◌else◌,
}
use p2ptransfer.Wire.{Bytes, header_size, get_uint32, chunks_of, payload}
use p2ptransfer.Wire.Codec.{get_uint32-frame, drop-frame, length-frame}
use p2ptransfer.Wire.Split.{chunks_of_zero}
use p2ptransfer.Batch.{Chunk}
use p2ptransfer.Batch.Fast.{read_chunk-payload}
use p2ptransfer.Streams.{System, indices}
use p2ptransfer.Streams.Conns.{flights}
use p2ptransfer.Streams.Flight.{IsGenuine}
use p2ptransfer.Streams.Invariant.{Ledger, Inv}
use p2ptransfer.Streams.Events.{run-Inv, create_offer-Inv}
use p2ptransfer.Streams.Schedule.{Event, run, create_offer}

module _ (file : Bytes) (es : List Event) where
  -- The sender after the schedule.
  abbrev pub after : System
  after = run es (create_offer file)

  pub after-Inv : Inv file after
  after-Inv = run-Inv file es (create_offer file) (create_offer-Inv file)

  -- Under every schedule of openings, closings, failures and rounds of the twelve pumps, every chunk
  -- that has been claimed is in exactly one place: sent, in the retry queue, or held by one pump; no
  -- chunk is sent twice, and none that the file does not have.
  pub run-conserves :
      (a : ℕ)
      → (count a (indices after.sent)
            + count a after.engine.retry_indices
            + count a (flights after.conns)
          ≡ inside 0 after.engine.next_chunk_index a)
        × (count a (indices after.sent) ≤ inside 0 (chunks_of (length file)) a)
  run-conserves a =
      let l = after-Inv.ledger in (l.conserved a, ground (arith, l.conserved a, l.fits.next_le))

  empty_list : {A : Type 0} (xs : List A) → length xs ≡ 0 → xs ≡ []
  empty_list [] h = refl
  empty_list (x ∷ xs) h = absurd (omega arith)

  -- When the sender declares the transfer complete, every chunk of the file has been sent, exactly
  -- once, and no pump and no queue holds any.
  pub complete-sent_all :
      after.engine.complete_fired ≡ true
      → ((a : ℕ) → count a (indices after.sent) ≡ inside 0 (chunks_of (length file)) a)
        × (length after.sent ≡ chunks_of (length file))
        × (after.engine.retry_indices ≡ [])
        × (flights after.conns ≡ [])
  complete-sent_all h = (
    λ a. ground (arith, l.conserved a, none_waiting, none_held, claimed_all),
    all_sent,
    none_waiting,
    none_held,
  )
    where
      l : Ledger file after
      l = after-Inv.ledger

      all_sent : length after.sent ≡ chunks_of (length file)
      all_sent = ground (arith, l.fired, l.sent, l.fits.total)

      none_waiting : after.engine.retry_indices ≡ []
      none_waiting = empty_list _ (omega (arith, l.lengths, all_sent, l.fits.next_le))

      none_held : flights after.conns ≡ []
      none_held = empty_list _ (omega (arith, l.lengths, all_sent, l.fits.next_le))

      claimed_all : after.engine.next_chunk_index ≡ chunks_of (length file)
      claimed_all = omega (arith, l.lengths, all_sent, l.fits.next_le)

  -- The sender has declared the transfer complete exactly if the file has chunks and as many frames
  -- as it has chunks have been sent; and `onComplete` has run, or is awaited behind the drain of the
  -- buffers, once if it has and not otherwise.
  pub run-completes :
      (after.engine.complete_fired
        ≡ (ltb 0 (chunks_of (length file)) && (length after.sent == chunks_of (length file))))
      × (after.engine.completions + (if after.engine.draining then 1 else 0)
          ≡ (if after.engine.complete_fired then 1 else 0))
  run-completes =
      let l = after-Inv.ledger in (ground (arith, l.fired, l.sent, l.fits.total), l.completions)

-- A frame that the receiver can read: the header is the index, and the payload follows it.
abbrev pub Readable : Bytes → Chunk → Type 0
Readable file c =
    (get_uint32 c.frame ≡ some c.index)
    × (drop header_size c.frame ≡ payload file c.index)
    × (length c.frame ≡ header_size + c.size)

genuine-Readable :
    (file : Bytes) (c : Chunk) → c.index < 2 ^ 32 → IsGenuine file c → Readable file c
genuine-Readable file c lt g =
    subst (λ d. Readable file d) (sym (g ∙ read_chunk-payload file c.index))
      (
        get_uint32-frame c.index (payload file c.index) lt,
        drop-frame c.index (payload file c.index),
        length-frame c.index (payload file c.index),
      )

-- What holds of every index that a list of chunks has, holds of each of its chunks.
All-of_count :
    (P : ℕ → Type 0) (cs : List Chunk)
    → ((a : ℕ) → 0 < count a (indices cs) → P a)
    → All (λ c. P c.index) cs
All-of_count P [] h = tt
All-of_count P (c ∷ cs) h =
    (h c.index (ground arith), All-of_count P cs (λ a lt. h a (ground (arith, lt))))

-- Every frame that is sent, by whichever pump and under every schedule, can be read by the receiver:
-- the header is the index, the payload of that chunk follows it, and the recorded size is that of the
-- payload. The chunks are numbered by 32 bits.
pub run-Readable :
    (file : Bytes) (es : List Event)
    → chunks_of (length file) ≤ 2 ^ 32
    → All (Readable file) (run es (create_offer file)).sent
run-Readable file es few = both (after file es).sent (after-Inv file es).ledger.genuine (
    All-of_count (λ a. a < 2 ^ 32) (after file es).sent
      (λ a lt. ground (arith, few, lt, (run-conserves file es a).1)))
  where
    both :
        (cs : List Chunk)
        → All (IsGenuine file) cs
        → All (λ c. c.index < 2 ^ 32) cs
        → All (Readable file) cs
    both [] g lt = tt
    both (c ∷ cs) g lt = (genuine-Readable file c lt.0 g.0, both cs g.1 lt.1)

-- A file of no bytes has no chunks: under every schedule nothing is sent, and the sender never
-- declares the transfer complete.
pub empty-never_completes :
    (file : Bytes) (es : List Event)
    → length file ≡ 0
    → ((run es (create_offer file)).sent ≡ [])
      × ((run es (create_offer file)).engine.complete_fired ≡ false)
      × ((run es (create_offer file)).engine.completions ≡ 0)
empty-never_completes file es none =
    let l = (after-Inv file es).ledger in
    let no_chunks : chunks_of (length file) ≡ 0 = ap chunks_of none ∙ chunks_of_zero in
    (
      nothing _ (omega (arith, l.lengths, l.fits.next_le, no_chunks)),
      ground (arith, l.fired, l.fits.total, no_chunks),
      ground (arith, l.completions, l.fired, l.fits.total, no_chunks),
    )
  where
    nothing : (cs : List Chunk) → length cs ≡ 0 → cs ≡ []
    nothing [] h = refl
    nothing (c ∷ cs) h = absurd (omega arith)
