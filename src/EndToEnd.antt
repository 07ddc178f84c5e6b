-- ===== src/EndToEnd.antt =====
-- From the sender's file to the receiver's: the two halves of `TransferEngine`, with a network in
-- between that reorders and repeats frames.
pub mod Streamed
pub mod Prefix
pub mod Lost
use p2ptransfer.Base.{
  ℕ, zero, suc, ◌+◌, ◌^◌, ◌≤◌, ◌<◌, ◌≡◌, ◌⊎◌, inl, inr, refl, sym, ap, ◌∙◌, subst, List, [], ◌∷◌,
  map, Option, some, Bool, true, false, ◌==◌, ◌||◌, if◌then◌else◌, arith, length, count, inside,
  All, range_from, flatten, drop, ℕ_discrete,
}
use p2ptransfer.Wire.{Bytes, chunks_of, payload, get_uint32, frame, header_size}
use p2ptransfer.Wire.Codec.{get_uint32-frame, drop-frame}
use p2ptransfer.Wire.Split.{flatten-payload_all}
use p2ptransfer.Worker.{Message}
use p2ptransfer.Batch.{Chunk}
use p2ptransfer.Batch.Fast.{read_chunk-payload}
use p2ptransfer.Download.{Downloader}
use p2ptransfer.Download.Progress.{Passed}
use p2ptransfer.Receiver.{Receiver, handle_all}
use p2ptransfer.Receiver.Delivery.{Carries, AllCarry, nil, cons, arrives}
use p2ptransfer.Receiver.Transfer.{IsReady, handle_all_complete}
use p2ptransfer.Streams.{indices}
use p2ptransfer.Streams.Flight.{IsGenuine}
use p2ptransfer.Streams.Exactly.{after-Inv, run-conserves, complete-sent_all}
use p2ptransfer.Streams.Schedule.{Event, run, create_offer}

-- The chunk is one of the list.
abbrev pub Among : Chunk → List Chunk → Type 0
Among d [] = ⊥
Among d (c ∷ cs) = (d ≡ c) ⊎ Among d cs

module _ (P : Chunk → Type 0) where
  All-among : (d : Chunk) (cs : List Chunk) → All P cs → Among d cs → P d
  All-among d [] h a = absurd a
  All-among d (c ∷ cs) h (inl e) = subst P (sym e) h.0
  All-among d (c ∷ cs) h (inr a) = All-among d cs h.1 a

count-Among : (d : Chunk) (cs : List Chunk) → Among d cs → 0 < count d.index (indices cs)
count-Among d [] a = absurd a
count-Among d (c ∷ cs) (inl e) = ground (arith, ap (λ (x : Chunk). x.index) e)
count-Among d (c ∷ cs) (inr a) = omega (arith, count-Among d cs a)

-- An index that the list has, arrives if all of the list arrive.
arrives_of_count :
    (j : ℕ) (is : List ℕ) (cs : List Chunk)
    → 0 < count j (indices cs)
    → All (λ c. arrives c.index is ≡ true) cs
    → arrives j is ≡ true
arrives_of_count j is [] lt h = absurd (omega arith)
arrives_of_count j is (c ∷ cs) lt h = elim (ℕ_discrete c.index j) [
  | yes e ↦ subst (λ k. arrives k is ≡ true) e h.0
  | no ne ↦ arrives_of_count j is cs (ground arith) h.1
]

-- The frames that the network delivers are frames that were sent, in any order and any number of
-- times, and none is lost.
pub record Delivers (sent delivered : List Chunk) : Type 0 where
  pub only : All (λ d. Among d sent) delivered
  pub every : All (λ c. arrives c.index (indices delivered) ≡ true) sent

abbrev pub frames : List Chunk → List Bytes
frames = map λ c. c.frame

module _ (file : Bytes) (es : List Event) (fits : chunks_of (length file) ≤ 2 ^ 32)
    (before : List Message) where
  pub carried :
      (ds : List Chunk)
      → All (λ d. Among d (run es (create_offer file)).sent) ds
      → AllCarry (payload file) before (chunks_of (length file)) (indices ds) (frames ds)
  carried [] h = nil
  carried (d ∷ ds) h = cons carries (carried ds h.1)
    where
      genuine : IsGenuine file d
      genuine = All-among (IsGenuine file) d _ (after-Inv file es).ledger.genuine h.0

      in_range : d.index < chunks_of (length file)
      in_range = ground (arith, count-Among d _ h.0, (run-conserves file es d.index).1)

      same_frame : frame d.index (payload file d.index) ≡ d.frame
      same_frame = sym (ap (λ (x : Chunk). x.frame) (genuine ∙ read_chunk-payload file d.index))

      carries : Carries (payload file) before (chunks_of (length file)) d.index d.frame
      carries = record {
        header =
            subst (λ m. get_uint32 m ≡ some d.index) same_frame
              (get_uint32-frame d.index (payload file d.index) (omega (arith, in_range, fits)));
        body =
            subst (λ m. drop header_size m ≡ payload file d.index) same_frame
              (drop-frame d.index (payload file d.index));
        in_range = in_range;
      }

  -- Once the sender has declared the transfer complete, under whatever schedule, and the network has
  -- delivered what was sent, in any order and with any duplicates, a receiver that was ready has passed
  -- on buffers that put together are the file, has closed the download, and has run `onComplete` once.
  -- The chunks are numbered by 32 bits.
  pub transfer_end_to_end :
      (ds : List Chunk) (r : Receiver)
      → (run es (create_offer file)).engine.complete_fired ≡ true
      → Delivers (run es (create_offer file)).sent ds
      → IsReady before (chunks_of (length file)) r
      → (d : Downloader) × (bs : List Bytes) × ((handle_all (frames ds) r).downloader ≡ some d)
        × Passed before bs true d
        × (flatten bs ≡ file)
        × ((handle_all (frames ds) r).completions ≡ 1)
  transfer_end_to_end ds r fired net ready =
      let sent_all = complete-sent_all file es fired in
      let done =
        handle_all_complete (payload file) before (chunks_of (length file)) (indices ds) (frames ds)
          r (carried ds net.only) ready
          (λ j lt. arrives_of_count j (indices ds) _ (ground (arith, sent_all.0 j)) net.every) in
      (
        done.0.0,
        map (payload file) (range_from 0 (chunks_of (length file))),
        done.0.1,
        done.0.2,
        flatten-payload_all file,
        done.1,
      )
