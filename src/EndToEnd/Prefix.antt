-- ===== src/EndToEnd/Prefix.antt =====
-- A transfer at any moment: what the receiver has passed on by then.
use p2ptransfer.Base.{
  ℕ, ◌*◌, ◌^◌, ◌≤◌, min, ◌≡◌, sym, ap, ◌∙◌, subst, List, map, some, ◌==◌, ==_iff, ==_false, dec_lt,
  if◌then◌else◌, arith, length, take, take-min-length, take_cong, All, range_from, flatten,
}
use p2ptransfer.Wire.{Bytes, chunks_of, payload, slice, chunk_payload_size}
use p2ptransfer.Wire.Split.{flatten-payload, chunk-inside}
use p2ptransfer.Worker.{Message}
use p2ptransfer.Batch.{Chunk}
use p2ptransfer.Download.{Downloader}
use p2ptransfer.Download.Progress.{Passed}
use p2ptransfer.Receiver.{Receiver, handle_all}
use p2ptransfer.Receiver.Transfer.{IsReady, HasReached, handle_all-HasReached}
use p2ptransfer.Streams.{indices}
use p2ptransfer.Streams.Schedule.{Event, run, create_offer}
use p2ptransfer.EndToEnd.{Among, carried, frames}

-- The bytes that the first `due` chunks carry.
abbrev bytes_of : Bytes → ℕ → ℕ
bytes_of file due = min (due * chunk_payload_size) (length file)

flatten-first :
    (file : Bytes) (due : ℕ)
    → flatten (map (payload file) (range_from 0 due)) ≡ take (bytes_of file due) file
unfolding slice
flatten-first file due =
    flatten-payload file 0 due
    ∙ take_cong _ (due * chunk_payload_size) file (omega arith)
    ∙ sym (take-min-length (due * chunk_payload_size) file)

-- All chunks are there if all bytes are.
all_bytes :
    (file : Bytes) (due : ℕ)
    → due ≤ chunks_of (length file)
    → (due == chunks_of (length file)) ≡ (bytes_of file due == length file)
unfolding chunks_of
all_bytes file due h = elim (dec_lt due (chunks_of (length file))) [
  | yes lt ↦
      ==_false due (chunks_of (length file)) (λ e. omega (arith, lt, e))
      ∙ sym (
          ==_false (bytes_of file due) (length file)
            (λ e. omega (arith, chunk-inside (length file) due lt, e)))
  | no ge ↦
      let last : due ≡ chunks_of (length file) = omega (arith, h, ge) in
      (==_iff due (chunks_of (length file))).1 last
      ∙ sym ((==_iff (bytes_of file due) (length file)).1 (omega (arith, last)))
]

-- At any moment of any schedule, with any of the frames that have been sent delivered by then, in any
-- order and with any repetitions, a receiver that was ready has passed on buffers that put together
-- are the first `n` bytes of the file, for some `n`. It has closed the download and run `onComplete`,
-- once, if these are all bytes of the file, and has done neither otherwise. The chunks are numbered
-- by 32 bits.
pub transfer_so_far :
    (file : Bytes) (es : List Event) (before : List Message) (ds : List Chunk) (r : Receiver)
    → chunks_of (length file) ≤ 2 ^ 32
    → All (λ d. Among d (run es (create_offer file)).sent) ds
    → IsReady before (chunks_of (length file)) r
    → (n : ℕ) × (d : Downloader) × (bs : List Bytes) × (n ≤ length file)
      × ((handle_all (frames ds) r).downloader ≡ some d)
      × Passed before bs (n == length file) d
      × (flatten bs ≡ take n file)
      × ((handle_all (frames ds) r).completions ≡ (if n == length file then 1 else 0))
transfer_so_far file es before ds r fits among ready = read (
    handle_all-HasReached (payload file) before (chunks_of (length file)) (indices ds) (frames ds) r
      (carried file es fits before ds among) ready)
  where
    read :
        (due : ℕ) × HasReached
            (payload file)
            before
            (chunks_of (length file))
            (indices ds)
            due
            (handle_all (frames ds) r)
        → (n : ℕ) × (d : Downloader) × (bs : List Bytes) × (n ≤ length file)
          × ((handle_all (frames ds) r).downloader ≡ some d)
          × Passed before bs (n == length file) d
          × (flatten bs ≡ take n file)
          × ((handle_all (frames ds) r).completions ≡ (if n == length file then 1 else 0))
    read (due, h) =
        let same = all_bytes file due h.in_range in
        (
          bytes_of file due,
          h.passed.0,
          map (payload file) (range_from 0 due),
          omega arith,
          h.passed.1,
          subst (λ done. Passed before (map (payload file) (range_from 0 due)) done h.passed.0) same
              h.passed.2,
          flatten-first file due,
          h.completions ∙ ap (λ b. if b then 1 else 0) same,
        )
