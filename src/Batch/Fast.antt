-- ===== src/Batch/Fast.antt =====
-- The fast path gives what reading chunk by chunk would give.
use p2ptransfer.Base.{
  ℕ, zero, suc, ◌+◌, ◌-◌, ◌*◌, ◌≤◌, ◌<◌, min, ◌≡◌, refl, sym, ap, ◌∙◌, List, [], ◌∷◌, ◌++◌, map,
  some, arith, length, range_from, if◌then◌else◌, ltb, true, false, add-zero, ltb-false, map-append,
}
use p2ptransfer.Wire.{Bytes, chunk_payload_size, slice, frame, chunks_of, payload}
use p2ptransfer.Wire.Split.{slice-clamp, slice-slice, length-slice, chunk-inside, length-payload}
use p2ptransfer.Batch.{Claim, claimed, read_chunk, cut, cut_all, read_range, read_claim}

pub read_chunk-payload :
    (file : Bytes) (i : ℕ)
    → read_chunk file i
      ≡ record { frame = frame i (payload file i); size = length (payload file i); index = i }
unfolding read_chunk payload
read_chunk-payload file i = refl

-- What the fast path cuts out of its large read is the payload of the chunk.
abbrev big : Bytes → ℕ → ℕ → Bytes
big file s n =
    slice (s * chunk_payload_size) (min ((s + n) * chunk_payload_size) (length file)) file

module _ (file : Bytes) (s n i : ℕ) (inside : i < n) (fits : s + n ≤ chunks_of (length file)) where
  length-big :
      length (big file s n)
      ≡ min ((s + n) * chunk_payload_size) (length file) - s * chunk_payload_size
  length-big = omega (
    arith,
    length-slice (s * chunk_payload_size) (min ((s + n) * chunk_payload_size) (length file)) file,
  )

  cut-slice :
      slice
        (i * chunk_payload_size)
        (min (i * chunk_payload_size + chunk_payload_size) (length (big file s n)))
        (big file s n)
      ≡ payload file (s + i)
  unfolding payload
  cut-slice =
      slice-clamp _ _ (big file s n)
      ∙ slice-slice (i * chunk_payload_size) (i * chunk_payload_size + chunk_payload_size)
          (s * chunk_payload_size) _ file
      ∙ (λ k. slice (from k) (upto k) file)
    where
      from : s * chunk_payload_size + i * chunk_payload_size ≡ (s + i) * chunk_payload_size
      from = omega arith

      upto :
          min
            (s * chunk_payload_size + (i * chunk_payload_size + chunk_payload_size))
            (min ((s + n) * chunk_payload_size) (length file))
          ≡ min ((s + i) * chunk_payload_size + chunk_payload_size) (length file)
      upto = omega arith

  cut_guard :
      ltb
        (min (i * chunk_payload_size + chunk_payload_size) (length (big file s n)))
        (i * chunk_payload_size)
      ≡ false
  cut_guard =
      ltb-false _ _ (omega (arith, length-big, chunk-inside (length file) (s + i) (omega arith)))

  cut_size :
      min (i * chunk_payload_size + chunk_payload_size) (length (big file s n))
        - i * chunk_payload_size
      ≡ length (payload file (s + i))
  cut_size = omega (
    arith,
    length-big,
    length-payload file (s + i),
    chunk-inside (length file) (s + i) (omega arith),
  )

  cut-read_chunk : cut (big file s n) s i ≡ some (read_chunk file (s + i))
  unfolding cut
  cut-read_chunk = rw cut_guard (
      (λ k. some (record { frame = frame (s + i) (cut-slice k); size = cut_size k; index = s + i }))
      ∙ ap some (sym (read_chunk-payload file (s + i))))

cut_all-map :
    (file : Bytes) (s n i m : ℕ)
    → s + n ≤ chunks_of (length file)
    → i + m ≡ n
    → cut_all (big file s n) s i m ≡ some (map (read_chunk file) (range_from (s + i) m))
unfolding cut_all
cut_all-map file s n i zero fits e = refl
cut_all-map file s n i (suc m) fits e =
    rw
      (
        cut-read_chunk file s n i (omega arith) fits,
        cut_all-map file s n (suc i) m fits (omega arith),
      )
      (ap (λ j. some (read_chunk file (s + i) ∷ map (read_chunk file) (range_from j m))) next)
  where
    next : s + suc i ≡ suc (s + i)
    next = omega arith

-- The one large read of `count` new chunks gives what `count` separate reads would give.
pub read_range-map :
    (file : Bytes) (start count : ℕ)
    → start + count ≤ chunks_of (length file)
    → read_range file start count ≡ some (map (read_chunk file) (range_from start count))
unfolding read_range
read_range-map file start count fits =
    cut_all-map file start count 0 count fits (omega arith)
    ∙ ap (λ j. some (map (read_chunk file) (range_from j count))) (add-zero start)

read_fresh :
    (file : Bytes) (start count : ℕ)
    → start + count ≤ chunks_of (length file)
    → (if ltb 0 count then read_range file start count else some [])
      ≡ some (map (read_chunk file) (range_from start count))
read_fresh file start zero fits = refl
read_fresh file start (suc n) fits = rw ltb_suc (read_range-map file start (suc n) fits)
  where
    ltb_suc : ltb 0 (suc n) ≡ true
    ltb_suc = ground arith

read_parts :
    (file : Bytes) (retry : List ℕ) (start count : ℕ)
    → start + count ≤ chunks_of (length file)
    → read_claim file (record { retry = retry; start = start; count = count })
      ≡ some (map (read_chunk file) (retry ++ range_from start count))
unfolding read_claim
read_parts file [] start zero fits = refl
read_parts file [] start (suc n) fits = ground (arith, read_fresh file start (suc n) fits)
read_parts file (r ∷ rs) start count fits = ground (
  arith,
  read_fresh file start count fits,
  map-append (read_chunk file) (r ∷ rs) (range_from start count),
)

-- A claim below the chunk count is read without an exception, and gives each chunk that it holds,
-- with the header, the payload and the size that a separate read of it would give.
pub read_claim-map :
    (file : Bytes) (c : Claim)
    → c.start + c.count ≤ chunks_of (length file)
    → read_claim file c ≡ some (map (read_chunk file) (claimed c))
read_claim-map file c fits = read_parts file c.retry c.start c.count fits

pub index-read_chunk : (file : Bytes) (i : ℕ) → (read_chunk file i).index ≡ i
unfolding read_chunk
index-read_chunk file i = refl
