-- ===== src/Wire/Split.antt =====
-- The chunks of a file, one behind the other, are the file. The lemmas on slices are stated for any
-- chunk size `k`.
use p2ptransfer.Base.{
  ℕ, zero, suc, ◌+◌, ◌-◌, ◌*◌, ◌≤◌, ◌<◌, min, ◌≡◌, refl, sym, ap, ◌∙◌, [], ◌++◌, map, arith, length,
  take, drop, take_cong, take-min-length, length-drop, length-take, take-add, take-take, drop-take,
  drop-drop, take-all, range_from, flatten, fun_ext, ◌≡⟨◌⟩◌, ◌∎,
}
use p2ptransfer.Wire.{Bytes, chunk_payload_size, slice, chunks_of, payload}

pub slice-clamp : (s e : ℕ) (xs : Bytes) → slice s (min e (length xs)) xs ≡ slice s e xs
unfolding slice
slice-clamp s e xs =
    take_cong (min e (length xs) - s) (min (e - s) (length (drop s xs))) (drop s xs)
      (omega (arith, length-drop s xs))
    ∙ take-min-length (e - s) (drop s xs)

pub slice-append :
    (a b c : ℕ) (xs : Bytes) → a ≤ b → b ≤ c → slice a b xs ++ slice b c xs ≡ slice a c xs
unfolding slice
slice-append a b c xs h k = sym (
    take (c - a) (drop a xs)
    ≡⟨ take_cong (c - a) ((b - a) + (c - b)) (drop a xs) (omega arith) ⟩
      take ((b - a) + (c - b)) (drop a xs)
    ≡⟨ take-add (b - a) (c - b) (drop a xs) ⟩
      take (b - a) (drop a xs) ++ take (c - b) (drop (b - a) (drop a xs))
    ≡⟨ ap (λ ys. take (b - a) (drop a xs) ++ take (c - b) ys)
        (drop-drop a (b - a) xs ∙ ap (λ n. drop n xs) there) ⟩
      take (b - a) (drop a xs) ++ take (c - b) (drop b xs) ∎)
  where
    there : a + (b - a) ≡ b
    there = omega arith

-- A slice of a slice.
pub slice-slice :
    (o e s t : ℕ) (xs : Bytes) → slice o e (slice s t xs) ≡ slice (s + o) (min (s + e) t) xs
unfolding slice
slice-slice o e s t xs =
    take (e - o) (drop o (take (t - s) (drop s xs)))
    ≡⟨ ap (take (e - o)) (drop-take o (t - s) (drop s xs)) ⟩
      take (e - o) (take (t - s - o) (drop o (drop s xs)))
    ≡⟨ take-take (e - o) (t - s - o) (drop o (drop s xs)) ⟩
      take (min (e - o) (t - s - o)) (drop o (drop s xs))
    ≡⟨ ap (take (min (e - o) (t - s - o))) (drop-drop s o xs) ⟩
      take (min (e - o) (t - s - o)) (drop (s + o) xs)
    ≡⟨ take_cong (min (e - o) (t - s - o)) (min (s + e) t - (s + o)) (drop (s + o) xs)
        (omega arith) ⟩
      take (min (s + e) t - (s + o)) (drop (s + o) xs) ∎

pub length-slice : (s e : ℕ) (xs : Bytes) → length (slice s e xs) ≡ min (e - s) (length xs - s)
unfolding slice
length-slice s e xs = omega (arith, length-take (e - s) (drop s xs), length-drop s xs)

pub slice-all : (e : ℕ) (xs : Bytes) → length xs ≤ e → slice 0 e xs ≡ xs
unfolding slice
slice-all e xs h = take-all (e - 0) xs (omega arith)

slice-none : (s e : ℕ) (xs : Bytes) → e ≤ s → slice s e xs ≡ []
unfolding slice
slice-none s e xs h = take_cong (e - s) 0 (drop s xs) (omega arith)

-- Neighbouring pieces of `k` bytes make up the slice that they cover.
pub flatten-pieces :
    (k s n : ℕ) (xs : Bytes)
    → flatten (map (λ i. slice (i * k) (i * k + k) xs) (range_from s n))
      ≡ slice (s * k) ((s + n) * k) xs
unfolding flatten
flatten-pieces k s zero xs = sym (slice-none (s * k) ((s + 0) * k) xs (omega arith))
flatten-pieces k s (suc n) xs =
    ap (λ ys. slice (s * k) (s * k + k) xs ++ ys) (flatten-pieces k (suc s) n xs)
    ∙ ap (λ m. slice (s * k) m xs ++ slice (suc s * k) ((suc s + n) * k) xs) next
    ∙ slice-append (s * k) (suc s * k) ((suc s + n) * k) xs (omega arith) (grind arith)
    ∙ ap (λ m. slice (s * k) m xs) last
  where
    next : s * k + k ≡ suc s * k
    next = omega arith

    last : (suc s + n) * k ≡ (s + suc n) * k
    last = omega arith

payload-slice :
    (file : Bytes) (i : ℕ)
    → payload file i
      ≡ slice (i * chunk_payload_size) (i * chunk_payload_size + chunk_payload_size) file
unfolding payload
payload-slice file i = slice-clamp _ _ file

-- The payloads of the chunks s, ..., s + n - 1 are what one read of their whole range gives.
pub flatten-payload :
    (file : Bytes) (s n : ℕ)
    → flatten (map (payload file) (range_from s n))
      ≡ slice (s * chunk_payload_size) ((s + n) * chunk_payload_size) file
flatten-payload file s n =
    rw (fun_ext (payload-slice file)) (flatten-pieces chunk_payload_size s n file)

-- All chunks of a file, in order, are the file.
pub flatten-payload_all :
    (file : Bytes) → flatten (map (payload file) (range_from 0 (chunks_of (length file)))) ≡ file
unfolding chunks_of
flatten-payload_all file =
    flatten-payload file 0 (chunks_of (length file))
    ∙ slice-all ((0 + chunks_of (length file)) * chunk_payload_size) file (omega arith)

pub length-payload :
    (file : Bytes) (i : ℕ)
    → length (payload file i) ≡ min chunk_payload_size (length file - i * chunk_payload_size)
unfolding payload
length-payload file i = omega (
  arith,
  length-slice (i * chunk_payload_size)
      (min (i * chunk_payload_size + chunk_payload_size) (length file)) file,
)

-- A chunk that the count covers holds at least one byte of the file.
pub chunk-inside : (size i : ℕ) → i < chunks_of size → i * chunk_payload_size < size
unfolding chunks_of
chunk-inside size i h = omega arith

pub chunks_of_zero : chunks_of 0 ≡ 0
unfolding chunks_of
chunks_of_zero = refl
