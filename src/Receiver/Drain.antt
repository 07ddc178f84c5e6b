-- ===== src/Receiver/Drain.antt =====
-- What the loop of `_handleChunk` that drains the buffered chunks does.
use p2ptransfer.Base.{
  ℕ, zero, suc, ◌+◌, ◌≤◌, ◌<◌, ◌≡◌, refl, sym, ap, ◌∙◌, subst, List, [], ◌∷◌, ◌++◌, map, none, some,
  Bool, false, arith, ltb, ◌||◌, length, lookup, has, remove, Distinct, Distinct-remove,
  lookup-remove, length-remove, range_from, range_from-snoc, map-append, Option-cases, inl, inr,
}
use p2ptransfer.Wire.{Bytes}
use p2ptransfer.Worker.{Message}
use p2ptransfer.Download.{Downloader, write}
use p2ptransfer.Download.Progress.{Passed, write-Passed}
use p2ptransfer.Receiver.{Receiver, write_chunk, advance, take_pending, drain, seen}

pub map_range_snoc :
    (content : ℕ → Bytes) (n : ℕ)
    → map content (range_from 0 n) ++ content n ∷ [] ≡ map content (range_from 0 (n + 1))
map_range_snoc content n =
    sym (map-append content (range_from 0 n) (n ∷ []))
    ∙ ap (map content) (
        ap (λ k. range_from 0 n ++ k ∷ []) zero_add
        ∙ sym (range_from-snoc 0 n)
        ∙ ap (range_from 0) suc_add)
  where
    zero_add : n ≡ 0 + n
    zero_add = omega arith

    suc_add : suc n ≡ n + 1
    suc_add = omega arith

-- The fields that reassembly leaves alone.
pub record SameRest (r s : Receiver) : Type 0 where
  pub file_info : s.file_info ≡ r.file_info
  pub total_chunks : s.total_chunks ≡ r.total_chunks
  pub received_chunks : s.received_chunks ≡ r.received_chunks
  pub bytes_transferred : s.bytes_transferred ≡ r.bytes_transferred
  pub timing : s.timing ≡ r.timing
  pub stats : s.stats ≡ r.stats
  pub completions : s.completions ≡ r.completions

pub SameRest-trans : {r s t : Receiver} → SameRest r s → SameRest s t → SameRest r t
SameRest-trans a b = record {
  file_info = b.file_info ∙ a.file_info;
  total_chunks = b.total_chunks ∙ a.total_chunks;
  received_chunks = b.received_chunks ∙ a.received_chunks;
  bytes_transferred = b.bytes_transferred ∙ a.bytes_transferred;
  timing = b.timing ∙ a.timing;
  stats = b.stats ∙ a.stats;
  completions = b.completions ∙ a.completions;
}

shorter :
    (r : Receiver) (b : Bytes)
    → lookup r.next_write_index r.pending_chunks ≡ some b
    → length (advance b (take_pending r)).pending_chunks < length r.pending_chunks
unfolding advance take_pending write_chunk
shorter r b at = ground (arith, length-remove r.next_write_index r.pending_chunks at)

pub advance-some :
    (b : Bytes) (r : Receiver) (d : Downloader)
    → r.downloader ≡ some d
    → advance b r
      ≡ record r { downloader = some (write b d); next_write_index = r.next_write_index + 1 }
unfolding advance
advance-some b r d e = rw (e, write_chunk)

module _ (content : ℕ → Bytes) (before : List Message) where
  -- The chunks below the write index have been passed on, in order and once each; those that are
  -- buffered lie at or above it, and hold what they should.
  pub record Holds (done : Bool) (r : Receiver) : Type 0 where
    pub distinct : Distinct r.pending_chunks
    pub keys :
        (k : ℕ) (b : Bytes)
        → lookup k r.pending_chunks ≡ some b
        → (r.next_write_index ≤ k) × (b ≡ content k)
    pub passed :
        (d : Downloader) × (r.downloader ≡ some d)
        × Passed before (map content (range_from 0 r.next_write_index)) done d

  -- How a receiver stands to the one that it was before some chunks moved from the buffer to the
  -- downloader.
  pub record Moved (r s : Receiver) : Type 0 where
    pub holds : Holds false s
    pub size :
        s.next_write_index + length s.pending_chunks ≡ r.next_write_index + length r.pending_chunks
    pub rest : SameRest r s
    pub same_seen : (j : ℕ) → seen s j ≡ seen r j

  -- What is left in the table behind the round.
  module _ (r : Receiver) (b : Bytes) (h : Holds false r)
      (at : lookup r.next_write_index r.pending_chunks ≡ some b) where
    left : List (ℕ × Bytes)
    left = remove r.next_write_index r.pending_chunks

    left-keys :
        (k : ℕ) (c : Bytes)
        → lookup k left ≡ some c
        → (r.next_write_index + 1 ≤ k) × (c ≡ content k)
    unfolding left
    left-keys k c found =
        ground (arith, h.keys k c, lookup-remove k r.next_write_index r.pending_chunks h.distinct)

    left-seen :
        (j : ℕ)
        → (ltb j (r.next_write_index + 1) || has j left)
          ≡ (ltb j r.next_write_index || has j r.pending_chunks)
    unfolding left
    left-seen j = ground (arith, lookup-remove j r.next_write_index r.pending_chunks h.distinct)

    round : (d : Downloader) → Receiver
    round d = record r {
      downloader = some (write b d);
      next_write_index = r.next_write_index + 1;
      pending_chunks = left;
    }

    round-Moved :
        (d : Downloader)
        → r.downloader ≡ some d
        → Passed before (map content (range_from 0 r.next_write_index)) false d
        → Moved r (round d)
    unfolding seen left round
    round-Moved d e p = record {
      holds = record {
        distinct = Distinct-remove r.next_write_index r.pending_chunks h.distinct;
        keys = left-keys;
        passed = (
          write b d,
          refl,
          subst (λ bs. Passed before bs false (write b d))
              (ap (λ c. map content (range_from 0 r.next_write_index) ++ c ∷ [])
                  (h.keys r.next_write_index b at).1
                ∙ map_range_snoc content r.next_write_index)
              (write-Passed b p),
        );
      };
      size = omega (arith, length-remove r.next_write_index r.pending_chunks at);
      rest = ground arith;
      same_seen = left-seen;
    }

    -- One round of the loop moves one chunk.
    pub advance-Moved : Moved r (advance b (take_pending r))
    unfolding take_pending round left
    advance-Moved = step h.passed
      where
        step :
            (d : Downloader) × (r.downloader ≡ some d)
              × Passed before (map content (range_from 0 r.next_write_index)) false d
            → Moved r (advance b (take_pending r))
        step (d, e, p) =
            subst (Moved r) (sym (advance-some b (take_pending r) d e)) (round-Moved d e p)

  Moved-trans : {r s t : Receiver} → Moved r s → Moved s t → Moved r t
  Moved-trans a b = record {
    holds = b.holds;
    size = b.size ∙ a.size;
    rest = SameRest-trans a.rest b.rest;
    same_seen = λ j. b.same_seen j ∙ a.same_seen j;
  }

  Moved-refl : (r : Receiver) → Holds false r → Moved r r
  Moved-refl r h = record { holds = h; size = refl; rest = ground arith; same_seen = λ j. refl }

  -- For a receiver whose buffered chunks are those of the transfer, with as much fuel as there are of
  -- them: the loop ends by its own test, for the next chunk is not buffered; it has moved buffered
  -- chunks to the downloader in order and lost none, and what counts as seen is unchanged.
  pub drain-Moved :
      (fuel : ℕ) (r : Receiver)
      → Holds false r
      → length r.pending_chunks ≤ fuel
      → Moved r (drain fuel r)
        × (lookup (drain fuel r).next_write_index (drain fuel r).pending_chunks ≡ none)
  unfolding drain
  drain-Moved zero r h le = (Moved-refl r h, empty r.pending_chunks le)
    where
      empty : (m : List (ℕ × Bytes)) → length m ≤ 0 → lookup r.next_write_index m ≡ none
      empty [] le = refl
      empty (x ∷ m) le = absurd (omega arith)
  drain-Moved (suc fuel) r h le = elim (Option-cases (lookup r.next_write_index r.pending_chunks)) [
    | inl free ↦ rw (free, drain) (Moved-refl r h, free)
    | inr (b, at) ↦
        let m = advance-Moved r b h at in
        let rest =
          drain-Moved fuel (advance b (take_pending r)) m.holds (omega (arith, shorter r b at)) in
        rw (at, drain) (Moved-trans m rest.0, rest.1)
  ]
