-- ===== src/Receiver/Settled.antt =====
-- The invariant of the receiver between two messages, and `_handleChunk` keeps it.
use p2ptransfer.Base.{
  ℕ, suc, ◌+◌, ◌-◌, ◌≤◌, ◌<◌, ◌≡◌, ◌≢◌, ◌↔◌, dec_lt, refl, sym, subst, List, [], ◌∷◌, map, none,
  some, Bool, true, false, arith, ◌==◌, if◌then◌else◌, length, lookup, length-le_of_keys,
  range_from, Bool-cases, inl, inr, ==_iff,
}
use p2ptransfer.Wire.{Bytes}
use p2ptransfer.Worker.{Message}
use p2ptransfer.Download.{Downloader, close_download}
use p2ptransfer.Download.Progress.{Passed, close_download-Passed}
use p2ptransfer.Receiver.{Receiver, FileInfo, seen, check_complete, close_downloader, complete}
use p2ptransfer.Receiver.Drain.{Holds}
use p2ptransfer.Receiver.Place.{unseen}

module _ (content : ℕ → Bytes) (before : List Message) (total : ℕ) where
  -- What the receiver's fields say between two messages of a transfer of `total` chunks.
  pub record Counted (r : Receiver) : Type 0 where
    pub gap : lookup r.next_write_index r.pending_chunks ≡ none
    pub counted : r.received_chunks ≡ r.next_write_index + length r.pending_chunks
    pub bounded : (j : ℕ) → seen r j ≡ true → j < total
    pub announced : r.total_chunks ≡ total
    pub known : (i : FileInfo) × (r.file_info ≡ some i)

  pub record Settled (r : Receiver) : Type 0 where
    pub holds : Holds content before (r.received_chunks == total) r
    pub counts : Counted r
    pub completed : r.completions ≡ (if r.received_chunks == total then 1 else 0)

  pub seen_next :
      (r : Receiver)
      → lookup r.next_write_index r.pending_chunks ≡ none
      → seen r r.next_write_index ≡ false
  unfolding seen
  seen_next r gap = ground arith

  pub next_le : (r : Receiver) → Counted r → r.next_write_index ≤ total
  unfolding seen
  next_le r c = ground (arith, c.bounded (r.next_write_index - 1))

  -- The buffered chunks fit between the one that is due and the end.
  pending_le :
      {done : Bool} (r : Receiver)
      → Holds content before done r
      → Counted r
      → length r.pending_chunks ≤ total - r.next_write_index
  unfolding seen
  pending_le r h c =
      length-le_of_keys (total - r.next_write_index) r.next_write_index r.pending_chunks h.distinct
        λ k v e. ground (arith, h.keys k v, c.bounded k)

  pending_lt :
      {done : Bool} (r : Receiver)
      → Holds content before done r
      → Counted r
      → r.next_write_index < total
      → length r.pending_chunks ≤ total - suc r.next_write_index
  unfolding seen
  pending_lt r h c lt =
      length-le_of_keys (total - suc r.next_write_index) (suc r.next_write_index) r.pending_chunks
        h.distinct λ k v e. ground (arith, h.keys k v, c.bounded k, c.gap)

  -- All chunks are counted exactly when the one that is due lies behind the last.
  pub all-Counted :
      {done : Bool} (r : Receiver)
      → Holds content before done r
      → Counted r
      → (r.received_chunks ≡ total) ↔ (r.next_write_index ≡ total)
  all-Counted r h c = (
    λ e. absurd_or (dec_lt r.next_write_index total) e,
    λ e. omega (arith, c.counted, pending_le r h c),
  )
    where
      absurd_or :
          Dec (r.next_write_index < total) → r.received_chunks ≡ total → r.next_write_index ≡ total
      absurd_or (yes lt) e = absurd (omega (arith, c.counted, pending_lt r h c lt))
      absurd_or (no ge) e = omega (arith, next_le r c)

  pub received_le :
      {done : Bool} (r : Receiver)
      → Holds content before done r
      → Counted r
      → r.received_chunks ≤ total
  received_le r h c = omega (arith, c.counted, pending_le r h c, next_le r c)

  -- A chunk that is not seen is missing from the count.
  pub missing :
      {done : Bool} (r : Receiver) (i : ℕ)
      → Holds content before done r
      → Counted r
      → i < total
      → seen r i ≡ false
      → r.received_chunks ≢ total
  missing r i h c lt new e = omega (arith, (all-Counted r h c).0 e, (unseen r i new).0)

  -- When every chunk has been seen, all are counted.
  pub all_seen :
      {done : Bool} (r : Receiver)
      → Holds content before done r
      → Counted r
      → ((j : ℕ) → j < total → seen r j ≡ true)
      → r.received_chunks ≡ total
  all_seen r h c all = (all-Counted r h c).1 (at (dec_lt r.next_write_index total))
    where
      at : Dec (r.next_write_index < total) → r.next_write_index ≡ total
      at (yes lt) = cc (all r.next_write_index lt, seen_next r c.gap)
      at (no ge) = omega (arith, next_le r c)

  -- The last test of `_handleChunk`: the download is finished when the last chunk has been placed.
  module _ (s : Receiver) (h : Holds content before false s) (c : Counted s)
      (fresh : s.completions ≡ 0) where
    finished_pending : s.received_chunks ≡ total → s.pending_chunks ≡ []
    finished_pending e =
        none_left s.pending_chunks (omega (arith, pending_le s h c, (all-Counted s h c).0 e))
      where
        none_left : (m : List (ℕ × Bytes)) → length m ≤ 0 → m ≡ []
        none_left [] le = refl
        none_left (x ∷ m) le = absurd (omega arith)

    finished : Downloader → Receiver
    finished d = record s {
      stats = false;
      downloader = some (close_download d);
      pending_chunks = [];
      completions = s.completions + 1;
    }

    check_complete-finished :
        (d : Downloader) (i : FileInfo)
        → s.downloader ≡ some d
        → s.file_info ≡ some i
        → s.received_chunks ≡ total
        → check_complete s ≡ finished d
    unfolding check_complete finished close_downloader complete
    check_complete-finished d i e k t = ground (arith, c.announced)

    finished-Settled :
        (d : Downloader)
        → Passed before (map content (range_from 0 s.next_write_index)) false d
        → s.received_chunks ≡ total
        → Settled (finished d) × ((j : ℕ) → seen (finished d) j ≡ seen s j)
    unfolding finished seen
    finished-Settled d p e = (
      record {
        holds = record {
          distinct = tt;
          keys = λ k b found. cc;
          passed = (
            close_download d,
            refl,
            subst
                (λ done.
                  Passed before (map content (range_from 0 s.next_write_index)) done
                    (close_download d))
                (sym ((==_iff s.received_chunks total).1 e)) (close_download-Passed p),
          );
        };
        counts = record {
          gap = refl;
          counted = omega (arith, e, (all-Counted s h c).0 e);
          bounded = λ j q. ground (arith, next_le s c);
          announced = c.announced;
          known = c.known;
        };
        completed = ground arith;
      },
      λ j. ground (arith, finished_pending e),
    )

    check_complete-more : (s.received_chunks == total) ≡ false → check_complete s ≡ s
    unfolding check_complete
    check_complete-more more = ground (arith, c.announced)

    -- Whether or not it was the last chunk, the test leaves the receiver settled.
    pub check_complete-Settled :
        Settled (check_complete s) × ((j : ℕ) → seen (check_complete s) j ≡ seen s j)
    check_complete-Settled = elim (Bool-cases (s.received_chunks == total)) [
      | inl last ↦
          let e : s.received_chunks ≡ total = (==_iff s.received_chunks total).0 last in
          subst (λ t. Settled t × ((j : ℕ) → seen t j ≡ seen s j))
            (sym (check_complete-finished h.passed.0 c.known.0 h.passed.1 c.known.1 e))
            (finished-Settled h.passed.0 h.passed.2 e)
      | inr more ↦
          subst (λ t. Settled t × ((j : ℕ) → seen t j ≡ seen s j)) (sym (check_complete-more more))
            (
              record {
                holds = subst (λ done. Holds content before done s) (sym more) h;
                counts = c;
                completed = rw more fresh;
              },
              λ j. refl,
            )
    ]
