-- ===== src/Receiver/Place.antt =====
-- Where a chunk that is no duplicate goes: to the downloader, with the buffered ones behind it, or
-- into the buffer.
use p2ptransfer.Base.{
  ℕ, suc, ◌+◌, ◌≤◌, ◌<◌, ◌≡◌, refl, sym, ◌∙◌, subst, List, map, none, some, false, arith, ◌==◌,
  ◌||◌, length, lookup, insert, Distinct-insert, lookup-insert, length-insert, range_from,
  Bool-cases, inl, inr, ==_iff,
}
use p2ptransfer.Wire.{Bytes}
use p2ptransfer.Worker.{Message}
use p2ptransfer.Download.{Downloader, write}
use p2ptransfer.Download.Progress.{Passed, write-Passed}
use p2ptransfer.Receiver.{Receiver, advance, drain, place, seen}
use p2ptransfer.Receiver.Drain.{
  SameRest, SameRest-trans, Holds, advance-some, drain-Moved, map_range_snoc,
}

-- An index that is not seen yet is the one due, or lies above it and is not buffered.
pub unseen :
    (r : Receiver) (i : ℕ)
    → seen r i ≡ false
    → (r.next_write_index ≤ i) × (lookup i r.pending_chunks ≡ none)
unfolding seen
unseen r i h = ground arith

module _ (content : ℕ → Bytes) (before : List Message) where
  -- How a receiver stands to the one that it was before chunk `i` was placed.
  pub record Placed (i : ℕ) (r s : Receiver) : Type 0 where
    pub holds : Holds content before false s
    pub gap : lookup s.next_write_index s.pending_chunks ≡ none
    pub size :
        s.next_write_index + length s.pending_chunks
        ≡ suc (r.next_write_index + length r.pending_chunks)
    pub rest : SameRest r s
    pub now_seen : (j : ℕ) → seen s j ≡ ((j == i) || seen r j)

  module _ (r : Receiver) (h : Holds content before false r)
      (gap : lookup r.next_write_index r.pending_chunks ≡ none) where
    -- The chunk that is due goes to the downloader, before the buffer is drained.
    due : Bytes → Downloader → Receiver
    due b d = record r { downloader = some (write b d); next_write_index = r.next_write_index + 1 }

    due-Holds :
        (d : Downloader)
        → r.downloader ≡ some d
        → Passed before (map content (range_from 0 r.next_write_index)) false d
        → Holds content before false (due (content r.next_write_index) d)
    unfolding due
    due-Holds d e p = record {
      distinct = h.distinct;
      keys = λ k c found. ground (arith, h.keys k c);
      passed = (
        write (content r.next_write_index) d,
        refl,
        subst (λ bs. Passed before bs false (write (content r.next_write_index) d))
            (map_range_snoc content r.next_write_index) (write-Passed _ p),
      );
    }

    due-seen :
        (d : Downloader) (b : Bytes) (j : ℕ)
        → seen (due b d) j ≡ ((j == r.next_write_index) || seen r j)
    unfolding seen due
    due-seen d b j = ground arith

    due-rest : (d : Downloader) → SameRest r (due (content r.next_write_index) d)
    unfolding due
    due-rest d = ground arith

    due-length :
        (d : Downloader) (b : Bytes)
        → (length (due b d).pending_chunks ≡ length r.pending_chunks)
          × ((due b d).next_write_index ≡ suc r.next_write_index)
    unfolding due
    due-length d b = omega arith

    due-Placed :
        (d : Downloader)
        → r.downloader ≡ some d
        → Passed before (map content (range_from 0 r.next_write_index)) false d
        → Placed r.next_write_index r
            (drain (length r.pending_chunks) (advance (content r.next_write_index) r))
    unfolding due
    due-Placed d e p =
        let m =
          drain-Moved content before (length r.pending_chunks) (due (content r.next_write_index) d)
            (due-Holds d e p) (omega (arith, due-length d (content r.next_write_index))) in
        subst (λ t. Placed r.next_write_index r (drain (length r.pending_chunks) t))
          (sym (advance-some (content r.next_write_index) r d e))
          (record {
            holds = m.0.holds;
            gap = m.1;
            size = omega (arith, m.0.size, due-length d (content r.next_write_index));
            rest = SameRest-trans (due-rest d) m.0.rest;
            now_seen = λ j. m.0.same_seen j ∙ due-seen d (content r.next_write_index) j;
          })

    -- A chunk beyond the one that is due is buffered.
    stash : ℕ → Receiver
    stash i = record r { pending_chunks = insert i (content i) r.pending_chunks }

    stash-Placed :
        (i : ℕ) → r.next_write_index < i → lookup i r.pending_chunks ≡ none → Placed i r (stash i)
    unfolding stash seen
    stash-Placed i lt free = record {
      holds = record {
        distinct = Distinct-insert i (content i) r.pending_chunks h.distinct;
        keys =
            λ k c found. ground (arith, h.keys k c, lookup-insert k i (content i) r.pending_chunks);
        passed = h.passed;
      };
      gap = ground (arith, lookup-insert r.next_write_index i (content i) r.pending_chunks);
      size = omega (arith, length-insert i (content i) r.pending_chunks free);
      rest = ground arith;
      now_seen = λ j. ground (arith, lookup-insert j i (content i) r.pending_chunks);
    }

    -- Whichever branch it takes, a chunk that was not seen is placed.
    pub place-Placed : (i : ℕ) → seen r i ≡ false → Placed i r (place i (content i) r)
    unfolding place stash
    place-Placed i new = elim (Bool-cases (i == r.next_write_index)) [
      | inl same ↦
          let at : i ≡ r.next_write_index = (==_iff i r.next_write_index).0 same in
          rw same (
            subst (λ k. Placed k r (drain (length r.pending_chunks) (advance (content k) r)))
              (sym at) (due-Placed h.passed.0 h.passed.1 h.passed.2))
      | inr differs ↦
          rw differs (stash-Placed i (ground (arith, unseen r i new)) (unseen r i new).1)
    ]
