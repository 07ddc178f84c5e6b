-- ===== src/Receiver/Transfer.antt =====
-- A whole transfer as the receiver sees it.
use p2ptransfer.Base.{
  ℕ, ◌≤◌, ◌<◌, ◌≡◌, sym, ap, ◌∙◌, subst, List, [], map, some, true, false, arith, ◌==◌,
  if◌then◌else◌, ==_iff, range_from, length, Distinct,
}
use p2ptransfer.Wire.{Bytes}
use p2ptransfer.Worker.{Message}
use p2ptransfer.Download.{Downloader}
use p2ptransfer.Download.Progress.{Passed}
use p2ptransfer.Receiver.{Receiver, FileInfo, seen, handle_all}
use p2ptransfer.Receiver.Settled.{Settled, next_le, seen_next, all-Counted}
use p2ptransfer.Receiver.Delivery.{AllCarry, arrives, handle_all-Settled}

-- A receiver that has the file info and whose downloader is prepared, before the first chunk.
pub record IsReady (before : List Message) (total : ℕ) (r : Receiver) : Type 0 where
  pub known : (i : FileInfo) × (r.file_info ≡ some i)
  pub announced : r.total_chunks ≡ total
  pub some_chunks : 0 < total
  pub prepared : (d : Downloader) × (r.downloader ≡ some d) × Passed before [] false d
  pub none_received : r.received_chunks ≡ 0
  pub none_written : r.next_write_index ≡ 0
  pub none_pending : r.pending_chunks ≡ []
  pub not_completed : r.completions ≡ 0

-- How far a receiver has come with a transfer, when the chunks `is` have arrived: `due` is the first
-- that has not. All chunks below it have been passed on, in order, once each, and nothing else; if
-- it lies behind the last, the download has been closed and `onComplete` has run, once; otherwise
-- neither has happened.
pub record HasReached (content : ℕ → Bytes) (before : List Message) (total : ℕ) (is : List ℕ)
    (due : ℕ) (r : Receiver) : Type 0 where
  pub in_range : due ≤ total
  pub arrived : (j : ℕ) → j < due → arrives j is ≡ true
  pub missing : arrives due is ≡ false
  pub passed :
      (d : Downloader) × (r.downloader ≡ some d)
      × Passed before (map content (range_from 0 due)) (due == total) d
  pub completions : r.completions ≡ (if due == total then 1 else 0)

module _ (content : ℕ → Bytes) (before : List Message) (total : ℕ) where
  not_done : (r : Receiver) → IsReady before total r → (r.received_chunks == total) ≡ false
  not_done r v = ground (arith, v.none_received, v.some_chunks)

  IsReady-seen : (r : Receiver) → IsReady before total r → (j : ℕ) → seen r j ≡ false
  unfolding seen
  IsReady-seen r v j = ground (arith, v.none_pending, v.none_written)

  IsReady-Settled : (r : Receiver) → IsReady before total r → Settled content before total r
  unfolding seen
  IsReady-Settled r v = record {
    holds = record {
      distinct = subst Distinct (sym v.none_pending) tt;
      keys = λ k b e. ground (arith, v.none_pending);
      passed = (
        v.prepared.0,
        v.prepared.1,
        subst
            (λ n.
              Passed before (map content (range_from 0 n)) (r.received_chunks == total)
                v.prepared.0)
            (sym v.none_written)
            (subst (λ done. Passed before [] done v.prepared.0) (sym (not_done r v)) v.prepared.2),
      );
    };
    counts = record {
      gap = ground (arith, v.none_pending);
      counted = omega (arith, ap length v.none_pending, v.none_received, v.none_written);
      bounded = λ j e. ground (arith, v.none_pending, v.none_written);
      announced = v.announced;
      known = v.known;
    };
    completed = ground (arith, v.not_completed, not_done r v);
  }

  module _ (is : List ℕ) (ms : List Bytes) (r : Receiver) (cs : AllCarry content before total is ms)
      (v : IsReady before total r) where
    settled : Settled content before total (handle_all ms r)
    settled = (handle_all-Settled content before total is ms r cs (IsReady-Settled r v)).0

    now : (j : ℕ) → arrives j is ≡ seen (handle_all ms r) j
    now j = ground (
      arith,
      (handle_all-Settled content before total is ms r cs (IsReady-Settled r v)).1 j,
      IsReady-seen r v j,
    )

    same_test :
        ((handle_all ms r).received_chunks == total) ≡ ((handle_all ms r).next_write_index == total)
    same_test =
        ground
          (arith, all-Counted content before total (handle_all ms r) settled.holds settled.counts)

    below_seen : (j : ℕ) → j < (handle_all ms r).next_write_index → seen (handle_all ms r) j ≡ true
    unfolding seen
    below_seen j lt = ground arith

    -- After any messages of a transfer to a receiver that was ready, in any order and with any
    -- duplicates, what has been passed on is decided by the set of chunks that have arrived: it is the
    -- chunks below the first that is missing, in order and once each. The download has been closed and
    -- `onComplete` has run, once, if none is missing, and neither has happened otherwise.
    pub handle_all-HasReached : (due : ℕ) × HasReached content before total is due (handle_all ms r)
    handle_all-HasReached = (
      (handle_all ms r).next_write_index,
      record {
        in_range = next_le content before total (handle_all ms r) settled.counts;
        arrived = λ j lt. now j ∙ below_seen j lt;
        missing =
            now (handle_all ms r).next_write_index
            ∙ seen_next content before total (handle_all ms r) settled.counts.gap;
        passed =
            subst
              (λ done.
                (d : Downloader) × ((handle_all ms r).downloader ≡ some d)
                × Passed before (map content (range_from 0 (handle_all ms r).next_write_index)) done
                    d)
              same_test settled.holds.passed;
        completions = settled.completed ∙ ap (λ b. if b then 1 else 0) same_test;
      },
    )

    -- If every chunk has arrived, the transfer is complete.
    pub handle_all_complete :
        ((j : ℕ) → j < total → arrives j is ≡ true)
        → ((d : Downloader) × ((handle_all ms r).downloader ≡ some d)
            × Passed before (map content (range_from 0 total)) true d)
          × ((handle_all ms r).completions ≡ 1)
    handle_all_complete all = at handle_all-HasReached
      where
        at :
            (due : ℕ) × HasReached content before total is due (handle_all ms r)
            → ((d : Downloader) × ((handle_all ms r).downloader ≡ some d)
                × Passed before (map content (range_from 0 total)) true d)
              × ((handle_all ms r).completions ≡ 1)
        at (due, h) =
            let last : due ≡ total = ground (arith, h.in_range, h.missing, all due) in
            let done : (due == total) ≡ true = (==_iff due total).1 last in
            (
              subst
                  (λ k.
                    (d : Downloader) × ((handle_all ms r).downloader ≡ some d)
                    × Passed before (map content (range_from 0 k)) true d)
                  last
                  (subst
                    (λ b.
                      (d : Downloader) × ((handle_all ms r).downloader ≡ some d)
                      × Passed before (map content (range_from 0 due)) b d)
                    done h.passed),
              h.completions ∙ ap (λ b. if b then 1 else 0) done,
            )
