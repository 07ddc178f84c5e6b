-- ===== src/Receiver/Delivery.antt =====
-- `_handleChunk`, and any sequence of messages that arrive: in any order, with duplicates.
use p2ptransfer.Base.{
  ℕ, ◌+◌, ◌<◌, ◌≡◌, refl, sym, ap, ◌∙◌, subst, List, [], ◌∷◌, some, Bool, true, false, arith, ◌==◌,
  ◌||◌, if◌then◌else◌, length, drop, Bool-cases, inl, inr, ==_false, ==_iff,
}
use p2ptransfer.Wire.{Bytes, header_size, get_uint32}
use p2ptransfer.Worker.{Message}
use p2ptransfer.Receiver.{Receiver, seen, place, accept, start_clock, handle_chunk, handle_all}
use p2ptransfer.Receiver.Drain.{Holds}
use p2ptransfer.Receiver.Place.{Placed, place-Placed}
use p2ptransfer.Receiver.Settled.{Counted, Settled, missing, check_complete-Settled}

-- Some message of the list carries chunk `j`.
abbrev pub arrives : ℕ → List ℕ → Bool
arrives j [] = false
arrives j (i ∷ is) = (j == i) || arrives j is

module _ (content : ℕ → Bytes) (before : List Message) (total : ℕ) where
  -- A message that carries chunk `i` of the transfer.
  pub record Carries (i : ℕ) (m : Bytes) : Type 0 where
    pub header : get_uint32 m ≡ some i
    pub body : drop header_size m ≡ content i
    pub in_range : i < total

  ticking :
      {r : Receiver}
      → Settled content before total r
      → Settled content before total (record r { timing = true; stats = true })
  unfolding seen
  ticking s = record {
    holds = record { distinct = s.holds.distinct; keys = s.holds.keys; passed = s.holds.passed };
    counts = record {
      gap = s.counts.gap;
      counted = s.counts.counted;
      bounded = s.counts.bounded;
      announced = s.counts.announced;
      known = s.counts.known;
    };
    completed = s.completed;
  }

  start_clock-Settled :
      (r : Receiver) → Settled content before total r → Settled content before total (start_clock r)
  unfolding start_clock
  start_clock-Settled r s = either r.timing
    where
      either :
          (b : Bool)
          → Settled content before total (if b then r else record r { timing = true; stats = true })
      either true = s
      either false = ticking s

  start_clock-seen : (r : Receiver) (j : ℕ) → seen (start_clock r) j ≡ seen r j
  unfolding start_clock seen
  start_clock-seen r j = ground arith

  -- The counters go up before the chunk is placed.
  counted_up : ℕ → Receiver → Receiver
  counted_up n r = record r {
    received_chunks = r.received_chunks + 1;
    bytes_transferred = r.bytes_transferred + n;
  }

  module _ (i : ℕ) (r : Receiver) (lt : i < total) (s : Settled content before total r)
      (new : seen r i ≡ false) where
    -- The transfer is not complete, since chunk `i` is missing.
    incomplete : (r.received_chunks == total) ≡ false
    incomplete =
        ==_false r.received_chunks total (missing content before total r i s.holds s.counts lt new)

    open-Holds : (n : ℕ) → Holds content before false (counted_up n r)
    unfolding counted_up
    open-Holds n =
        let h = subst (λ done. Holds content before done r) incomplete s.holds in
        record { distinct = h.distinct; keys = h.keys; passed = h.passed }

    placed :
        (n : ℕ) → Placed content before i (counted_up n r) (place i (content i) (counted_up n r))
    unfolding counted_up seen
    placed n = place-Placed content before (counted_up n r) (open-Holds n) s.counts.gap i new

    placed-seen : (n j : ℕ) → seen (place i (content i) (counted_up n r)) j ≡ ((j == i) || seen r j)
    unfolding counted_up seen
    placed-seen n j = (placed n).now_seen j

    placed-Counted : (n : ℕ) → Counted content before total (place i (content i) (counted_up n r))
    unfolding counted_up
    placed-Counted n =
        let p = placed n in
        record {
          gap = p.gap;
          counted = omega (arith, p.size, p.rest.received_chunks, s.counts.counted);
          bounded = λ j q. ground (arith, placed-seen n j, s.counts.bounded j);
          announced = p.rest.total_chunks ∙ s.counts.announced;
          known = (s.counts.known.0, p.rest.file_info ∙ s.counts.known.1);
        }

    fresh : (n : ℕ) → (place i (content i) (counted_up n r)).completions ≡ 0
    unfolding counted_up
    fresh n = ground (arith, (placed n).rest.completions, s.completed, incomplete)

    accept-Settled :
        Settled content before total (accept i (content i) r)
        × ((j : ℕ) → seen (accept i (content i) r) j ≡ ((j == i) || seen r j))
    unfolding accept counted_up
    accept-Settled =
        let n = length (content i) in
        let p = place i (content i) (counted_up n r) in
        let done =
          check_complete-Settled content before total p (placed n).holds (placed-Counted n)
            (fresh n) in
        (done.0, λ j. done.1 j ∙ placed-seen n j)

  handle_chunk-duplicate :
      (i : ℕ) (m : Bytes) (r : Receiver)
      → Carries i m
      → seen (start_clock r) i ≡ true
      → handle_chunk m r ≡ start_clock r
  unfolding handle_chunk
  handle_chunk-duplicate i m r c old = rw (c.header, handle_chunk, old)

  handle_chunk-accept :
      (i : ℕ) (m : Bytes) (r : Receiver)
      → Carries i m
      → seen (start_clock r) i ≡ false
      → handle_chunk m r ≡ accept i (content i) (start_clock r)
  unfolding handle_chunk
  handle_chunk-accept i m r c new = rw (c.header, handle_chunk, new, c.body)

  -- `_handleChunk` on a message of the transfer keeps the invariant, and marks its chunk as seen and
  -- no other, whether or not the message is a duplicate.
  pub handle_chunk-Settled :
      (i : ℕ) (m : Bytes) (r : Receiver)
      → Carries i m
      → Settled content before total r
      → Settled content before total (handle_chunk m r)
        × ((j : ℕ) → seen (handle_chunk m r) j ≡ ((j == i) || seen r j))
  handle_chunk-Settled i m r c s = elim (Bool-cases (seen (start_clock r) i)) [
    | inl old ↦
        subst (λ t. Settled content before total t × ((j : ℕ) → seen t j ≡ ((j == i) || seen r j)))
          (sym (handle_chunk-duplicate i m r c old))
          (start_clock-Settled r s, λ j. start_clock-seen r j ∙ again old j)
    | inr new ↦
        let a = accept-Settled i (start_clock r) c.in_range (start_clock-Settled r s) new in
        subst (λ t. Settled content before total t × ((j : ℕ) → seen t j ≡ ((j == i) || seen r j)))
          (sym (handle_chunk-accept i m r c new))
          (a.0, λ j. a.1 j ∙ ap (λ b. (j == i) || b) (start_clock-seen r j))
  ]
    where
      again : seen (start_clock r) i ≡ true → (j : ℕ) → seen r j ≡ ((j == i) || seen r j)
      again old j = elim (Bool-cases (j == i)) [
        | inl same ↦
            let e : j ≡ i = (==_iff j i).0 same in
            rw same (ap (seen r) e ∙ sym (start_clock-seen r i) ∙ old)
        | inr differs ↦ rw differs
      ]

  -- The messages carry these chunks, in this order.
  pub data AllCarry : List ℕ → List Bytes → Type 0 where
    nil : AllCarry [] []
    cons :
        {i : ℕ} {m : Bytes} {is : List ℕ} {ms : List Bytes}
        → Carries i m
        → AllCarry is ms
        → AllCarry (i ∷ is) (m ∷ ms)

  -- After any messages of the transfer, in any order and with any duplicates, the invariant holds,
  -- and the chunks seen are those seen before and those that the messages carry.
  pub handle_all-Settled :
      (is : List ℕ) (ms : List Bytes) (r : Receiver)
      → AllCarry is ms
      → Settled content before total r
      → Settled content before total (handle_all ms r)
        × ((j : ℕ) → seen (handle_all ms r) j ≡ (arrives j is || seen r j))
  unfolding handle_all
  handle_all-Settled _ _ r nil s = (s, λ j. refl)
  handle_all-Settled (i ∷ is) (m ∷ ms) r (cons c cs) s =
      let one = handle_chunk-Settled i m r c s in
      let rest = handle_all-Settled is ms (handle_chunk m r) cs one.0 in
      (rest.0, λ j. ground (arith, rest.1 j, one.1 j))
