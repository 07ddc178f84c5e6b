-- ===== src/Streams/Healthy.antt =====
-- One connection that stays open, and whose buffer drains, sends whatever no other pump holds.
use p2ptransfer.Base.{
  ℕ, ◌+◌, ◌-◌, ◌*◌, ◌≤◌, ◌<◌, ◌≡◌, refl, sym, ap, ◌∙◌, subst, List, [], ◌∷◌, map, some, Bool, true,
  false, if◌then◌else◌, ltb, arith, length, ◌⊎◌, inl, inr, length-map, ltb-false,
}
use p2ptransfer.Wire.{Bytes}
use p2ptransfer.Batch.{Chunk, Claim, claimed, read_chunk, read_claim}
use p2ptransfer.Batch.Fast.{read_claim-map}
use p2ptransfer.Sender.{Engine, more_work, claim_batch, count_sent}
use p2ptransfer.Sender.Claiming.{claim_batch-Claims, claim_batch-nonempty}
use p2ptransfer.Streams.{
  Kind, relay, p2p, Pump, unstarted, testing, ended, reading, rejected, sending, waiting, Conn,
  Round, buf_high, goes, give_up, try_send, send_or_wait, inner, resumed, batch_done, next_batch,
  batch_read, round,
}
use p2ptransfer.Streams.Flight.{IsSound, Fits}

-- The chunks that are still to be claimed.
abbrev pub available : Engine → ℕ
available e = length e.retry_indices + (e.total_chunks - e.next_chunk_index)

-- An upper bound for the rounds that a pump has before it, if it is not disturbed.
abbrev pub to_do : Engine → Pump → ℕ
to_do e unstarted = 0
to_do e testing = 4 * available e + 1
to_do e ended = 0
to_do e (reading claim) = 4 * available e + length (claimed claim) + 3
to_do e (rejected claim) = 0
to_do e (sending batch) = 4 * available e + length batch + 2
to_do e (waiting batch) = 4 * available e + length batch + 2

-- A pump at work: launched, and not over.
abbrev pub IsRunning : Pump → Type 0
IsRunning unstarted = ⊥
IsRunning testing = Unit {0}
IsRunning ended = ⊥
IsRunning (reading claim) = 0 < length (claimed claim)
IsRunning (rejected claim) = ⊥
IsRunning (sending batch) = Unit {0}
IsRunning (waiting batch) = Unit {0}

-- The round in which a chunk is sent.
abbrev sends : Chunk → List Chunk → Engine → Conn → Round
sends chunk rest e c = record {
  engine = count_sent chunk.size e;
  conn = record c { pump = sending rest; buffered = c.buffered + length chunk.frame };
  out = chunk ∷ [];
}

available-count_sent : (n : ℕ) (e : Engine) → available (count_sent n e) ≡ available e
unfolding count_sent
available-count_sent n e = ground arith

-- The pump runs, or it has ended and no chunk is left to be claimed.
abbrev pub IsGoing : Engine → Pump → Type 0
IsGoing e p = IsRunning p ⊎ ((p ≡ ended) × (available e ≡ 0))

-- An undisturbed round of a running pump brings it nearer to its end, and it ends only where no chunk
-- is left to be claimed.
pub record Nearer (e : Engine) (p : Pump) (r : Round) : Type 0 where
  pub nearer : to_do r.engine r.conn.pump < to_do e p
  pub going : IsGoing r.engine r.conn.pump
  pub still_open : r.conn.open_now ≡ true

sends-Nearer :
    (p : Pump) (chunk : Chunk) (rest : List Chunk) (e : Engine) (c : Conn)
    → to_do e p ≡ to_do e (sending (chunk ∷ rest))
    → c.open_now ≡ true
    → Nearer e p (sends chunk rest e c)
sends-Nearer p chunk rest e c same up = record {
  nearer = omega (arith, same, available-count_sent chunk.size e);
  going = inl tt;
  still_open = up;
}

inner-sends :
    (chunk : Chunk) (rest : List Chunk) (e : Engine) (c : Conn)
    → c.open_now ≡ true
    → c.buffered ≤ buf_high c.kind
    → inner false chunk rest e c ≡ sends chunk rest e c
unfolding inner send_or_wait try_send
inner-sends chunk rest e c up room = rw (up, inner, ltb-false (buf_high c.kind) c.buffered room)

resumed-sends :
    (k : Kind) (chunk : Chunk) (rest : List Chunk) (e : Engine) (c : Conn)
    → k ≡ c.kind
    → c.open_now ≡ true
    → c.buffered ≤ buf_high c.kind
    → resumed k false chunk rest e c ≡ sends chunk rest e c
unfolding resumed try_send
resumed-sends relay chunk rest e c same up room =
    full_no (ltb-false (buf_high relay) c.buffered low)
  where
    low : c.buffered ≤ buf_high relay
    low = subst (λ k. c.buffered ≤ buf_high k) (sym same) room

    full_no :
        ltb (buf_high relay) c.buffered ≡ false
        → (if ltb (buf_high relay) c.buffered
            then (if c.open_now
                then goes (waiting (chunk ∷ rest)) e c
                else give_up (chunk ∷ rest) e c)
            else sends chunk rest e c)
          ≡ sends chunk rest e c
    full_no h = rw h
resumed-sends p2p chunk rest e c same up room = inner-sends chunk rest e c up room

total-claim_batch : (e : Engine) → (claim_batch e).1.total_chunks ≡ e.total_chunks
unfolding claim_batch
total-claim_batch e = refl

no_work : (e : Engine) → more_work e ≡ false → available e ≡ 0
unfolding more_work
no_work e h = ground arith

module _ (file : Bytes) (e : Engine) (c : Conn) (f : Fits file e) (up : c.open_now ≡ true)
    (room : c.buffered ≤ buf_high c.kind) where
  claims-Nearer :
      more_work e ≡ true → Nearer e testing (goes (reading (claim_batch e).0) (claim_batch e).1 c)
  claims-Nearer more =
      let k = claim_batch-Claims e (omega (arith, f.next_le, f.total)) in
      record {
        nearer = omega (
          arith,
          k.sizes,
          k.in_range,
          k.advanced,
          claim_batch-nonempty e more,
          total-claim_batch e,
        );
        going = inl (claim_batch-nonempty e more);
        still_open = up;
      }

  next_batch-Nearer : Nearer e testing (next_batch e c)
  unfolding next_batch
  next_batch-Nearer = by_test (more_work e) refl
    where
      by_test :
          (b : Bool)
          → more_work e ≡ b
          → Nearer e testing
              (if b then goes (reading (claim_batch e).0) (claim_batch e).1 c else goes ended e c)
      by_test true more = claims-Nearer more
      by_test false none_left = record {
        nearer = omega arith;
        going = inr (refl, no_work e none_left);
        still_open = up;
      }

  batch_done-Nearer :
      (k : Kind) (p : Pump) → to_do e p ≡ to_do e (sending []) → Nearer e p (batch_done k e c)
  unfolding batch_done
  batch_done-Nearer relay p same = record {
    nearer = omega (arith, same);
    going = inl tt;
    still_open = up;
  }
  batch_done-Nearer p2p p same =
      subst (Nearer e p) (sym (ap (λ b. if b then goes testing e c else goes ended e c) up))
        (record { nearer = omega (arith, same); going = inl tt; still_open = up })

  read_map-Nearer :
      (claim : Claim)
      → (is : List ℕ) → 0 < length is
      → length is ≡ length (claimed claim)
      → Nearer e (reading claim) (batch_read (some (map (read_chunk file) is)) claim e c)
  unfolding batch_read
  read_map-Nearer claim [] some_left same = absurd (omega arith)
  read_map-Nearer claim (i ∷ is) some_left same = record {
    nearer = omega (arith, length-map (read_chunk file) is);
    going = inl tt;
    still_open = up;
  }

  batch_read-Nearer :
      (claim : Claim)
      → IsSound file (reading claim)
      → 0 < length (claimed claim)
      → Nearer e (reading claim) (batch_read (read_claim e.file claim) claim e c)
  batch_read-Nearer claim s some_left =
      subst (λ b. Nearer e (reading claim) (batch_read b claim e c))
        (sym (ap (λ g. read_claim g claim) f.file_kept ∙ read_claim-map file claim s))
        (read_map-Nearer claim (claimed claim) some_left refl)

  -- Every round of a running pump, on a connection that is open and has room.
  pub round-Nearer : (p : Pump) → IsSound file p → IsRunning p → Nearer e p (round false e p c)
  unfolding round
  round-Nearer unstarted s r = absurd r
  round-Nearer ended s r = absurd r
  round-Nearer (rejected claim) s r = absurd r
  round-Nearer testing s r = next_batch-Nearer
  round-Nearer (reading claim) s r = batch_read-Nearer claim s r
  round-Nearer (sending []) s r = batch_done-Nearer c.kind (sending []) refl
  round-Nearer (sending (chunk ∷ rest)) s r =
      subst (Nearer e (sending (chunk ∷ rest))) (sym (inner-sends chunk rest e c up room))
        (sends-Nearer (sending (chunk ∷ rest)) chunk rest e c refl up)
  round-Nearer (waiting []) s r = batch_done-Nearer c.kind (waiting []) refl
  round-Nearer (waiting (chunk ∷ rest)) s r =
      subst (Nearer e (waiting (chunk ∷ rest)))
        (sym (resumed-sends c.kind chunk rest e c refl up room))
        (sends-Nearer (waiting (chunk ∷ rest)) chunk rest e c refl up)
