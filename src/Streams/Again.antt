-- ===== src/Streams/Again.antt =====
-- A second `createOffer` behind a complete transfer.
use p2ptransfer.Base.{
  ℕ, zero, suc, ◌≤◌, ◌≡◌, refl, sym, ap, ◌∙◌, subst, List, [], ◌∷◌, ◌++◌, some, Bool, true, false,
  arith, All, All-append, Bool-cases, inl, inr, length, ◌&&◌, not, if◌then◌else◌, range_from,
}
use p2ptransfer.Wire.{Bytes, chunks_of}
use p2ptransfer.Batch.{Claim, claimed, read_claim}
use p2ptransfer.Sender.{Engine, more_work, claim_batch}
use p2ptransfer.Streams.{
  Kind, relay, p2p, Pump, unstarted, testing, ended, reading, rejected, sending, waiting, Conn,
  goes, round, next_batch, batch_done, batch_read, read_fails, new_conn,
}
use p2ptransfer.Streams.Conns.{flights}
use p2ptransfer.Streams.Flight.{flight}
use p2ptransfer.Streams.Exactly.{after-Inv, complete-sent_all}
use p2ptransfer.Streams.Quiet.{IsQuiet, Quietens, run-Rests}
use p2ptransfer.Streams.Schedule.{
  launch, is_ready, num_relay, num_p2p, open_conn, close_conn, drain_conn, fail_conn, Event, run,
  create_offer, offer_again, repeat,
}

-- Nothing is left to claim.
record IsDone (e : Engine) : Type 0 where
  claimed_all : e.total_chunks ≤ e.next_chunk_index
  none_queued : e.retry_indices ≡ []

-- The pump holds no chunk.
abbrev HoldsNone : Conn → Type 0
HoldsNone c = flight c.pump ≡ []

append_nil_left : {A : Type 0} (xs ys : List A) → xs ++ ys ≡ [] → xs ≡ []
append_nil_left [] ys h = refl
append_nil_left (x ∷ xs) ys h = ground (arith, h)

append_nil_right : {A : Type 0} (xs ys : List A) → xs ++ ys ≡ [] → ys ≡ []
append_nil_right [] ys h = h
append_nil_right (x ∷ xs) ys h = ground (arith, h)

range_nil : (s n : ℕ) → range_from s n ≡ [] → n ≡ 0
range_nil s zero h = refl
range_nil s (suc n) h = ground (arith, h)

empty_claim : (file : Bytes) (claim : Claim) → claimed claim ≡ [] → read_claim file claim ≡ some []
unfolding read_claim
empty_claim file claim h = ground (
  arith,
  append_nil_left claim.retry _ h,
  range_nil claim.start claim.count (append_nil_right claim.retry _ h),
)

next_batch-IsQuiet : (e : Engine) (c : Conn) → IsDone e → IsQuiet HoldsNone e (next_batch e c)
unfolding next_batch more_work
next_batch-IsQuiet e c d =
    subst
      (λ b.
        IsQuiet HoldsNone e
          (if b then goes (reading (claim_batch e).0) (claim_batch e).1 c else goes ended e c))
      (sym over) (record { engine = refl; out = refl; conn = refl })
  where
    over : more_work e ≡ false
    over = ground (arith, d.claimed_all, d.none_queued)

batch_done-IsQuiet : (k : Kind) (e : Engine) (c : Conn) → IsQuiet HoldsNone e (batch_done k e c)
unfolding batch_done
batch_done-IsQuiet relay e c = record { engine = refl; out = refl; conn = refl }
batch_done-IsQuiet p2p e c = by_state c.open_now
  where
    by_state : (b : Bool) → IsQuiet HoldsNone e (if b then goes testing e c else goes ended e c)
    by_state true = record { engine = refl; out = refl; conn = refl }
    by_state false = record { engine = refl; out = refl; conn = refl }

round-IsQuiet :
    (throws : Bool) (e : Engine) (c : Conn) (p : Pump)
    → IsDone e
    → flight p ≡ []
    → IsQuiet HoldsNone e (round throws e p c)
unfolding round batch_read
round-IsQuiet throws e c unstarted d h = record { engine = refl; out = refl; conn = refl }
round-IsQuiet throws e c ended d h = record { engine = refl; out = refl; conn = refl }
round-IsQuiet throws e c (rejected claim) d h = record { engine = refl; out = refl; conn = h }
round-IsQuiet throws e c testing d h = next_batch-IsQuiet e c d
round-IsQuiet throws e c (reading claim) d h =
    subst (λ r. IsQuiet HoldsNone e (batch_read r claim e c)) (sym (empty_claim e.file claim h))
      (record { engine = refl; out = refl; conn = refl })
round-IsQuiet throws e c (sending []) d h = batch_done-IsQuiet c.kind e c
round-IsQuiet throws e c (waiting []) d h = batch_done-IsQuiet c.kind e c
round-IsQuiet throws e c (sending (chunk ∷ rest)) d h = ground (arith, h)
round-IsQuiet throws e c (waiting (chunk ∷ rest)) d h = ground (arith, h)

fails-flight : (p : Pump) → flight (read_fails p) ≡ flight p
unfolding read_fails
fails-flight unstarted = refl
fails-flight ended = refl
fails-flight testing = refl
fails-flight (reading claim) = refl
fails-flight (rejected claim) = refl
fails-flight (sending batch) = refl
fails-flight (waiting batch) = refl

open_conn-HoldsNone : (n : ℕ) (c : Conn) → HoldsNone c → HoldsNone (open_conn n c)
unfolding open_conn
open_conn-HoldsNone n c h = by_state c.ready
  where
    by_state :
        (b : Bool)
        → HoldsNone (if b then c else record c { ready = true; open_now = true; buffered = n })
    by_state true = h
    by_state false = h

launch-HoldsNone : (c : Conn) → HoldsNone c → HoldsNone (launch c)
unfolding launch
launch-HoldsNone c h = by_state (is_ready c && not c.pump_started)
  where
    by_state :
        (b : Bool) → HoldsNone (if b then record c { pump_started = true; pump = testing } else c)
    by_state true = refl
    by_state false = h

IsDone-Quietens :
    (e : Engine) → IsDone e → e.sending_started ≡ true → e.draining ≡ false → Quietens HoldsNone e
unfolding close_conn drain_conn fail_conn
IsDone-Quietens e d started not_draining = record {
  opened = open_conn-HoldsNone;
  closed = λ c h. h;
  drained = λ n c h. h;
  failed = λ c h. fails-flight c.pump ∙ h;
  launched = launch-HoldsNone;
  quiet = λ throws c h. round-IsQuiet throws e c c.pump d h;
  started = started;
  not_draining = not_draining;
}

flights_nil : (cs : List Conn) → flights cs ≡ [] → All HoldsNone cs
flights_nil [] h = tt
flights_nil (c ∷ cs) h =
    (append_nil_left (flight c.pump) _ h, flights_nil cs (append_nil_right (flight c.pump) _ h))

new_conn-HoldsNone : (k : Kind) → HoldsNone (new_conn k)
unfolding new_conn
new_conn-HoldsNone k = refl

repeat-HoldsNone : (n : ℕ) (k : Kind) → All HoldsNone (repeat n (new_conn k))
unfolding repeat
repeat-HoldsNone zero k = tt
repeat-HoldsNone (suc n) k = (new_conn-HoldsNone k, repeat-HoldsNone n k)

module _ (file : Bytes) (es : List Event)
    (h : (run es (create_offer file)).engine.complete_fired ≡ true) where
  claimed_all : (run es (create_offer file)).engine.next_chunk_index ≡ chunks_of (length file)
  claimed_all =
      let spent = complete-sent_all file es h in
      let l = (after-Inv file es).ledger in
      omega (arith, l.lengths, spent.1, ap length spent.2, ap length spent.3)

  has_started : (run es (create_offer file)).engine.sending_started ≡ true
  has_started = elim (Bool-cases (run es (create_offer file)).engine.sending_started) [
    | inl on ↦ on
    | inr off ↦
        let v = after-Inv file es in
        ground (arith, h, claimed_all, v.launched.unused off, v.ledger.fired, v.ledger.fits.total)
  ]

-- The sender has completed a transfer and `onComplete` has run. If it is asked to offer the same file
-- again, as it is when a receiver joins again, then whatever connections open and whatever their
-- pumps do, not one chunk is sent, and `onComplete` does not run again.
pub run-sends_nothing :
    (file : Bytes) (es fs : List Event)
    → (run es (create_offer file)).engine.complete_fired ≡ true
    → (run es (create_offer file)).engine.draining ≡ false
    → ((run fs (offer_again file (run es (create_offer file)))).sent
        ≡ (run es (create_offer file)).sent)
      × ((run fs (offer_again file (run es (create_offer file)))).engine.completions
          ≡ (run es (create_offer file)).engine.completions)
unfolding offer_again
run-sends_nothing file es fs h idle =
    let s = run es (create_offer file) in
    let e : Engine = record s.engine { file = file; total_chunks = chunks_of (length file) } in
    let spent = complete-sent_all file es h in
    let over : IsDone e = record {
      claimed_all = omega (arith, claimed_all file es h);
      none_queued = spent.2;
    } in
    let rest =
      run-Rests HoldsNone e (IsDone-Quietens e over (has_started file es h) idle) s.sent fs
        (offer_again file s)
        (record {
          engine = refl;
          sent = refl;
          conns = All-append HoldsNone s.conns _ (flights_nil s.conns spent.3) (
              All-append HoldsNone (repeat num_relay (new_conn relay))
                (repeat num_p2p (new_conn p2p)) (repeat-HoldsNone num_relay relay)
                (repeat-HoldsNone num_p2p p2p));
        }) in
    (rest.sent, ap Engine.completions rest.engine)
