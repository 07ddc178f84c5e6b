-- ===== src/Streams/Finish.antt =====
-- Enough rounds of one undisturbed pump complete the transfer, if no other pump holds any chunks.
use p2ptransfer.Base.{
  ℕ, zero, suc, ◌≤◌, ◌<◌, ◌≡◌, refl, sym, ap, ◌∙◌, subst, List, [], ◌∷◌, some, true, false, arith,
  length, get_elem?, set, get_elem?-set_self, ◌⊎◌, inl, inr,
}
use p2ptransfer.Wire.{Bytes, chunks_of}
use p2ptransfer.Sender.{Engine}
use p2ptransfer.Streams.{
  Pump, unstarted, testing, ended, reading, rejected, sending, waiting, Conn, System, Round,
  buf_high, round,
}
use p2ptransfer.Streams.Conns.{flights, length-flights-set, flights-on_conn, All-get_elem?}
use p2ptransfer.Streams.Flight.{IsSound, flight}
use p2ptransfer.Streams.Invariant.{Inv}
use p2ptransfer.Streams.Events.{step-Inv}
use p2ptransfer.Streams.Backpressure.{max_frame, Within, round-Within}
use p2ptransfer.Streams.Healthy.{available, to_do, IsRunning, IsGoing, round-Nearer}
use p2ptransfer.Streams.Schedule.{
  on_conn, drain_conn, turn, after_round, Event, turns, drains, step, run,
}

-- A connection that is open and has room, whose pump is at work or has found nothing left to claim;
-- no other pump holds a chunk.
pub record IsServing (i : ℕ) (s : System) (c : Conn) : Type 0 where
  pub at : get_elem? s.conns i ≡ some c
  pub up : c.open_now ≡ true
  pub room : c.buffered ≤ buf_high c.kind
  pub alone : length (flights s.conns) ≡ length (flight c.pump)
  pub going : IsGoing s.engine c.pump

-- `n` times a round of the pump, and a frame's worth of bytes leaves the buffer.
unfoldable pub serve : ℕ → ℕ → List Event
serve i zero = []
serve i (suc n) = turns false i ∷ drains i max_frame ∷ serve i n

running_pos : (e : Engine) (p : Pump) → IsRunning p → 0 < to_do e p
running_pos e testing r = omega arith
running_pos e (reading claim) r = omega arith
running_pos e (sending batch) r = omega arith
running_pos e (waiting batch) r = omega arith
running_pos e unstarted r = absurd r
running_pos e ended r = absurd r
running_pos e (rejected claim) r = absurd r

get_elem?-on_conn :
    (i : ℕ) (f : Conn → Conn) (cs : List Conn) {c : Conn}
    → get_elem? cs i ≡ some c
    → get_elem? (on_conn i f cs) i ≡ some (f c)
unfolding on_conn
get_elem?-on_conn i f [] h = cc
get_elem?-on_conn zero f (c ∷ cs) h = cc
get_elem?-on_conn (suc i) f (c ∷ cs) h = get_elem?-on_conn i f cs h

-- A round of the pump, wherever it is.
record Rounded (e : Engine) (c : Conn) (r : Round) : Type 0 where
  still_open : r.conn.open_now ≡ true
  going : IsGoing r.engine r.conn.pump
  less : (to_do r.engine r.conn.pump < to_do e c.pump) ⊎ ((c.pump ≡ ended) × (r.conn.pump ≡ ended))

module _ (file : Bytes) (i : ℕ) (s : System) (c : Conn) (v : Inv file s) (h : IsServing i s c) where
  sound : IsSound file c.pump
  sound = All-get_elem? (λ (x : Conn). IsSound file x.pump) i s.conns h.at v.launched.sound

  r : Round
  r = round false s.engine c.pump c

  served : System
  served = step (drains i max_frame) (step (turns false i) s)

  served_conn : Conn
  served_conn = drain_conn max_frame r.conn

  rounded : Rounded s.engine c r
  unfolding r round
  rounded = by_going h.going
    where
      by_going : IsGoing s.engine c.pump → Rounded s.engine c (round false s.engine c.pump c)
      by_going (inl running) =
          let n = round-Nearer file s.engine c v.ledger.fits h.up h.room c.pump sound running in
          record { still_open = n.still_open; going = n.going; less = inl n.nearer }
      by_going (inr (over, none_left)) =
          subst (λ p. Rounded s.engine c (round false s.engine p c)) (sym over)
            (record { still_open = h.up; going = inr (refl, none_left); less = inr (over, refl) })

  turned : step (turns false i) s ≡ after_round i r s
  unfolding step turn r
  turned = rw (h.at, turn)

  turned-conns : (step (turns false i) s).conns ≡ set s.conns i r.conn
  unfolding after_round
  turned-conns = ap (λ (t : System). t.conns) turned

  kept-Within : Within r.conn
  unfolding r
  kept-Within = round-Within file false s.engine c.pump c sound (omega (arith, h.room))

  served-conns : served.conns ≡ on_conn i (drain_conn max_frame) (set s.conns i r.conn)
  unfolding served step
  served-conns = ap (on_conn i (drain_conn max_frame)) turned-conns

  served-engine : served.engine ≡ r.engine
  unfolding served step after_round
  served-engine = ap (λ (t : System). t.engine) turned

  served-IsServing : IsServing i served served_conn
  unfolding served_conn drain_conn
  served-IsServing = record {
    at =
        ap (λ cs. get_elem? cs i) served-conns
        ∙ get_elem?-on_conn i (drain_conn max_frame) (set s.conns i r.conn)
            (get_elem?-set_self i s.conns r.conn h.at);
    up = rounded.still_open;
    room = omega (arith, kept-Within);
    alone = omega (
      arith,
      ap (λ cs. length (flights cs)) served-conns,
      ap length (flights-on_conn i (drain_conn max_frame) (set s.conns i r.conn) (λ x. refl)),
      length-flights-set i s.conns r.conn h.at,
      h.alone,
    );
    going = subst (λ e. IsGoing e r.conn.pump) (sym served-engine) rounded.going;
  }

  served-Inv : Inv file served
  unfolding served
  served-Inv = step-Inv file (drains i max_frame) _ (step-Inv file (turns false i) s v)

  served-nearer :
      (to_do served.engine served_conn.pump < to_do s.engine c.pump)
      ⊎ ((c.pump ≡ ended) × (served_conn.pump ≡ ended))
  unfolding served_conn drain_conn
  served-nearer =
      subst
        (λ e.
          (to_do e r.conn.pump < to_do s.engine c.pump)
          ⊎ ((c.pump ≡ ended) × (r.conn.pump ≡ ended)))
        (sym served-engine) rounded.less

-- With as many rounds as the bound says, the pump has found nothing left to claim.
pub serve-ends :
    (file : Bytes) (i n : ℕ) (s : System) (c : Conn)
    → Inv file s
    → IsServing i s c
    → to_do s.engine c.pump ≤ n
    → Inv file (run (serve i n) s)
      × (length (flights (run (serve i n) s).conns) ≡ 0)
      × (available (run (serve i n) s).engine ≡ 0)
unfolding run serve served
serve-ends file i zero s c v h le = by_going h.going
  where
    by_going :
        IsGoing s.engine c.pump
        → Inv file s × (length (flights s.conns) ≡ 0) × (available s.engine ≡ 0)
    by_going (inl running) = absurd (omega (arith, running_pos s.engine c.pump running))
    by_going (inr (over, none_left)) =
        (v, omega (arith, h.alone, ap (λ p. length (flight p)) over), none_left)
serve-ends file i (suc n) s c v h le =
    serve-ends file i n (served file i s c v h) (served_conn file i s c v h)
      (served-Inv file i s c v h) (served-IsServing file i s c v h)
      (bound (served-nearer file i s c v h))
  where
    bound :
        (to_do (served file i s c v h).engine (served_conn file i s c v h).pump
            < to_do s.engine c.pump)
          ⊎ ((c.pump ≡ ended) × ((served_conn file i s c v h).pump ≡ ended))
        → to_do (served file i s c v h).engine (served_conn file i s c v h).pump ≤ n
    bound (inl lt) = omega arith
    bound (inr (_, over)) = omega (arith, ap (to_do (served file i s c v h).engine) over)

-- In a state with the sender's invariant, which every schedule keeps, a connection that is open and
-- drains, while no other pump holds a chunk, completes the transfer of a file with chunks: after as
-- many rounds as the bound says, every chunk has been sent and the sender has declared the transfer
-- complete.
pub serve-completes :
    (file : Bytes) (i n : ℕ) (s : System) (c : Conn)
    → 0 < chunks_of (length file)
    → Inv file s
    → IsServing i s c
    → to_do s.engine c.pump ≤ n
    → (length (run (serve i n) s).sent ≡ chunks_of (length file))
      × ((run (serve i n) s).engine.complete_fired ≡ true)
serve-completes file i n s c pos v h le =
    let done = serve-ends file i n s c v h le in
    let l = done.0.ledger in
    let all_sent : length (run (serve i n) s).sent ≡ chunks_of (length file) =
      omega (arith, l.lengths, l.fits.total, l.fits.next_le, done.1, done.2) in
    (all_sent, ground (arith, l.fired, l.sent, l.fits.total, all_sent))
