-- ===== src/Streams/Invariant.antt =====
-- The invariant of the sender, kept by every event of every schedule.
use p2ptransfer.Base.{
  ℕ, ◌+◌, ◌≤◌, ◌≡◌, refl, sym, ap, ◌∙◌, List, [], ◌∷◌, ◌++◌, some, Bool, false, ◌&&◌, ◌==◌, ltb,
  if◌then◌else◌, arith, length, count, count-append, inside, length-append, All, All-append,
  get_elem?, map-append, inl, inr, Option-cases,
}
use p2ptransfer.Wire.{Bytes}
use p2ptransfer.Batch.{Chunk}
use p2ptransfer.Sender.{Engine}
use p2ptransfer.Streams.{unstarted, Conn, System, Round, indices, goes, round}
use p2ptransfer.Streams.Flight.{sizes, IsGenuine, IsSound, Fits, Keeps}
use p2ptransfer.Streams.Rounds.{round-Keeps}
use p2ptransfer.Streams.Conns.{
  flights, count-flights-set, length-flights-set, All-get_elem?, All-set, IsConsistent,
}
use p2ptransfer.Streams.Schedule.{turn, after_round}

pub sizes-append : (xs ys : List Chunk) → sizes (xs ++ ys) ≡ sizes xs + sizes ys
sizes-append [] ys = omega arith
sizes-append (x ∷ xs) ys = omega (arith, sizes-append xs ys)

pub indices-append : (xs ys : List Chunk) → indices (xs ++ ys) ≡ indices xs ++ indices ys
indices-append xs ys = map-append (λ (c : Chunk). c.index) xs ys

unstarted_round :
    (throws : Bool) (e : Engine) (c : Conn) → round throws e unstarted c ≡ goes unstarted e c
unfolding round
unstarted_round throws e c = refl

module _ (file : Bytes) where
  -- The engine's own fields, and the chunks that it has sent.
  pub record Ledger (s : System) : Type 0 where
    pub fits : Fits file s.engine
    pub conserved :
        (a : ℕ)
        → count a (indices s.sent) + count a s.engine.retry_indices + count a (flights s.conns)
          ≡ inside 0 s.engine.next_chunk_index a
    pub lengths :
        length s.sent + length s.engine.retry_indices + length (flights s.conns)
        ≡ s.engine.next_chunk_index
    pub genuine : All (IsGenuine file) s.sent
    pub sent : s.engine.sent_chunks ≡ length s.sent
    pub bytes : s.engine.bytes_transferred ≡ sizes s.sent
    pub fired :
        s.engine.complete_fired
        ≡ (ltb 0 s.engine.total_chunks && (s.engine.sent_chunks == s.engine.total_chunks))
    pub completions :
        s.engine.completions + (if s.engine.draining then 1 else 0)
        ≡ (if s.engine.complete_fired then 1 else 0)

  -- The connections, and that nothing has happened before the first of them was ready.
  pub record Launched (s : System) : Type 0 where
    pub sound : All (λ c. IsSound file c.pump) s.conns
    pub consistent : All IsConsistent s.conns
    pub idle : s.engine.sending_started ≡ false → All (λ c. c.pump_started ≡ false) s.conns
    pub unused : s.engine.sending_started ≡ false → s.engine.next_chunk_index ≡ 0

  pub record Inv (s : System) : Type 0 where
    pub ledger : Ledger s
    pub launched : Launched s

  -- A round of the pump of one connection.
  module _ (s : System) (i : ℕ) (c : Conn) (r : Round) (at : get_elem? s.conns i ≡ some c)
      (v : Inv s) (k : Keeps file s.engine c.pump c r) where
    total_same : r.engine.total_chunks ≡ s.engine.total_chunks
    total_same = k.fits.total ∙ sym v.ledger.fits.total

    within : length s.sent + length r.out ≤ s.engine.total_chunks
    within = omega (
      arith,
      k.lengths,
      v.ledger.lengths,
      length-flights-set i s.conns r.conn at,
      k.fits.next_le,
      v.ledger.fits.total,
    )

    round-Ledger : Ledger (after_round i r s)
    unfolding after_round
    round-Ledger =
        let l = v.ledger in
        record {
          fits = k.fits;
          conserved = λ a. omega (
            arith,
            k.counts a,
            l.conserved a,
            count-flights-set a i s.conns r.conn at,
            count-append a (indices s.sent) (indices r.out),
            ap (count a) (indices-append s.sent r.out),
          );
          lengths = omega (
            arith,
            k.lengths,
            l.lengths,
            length-flights-set i s.conns r.conn at,
            length-append s.sent r.out,
          );
          genuine = All-append (IsGenuine file) s.sent r.out l.genuine k.genuine;
          sent = omega (arith, k.sent, l.sent, length-append s.sent r.out);
          bytes = omega (arith, k.bytes, l.bytes, sizes-append s.sent r.out);
          fired = ground (arith, k.fired, l.fired, k.sent, l.sent, total_same, within);
          completions = ground (arith, k.draining, k.completions, l.completions, k.fired, l.fired);
        }

    round-Launched :
        (c.pump ≡ unstarted → r ≡ goes unstarted s.engine c) → Launched (after_round i r s)
    unfolding after_round
    round-Launched quiet =
        let l = v.launched in
        let mine : IsConsistent c = All-get_elem? IsConsistent i s.conns at l.consistent in
        record {
          sound = All-set (λ (x : Conn). IsSound file x.pump) i s.conns r.conn k.sound l.sound;
          consistent =
              All-set IsConsistent i s.conns r.conn
                (λ off. ap (λ (x : Round). x.conn.pump) (quiet (mine (sym k.kept_conn.1 ∙ off))))
                l.consistent;
          idle = λ off.
              All-set (λ (x : Conn). x.pump_started ≡ false) i s.conns r.conn
                (k.kept_conn.1
                  ∙ All-get_elem? (λ (x : Conn). x.pump_started ≡ false) i s.conns at
                      (l.idle (sym k.started ∙ off)))
                (l.idle (sym k.started ∙ off));
          unused = λ off.
              let still = sym k.started ∙ off in
              ap (λ (x : Round). x.engine.next_chunk_index)
                (quiet (
                  mine (
                    All-get_elem? (λ (x : Conn). x.pump_started ≡ false) i s.conns at
                      (l.idle still))))
              ∙ l.unused still;
        }

  pub turn-Inv : (throws : Bool) (i : ℕ) (s : System) → Inv s → Inv (turn throws i s)
  unfolding turn
  turn-Inv throws i s v = elim (Option-cases (get_elem? s.conns i)) [
    | inl gone ↦ rw (gone, turn) v
    | inr (c, at) ↦
        let k =
          round-Keeps file v.ledger.fits throws c.pump
            (All-get_elem? (λ (x : Conn). IsSound file x.pump) i s.conns at v.launched.sound) in
        rw (at, turn)
          (record {
            ledger = round-Ledger s i c (round throws s.engine c.pump c) at v k;
            launched =
                round-Launched s i c (round throws s.engine c.pump c) at v k
                  (λ e. ap (λ p. round throws s.engine p c) e ∙ unstarted_round throws s.engine c);
          })
  ]
