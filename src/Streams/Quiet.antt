-- ===== src/Streams/Quiet.antt =====
-- A sender whose pumps have nothing to do: no event of a schedule changes the engine or sends.
use p2ptransfer.Base.{
  ℕ, ◌≡◌, inl, inr, sym, ap, ◌∙◌, subst, List, [], ◌∷◌, map, some, Bool, true, false, arith, All,
  get_elem?, append-nil, ◌++◌, Option-cases,
}
use p2ptransfer.Batch.{Chunk}
use p2ptransfer.Sender
use p2ptransfer.Sender.{Engine}
use p2ptransfer.Streams.{Conn, System, Round, round}
use p2ptransfer.Streams.Conns.{All-get_elem?, All-set, All-on_conn, All-map}
use p2ptransfer.Streams.Schedule.{
  launch, try_start, on_conn, open_conn, close_conn, drain_conn, fail_conn, poll, turn, after_round,
  Event, opens, closes, drains, turns, fails, polls, step, run,
}

-- A round that leaves the engine as it is, sends nothing, and keeps what `R` says of its connection.
pub record IsQuiet (R : Conn → Type 0) (e : Engine) (r : Round) : Type 0 where
  pub engine : r.engine ≡ e
  pub out : r.out ≡ []
  pub conn : R r.conn

-- A property of connections that every event keeps, whose pumps are quiet next to engine `e`.
pub record Quietens (R : Conn → Type 0) (e : Engine) : Type 0 where
  pub opened : (n : ℕ) (c : Conn) → R c → R (open_conn n c)
  pub closed : (c : Conn) → R c → R (close_conn c)
  pub drained : (n : ℕ) (c : Conn) → R c → R (drain_conn n c)
  pub failed : (c : Conn) → R c → R (fail_conn c)
  pub launched : (c : Conn) → R c → R (launch c)
  pub quiet : (throws : Bool) (c : Conn) → R c → IsQuiet R e (round throws e c.pump c)
  pub started : e.sending_started ≡ true
  pub not_draining : e.draining ≡ false

-- The engine, the chunks that have been sent, and a property of each connection.
pub record Rests (R : Conn → Type 0) (e : Engine) (out : List Chunk) (s : System) : Type 0 where
  pub engine : s.engine ≡ e
  pub sent : s.sent ≡ out
  pub conns : All R s.conns

module _ (R : Conn → Type 0) (e : Engine) (q : Quietens R e) (sent : List Chunk) where
  conn-Rests :
      (i : ℕ) (f : Conn → Conn) (s : System)
      → ((c : Conn) → R c → R (f c))
      → Rests R e sent s
      → Rests R e sent (record s { conns = on_conn i f s.conns })
  conn-Rests i f s keep v = record {
    engine = v.engine;
    sent = v.sent;
    conns = All-on_conn R i f s.conns keep v.conns;
  }

  try_start-Rests : (s : System) → Rests R e sent s → Rests R e sent (try_start s)
  unfolding try_start
  try_start-Rests s v = subst (Rests R e sent) (sym running) (record {
    engine = v.engine;
    sent = v.sent;
    conns = All-map R R launch s.conns q.launched v.conns;
  })
    where
      running : try_start s ≡ record s { conns = map launch s.conns }
      running = ground (arith, ap Engine.sending_started v.engine, q.started)

  round-Rests :
      (throws : Bool) (i : ℕ) (s : System) (c : Conn)
      → get_elem? s.conns i ≡ some c
      → Rests R e sent s
      → Rests R e sent (after_round i (round throws s.engine c.pump c) s)
  unfolding after_round
  round-Rests throws i s c at v =
      let mine = q.quiet throws c (All-get_elem? R i s.conns at v.conns) in
      subst (λ x. Rests R e sent (after_round i (round throws x c.pump c) s)) (sym v.engine)
        (record {
          engine = mine.engine;
          sent = ap (λ out. s.sent ++ out) mine.out ∙ append-nil s.sent ∙ v.sent;
          conns = All-set R i s.conns _ mine.conn v.conns;
        })

  turn-Rests :
      (throws : Bool) (i : ℕ) (s : System) → Rests R e sent s → Rests R e sent (turn throws i s)
  unfolding turn
  turn-Rests throws i s v = elim (Option-cases (get_elem? s.conns i)) [
    | inl gone ↦ rw (gone, turn) v
    | inr (c, at) ↦ rw (at, turn) (round-Rests throws i s c at v)
  ]

  poll-Rests : (s : System) → Rests R e sent s → Rests R e sent (poll s)
  unfolding poll Sender.drained
  poll-Rests s v = subst (Rests R e sent) (sym still) v
    where
      still : poll s ≡ s
      still = ground (arith, ap Engine.draining v.engine, q.not_draining)

  step-Rests : (event : Event) (s : System) → Rests R e sent s → Rests R e sent (step event s)
  unfolding step
  step-Rests (opens i n) s v = try_start-Rests _ (conn-Rests i (open_conn n) s (q.opened n) v)
  step-Rests (closes i) s v = conn-Rests i close_conn s q.closed v
  step-Rests (drains i n) s v = conn-Rests i (drain_conn n) s (q.drained n) v
  step-Rests (turns throws i) s v = turn-Rests throws i s v
  step-Rests (fails i) s v = conn-Rests i fail_conn s q.failed v
  step-Rests polls s v = poll-Rests s v

  pub run-Rests : (es : List Event) (s : System) → Rests R e sent s → Rests R e sent (run es s)
  unfolding run
  run-Rests [] s v = v
  run-Rests (event ∷ es) s v = run-Rests es (step event s) (step-Rests event s v)
