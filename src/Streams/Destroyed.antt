-- ===== src/Streams/Destroyed.antt =====
-- What the pumps do behind `destroy`.
use p2ptransfer.Base.{
  ℕ, ◌≡◌, ◌⊎◌, inl, inr, refl, sym, ap, ◌∙◌, subst, List, [], ◌∷◌, ◌++◌, none, some, Option, Bool,
  true, false, if◌then◌else◌, arith, All, get_elem?, append-nil, Option-cases,
}
use p2ptransfer.Batch.{Chunk, Claim, read_claim}
use p2ptransfer.Sender.{Engine, more_work, claim_batch}
use p2ptransfer.Streams.{
  Kind, relay, p2p, Pump, unstarted, testing, ended, reading, rejected, sending, waiting, Conn,
  System, Round, goes, round, next_batch, batch_done, batch_read, inner, send_or_wait, give_up,
  resumed, read_fails,
}
use p2ptransfer.Streams.Conns.{All-get_elem?, All-set, All-on_conn, All-map}
use p2ptransfer.Streams.Schedule.{
  on_conn, drain_conn, close_conn, fail_conn, poll, turn, after_round, shut, destroy, Event, opens,
  closes, drains, turns, fails, polls, step, run,
}

-- No relay pump is at its yield: the pump waits on a data channel, or not at all.
abbrev pub IsAwake : Kind → Pump → Type 0
IsAwake p2p p = Unit {0}
IsAwake relay unstarted = Unit {0}
IsAwake relay testing = Unit {0}
IsAwake relay ended = Unit {0}
IsAwake relay (reading claim) = Unit {0}
IsAwake relay (rejected claim) = Unit {0}
IsAwake relay (sending batch) = Unit {0}
IsAwake relay (waiting batch) = ⊥

-- The connection is not open, and its pump is not one that sends without a look at that.
abbrev IsShut : Conn → Type 0
IsShut c = (c.open_now ≡ false) × IsAwake c.kind c.pump

-- A pump that does not wait.
abbrev IsMoving : Pump → Type 0
IsMoving unstarted = Unit {0}
IsMoving testing = Unit {0}
IsMoving ended = Unit {0}
IsMoving (reading claim) = Unit {0}
IsMoving (rejected claim) = Unit {0}
IsMoving (sending batch) = Unit {0}
IsMoving (waiting batch) = ⊥

moving-IsAwake : (k : Kind) (p : Pump) → IsMoving p → IsAwake k p
moving-IsAwake p2p p m = tt
moving-IsAwake relay unstarted m = tt
moving-IsAwake relay testing m = tt
moving-IsAwake relay ended m = tt
moving-IsAwake relay (reading claim) m = tt
moving-IsAwake relay (rejected claim) m = tt
moving-IsAwake relay (sending batch) m = tt
moving-IsAwake relay (waiting batch) m = m

record Silent (r : Round) : Type 0 where
  out : r.out ≡ []
  conn : IsShut r.conn

module _ (e : Engine) (c : Conn) (s : c.open_now ≡ false) where
  goes-Silent : (p : Pump) (d : Engine) → IsMoving p → Silent (goes p d c)
  goes-Silent p d m = record { out = refl; conn = (s, moving-IsAwake c.kind p m) }

  give_up-Silent : (batch : List Chunk) → Silent (give_up batch e c)
  unfolding give_up
  give_up-Silent batch = record { out = refl; conn = (s, moving-IsAwake c.kind ended tt) }

  next_batch-Silent : Silent (next_batch e c)
  unfolding next_batch
  next_batch-Silent = by_work (more_work e)
    where
      by_work :
          (b : Bool)
          → Silent
              (if b then goes (reading (claim_batch e).0) (claim_batch e).1 c else goes ended e c)
      by_work true = goes-Silent (reading (claim_batch e).0) (claim_batch e).1 tt
      by_work false = goes-Silent ended e tt

  batch_read-Silent : (claim : Claim) (r : Option (List Chunk)) → Silent (batch_read r claim e c)
  unfolding batch_read
  batch_read-Silent claim none = goes-Silent (rejected claim) e tt
  batch_read-Silent claim (some []) = goes-Silent ended e tt
  batch_read-Silent claim (some (chunk ∷ rest)) = goes-Silent (sending (chunk ∷ rest)) e tt

  batch_done-Silent : (k : Kind) → Silent (batch_done k e c)
  unfolding batch_done
  batch_done-Silent relay = goes-Silent testing e tt
  batch_done-Silent p2p =
      subst (λ b. Silent (if b then goes testing e c else goes ended e c)) (sym s)
        (goes-Silent ended e tt)

  inner-Silent :
      (throws : Bool) (chunk : Chunk) (rest : List Chunk) → Silent (inner throws chunk rest e c)
  unfolding inner
  inner-Silent throws chunk rest =
      subst
        (λ b. Silent (if b then send_or_wait throws chunk rest e c else give_up (chunk ∷ rest) e c))
        (sym s) (give_up-Silent (chunk ∷ rest))

  resumed-Silent :
      (k : Kind) (throws : Bool) (chunk : Chunk) (rest : List Chunk)
      → IsAwake k (waiting (chunk ∷ rest))
      → Silent (resumed k throws chunk rest e c)
  unfolding resumed
  resumed-Silent p2p throws chunk rest a = inner-Silent throws chunk rest
  resumed-Silent relay throws chunk rest a = absurd a

  round-Silent : (throws : Bool) (p : Pump) → IsAwake c.kind p → Silent (round throws e p c)
  unfolding round
  round-Silent throws unstarted a = goes-Silent unstarted e tt
  round-Silent throws ended a = goes-Silent ended e tt
  round-Silent throws (rejected claim) a = goes-Silent (rejected claim) e tt
  round-Silent throws testing a = next_batch-Silent
  round-Silent throws (reading claim) a = batch_read-Silent claim (read_claim e.file claim)
  round-Silent throws (sending []) a = batch_done-Silent c.kind
  round-Silent throws (sending (chunk ∷ rest)) a = inner-Silent throws chunk rest
  round-Silent throws (waiting []) a = batch_done-Silent c.kind
  round-Silent throws (waiting (chunk ∷ rest)) a = resumed-Silent c.kind throws chunk rest a

-- No socket opens any more.
abbrev pub OpensNone : Event → Type 0
OpensNone (opens i n) = ⊥
OpensNone (closes i) = Unit {0}
OpensNone (drains i n) = Unit {0}
OpensNone (turns throws i) = Unit {0}
OpensNone (fails i) = Unit {0}
OpensNone polls = Unit {0}

-- Nothing has been sent but `out`, and every connection is shut.
record IsSilent (out : List Chunk) (s : System) : Type 0 where
  sent : s.sent ≡ out
  conns : All IsShut s.conns

fails-IsShut : (k : Kind) (p : Pump) → IsAwake k p → IsAwake k (read_fails p)
unfolding read_fails
fails-IsShut p2p p a = tt
fails-IsShut relay unstarted a = a
fails-IsShut relay testing a = a
fails-IsShut relay ended a = a
fails-IsShut relay (reading claim) a = tt
fails-IsShut relay (rejected claim) a = a
fails-IsShut relay (sending batch) a = a
fails-IsShut relay (waiting batch) a = a

module _ (out : List Chunk) where
  conn-IsSilent :
      (i : ℕ) (f : Conn → Conn) (s : System)
      → ((c : Conn) → IsShut c → IsShut (f c))
      → IsSilent out s
      → IsSilent out (record s { conns = on_conn i f s.conns })
  conn-IsSilent i f s keep v = record {
    sent = v.sent;
    conns = All-on_conn IsShut i f s.conns keep v.conns;
  }

  turn-IsSilent :
      (throws : Bool) (i : ℕ) (s : System) → IsSilent out s → IsSilent out (turn throws i s)
  unfolding turn after_round
  turn-IsSilent throws i s v = elim (Option-cases (get_elem? s.conns i)) [
    | inl gone ↦ rw (gone, turn) v
    | inr (c, at) ↦
        let mine = All-get_elem? IsShut i s.conns at v.conns in
        let r = round-Silent s.engine c mine.0 throws c.pump mine.1 in
        rw (at, turn)
          (record {
            sent = ap (λ more. s.sent ++ more) r.out ∙ append-nil s.sent ∙ v.sent;
            conns = All-set IsShut i s.conns (round throws s.engine c.pump c).conn r.conn v.conns;
          })
  ]

  step-IsSilent :
      (event : Event) (s : System) → OpensNone event → IsSilent out s → IsSilent out (step event s)
  unfolding step close_conn drain_conn fail_conn poll
  step-IsSilent (opens i n) s o v = absurd o
  step-IsSilent (closes i) s o v = conn-IsSilent i close_conn s (λ c h. (refl, h.1)) v
  step-IsSilent (drains i n) s o v = conn-IsSilent i (drain_conn n) s (λ c h. h) v
  step-IsSilent (turns throws i) s o v = turn-IsSilent throws i s v
  step-IsSilent (fails i) s o v =
      conn-IsSilent i fail_conn s (λ c h. (h.0, fails-IsShut c.kind c.pump h.1)) v
  step-IsSilent polls s o v = ground (arith, v.sent, v.conns)

  run-IsSilent :
      (es : List Event) (s : System) → All OpensNone es → IsSilent out s → IsSilent out (run es s)
  unfolding run
  run-IsSilent [] s o v = v
  run-IsSilent (event ∷ es) s o v = run-IsSilent es (step event s) o.1 (step-IsSilent event s o.0 v)

-- A socket that is open is ready, and no relay pump is at its yield.
abbrev pub IsAtEase : Conn → Type 0
IsAtEase c = ((c.ready ≡ true) ⊎ (c.open_now ≡ false)) × IsAwake c.kind c.pump

shut-IsShut : (c : Conn) → IsAtEase c → IsShut (shut c)
unfolding shut close_conn
shut-IsShut c h = by_kind c.kind h.1
  where
    by_kind :
        (k : Kind)
        → IsAwake c.kind c.pump
        → IsShut (elim k [ relay ↦ if c.ready then close_conn c else c | p2p ↦ close_conn c ])
    by_kind p2p a = (refl, a)
    by_kind relay a = elim h.0 [
      | inl on ↦ subst (λ b. IsShut (if b then close_conn c else c)) (sym on) (refl, a)
      | inr off ↦ by_ready c.ready off a
    ]
      where
        by_ready :
            (b : Bool)
            → c.open_now ≡ false
            → IsAwake c.kind c.pump
            → IsShut (if b then close_conn c else c)
        by_ready true off b = (refl, b)
        by_ready false off b = (off, b)

-- If `destroy` runs while no relay pump is at its yield, and no socket opens afterwards, then nothing
-- more is sent, whatever the pumps that still run do.
pub run-destroyed :
    (s : System) (es : List Event)
    → All IsAtEase s.conns
    → All OpensNone es
    → (run es (destroy s)).sent ≡ s.sent
unfolding destroy
run-destroyed s es ease o =
    (run-IsSilent s.sent es (destroy s) o
      (record { sent = refl; conns = All-map IsAtEase IsShut shut s.conns shut-IsShut ease })).sent
