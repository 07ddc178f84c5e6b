-- ===== src/Streams/Abandoned.antt =====
-- A pump that waits for its buffer to drain and is never called back, as a data channel does that
-- closes meanwhile: `onbufferedamountlow` does not come, and nothing else resolves the promise.
use p2ptransfer.Base.{
  ℕ, zero, suc, ◌≤◌, ◌<◌, ◌≡◌, refl, sym, ap, subst, List, [], ◌∷◌, map, some, Bool, true, false,
  arith, length, All, get_elem?, set, ◌==◌, Option-cases, inl, inr, length-append, some-injective,
}
use p2ptransfer.Wire.{Bytes}
use p2ptransfer.Batch.{Chunk}
use p2ptransfer.Streams.{waiting, Conn, System, round, read_fails}
use p2ptransfer.Streams.Flight.{flight}
use p2ptransfer.Streams.Conns.{flights}
use p2ptransfer.Streams.Events.{run-Inv}
use p2ptransfer.Streams.Backpressure.{try_start-conns, poll-conns}
use p2ptransfer.Streams.Exactly.{after-Inv}
use p2ptransfer.Streams.Schedule.{
  launch, try_start, on_conn, open_conn, close_conn, drain_conn, fail_conn, turn, after_round,
  Event, opens, closes, drains, turns, fails, polls, step, run, create_offer,
}

-- Not a round of the pump at place `i`.
abbrev pub IsElsewhere : ℕ → Event → Type 0
IsElsewhere i (opens j n) = Unit {0}
IsElsewhere i (closes j) = Unit {0}
IsElsewhere i (drains j n) = Unit {0}
IsElsewhere i (turns throws j) = (i == j) ≡ false
IsElsewhere i (fails j) = Unit {0}
IsElsewhere i polls = Unit {0}

-- The pump of a connection waits with this batch.
abbrev pub Holds : List Chunk → Conn → Type 0
Holds batch c = (c.pump ≡ waiting batch) × (c.pump_started ≡ true)

-- The connection at place `i` is one of these.
abbrev pub At : ℕ → (Conn → Type 0) → List Conn → Type 0
At i P cs = (c : Conn) × (get_elem? cs i ≡ some c) × P c

module _ (P : Conn → Type 0) where
  At-on_conn :
      (i j : ℕ) (f : Conn → Conn) (cs : List Conn)
      → ((c : Conn) → P c → P (f c))
      → At i P cs
      → At i P (on_conn j f cs)
  unfolding on_conn
  At-on_conn i j f [] keep h = h
  At-on_conn zero zero f (c ∷ cs) keep (d, at, p) =
      (f c, refl, keep c (subst P (sym (some-injective c d at)) p))
  At-on_conn zero (suc j) f (c ∷ cs) keep h = h
  At-on_conn (suc i) zero f (c ∷ cs) keep h = h
  At-on_conn (suc i) (suc j) f (c ∷ cs) keep h = At-on_conn i j f cs keep h

  At-map :
      (i : ℕ) (f : Conn → Conn) (cs : List Conn)
      → ((c : Conn) → P c → P (f c))
      → At i P cs
      → At i P (map f cs)
  At-map i f [] keep (d, at, p) = absurd (ground arith)
  At-map zero f (c ∷ cs) keep (d, at, p) =
      (f c, refl, keep c (subst P (sym (some-injective c d at)) p))
  At-map (suc i) f (c ∷ cs) keep h = At-map i f cs keep h

  At-set :
      (i j : ℕ) (c : Conn) (cs : List Conn) → (i == j) ≡ false → At i P cs → At i P (set cs j c)
  At-set i j c [] apart h = h
  At-set zero zero c (d ∷ cs) apart h = absurd (ground (arith, apart))
  At-set zero (suc j) c (d ∷ cs) apart h = h
  At-set (suc i) zero c (d ∷ cs) apart h = h
  At-set (suc i) (suc j) c (d ∷ cs) apart h = At-set i j c cs (ground (arith, apart)) h

launch-Holds : (batch : List Chunk) (c : Conn) → Holds batch c → Holds batch (launch c)
unfolding launch
launch-Holds batch c (p, on) = ground (arith, p, on)

open_conn-Holds :
    (batch : List Chunk) (n : ℕ) (c : Conn) → Holds batch c → Holds batch (open_conn n c)
unfolding open_conn
open_conn-Holds batch n c (p, on) = ground (arith, p, on)

fail_conn-Holds : (batch : List Chunk) (c : Conn) → Holds batch c → Holds batch (fail_conn c)
unfolding fail_conn read_fails
fail_conn-Holds batch c (p, on) = (ap read_fails p, on)

try_start-At :
    (i : ℕ) (batch : List Chunk) (s : System)
    → At i (Holds batch) s.conns
    → At i (Holds batch) (try_start s).conns
try_start-At i batch s h = elim (try_start-conns s) [
  | inl launched ↦
      subst (At i (Holds batch)) (sym launched)
        (At-map (Holds batch) i launch s.conns (launch-Holds batch) h)
  | inr same ↦ subst (At i (Holds batch)) (sym same) h
]

turn-At :
    (throws : Bool) (i j : ℕ) (batch : List Chunk) (s : System)
    → (i == j) ≡ false
    → At i (Holds batch) s.conns
    → At i (Holds batch) (turn throws j s).conns
unfolding turn after_round
turn-At throws i j batch s apart h = elim (Option-cases (get_elem? s.conns j)) [
  | inl gone ↦ rw (gone, turn) h
  | inr (c, at) ↦
      rw (at, turn) (At-set (Holds batch) i j (round throws s.engine c.pump c).conn s.conns apart h)
]

step-At :
    (i : ℕ) (batch : List Chunk) (e : Event) (s : System)
    → IsElsewhere i e
    → At i (Holds batch) s.conns
    → At i (Holds batch) (step e s).conns
unfolding step
step-At i batch (opens j n) s q h =
    try_start-At i batch _
      (At-on_conn (Holds batch) i j (open_conn n) s.conns (open_conn-Holds batch n) h)
step-At i batch (closes j) s q h = At-on_conn (Holds batch) i j close_conn s.conns (λ c p. p) h
step-At i batch (drains j n) s q h =
    At-on_conn (Holds batch) i j (drain_conn n) s.conns (λ c p. p) h
step-At i batch (turns throws j) s q h = turn-At throws i j batch s q h
step-At i batch (fails j) s q h =
    At-on_conn (Holds batch) i j fail_conn s.conns (fail_conn-Holds batch) h
step-At i batch polls s q h = subst (At i (Holds batch)) (sym (poll-conns s)) h

run-At :
    (i : ℕ) (batch : List Chunk) (es : List Event) (s : System)
    → All (IsElsewhere i) es
    → At i (Holds batch) s.conns
    → At i (Holds batch) (run es s).conns
unfolding run
run-At i batch [] s q h = h
run-At i batch (e ∷ es) s q h = run-At i batch es (step e s) q.1 (step-At i batch e s q.0 h)

flights-at :
    (i : ℕ) (cs : List Conn) (c : Conn)
    → get_elem? cs i ≡ some c
    → length (flight c.pump) ≤ length (flights cs)
flights-at i [] c at = absurd (ground arith)
flights-at zero (d ∷ cs) c at = omega (
  arith,
  length-append (flight d.pump) (flights cs),
  ap (λ (x : Conn). length (flight x.pump)) (some-injective d c at),
)
flights-at (suc i) (d ∷ cs) c at =
    omega (arith, length-append (flight d.pump) (flights cs), flights-at i cs c at)

-- After any schedule, if a pump waits with a batch that has a chunk left and then never has another
-- round, whatever else happens on all connections: the pump still waits with the same batch, so its
-- chunks are in no retry queue, the transfer is never declared complete and `onComplete` does not run.
pub run-abandoned :
    (file : Bytes) (es later : List Event) (i : ℕ) (chunk : Chunk) (rest : List Chunk)
    → At i (Holds (chunk ∷ rest)) (run es (create_offer file)).conns
    → All (IsElsewhere i) later
    → At i (Holds (chunk ∷ rest)) (run later (run es (create_offer file))).conns
      × ((run later (run es (create_offer file))).engine.complete_fired ≡ false)
      × ((run later (run es (create_offer file))).engine.completions ≡ 0)
run-abandoned file es later i chunk rest h q =
    let still = run-At i (chunk ∷ rest) later (run es (create_offer file)) q h in
    let l = (run-Inv file later (run es (create_offer file)) (after-Inv file es)).ledger in
    let (c, at, (waits, on)) = still in
    let some_left : 0 < length (flight c.pump) =
      subst (λ p. 0 < length (flight p)) (sym waits) (omega arith) in
    let held = flights-at i _ c at in
    let not_fired : (run later (run es (create_offer file))).engine.complete_fired ≡ false =
      ground (arith, l.fired, l.sent, l.lengths, l.fits.next_le, l.fits.total, some_left, held) in
    (still, not_fired, ground (arith, l.completions, not_fired))
