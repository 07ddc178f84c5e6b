-- ===== src/Streams/Closed.antt =====
-- A relay pump that comes back from its yield to a socket that has closed meanwhile.
use p2ptransfer.Base.{
  ℕ, ◌+◌, ◌≤◌, ◌<◌, ◌≡◌, inl, inr, refl, sym, ap, ◌∙◌, List, [], ◌∷◌, ◌++◌, some, Bool, false,
  arith, count, count-append, length, length-append, inside, get_elem?, append-nil, append_assoc,
  ltb-false, Option-cases, if◌then◌else◌,
}
use p2ptransfer.Wire.{Bytes}
use p2ptransfer.Batch.{Chunk}
use p2ptransfer.Sender.{Engine}
use p2ptransfer.Streams.{
  relay, buf_high, waiting, Conn, System, Round, round, goes, give_up, resumed, try_send, indices,
}
use p2ptransfer.Streams.Invariant.{indices-append}
use p2ptransfer.Streams.Exactly.{after-Inv, run-conserves}
use p2ptransfer.Streams.Schedule.{
  after_round, turn, try_start, poll, Event, opens, closes, drains, turns, fails, polls, step, run,
  create_offer,
}

-- What has been sent stays sent: every event adds to the end.
abbrev Grows : System → System → Type 0
Grows s t = (more : List Chunk) × (t.sent ≡ s.sent ++ more)

same : (s t : System) → t.sent ≡ s.sent → Grows s t
same s t e = ([], e ∙ sym (append-nil s.sent))

turn-Grows : (throws : Bool) (i : ℕ) (s : System) → Grows s (turn throws i s)
unfolding turn after_round
turn-Grows throws i s = elim (Option-cases (get_elem? s.conns i)) [
  | inl gone ↦ rw (gone, turn) (same s s refl)
  | inr (c, at) ↦ rw (at, turn) ((round throws s.engine c.pump c).out, refl)
]

step-Grows : (e : Event) (s : System) → Grows s (step e s)
unfolding step try_start poll
step-Grows (opens i n) s = same s (step (opens i n) s) (ground arith)
step-Grows (closes i) s = same s (step (closes i) s) refl
step-Grows (drains i n) s = same s (step (drains i n) s) refl
step-Grows (turns throws i) s = turn-Grows throws i s
step-Grows (fails i) s = same s (step (fails i) s) refl
step-Grows polls s = same s (step polls s) (ground arith)

run-Grows : (es : List Event) (s : System) → Grows s (run es s)
unfolding run
run-Grows [] s = same s s refl
run-Grows (e ∷ es) s =
    let one = step-Grows e s in
    let rest = run-Grows es (step e s) in
    (one.0 ++ rest.0, rest.1 ∙ ap (λ xs. xs ++ rest.0) one.1 ∙ append_assoc s.sent one.0 rest.0)

run-append : (es fs : List Event) (s : System) → run (es ++ fs) s ≡ run fs (run es s)
unfolding run
run-append [] fs s = refl
run-append (e ∷ es) fs s = run-append es fs (step e s)

inside_one : (s n a : ℕ) → inside s n a ≤ 1
inside_one s n a = ground arith

-- The round itself: the chunk is handed to the socket and counted, whether it is open or not.
closed_round :
    (e : Engine) (c : Conn) (chunk : Chunk) (rest : List Chunk)
    → c.kind ≡ relay
    → c.buffered ≤ buf_high relay
    → (round false e (waiting (chunk ∷ rest)) c).out ≡ chunk ∷ []
unfolding round resumed try_send
closed_round e c chunk rest k room =
    ap (λ kind. (resumed kind false chunk rest e c).out) k
    ∙ ap (λ full. (if full then full_now else try_send false chunk rest e c).out)
        (ltb-false (buf_high relay) c.buffered room)
  where
    full_now : Round
    full_now = if c.open_now then goes (waiting (chunk ∷ rest)) e c else give_up (chunk ∷ rest) e c

closed_turn :
    (i : ℕ) (s : System) (c : Conn) (chunk : Chunk) (rest : List Chunk)
    → get_elem? s.conns i ≡ some c
    → c.kind ≡ relay
    → c.pump ≡ waiting (chunk ∷ rest)
    → c.buffered ≤ buf_high relay
    → (step (turns false i) s).sent ≡ s.sent ++ chunk ∷ []
unfolding step turn after_round
closed_turn i s c chunk rest at k w room =
    rw (at, turn)
      (ap (λ out. s.sent ++ out)
        (ap (λ p. (round false s.engine p c).out) w ∙ closed_round s.engine c chunk rest k room))

counted_in :
    (front back : List Chunk) (chunk : Chunk)
    → 0 < count chunk.index (indices ((front ++ chunk ∷ []) ++ back))
counted_in front back chunk =
    let whole = indices-append (front ++ chunk ∷ []) back in
    let inner = indices-append front (chunk ∷ []) in
    rw (whole, inner)
      (omega (
        arith,
        count-append chunk.index (indices front ++ chunk.index ∷ []) (indices back),
        count-append chunk.index (indices front) (chunk.index ∷ []),
        here chunk.index,
      ))
  where
    here : (a : ℕ) → count a (a ∷ []) ≡ 1
    here a = ground arith

-- The counter stands at the number of chunks that have been sent, before and after.
counted_turn :
    (file : Bytes) (es : List Event) (i : ℕ) (chunk : Chunk)
    → (step (turns false i) (run es (create_offer file))).sent
      ≡ (run es (create_offer file)).sent ++ chunk ∷ []
    → (step (turns false i) (run es (create_offer file))).engine.sent_chunks
      ≡ (run es (create_offer file)).engine.sent_chunks + 1
unfolding run
counted_turn file es i chunk now =
    let before = (after-Inv file es).ledger.sent in
    let whole = (after-Inv file (es ++ turns false i ∷ [])).ledger.sent in
    let both = run-append es (turns false i ∷ []) (create_offer file) in
    omega (
      arith,
      before,
      sym (ap (λ (t : System). t.engine.sent_chunks) both)
          ∙ whole
          ∙ ap (λ (t : System). length t.sent) both,
      ap length now,
      length-append (run es (create_offer file)).sent (chunk ∷ []),
    )

-- A relay pump that has yielded to a full buffer comes back, and the buffer is not full any more.
-- Whether its socket is still open or not, it hands its next chunk to it, and counts it as sent if
-- `send` does not throw, as that of a closed socket does not. Whatever happens afterwards, under any
-- schedule, this is the one time that the chunk is sent by any pump, and it never gets back into the
-- retry queue.
pub sent_unchecked :
    (file : Bytes) (es fs : List Event) (i : ℕ) (c : Conn) (chunk : Chunk) (rest : List Chunk)
    → get_elem? (run es (create_offer file)).conns i ≡ some c
    → c.kind ≡ relay
    → c.pump ≡ waiting (chunk ∷ rest)
    → c.buffered ≤ buf_high relay
    → ((step (turns false i) (run es (create_offer file))).sent
        ≡ (run es (create_offer file)).sent ++ chunk ∷ [])
      × ((step (turns false i) (run es (create_offer file))).engine.sent_chunks
          ≡ (run es (create_offer file)).engine.sent_chunks + 1)
      × (count chunk.index (indices (run (es ++ turns false i ∷ fs) (create_offer file)).sent) ≡ 1)
      × (count chunk.index (run (es ++ turns false i ∷ fs) (create_offer file)).engine.retry_indices
          ≡ 0)
unfolding run
sent_unchecked file es fs i c chunk rest at k w room =
    let s = run es (create_offer file) in
    let now = closed_turn i s c chunk rest at k w room in
    let later = run-Grows fs (step (turns false i) s) in
    let all = run-append es (turns false i ∷ fs) (create_offer file) in
    let sent = ap System.sent all ∙ later.1 ∙ ap (λ xs. xs ++ later.0) now in
    let some_sent = counted_in s.sent later.0 chunk in
    let sent_count = ap (λ xs. count chunk.index (indices xs)) sent in
    let kept = run-conserves file (es ++ turns false i ∷ fs) chunk.index in
    let one =
      inside_one 0 (run (es ++ turns false i ∷ fs) (create_offer file)).engine.next_chunk_index
        chunk.index in
    (
      now,
      counted_turn file es i chunk now,
      omega (arith, some_sent, sent_count, kept.0, one),
      omega (arith, some_sent, sent_count, kept.0, one),
    )
