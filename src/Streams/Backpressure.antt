-- ===== src/Streams/Backpressure.antt =====
-- The pumps do not fill a connection's buffer beyond the high-water mark and one frame.
use p2ptransfer.Base.{
  ℕ, ◌+◌, ◌*◌, ◌≤◌, ◌≡◌, refl, sym, ◌∙◌, subst, List, [], ◌∷◌, map, Option, none, some, Bool, arith,
  length, All, get_elem?, Option-cases, ◌⊎◌, inl, inr,
}
use p2ptransfer.Wire.{Bytes, payload}
use p2ptransfer.Wire.Codec.{length-frame}
use p2ptransfer.Wire.Split.{length-payload}
use p2ptransfer.Batch.{Chunk, Claim, read_claim}
use p2ptransfer.Batch.Fast.{read_chunk-payload}
use p2ptransfer.Sender.{Engine}
use p2ptransfer.Streams.{
  Kind, relay, p2p, Pump, unstarted, testing, ended, reading, rejected, sending, waiting, Conn,
  System, buf_high, give_up, try_send, send_or_wait, inner, resumed, batch_done, next_batch,
  batch_read, round,
}
use p2ptransfer.Streams.Conns.{All-get_elem?, All-set, All-on_conn, All-map}
use p2ptransfer.Streams.Flight.{IsSound, IsGenuine}
use p2ptransfer.Streams.Invariant.{Inv}
use p2ptransfer.Streams.Events.{step-Inv, create_offer-Inv, All-new}
use p2ptransfer.Streams.Schedule.{
  launch, try_start, open_conn, close_conn, drain_conn, fail_conn, poll, turn, after_round, Event,
  opens, closes, drains, turns, fails, polls, step, run, create_offer,
}

-- 65,536: the header and a full payload.
abbrev pub max_frame : ℕ
max_frame = 64 * 1024

abbrev pub Within : Conn → Type 0
Within c = c.buffered ≤ buf_high c.kind + max_frame

pub try_start-conns :
    (s : System) → ((try_start s).conns ≡ map launch s.conns) ⊎ ((try_start s).conns ≡ s.conns)
unfolding try_start
try_start-conns s = grind arith

pub poll-conns : (s : System) → (poll s).conns ≡ s.conns
unfolding poll
poll-conns s = ground arith

low_enough : (k : Kind) → buf_high p2p ≤ buf_high k
low_enough relay = omega arith
low_enough p2p = omega arith

module _ (file : Bytes) where
  frame_le : (c : Chunk) → IsGenuine file c → length c.frame ≤ max_frame
  frame_le c g =
      subst (λ (d : Chunk). length d.frame ≤ max_frame) (sym (g ∙ read_chunk-payload file c.index))
        (omega (arith, length-frame c.index (payload file c.index), length-payload file c.index))

  try_send-Within :
      (throws : Bool) (chunk : Chunk) (rest : List Chunk) (e : Engine) (c : Conn)
      → IsGenuine file chunk
      → c.buffered ≤ buf_high c.kind
      → Within (try_send throws chunk rest e c).conn
  unfolding try_send give_up
  try_send-Within throws chunk rest e c g le = ground (arith, frame_le chunk g)

  inner-Within :
      (throws : Bool) (chunk : Chunk) (rest : List Chunk) (e : Engine) (c : Conn)
      → IsGenuine file chunk
      → Within c
      → Within (inner throws chunk rest e c).conn
  unfolding inner send_or_wait try_send give_up
  inner-Within throws chunk rest e c g w = ground (arith, frame_le chunk g)

  resumed-Within :
      (kind : Kind) (throws : Bool) (chunk : Chunk) (rest : List Chunk) (e : Engine) (c : Conn)
      → kind ≡ c.kind
      → IsGenuine file chunk
      → Within c
      → Within (resumed kind throws chunk rest e c).conn
  unfolding resumed try_send give_up
  resumed-Within relay throws chunk rest e c same g w = ground (arith, frame_le chunk g)
  resumed-Within p2p throws chunk rest e c same g w = inner-Within throws chunk rest e c g w

  batch_read-Within :
      (batch : Option (List Chunk)) (claim : Claim) (e : Engine) (c : Conn)
      → Within c
      → Within (batch_read batch claim e c).conn
  unfolding batch_read
  batch_read-Within none claim e c w = w
  batch_read-Within (some []) claim e c w = w
  batch_read-Within (some (chunk ∷ rest)) claim e c w = w

  batch_done-Within :
      (kind : Kind) (e : Engine) (c : Conn) → Within c → Within (batch_done kind e c).conn
  unfolding batch_done
  batch_done-Within relay e c w = w
  batch_done-Within p2p e c w = ground arith

  next_batch-Within : (e : Engine) (c : Conn) → Within c → Within (next_batch e c).conn
  unfolding next_batch
  next_batch-Within e c w = ground arith

  pub round-Within :
      (throws : Bool) (e : Engine) (p : Pump) (c : Conn)
      → IsSound file p
      → Within c
      → Within (round throws e p c).conn
  unfolding round
  round-Within throws e unstarted c s w = w
  round-Within throws e ended c s w = w
  round-Within throws e (rejected claim) c s w = w
  round-Within throws e testing c s w = next_batch-Within e c w
  round-Within throws e (reading claim) c s w =
      batch_read-Within (read_claim e.file claim) claim e c w
  round-Within throws e (sending []) c s w = batch_done-Within c.kind e c w
  round-Within throws e (sending (chunk ∷ rest)) c s w = inner-Within throws chunk rest e c s.0 w
  round-Within throws e (waiting []) c s w = batch_done-Within c.kind e c w
  round-Within throws e (waiting (chunk ∷ rest)) c s w =
      resumed-Within c.kind throws chunk rest e c refl s.0 w

  -- The file info that is sent when a connection opens fits into the buffer.
  abbrev pub FitsInfo : Event → Type 0
  FitsInfo (opens i n) = n ≤ buf_high p2p + max_frame
  FitsInfo (closes i) = Unit {0}
  FitsInfo (drains i n) = Unit {0}
  FitsInfo (turns throws i) = Unit {0}
  FitsInfo (fails i) = Unit {0}
  FitsInfo polls = Unit {0}

  launch-Within : (c : Conn) → Within c → Within (launch c)
  unfolding launch
  launch-Within c w = ground arith

  try_start-Within : (s : System) → All Within s.conns → All Within (try_start s).conns
  try_start-Within s w = elim (try_start-conns s) [
    | inl launched ↦
        subst (All Within) (sym launched) (All-map Within Within launch s.conns launch-Within w)
    | inr same ↦ subst (All Within) (sym same) w
  ]

  turn-Within :
      (throws : Bool) (i : ℕ) (s : System)
      → Inv file s
      → All Within s.conns
      → All Within (turn throws i s).conns
  unfolding turn after_round
  turn-Within throws i s v w = elim (Option-cases (get_elem? s.conns i)) [
    | inl gone ↦ rw (gone, turn) w
    | inr (c, at) ↦
        rw (at, turn)
          (All-set Within i s.conns (round throws s.engine c.pump c).conn
            (round-Within throws s.engine c.pump c
              (All-get_elem? (λ (x : Conn). IsSound file x.pump) i s.conns at v.launched.sound)
              (All-get_elem? Within i s.conns at w))
            w)
  ]

  open_conn-Within :
      (n : ℕ) (c : Conn) → n ≤ buf_high p2p + max_frame → Within c → Within (open_conn n c)
  unfolding open_conn
  open_conn-Within n c le w = ground (arith, low_enough c.kind)

  step-Within :
      (e : Event) (s : System)
      → FitsInfo e
      → Inv file s
      → All Within s.conns
      → All Within (step e s).conns
  unfolding step
  step-Within (opens i n) s fits v w =
      try_start-Within _
        (All-on_conn Within i (open_conn n) s.conns (λ c h. open_conn-Within n c fits h) w)
  step-Within (closes i) s fits v w = All-on_conn Within i close_conn s.conns (λ c h. h) w
  step-Within (drains i n) s fits v w =
      All-on_conn Within i (drain_conn n) s.conns (λ c h. omega arith) w
  step-Within (turns throws i) s fits v w = turn-Within throws i s v w
  step-Within (fails i) s fits v w = All-on_conn Within i fail_conn s.conns (λ c h. h) w
  step-Within polls s fits v w = subst (All Within) (sym (poll-conns s)) w

  run-Within :
      (es : List Event) (s : System)
      → All FitsInfo es
      → Inv file s
      → All Within s.conns
      → All Within (run es s).conns
  unfolding run
  run-Within [] s fits v w = w
  run-Within (e ∷ es) s fits v w =
      run-Within es (step e s) fits.1 (step-Inv file e s v) (step-Within e s fits.0 v w)

  -- Under every schedule, no connection buffers more than the high-water mark of its kind and one frame
  -- of 64 KB, if the file info is no longer than the P2P mark and such a frame.
  pub create_offer-Within :
      (es : List Event) → All FitsInfo es → All Within (run es (create_offer file)).conns
  unfolding create_offer
  create_offer-Within es fits =
      run-Within es (create_offer file) fits (create_offer-Inv file)
        (All-new Within (omega arith) (omega arith))
