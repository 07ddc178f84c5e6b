-- ===== src/Streams/Starting.antt =====
-- A change of one connection, and `_tryStart`, keep the sender's invariant.
use p2ptransfer.Base.{
  ℕ, ◌≡◌, refl, sym, ap, ◌∙◌, List, [], ◌∷◌, map, Bool, true, false, ◌&&◌, ◌==◌, ltb, if◌then◌else◌,
  arith, length, count, inside, All,
}
use p2ptransfer.Wire.{Bytes}
use p2ptransfer.Batch.{Chunk}
use p2ptransfer.Sender.{Engine, start_sending}
use p2ptransfer.Streams.{unstarted, Conn, System}
use p2ptransfer.Streams.Flight.{flight, sizes, IsSound}
use p2ptransfer.Streams.Conns.{
  flights, All-on_conn, All-map, flights-on_conn, IsConsistent, flights-launch, launch-IsConsistent,
}
use p2ptransfer.Streams.Invariant.{Ledger, Launched, Inv}
use p2ptransfer.Streams.Schedule.{launch, try_start, on_conn, any_ready}

start_sending-started : (e : Engine) → (start_sending e).sending_started ≡ true
unfolding start_sending
start_sending-started e = refl

pub sizes_none : (xs : List Chunk) → length xs ≡ 0 → sizes xs ≡ 0
sizes_none [] h = refl
sizes_none (x ∷ xs) h = absurd (omega arith)

module _ (file : Bytes) where
  -- A change of one connection that leaves its pump's chunks alone.
  pub conn-Inv :
      (i : ℕ) (f : Conn → Conn) (s : System)
      → ((c : Conn) → flight (f c).pump ≡ flight c.pump)
      → ((c : Conn) → IsSound file c.pump → IsSound file (f c).pump)
      → ((c : Conn) → (f c).pump_started ≡ c.pump_started)
      → ((c : Conn) → c.pump ≡ unstarted → (f c).pump ≡ unstarted)
      → Inv file s
      → Inv file (record s { conns = on_conn i f s.conns })
  conn-Inv i f s same sound started quiet v =
      let l = v.ledger in
      let flights_same : flights (on_conn i f s.conns) ≡ flights s.conns =
        flights-on_conn i f s.conns same in
      record {
        ledger = record {
          fits = l.fits;
          conserved = λ a. omega (arith, l.conserved a, ap (count a) flights_same);
          lengths = omega (arith, l.lengths, ap length flights_same);
          genuine = l.genuine;
          sent = l.sent;
          bytes = l.bytes;
          fired = l.fired;
          completions = l.completions;
        };
        launched = record {
          sound =
              All-on_conn (λ (x : Conn). IsSound file x.pump) i f s.conns sound v.launched.sound;
          consistent =
              All-on_conn IsConsistent i f s.conns (λ c h off. quiet c (h (sym (started c) ∙ off)))
                v.launched.consistent;
          idle = λ off.
              All-on_conn (λ (x : Conn). x.pump_started ≡ false) i f s.conns (λ c h. started c ∙ h)
                (v.launched.idle off);
          unused = v.launched.unused;
        };
      }

  launch-Ledger :
      (s : System)
      → All IsConsistent s.conns
      → Ledger file s
      → Ledger file (record s { conns = map launch s.conns })
  launch-Ledger s h l =
      let same : flights (map launch s.conns) ≡ flights s.conns = flights-launch s.conns h in
      record {
        fits = l.fits;
        conserved = λ a. omega (arith, l.conserved a, ap (count a) same);
        lengths = omega (arith, l.lengths, ap length same);
        genuine = l.genuine;
        sent = l.sent;
        bytes = l.bytes;
        fired = l.fired;
        completions = l.completions;
      }

  -- The reset of the counters by the first start changes none of them.
  start-Ledger :
      (s : System)
      → s.engine.next_chunk_index ≡ 0
      → Ledger file s
      → Ledger file (record s { engine = start_sending s.engine })
  unfolding start_sending
  start-Ledger s none_claimed l =
      let nothing : length s.sent ≡ 0 = omega (arith, l.lengths) in
      record {
        fits = record { file_kept = l.fits.file_kept; total = l.fits.total; next_le = omega arith };
        conserved = λ a. l.conserved a ∙ ap (λ n. inside 0 n a) none_claimed;
        lengths = omega (arith, l.lengths);
        genuine = l.genuine;
        sent = sym nothing;
        bytes = sym (sizes_none s.sent nothing);
        fired =
            l.fired
            ∙ ap (λ n. ltb 0 s.engine.total_chunks && (n == s.engine.total_chunks))
                (l.sent ∙ nothing);
        completions = l.completions;
      }

  launch-IsSound : (c : Conn) → IsSound file c.pump → IsSound file (launch c).pump
  unfolding launch
  launch-IsSound c h = ground arith

  launch-Launched :
      (e : Engine) (s : System)
      → e.sending_started ≡ true
      → Launched file s
      → Launched file (record s { engine = e; conns = map launch s.conns })
  launch-Launched e s on l = record {
    sound =
        All-map (λ (x : Conn). IsSound file x.pump) (λ (x : Conn). IsSound file x.pump) launch
          s.conns launch-IsSound l.sound;
    consistent = All-map IsConsistent IsConsistent launch s.conns launch-IsConsistent l.consistent;
    idle = λ off. cc;
    unused = λ off. cc;
  }

  pub try_start-Inv : (s : System) → Inv file s → Inv file (try_start s)
  unfolding try_start
  try_start-Inv s v = by_state s.engine.sending_started refl (any_ready s.conns)
    where
      restarted : System
      restarted = record s { engine = start_sending s.engine; conns = map launch s.conns }

      by_state :
          (on : Bool)
          → s.engine.sending_started ≡ on
          → (some_ready : Bool)
          → Inv file (
              if on
              then record s { conns = map launch s.conns }
              else (if some_ready then restarted else s))
      by_state true on some_ready = record {
        ledger = launch-Ledger s v.launched.consistent v.ledger;
        launched = launch-Launched s.engine s on v.launched;
      }
      by_state false off true = record {
        ledger =
            launch-Ledger (record s { engine = start_sending s.engine }) v.launched.consistent
              (start-Ledger s (v.launched.unused off) v.ledger);
        launched =
            launch-Launched (start_sending s.engine) s (start_sending-started s.engine) v.launched;
      }
      by_state false off false = v
