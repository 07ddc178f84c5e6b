-- ===== src/Streams/Events.antt =====
-- Every event keeps the sender's invariant, and so does every schedule.
use p2ptransfer.Base.{
  ℕ, zero, suc, ◌≡◌, refl, ap, List, [], ◌∷◌, ◌++◌, Bool, true, false, ◌==◌, if◌then◌else◌, arith,
  All, All-append,
}
use p2ptransfer.Wire.{Bytes}
use p2ptransfer.Sender.{drained}
use p2ptransfer.Streams.{
  Pump, unstarted, testing, ended, reading, rejected, sending, waiting, Conn, System, read_fails,
  relay, p2p, new_conn,
}
use p2ptransfer.Streams.Flight.{IsSound}
use p2ptransfer.Streams.Conns.{IsConsistent, flight-fail_conn}
use p2ptransfer.Streams.Invariant.{Ledger, Launched, Inv, turn-Inv}
use p2ptransfer.Streams.Schedule.{
  open_conn, close_conn, drain_conn, fail_conn, poll, Event, opens, closes, drains, turns, fails,
  polls, step, run, create_offer, total_buffered, repeat, num_relay, num_p2p,
}
use p2ptransfer.Streams.Starting.{conn-Inv, try_start-Inv}

module _ (P : Conn → Type 0) where
  All-repeat : (n : ℕ) (c : Conn) → P c → All P (repeat n c)
  unfolding repeat
  All-repeat zero c h = tt
  All-repeat (suc n) c h = (h, All-repeat n c h)

  pub All-new :
      P (new_conn relay)
      → P (new_conn p2p)
      → All P (repeat num_relay (new_conn relay) ++ repeat num_p2p (new_conn p2p))
  All-new h k =
      All-append P (repeat num_relay (new_conn relay)) (repeat num_p2p (new_conn p2p))
        (All-repeat num_relay (new_conn relay) h) (All-repeat num_p2p (new_conn p2p) k)

module _ (file : Bytes) where
  -- The end of `_waitForDrain` changes only what it reports.
  drained-Ledger :
      (s : System) → Ledger file s → Ledger file (record s { engine = drained s.engine })
  unfolding drained
  drained-Ledger s l = record {
    fits = record {
      file_kept = ground (arith, l.fits.file_kept);
      total = ground (arith, l.fits.total);
      next_le = ground (arith, l.fits.next_le);
    };
    conserved = λ a. ground (arith, l.conserved a);
    lengths = ground (arith, l.lengths);
    genuine = l.genuine;
    sent = ground (arith, l.sent);
    bytes = ground (arith, l.bytes);
    fired = ground (arith, l.fired);
    completions = ground (arith, l.completions);
  }

  drained-Launched :
      (s : System) → Launched file s → Launched file (record s { engine = drained s.engine })
  unfolding drained
  drained-Launched s l = record {
    sound = l.sound;
    consistent = l.consistent;
    idle = λ off. l.idle (ground arith);
    unused = λ off. ground (arith, l.unused);
  }

  poll-Inv : (s : System) → Inv file s → Inv file (poll s)
  unfolding poll
  poll-Inv s v = by_test (total_buffered s.conns == 0)
    where
      by_test : (b : Bool) → Inv file (if b then record s { engine = drained s.engine } else s)
      by_test true = record {
        ledger = drained-Ledger s v.ledger;
        launched = drained-Launched s v.launched;
      }
      by_test false = v

  fails-IsSound : (p : Pump) → IsSound file p → IsSound file (read_fails p)
  unfolding read_fails
  fails-IsSound unstarted h = h
  fails-IsSound testing h = h
  fails-IsSound ended h = h
  fails-IsSound (reading claim) h = h
  fails-IsSound (rejected claim) h = h
  fails-IsSound (sending batch) h = h
  fails-IsSound (waiting batch) h = h

  -- Every event keeps the invariant.
  pub step-Inv : (e : Event) (s : System) → Inv file s → Inv file (step e s)
  unfolding step open_conn close_conn drain_conn fail_conn
  step-Inv (opens i n) s v = try_start-Inv file _ (
      conn-Inv file i (open_conn n) s (λ c. ground arith) (λ c h. ground arith) (λ c. ground arith)
        (λ c h. ground arith) v)
  step-Inv (closes i) s v =
      conn-Inv file i close_conn s (λ c. refl) (λ c h. h) (λ c. refl) (λ c h. h) v
  step-Inv (drains i n) s v =
      conn-Inv file i (drain_conn n) s (λ c. refl) (λ c h. h) (λ c. refl) (λ c h. h) v
  step-Inv (turns throws i) s v = turn-Inv file throws i s v
  step-Inv (fails i) s v =
      conn-Inv file i fail_conn s flight-fail_conn (λ c h. fails-IsSound c.pump h) (λ c. refl)
        (λ c h. ap read_fails h) v
  step-Inv polls s v = poll-Inv s v

  -- So does every schedule.
  pub run-Inv : (es : List Event) (s : System) → Inv file s → Inv file (run es s)
  unfolding run
  run-Inv [] s v = v
  run-Inv (e ∷ es) s v = run-Inv es (step e s) (step-Inv e s v)

  pub create_offer-Inv : Inv file (create_offer file)
  unfolding create_offer
  create_offer-Inv = record {
    ledger = record {
      fits = record { file_kept = refl; total = refl; next_le = omega arith };
      conserved = λ a. ground arith;
      lengths = refl;
      genuine = tt;
      sent = refl;
      bytes = refl;
      fired = ground arith;
      completions = refl;
    };
    launched = record {
      sound = All-new (λ c. IsSound file c.pump) tt tt;
      consistent = All-new IsConsistent (λ off. refl) (λ off. refl);
      idle = λ off. All-new (λ c. c.pump_started ≡ false) refl refl;
      unused = λ off. refl;
    };
  }
