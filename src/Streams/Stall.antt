-- ===== src/Streams/Stall.antt =====
-- When every pump has ended, nothing moves any more.
use p2ptransfer.Base.{Bool, ◌≡◌, refl, ap, ◌∙◌, subst, sym, List, true, false, arith, All}
use p2ptransfer.Sender.{Engine}
use p2ptransfer.Streams.{
  Pump, unstarted, testing, ended, reading, rejected, sending, waiting, Conn, System, goes, round,
  read_fails,
}
use p2ptransfer.Streams.Quiet.{IsQuiet, Quietens, run-Rests}
use p2ptransfer.Streams.Schedule.{launch, open_conn, close_conn, drain_conn, fail_conn, Event, run}

-- The pump has returned, or an exception has ended it.
abbrev pub IsOver : Pump → Type 0
IsOver unstarted = ⊥
IsOver testing = ⊥
IsOver ended = Unit {0}
IsOver (reading claim) = ⊥
IsOver (rejected claim) = Unit {0}
IsOver (sending batch) = ⊥
IsOver (waiting batch) = ⊥

abbrev pub IsSpent : Conn → Type 0
IsSpent c = (c.pump_started ≡ true) × IsOver c.pump

-- Every pump has been launched and is over, and the transfer has not been declared complete.
pub record IsStalled (s : System) : Type 0 where
  pub started : s.engine.sending_started ≡ true
  pub spent : All IsSpent s.conns
  pub incomplete : s.engine.complete_fired ≡ false
  pub not_draining : s.engine.draining ≡ false

-- What a stalled sender keeps.
pub record Frozen (s t : System) : Type 0 where
  pub stalled : IsStalled t
  pub sent : t.sent ≡ s.sent
  pub completions : t.engine.completions ≡ s.engine.completions

over_round :
    (throws : Bool) (e : Engine) (c : Conn) (p : Pump) → IsOver p → round throws e p c ≡ goes p e c
unfolding round
over_round throws e c ended h = refl
over_round throws e c (rejected claim) h = refl
over_round throws e c unstarted h = absurd h
over_round throws e c testing h = absurd h
over_round throws e c (reading claim) h = absurd h
over_round throws e c (sending batch) h = absurd h
over_round throws e c (waiting batch) h = absurd h

launch-IsSpent : (c : Conn) → IsSpent c → IsSpent (launch c)
unfolding launch
launch-IsSpent c h = ground (arith, h.0)

fails-IsOver : (p : Pump) → IsOver p → IsOver (read_fails p)
unfolding read_fails
fails-IsOver ended h = h
fails-IsOver (rejected claim) h = h
fails-IsOver unstarted h = absurd h
fails-IsOver testing h = absurd h
fails-IsOver (reading claim) h = absurd h
fails-IsOver (sending batch) h = absurd h
fails-IsOver (waiting batch) h = absurd h

IsSpent-Quietens : (s : System) → IsStalled s → Quietens IsSpent s.engine
unfolding open_conn close_conn drain_conn fail_conn
IsSpent-Quietens s v = record {
  opened = λ n c h. ground (arith, h.0, h.1);
  closed = λ c h. h;
  drained = λ n c h. h;
  failed = λ c h. (h.0, fails-IsOver c.pump h.1);
  launched = launch-IsSpent;
  quiet = λ throws c h.
      subst (IsQuiet IsSpent s.engine) (sym (over_round throws s.engine c c.pump h.1))
        (record { engine = refl; out = refl; conn = h });
  started = v.started;
  not_draining = v.not_draining;
}

-- A sender all of whose pumps are over before every chunk has been sent never moves again: whatever
-- happens afterwards, nothing more is sent, and `onComplete` does not run.
pub run-Frozen : (es : List Event) (s : System) → IsStalled s → Frozen s (run es s)
run-Frozen es s v =
    let rest =
      run-Rests IsSpent s.engine (IsSpent-Quietens s v) s.sent es s
        (record { engine = refl; sent = refl; conns = v.spent }) in
    record {
      stalled = record {
        started = ap Engine.sending_started rest.engine ∙ v.started;
        spent = rest.conns;
        incomplete = ap Engine.complete_fired rest.engine ∙ v.incomplete;
        not_draining = ap Engine.draining rest.engine ∙ v.not_draining;
      };
      sent = rest.sent;
      completions = ap Engine.completions rest.engine;
    }
