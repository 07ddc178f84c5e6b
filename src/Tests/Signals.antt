-- ===== src/Tests/Signals.antt =====
-- The signaling client: handlers that are replaced, and a promise that is refused.
use p2ptransfer.Base.{ℕ, ◌≡◌, refl, List, [], ◌∷◌, none, some, length, get_elem?, if◌then◌else◌}
use p2ptransfer.Signal.{
  Event, ons, sends, closes, opens, errors, ends, receives, new_client, wait_open, pending, calls,
  run, step, rejected, resolved, promises, waits, Client, is_open,
}
use p2ptransfer.Signal.Calls.{expected_calls, calls-expected_calls, outcome, run-promise}

-- Type 7 has no handler at first and two in turn later; type 8 never has one.
abbrev talk : List (Event ℕ ℕ)
talk =
    receives (some (7, 1))
    ∷ ons 7 100
    ∷ receives (some (7, 2))
    ∷ receives none
    ∷ ons 7 200
    ∷ receives (some (8, 3))
    ∷ receives (some (7, 4))
    ∷ []

calls-talk : calls talk new_client ≡ (100, 2) ∷ (200, 4) ∷ []
unfolding calls
calls-talk = refl

calls-expected_calls_example : calls talk new_client ≡ expected_calls [] talk
calls-expected_calls_example = calls-expected_calls talk

-- The second promise is refused; the first is never settled.
abbrev failing : List (Event ℕ ℕ)
failing = ends ∷ sends (7, 1) ∷ errors ∷ opens ∷ waits ∷ closes ∷ []

abbrev waiting : Client ℕ ℕ
waiting = wait_open new_client

promises-failing : promises (run failing (wait_open waiting)) ≡ pending ∷ rejected ∷ resolved ∷ []
unfolding run step wait_open
promises-failing = refl

run-promise_example :
    get_elem? (promises (run failing (wait_open waiting))) (length (promises waiting))
    ≡ some (if is_open waiting.ready then resolved else outcome failing)
run-promise_example = run-promise failing waiting
