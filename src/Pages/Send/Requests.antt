-- ===== src/Pages/Send/Requests.antt =====
-- How many rooms the click handler of the send page asks the server for.
use p2ptransfer.Base.{
  ℕ, suc, ◌+◌, ◌≤◌, ◌≡◌, refl, arith, List, [], ◌∷◌, none, some, Bool, true, false, if◌then◌else◌,
}
use p2ptransfer.Signal.{opens, errors, ends, receives}
use p2ptransfer.Pages.Send.{
  Page, troubled, new_page, on_complete, on_error, PageEvent, chooses, clicks, replies, parses,
  socket_opens, socket_errors, socket_ends, messages, fires, completes, troubles, step, run,
}
use p2ptransfer.Pages.Send.Rooms.{
  Asked, on_socket-Asked, handle_file-Asked, click-Asked, reply_failed, reply_came, no_room,
  room_came, fire-Asked,
}

-- The requests for a room that failed: `fetch` threw, or its body was no room.
abbrev pub failures : List PageEvent → ℕ
failures [] = 0
failures (replies false ∷ es) = suc (failures es)
failures (replies true ∷ es) = failures es
failures (parses none ∷ es) = suc (failures es)
failures (parses (some room) ∷ es) = failures es
failures (chooses file ∷ es) = failures es
failures (clicks ∷ es) = failures es
failures (socket_opens ∷ es) = failures es
failures (socket_errors ∷ es) = failures es
failures (socket_ends ∷ es) = failures es
failures (messages text ∷ es) = failures es
failures (fires ∷ es) = failures es
failures (completes ∷ es) = failures es
failures (troubles ∷ es) = failures es

on_complete-Asked : (n : ℕ) (p : Page) → Asked n p → Asked n (on_complete p)
unfolding on_complete
on_complete-Asked n p a = by_engine p.engine
  where
    by_engine :
        (b : Bool)
        → Asked n (
            if b
            then record p { shown = record p.shown { transfer = false; complete = true } }
            else p)
    by_engine true = record { at_most = a.at_most; none_open = a.none_open; hidden = a.hidden }
    by_engine false = a

on_error-Asked : (n : ℕ) (p : Page) → Asked n p → Asked n (on_error p)
unfolding on_error
on_error-Asked n p a = by_engine p.engine
  where
    by_engine : (b : Bool) → Asked n (if b then record p { status = troubled } else p)
    by_engine true = record { at_most = a.at_most; none_open = a.none_open; hidden = a.hidden }
    by_engine false = a

fewer : {n m : ℕ} {r : ℕ} → n ≡ m → r ≤ suc n → r ≤ suc m
fewer e h = omega (arith, e, h)

run_from :
    (es : List PageEvent) (n : ℕ) (p : Page) → Asked n p → (run es p).rooms ≤ suc (n + failures es)
unfolding run step
run_from [] n p a = omega (arith, a.at_most)
run_from (replies false ∷ es) n p a =
    fewer (omega arith) (run_from es (suc n) _ (reply_failed n p a))
run_from (replies true ∷ es) n p a = run_from es n _ (reply_came n p a)
run_from (parses none ∷ es) n p a = fewer (omega arith) (run_from es (suc n) _ (no_room n p a))
run_from (parses (some room) ∷ es) n p a = run_from es n _ (room_came n room p a)
run_from (chooses file ∷ es) n p a = run_from es n _ (handle_file-Asked n file p a)
run_from (clicks ∷ es) n p a = run_from es n _ (click-Asked n p a)
run_from (socket_opens ∷ es) n p a = run_from es n _ (on_socket-Asked n opens p a)
run_from (socket_errors ∷ es) n p a = run_from es n _ (on_socket-Asked n errors p a)
run_from (socket_ends ∷ es) n p a = run_from es n _ (on_socket-Asked n ends p a)
run_from (messages text ∷ es) n p a = run_from es n _ (on_socket-Asked n (receives text) p a)
run_from (fires ∷ es) n p a = run_from es n _ (fire-Asked n p.timers p a)
run_from (completes ∷ es) n p a = run_from es n _ (on_complete-Asked n p a)
run_from (troubles ∷ es) n p a = run_from es n _ (on_error-Asked n p a)

-- Whatever happens on the send page, clicks on the button while a request is under way included, it
-- asks the server for at most one room more than requests have failed.
pub run-rooms : (es : List PageEvent) → (run es new_page).rooms ≤ failures es + 1
run-rooms es = omega (
  arith,
  run_from es 0 new_page
      (record { at_most = omega arith; none_open = λ s d. omega arith; hidden = λ s. refl }),
)
