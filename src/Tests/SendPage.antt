-- ===== src/Tests/SendPage.antt =====
-- Runs of the send page and of its copy button.
use p2ptransfer.Base.{◌+◌, ◌≡◌, ◌≤◌, refl, List, [], ◌∷◌, none, some, true, false}
use p2ptransfer.Signal
use p2ptransfer.Signal.{calls_of, Client, new_client, wait_open, pending}
use p2ptransfer.Pages.{Payload, joined_kind, answer_kind}
use p2ptransfer.Pages.Send.{
  Page, File, opening, new_page, PageEvent, chooses, clicks, replies, parses, socket_opens,
  socket_errors, messages, fires, completes, create_offer, handle_answer, run, step,
}
use p2ptransfer.Pages.Send.Cards.{Card, share, complete, only, Linked}
use p2ptransfer.Pages.Send.Steps.{InOrder, run-shown_send}
use p2ptransfer.Pages.Send.Stuck.{run-stuck}
use p2ptransfer.Pages.Send.Requests.{failures, run-rooms}
use p2ptransfer.Pages.Send.Copy.{
  press_ctrl_c, copy_run, new_button, CopyEvent, copies, writes, resets,
}

abbrev file : File
file = record { name = "a.bin"; content = 1 ∷ 2 ∷ 3 ∷ [] }

abbrev answer : Payload
answer = record { index = 2; candidate = none }

-- The first request fails; a second click while the third is under way does nothing.
abbrev asking : List PageEvent
asking =
    clicks
    ∷ chooses file
    ∷ clicks
    ∷ replies false
    ∷ clicks
    ∷ replies true
    ∷ parses none
    ∷ clicks
    ∷ clicks
    ∷ replies true
    ∷ parses (some 77)
    ∷ clicks
    ∷ []

run-rooms_example : (run asking new_page).rooms ≤ failures asking + 1
run-rooms_example = run-rooms asking

run-asking : (run asking new_page).rooms ≡ 3
unfolding run
run-asking = refl

abbrev sending : List PageEvent
sending =
    chooses file
    ∷ clicks
    ∷ replies true
    ∷ parses (some 77)
    ∷ socket_opens
    ∷ messages (some (joined_kind, answer))
    ∷ fires
    ∷ messages (some (answer_kind, answer))
    ∷ completes
    ∷ []

run-sending :
    ((run sending new_page).calls ≡ create_offer file ∷ handle_answer 2 ∷ [])
    × ((run sending new_page).shown ≡ only complete)
unfolding run Signal.step calls_of
run-sending = (refl, refl)

sending-InOrder : InOrder sending new_page
unfolding run Signal.step calls_of
sending-InOrder = (tt, (tt, (tt, (tt, (tt, (tt, (refl, (tt, (refl, tt)))))))))

run-shown_send_example : (card : Card) × ((run sending new_page).shown ≡ only card)
run-shown_send_example = run-shown_send sending sending-InOrder

-- A receiver joins behind the complete transfer.
abbrev again : Page
again = step (messages (some (joined_kind, answer))) (run sending new_page)

-- The file is offered again, and two cards are shown.
again_fires :
    ((step fires again).shown
      ≡ record { select = false; share = false; transfer = true; complete = true })
    × ((step fires again).calls ≡ create_offer file ∷ handle_answer 2 ∷ create_offer file ∷ [])
unfolding run step Signal.step calls_of
again_fires = (refl, refl)

abbrev waiting_page : Page
waiting_page = run (chooses file ∷ clicks ∷ replies true ∷ parses (some 77) ∷ []) new_page

waiting_page-Linked : Linked pending opening (wait_open new_client) waiting_page
unfolding run wait_open
waiting_page-Linked = record {
  has_client = refl;
  promise = refl;
  no_handlers = refl;
  stands = refl;
  no_engine = refl;
  no_timers = refl;
  shown = refl;
}

run-stuck_example :
    ((run (socket_errors ∷ clicks ∷ socket_opens ∷ []) waiting_page).engine ≡ false)
    × ((run (socket_errors ∷ clicks ∷ socket_opens ∷ []) waiting_page).shown ≡ only share)
    × ((run (socket_errors ∷ clicks ∷ socket_opens ∷ []) waiting_page).timers ≡ 0)
run-stuck_example =
    run-stuck (clicks ∷ socket_opens ∷ []) waiting_page (wait_open new_client) waiting_page-Linked

-- The clipboard refuses and the old command works; the second click has neither.
abbrev copying : List CopyEvent
copying = copies true (some true) ∷ writes false (some true) ∷ resets ∷ copies false none ∷ []

run-copying :
    copy_run copying new_button ≡ record { label = press_ctrl_c; timers = 1; writing = 0; done = 1 }
unfolding copy_run
run-copying = refl
