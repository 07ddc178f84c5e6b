-- ===== src/Tests/ReceivePage.antt =====
-- Runs of the receive page.
use p2ptransfer.Base.{
  ℕ, Option, ◌≡◌, refl, List, [], ◌∷◌, none, some, true, false, arith, map, ◌++◌, not, ◌||◌,
  if◌then◌else◌, leb,
}
use p2ptransfer.Ice
use p2ptransfer.Ice.{new_negotiation}
use p2ptransfer.Ice.Once.{Alone}
use p2ptransfer.Signal
use p2ptransfer.Signal.{Client, calls_of, open_now, resolved}
use p2ptransfer.Pages.{Payload, offer_kind, candidate_kind, disconnected_kind}
use p2ptransfer.Pages.Receive.{
  Page, new_page, PageEvent, ticks, clicks, socket_opens, messages, completes, start_relay_receiver,
  handle_offer, on_offer, on_candidate, on_disconnected, Handler, run,
}
use p2ptransfer.Pages.Receive.Cards.{Card, complete, only}
use p2ptransfer.Pages.Receive.Countdown.{clicked, fired, run-starts}
use p2ptransfer.Pages.Receive.Relayed.{Joined, asked, run-asked}
use p2ptransfer.Pages.Receive.Candidates.{at_index_all, inputs, run-candidates}
use p2ptransfer.Pages.Receive.Steps.{InOrder, run-shown}

abbrev offer : Payload
offer = record { index = 3; candidate = none }

abbrev visit : List PageEvent
visit =
    ticks
    ∷ ticks
    ∷ ticks
    ∷ ticks
    ∷ ticks
    ∷ ticks
    ∷ clicks
    ∷ socket_opens
    ∷ messages (some (offer_kind, offer))
    ∷ messages (some (offer_kind, offer))
    ∷ completes
    ∷ []

run-visit :
    ((run visit new_page).starts ≡ 1)
    × ((run visit new_page).shown ≡ only complete)
    × ((run visit new_page).calls ≡ start_relay_receiver ∷ handle_offer 3 ∷ handle_offer 3 ∷ [])
unfolding run Signal.step calls_of
run-visit = (refl, refl, refl)

run-starts_example :
    ((run visit new_page).starts ≡ (if clicked false visit || leb 5 (fired 0 visit) then 1 else 0))
    × ((run visit new_page).receive_started ≡ (clicked false visit || leb 5 (fired 0 visit)))
    × ((run visit new_page).timer ≡ not (run visit new_page).receive_started)
run-starts_example = run-starts visit

visit-InOrder : InOrder visit new_page
unfolding run Signal.step calls_of
visit-InOrder = (tt, (tt, (tt, (tt, (tt, (tt, (tt, (tt, (tt, (tt, (refl, tt)))))))))))

run-shown_example : (card : Card) × ((run visit new_page).shown ≡ only card)
run-shown_example = run-shown visit visit-InOrder

-- The engine is there and no offer has come.
abbrev opened_page : Page
opened_page = run (clicks ∷ socket_opens ∷ []) new_page

-- The relays finish the transfer before the first offer: two cards are shown, and the offer does not
-- mend it.
late_offer :
    ((run (completes ∷ []) opened_page).shown
      ≡ record { interstitial = false; connecting = true; transfer = false; complete = true })
    × ((run (completes ∷ messages (some (offer_kind, offer)) ∷ []) opened_page).shown
        ≡ record { interstitial = false; connecting = false; transfer = true; complete = true })
unfolding run Signal.step calls_of
late_offer = (refl, refl)

abbrev opened_client : Client Handler Payload
opened_client = record {
  ready = open_now;
  handlers =
      (offer_kind, on_offer)
      ∷ (candidate_kind, on_candidate)
      ∷ (disconnected_kind, on_disconnected)
      ∷ [];
  promise = resolved;
  earlier = [];
  sent = [];
}

opened_page-Joined : Joined opened_client opened_page
unfolding run Signal.step calls_of
opened_page-Joined = record {
  has_client = refl;
  promise = refl;
  started = refl;
  table = λ kind. ground arith;
}

-- Candidates for index 3 before and behind its offer, and one for index 1.
abbrev candidate : ℕ → Option ℕ → PageEvent
candidate i c = messages (some (candidate_kind, record { index = i; candidate = c }))

abbrev negotiating : List PageEvent
negotiating =
    candidate 3 (some 7)
    ∷ messages (some (disconnected_kind, offer))
    ∷ candidate 1 (some 5)
    ∷ messages (some (offer_kind, offer))
    ∷ messages none
    ∷ candidate 3 (some 8)
    ∷ completes
    ∷ []

run-asked_example : (run negotiating opened_page).calls ≡ opened_page.calls ++ asked negotiating
run-asked_example = run-asked negotiating opened_client opened_page opened_page-Joined

-- The description is set between the offer and the last candidate.
abbrev behind_offer : List Ice.Event
behind_offer = Ice.resumes 0 ∷ Ice.candidates (some 8) ∷ Ice.resumes 0 ∷ []

opened_page-fresh : at_index_all 3 opened_page.calls ≡ []
unfolding run Signal.step calls_of
opened_page-fresh = refl

same_inputs :
    inputs (map Ice.candidates (some 7 ∷ []) ++ (Ice.offers ∷ behind_offer))
    ≡ at_index_all 3 (run negotiating opened_page).calls
unfolding run Signal.step calls_of
same_inputs = refl

run-candidates_example :
    Alone (7 ∷ 8 ∷ []) (
      Ice.run (map Ice.candidates (some 7 ∷ []) ++ (Ice.offers ∷ behind_offer)) (new_negotiation 3))
run-candidates_example =
    run-candidates 3 negotiating opened_client opened_page (some 7 ∷ []) behind_offer
      opened_page-Joined opened_page-fresh (tt, (tt, (tt, tt))) same_inputs
