-- ===== src/Pages/Receive/Steps.antt =====
-- Which of the four cards of the receive page is shown.
use p2ptransfer.Base.{
  ◌≡◌, inl, inr, refl, sym, ap, subst, arith, List, [], ◌∷◌, Option, none, some, true,
}
use p2ptransfer.Signal.{Client, Event, opens, errors, ends, receives}
use p2ptransfer.Signal.Outside.{IsOutside}
use p2ptransfer.Pages.{Payload}
use p2ptransfer.Pages.Receive.{
  Page, new_page, Handler, on_socket, on_file_info, on_complete, PageEvent, ticks, clicks,
  socket_opens, socket_errors, socket_ends, messages, file_info, completes, step, run,
}
use p2ptransfer.Pages.Receive.Cards.{
  Card, interstitial, connecting, transfer, complete, only, Stands, before, waits, failed, running,
  SameCore-Stands, tick-Stands, click-Stands,
}
use p2ptransfer.Pages.Receive.Socket.{behind, behind-waits, behind-running, behind-failed}

on_socket-at :
    (e : Event Handler Payload) (p : Page) (c : Client Handler Payload)
    → p.client ≡ some c
    → on_socket e p ≡ behind e c p
unfolding on_socket
on_socket-at e p c at =
    ap
      (λ (x : Option (Client Handler Payload)). elim x as (λ y. Page) [
        | none ↦ p
        | some d ↦ behind e d p
      ])
      at

on_socket-none : (e : Event Handler Payload) (p : Page) → p.client ≡ none → on_socket e p ≡ p
unfolding on_socket
on_socket-none e p at =
    ap
      (λ (x : Option (Client Handler Payload)). elim x as (λ y. Page) [
        | none ↦ p
        | some d ↦ behind e d p
      ])
      at

on_socket-Stands :
    (e : Event Handler Payload) → IsOutside e → (p : Page) → Stands p → Stands (on_socket e p)
on_socket-Stands e o p (before at s en sh) =
    subst Stands (sym (on_socket-none e p at)) (before at s en sh)
on_socket-Stands e o p (waits c at q hs s en sh) =
    subst Stands (sym (on_socket-at e p c at)) (behind-waits e o p c q hs s en sh)
on_socket-Stands e o p (failed c at q hs s en sh) =
    subst Stands (sym (on_socket-at e p c at)) (behind-failed e o p c q hs s en sh)
on_socket-Stands e o p (running c at q s en w) =
    subst Stands (sym (on_socket-at e p c at)) (behind-running e o p c q s en w)

-- The transfer is not complete before the first offer has come.
abbrev Timely : PageEvent → Page → Type 0
Timely completes p = p.first_offer_received ≡ true
Timely ticks p = Unit {0}
Timely clicks p = Unit {0}
Timely socket_opens p = Unit {0}
Timely socket_errors p = Unit {0}
Timely socket_ends p = Unit {0}
Timely (messages text) p = Unit {0}
Timely (file_info name size) p = Unit {0}

abbrev pub InOrder : List PageEvent → Page → Type 0
InOrder [] p = Unit {0}
InOrder (e ∷ es) p = Timely e p × InOrder es (step e p)

on_complete-Stands : (p : Page) → p.first_offer_received ≡ true → Stands p → Stands (on_complete p)
unfolding on_complete
on_complete-Stands p f (before at s en sh) =
    SameCore-Stands {p = p} (ground (arith, en)) (before at s en sh)
on_complete-Stands p f (waits c at q hs s en sh) =
    SameCore-Stands {p = p} (ground (arith, en)) (waits c at q hs s en sh)
on_complete-Stands p f (failed c at q hs s en sh) =
    SameCore-Stands {p = p} (ground (arith, en)) (failed c at q hs s en sh)
on_complete-Stands p f (running c at q s en (inl (sh, g))) = absurd (ground (arith, f, g))
on_complete-Stands p f (running c at q s en (inr (inl sh, g))) =
    running c (ground (arith, en, at)) q (ground (arith, en, s)) (ground (arith, en))
      (inr (inr (ground (arith, en, sh)), ground (arith, en, f)))
on_complete-Stands p f (running c at q s en (inr (inr sh, g))) =
    running c (ground (arith, en, at)) q (ground (arith, en, s)) (ground (arith, en))
      (inr (inr (ground (arith, en, sh)), ground (arith, en, f)))

step-Stands : (e : PageEvent) (p : Page) → Timely e p → Stands p → Stands (step e p)
unfolding step on_file_info
step-Stands ticks p t h = tick-Stands p h
step-Stands clicks p t h = click-Stands p h
step-Stands socket_opens p t h = on_socket-Stands opens tt p h
step-Stands socket_errors p t h = on_socket-Stands errors tt p h
step-Stands socket_ends p t h = on_socket-Stands ends tt p h
step-Stands (messages text) p t h = on_socket-Stands (receives text) tt p h
step-Stands (file_info name size) p t h = SameCore-Stands (ground arith) h
step-Stands completes p t h = on_complete-Stands p t h

run-Stands : (es : List PageEvent) (p : Page) → InOrder es p → Stands p → Stands (run es p)
unfolding run
run-Stands [] p t h = h
run-Stands (e ∷ es) p t h = run-Stands es (step e p) t.1 (step-Stands e p t.0 h)

shown_card : (p : Page) → Stands p → (card : Card) × (p.shown ≡ only card)
shown_card p (before at s en sh) = (interstitial, sh)
shown_card p (waits c at q hs s en sh) = (connecting, sh)
shown_card p (failed c at q hs s en sh) = (connecting, sh)
shown_card p (running c at q s en (inl (sh, f))) = (connecting, sh)
shown_card p (running c at q s en (inr (inl sh, f))) = (transfer, sh)
shown_card p (running c at q s en (inr (inr sh, f))) = (complete, sh)

-- Whatever happens on the page, it shows exactly one of its four cards, as long as no transfer is
-- complete before the first offer has come.
pub run-shown :
    (es : List PageEvent)
    → InOrder es new_page
    → (card : Card) × ((run es new_page).shown ≡ only card)
run-shown es t =
    shown_card (run es new_page) (run-Stands es new_page t (before refl refl refl refl))
