-- ===== src/Pages/Send/Steps.antt =====
-- Which of the four cards of the send page is shown.
use p2ptransfer.Base.{◌≡◌, inl, inr, refl, List, [], ◌∷◌, Bool, true, false, if◌then◌else◌}
use p2ptransfer.Signal.{opens, errors, ends, receives}
use p2ptransfer.Pages.Send.{
  Page, Status, new_page, on_error, PageEvent, chooses, clicks, replies, parses, socket_opens,
  socket_errors, socket_ends, messages, fires, completes, troubles, step, run,
}
use p2ptransfer.Pages.Send.Cards.{
  Card, select, share, transfer, complete, only, Running, Stands, choosing, waits, failed, running,
  handle_file-Stands, click-Stands, room_reply-Stands, room_data-Stands, fire-Stands,
  on_complete-Stands,
}
use p2ptransfer.Pages.Send.Socket.{on_socket-Stands}

restated : (status : Status) {p : Page} → Stands p → Stands (record p { status = status })
restated status (choosing h) = choosing (record {
  no_client = h.no_client;
  no_engine = h.no_engine;
  no_timers = h.no_timers;
  shown = h.shown;
})
restated status (waits c l) = waits c (record {
  has_client = l.has_client;
  promise = l.promise;
  no_handlers = l.no_handlers;
  stands = l.stands;
  no_engine = l.no_engine;
  no_timers = l.no_timers;
  shown = l.shown;
})
restated status (failed c l) = failed c (record {
  has_client = l.has_client;
  promise = l.promise;
  no_handlers = l.no_handlers;
  stands = l.stands;
  no_engine = l.no_engine;
  no_timers = l.no_timers;
  shown = l.shown;
})
restated status (running c r) = running c (record {
  has_client = r.has_client;
  promise = r.promise;
  stands = r.stands;
  has_engine = r.has_engine;
  shown = r.shown;
})

on_error-Stands : (p : Page) → Stands p → Stands (on_error p)
unfolding on_error
on_error-Stands p h = by_engine p.engine
  where
    by_engine : (b : Bool) → Stands (if b then record p { status = Status.troubled } else p)
    by_engine true = restated Status.troubled h
    by_engine false = h

-- No receiver joins again behind a complete transfer, and none is complete before the offer.
abbrev Timely : PageEvent → Page → Type 0
Timely (chooses file) p = Unit {0}
Timely clicks p = Unit {0}
Timely (replies ok) p = Unit {0}
Timely (parses room) p = Unit {0}
Timely socket_opens p = Unit {0}
Timely socket_errors p = Unit {0}
Timely socket_ends p = Unit {0}
Timely (messages text) p = Unit {0}
Timely fires p = p.shown.complete ≡ false
Timely completes p = p.shown.share ≡ false
Timely troubles p = Unit {0}

abbrev pub InOrder : List PageEvent → Page → Type 0
InOrder [] p = Unit {0}
InOrder (e ∷ es) p = Timely e p × InOrder es (step e p)

step-Stands : (e : PageEvent) (p : Page) → Timely e p → Stands p → Stands (step e p)
unfolding step
step-Stands (chooses file) p t h = handle_file-Stands file p h
step-Stands clicks p t h = click-Stands p h
step-Stands (replies ok) p t h = room_reply-Stands ok p h
step-Stands (parses room) p t h = room_data-Stands room p h
step-Stands socket_opens p t h = on_socket-Stands opens tt p h
step-Stands socket_errors p t h = on_socket-Stands errors tt p h
step-Stands socket_ends p t h = on_socket-Stands ends tt p h
step-Stands (messages text) p t h = on_socket-Stands (receives text) tt p h
step-Stands fires p t h = fire-Stands p t h
step-Stands completes p t h = on_complete-Stands p t h
step-Stands troubles p t h = on_error-Stands p h

run-Stands : (es : List PageEvent) (p : Page) → InOrder es p → Stands p → Stands (run es p)
unfolding run
run-Stands [] p t h = h
run-Stands (e ∷ es) p t h = run-Stands es (step e p) t.1 (step-Stands e p t.0 h)

shown_card : (p : Page) → Stands p → (card : Card) × (p.shown ≡ only card)
shown_card p (choosing h) = (select, h.shown)
shown_card p (waits c l) = (share, l.shown)
shown_card p (failed c l) = (share, l.shown)
shown_card p (running c r) = by_card r
  where
    by_card : Running c p → (card : Card) × (p.shown ≡ only card)
    by_card r = elim r.shown [
      | inl e ↦ (share, e)
      | inr (inl e) ↦ (transfer, e)
      | inr (inr e) ↦ (complete, e)
    ]

-- Whatever happens on the send page, with any replies of the server and any messages, it shows exactly
-- one of its four cards, as long as no timeout of `peer-joined` fires behind a complete transfer and
-- no transfer is complete before the first such timeout.
pub run-shown_send :
    (es : List PageEvent)
    → InOrder es new_page
    → (card : Card) × ((run es new_page).shown ≡ only card)
run-shown_send es t = shown_card (run es new_page) (
    run-Stands es new_page t
      (choosing (record { no_client = refl; no_engine = refl; no_timers = refl; shown = refl })))
