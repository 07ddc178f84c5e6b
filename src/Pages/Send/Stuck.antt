-- ===== src/Pages/Send/Stuck.antt =====
-- A signaling socket that fails before it has opened leaves the send page without a way on.
use p2ptransfer.Base.{◌≡◌, sym, subst, arith, List, [], ◌∷◌, false}
use p2ptransfer.Signal.{Client, pending, rejected, opens, errors, ends, receives}
use p2ptransfer.Pages.{Payload}
use p2ptransfer.Pages.Send.{
  Page, Handler, idle, opening, on_error, PageEvent, chooses, clicks, replies, parses, socket_opens,
  socket_errors, socket_ends, messages, fires, completes, troubles, step, run,
}
use p2ptransfer.Pages.Send.Cards.{
  only, share, Linked, Linked-select, handle_file-Linked, hidden_click, no_reply, no_data, no_fire,
  no_complete,
}
use p2ptransfer.Pages.Send.Socket.{behind-failed, errors-failed}

-- The link is shown, the promise has been refused, and the click handler is over.
abbrev IsStuck : Page → Type 0
IsStuck p = (c : Client Handler Payload) × Linked rejected idle c p

module _ {c : Client Handler Payload} {p : Page} (l : Linked rejected idle c p) where
  no_error : on_error p ≡ p
  unfolding on_error
  no_error = ground (arith, l.no_engine)

  step-Stuck : (e : PageEvent) → IsStuck (step e p)
  unfolding step
  step-Stuck (chooses file) = (c, handle_file-Linked file l)
  step-Stuck clicks = (c, subst (Linked rejected idle c) (sym (hidden_click p (Linked-select l))) l)
  step-Stuck (replies ok) =
      (c, subst (Linked rejected idle c) (sym (no_reply ok p (λ e. ground (arith, l.stands, e)))) l)
  step-Stuck (parses room) = (
    c,
    subst (Linked rejected idle c) (sym (no_data room p (λ e. ground (arith, l.stands, e)))) l,
  )
  step-Stuck socket_opens = (_, behind-failed opens tt p c l)
  step-Stuck socket_errors = (_, behind-failed errors tt p c l)
  step-Stuck socket_ends = (_, behind-failed ends tt p c l)
  step-Stuck (messages text) = (_, behind-failed (receives text) tt p c l)
  step-Stuck fires = (c, subst (Linked rejected idle c) (sym (no_fire p l.no_timers)) l)
  step-Stuck completes = (c, subst (Linked rejected idle c) (sym (no_complete p l.no_engine)) l)
  step-Stuck troubles = (c, subst (Linked rejected idle c) (sym no_error) l)

run-Stuck : (es : List PageEvent) (p : Page) → IsStuck p → IsStuck (run es p)
unfolding run
run-Stuck [] p h = h
run-Stuck (e ∷ es) p h = run-Stuck es (step e p) (step-Stuck h.1 e)

-- If the signaling socket fails while the page waits for it, the page never gets on: whatever comes
-- behind the error, clicks, files and a late opening of the socket included, it has no engine and
-- shows the link and nothing else.
pub run-stuck :
    (es : List PageEvent) (p : Page) (c : Client Handler Payload)
    → Linked pending opening c p
    → ((run (socket_errors ∷ es) p).engine ≡ false)
      × ((run (socket_errors ∷ es) p).shown ≡ only share)
      × ((run (socket_errors ∷ es) p).timers ≡ 0)
unfolding run step
run-stuck es p c l =
    let stuck = run-Stuck es (step socket_errors p) (_, errors-failed p c l) in
    (stuck.1.no_engine, stuck.1.shown, stuck.1.no_timers)
