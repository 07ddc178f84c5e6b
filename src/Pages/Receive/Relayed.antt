-- ===== src/Pages/Receive/Relayed.antt =====
-- What the receive page hands to its engine, once it has one.
use p2ptransfer.Base.{
  ℕ, ◌≡◌, refl, sym, ap, ◌∙◌, subst, arith, List, [], ◌∷◌, ◌++◌, append-nil, append_assoc, Option,
  none, some, true, lookup, ◌==◌, if◌then◌else◌,
}
use p2ptransfer.Signal
use p2ptransfer.Signal.{
  Client, Promise, resolved, Event, opens, errors, ends, receives, calls_of, settle,
}
use p2ptransfer.Signal.Outside.{IsOutside, promise-kept}
use p2ptransfer.Pages.{Payload, offer_kind, candidate_kind, disconnected_kind}
use p2ptransfer.Pages.Receive.{
  Page, Call, handle_offer, add_ice_candidate, Handler, on_offer, on_candidate, on_disconnected,
  handle_all, continue, on_socket, PageEvent, ticks, clicks, socket_opens, socket_errors,
  socket_ends, messages, file_info, completes, step, run,
}
use p2ptransfer.Pages.Receive.Follows.{
  Follows, still, tick-Follows, click-Follows, on_file_info-Follows, on_complete-Follows,
  calls_of_option, receives-Follows,
}

-- The handler that the page has registered for a type.
abbrev pub page_handler : ℕ → Option Handler
page_handler kind =
    if kind == offer_kind
    then some on_offer
    else if kind == candidate_kind
    then some on_candidate
    else if kind == disconnected_kind
    then some on_disconnected
    else none

-- The page has its engine and its handlers.
pub record Joined (c : Client Handler Payload) (p : Page) : Type 0 where
  pub has_client : p.client ≡ some c
  pub promise : c.promise ≡ resolved
  pub started : p.receive_started ≡ true
  pub table : (kind : ℕ) → lookup kind c.handlers ≡ page_handler kind

-- The calls that an event of the page should make.
abbrev pub asked_by : PageEvent → List Call
asked_by (messages (some (kind, m))) =
    if kind == offer_kind
    then handle_offer m.index ∷ []
    else if kind == candidate_kind
    then add_ice_candidate m.index m.candidate ∷ []
    else []
asked_by (messages none) = []
asked_by ticks = []
asked_by clicks = []
asked_by socket_opens = []
asked_by socket_errors = []
asked_by socket_ends = []
asked_by (file_info name size) = []
asked_by completes = []

abbrev pub asked : List PageEvent → List Call
asked [] = []
asked (e ∷ es) = asked_by e ++ asked es

asked_by-handler :
    (kind : ℕ) (m : Payload)
    → calls_of_option (page_handler kind) m ≡ asked_by (messages (some (kind, m)))
asked_by-handler kind m = ground arith

module _ {c : Client Handler Payload} {p : Page} (j : Joined c p) where
  -- The page behind an event of its socket.
  socket_at :
      (e : Event Handler Payload)
      → on_socket e p ≡ handle_all (calls_of e c) (record p { client = some (Signal.step e c) })
  unfolding on_socket continue
  socket_at e =
      ap
        (λ (o : Option (Client Handler Payload)). elim o as (λ y. Page) [
          | none ↦ p
          | some d ↦
              continue d.promise (Signal.step e d).promise (Signal.step e d)
                (handle_all (calls_of e d) (record p { client = some (Signal.step e d) }))
        ])
        j.has_client
      ∙ ap
          (λ q.
            continue q (Signal.step e c).promise (Signal.step e c)
              (handle_all (calls_of e c) (record p { client = some (Signal.step e c) })))
          j.promise

-- A later page still has its handlers, and has made these calls.
abbrev After : Page → Page → List Call → Type 0
After p q more = (c : Client Handler Payload) × Joined c q × (q.calls ≡ p.calls ++ more)

kept :
    {c : Client Handler Payload} {p q : Page} {more : List Call}
    → Joined c p
    → Follows p q more
    → After p q more
kept {c} j f = (
  c,
  record {
    has_client = f.client ∙ j.has_client;
    promise = j.promise;
    started = f.started ∙ j.started;
    table = j.table;
  },
  f.calls,
)

on_socket-After :
    (e : Event Handler Payload) (more : List Call) {c : Client Handler Payload} {p : Page}
    → IsOutside e
    → Joined c p
    → ((kind : ℕ) → lookup kind (Signal.step e c).handlers ≡ lookup kind c.handlers)
    → Follows
        (record p { client = some (Signal.step e c) })
        (handle_all (calls_of e c) (record p { client = some (Signal.step e c) }))
        more
    → After p (on_socket e p) more
on_socket-After e more {c} {p} o j same f =
    subst (λ q. After p q more) (sym (socket_at j e))
      (
        Signal.step e c,
        record {
          has_client = f.client;
          promise = promise-kept e c resolved o j.promise (λ x. refl);
          started = f.started ∙ j.started;
          table = λ kind. same kind ∙ j.table kind;
        },
        f.calls,
      )

step-After :
    (e : PageEvent) {c : Client Handler Payload} {p : Page}
    → Joined c p
    → After p (step e p) (asked_by e)
unfolding step Signal.step handle_all calls_of
step-After ticks {p = p} j = kept j (tick-Follows p j.started)
step-After clicks {p = p} j = kept j (click-Follows p j.started)
step-After (file_info name size) {p = p} j = kept j (on_file_info-Follows name size p)
step-After completes {p = p} j = kept j (on_complete-Follows p)
step-After socket_opens j = on_socket-After opens [] tt j (λ kind. refl) (still _ _ refl refl refl)
step-After socket_errors j =
    on_socket-After errors [] tt j (λ kind. refl) (still _ _ refl refl refl)
step-After socket_ends j = on_socket-After ends [] tt j (λ kind. refl) (still _ _ refl refl refl)
step-After (messages none) j =
    on_socket-After (receives none) [] tt j (λ kind. refl) (still _ _ refl refl refl)
step-After (messages (some (kind, m))) {c} {p} j =
    subst (After p (on_socket (receives (some (kind, m))) p)) (asked_by-handler kind m) (
      on_socket-After (receives (some (kind, m))) (calls_of_option (page_handler kind) m) tt j
        (λ k. refl)
        (receives-Follows kind m c (record p { client = some c }) (page_handler kind)
          (j.table kind)))

run-After :
    (es : List PageEvent) {c : Client Handler Payload} {p : Page}
    → Joined c p
    → After p (run es p) (asked es)
unfolding run
run-After [] {c} {p} j = (c, j, sym (append-nil p.calls))
run-After (e ∷ es) {c} {p} j =
    let one = step-After e j in
    let rest = run-After es one.1 in
    (
      rest.0,
      rest.1,
      rest.2 ∙ ap (λ cs. cs ++ asked es) one.2 ∙ append_assoc p.calls (asked_by e) (asked es),
    )

-- A page that has its engine hands every offer and every candidate that the server sends to the
-- engine, once each and in the order of the messages, and nothing else, whatever else happens in
-- between; a text that does not parse and any other type leave the engine alone.
pub run-asked :
    (es : List PageEvent) (c : Client Handler Payload) (p : Page)
    → Joined c p
    → (run es p).calls ≡ p.calls ++ asked es
run-asked es c p j = (run-After es j).2
