-- ===== src/Pages/Send/Socket.antt =====
-- What a message and the promise of `waitOpen` do to the send page.
use p2ptransfer.Base.{◌≡◌, refl, sym, ap, ap₂, ◌∙◌, subst, List, [], ◌∷◌, Option, none, some, inl}
use p2ptransfer.Signal
use p2ptransfer.Signal.{
  Client, Promise, pending, resolved, unasked, rejected, Event, opens, errors, ends, receives,
  calls_of, settle,
}
use p2ptransfer.Signal.Outside.{IsOutside, no_calls, promise-kept, handlers-step}
use p2ptransfer.Pages.{Payload}
use p2ptransfer.Pages.Send.{
  Page, Handler, on_joined, on_answer, on_candidate, on_disconnected, idle, opening, handle,
  handle_all, start_engine, give_up, continue, on_socket,
}
use p2ptransfer.Pages.Send.Cards.{Linked, Running, Stands, choosing, waits, failed, running}

handle-Running :
    (h : Handler) (m : Payload) {c : Client Handler Payload} {p : Page}
    → Running c p
    → Running c (handle h m p)
unfolding handle
handle-Running on_joined m r = record {
  has_client = r.has_client;
  promise = r.promise;
  stands = r.stands;
  has_engine = r.has_engine;
  shown = r.shown;
}
handle-Running on_answer m r = record {
  has_client = r.has_client;
  promise = r.promise;
  stands = r.stands;
  has_engine = r.has_engine;
  shown = r.shown;
}
handle-Running on_candidate m r = record {
  has_client = r.has_client;
  promise = r.promise;
  stands = r.stands;
  has_engine = r.has_engine;
  shown = r.shown;
}
handle-Running on_disconnected m r = record {
  has_client = r.has_client;
  promise = r.promise;
  stands = r.stands;
  has_engine = r.has_engine;
  shown = r.shown;
}

handle_all-Running :
    (hs : List (Handler × Payload)) {c : Client Handler Payload} {p : Page}
    → Running c p
    → Running c (handle_all hs p)
unfolding handle_all
handle_all-Running [] r = r
handle_all-Running ((h, m) ∷ hs) r = handle_all-Running hs (handle-Running h m r)

-- The page behind an event of its socket.
abbrev behind : Event Handler Payload → Client Handler Payload → Page → Page
behind e c p =
    continue c.promise (Signal.step e c).promise (Signal.step e c)
      (handle_all (calls_of e c) (record p { client = some (Signal.step e c) }))

on_socket-at :
    (e : Event Handler Payload) (p : Page) {o : Option (Client Handler Payload)}
    → p.client ≡ o
    → on_socket e p ≡ elim o as (λ x. Page) [ none ↦ p | some c ↦ behind e c p ]
unfolding on_socket
on_socket-at e p at =
    ap
      (λ (x : Option (Client Handler Payload)). elim x as (λ y. Page) [
        | none ↦ p
        | some d ↦ behind e d p
      ])
      at

module _ (e : Event Handler Payload) (o : IsOutside e) (p : Page) (c : Client Handler Payload) where
  behind_quiet :
      (a b : Promise)
      → c.handlers ≡ []
      → c.promise ≡ a
      → (Signal.step e c).promise ≡ b
      → behind e c p ≡ continue a b (Signal.step e c) (record p { client = some (Signal.step e c) })
  unfolding handle_all
  behind_quiet a b hs at to =
      ap
        (λ calls.
          continue c.promise (Signal.step e c).promise (Signal.step e c)
            (handle_all calls (record p { client = some (Signal.step e c) })))
        (no_calls e c hs)
      ∙ ap₂ (λ x y. continue x y (Signal.step e c) (record p { client = some (Signal.step e c) }))
          at to

  behind-Running : Running c p → Running (Signal.step e c) (behind e c p)
  unfolding continue
  behind-Running r =
      subst (Running (Signal.step e c))
        (sym (
          ap
            (λ x.
              continue x (Signal.step e c).promise (Signal.step e c)
                (handle_all (calls_of e c) (record p { client = some (Signal.step e c) })))
            r.promise))
        (handle_all-Running (calls_of e c) (record {
          has_client = refl;
          promise = promise-kept e c resolved o r.promise (λ x. refl);
          stands = r.stands;
          has_engine = r.has_engine;
          shown = r.shown;
        }))

  pub behind-failed :
      Linked rejected idle c p → Linked rejected idle (Signal.step e c) (on_socket e p)
  unfolding continue
  behind-failed l =
      subst (Linked rejected idle (Signal.step e c))
        (sym (
          on_socket-at e p l.has_client
          ∙ behind_quiet rejected (Signal.step e c).promise l.no_handlers l.promise refl))
        (record {
          has_client = refl;
          promise = promise-kept e c rejected o l.promise (λ x. refl);
          no_handlers = handlers-step e c o l.no_handlers;
          stands = l.stands;
          no_engine = l.no_engine;
          no_timers = l.no_timers;
          shown = l.shown;
        })

-- The link is shown and the socket fails before it has opened.
pub errors-failed :
    (p : Page) (c : Client Handler Payload)
    → Linked pending opening c p
    → Linked rejected idle (Signal.step errors c) (on_socket errors p)
unfolding continue give_up Signal.step
errors-failed p c l =
    subst (Linked rejected idle _)
      (sym (
        on_socket-at errors p l.has_client
        ∙ behind_quiet errors tt p c pending rejected l.no_handlers l.promise
            (ap (settle rejected) l.promise)))
      (record {
        has_client = refl;
        promise = ap (settle rejected) l.promise;
        no_handlers = l.no_handlers;
        stands = refl;
        no_engine = l.no_engine;
        no_timers = l.no_timers;
        shown = l.shown;
      })

behind-waits :
    (e : Event Handler Payload)
    → IsOutside e
    → (p : Page) (c : Client Handler Payload) → Linked pending opening c p
    → Stands (on_socket e p)
unfolding continue start_engine Signal.step
behind-waits opens o p c l =
    subst Stands
      (sym (
        on_socket-at opens p l.has_client
        ∙ behind_quiet opens tt p c pending resolved l.no_handlers l.promise
            (ap (settle resolved) l.promise)))
      (running _ (record {
        has_client = refl;
        promise = ap (settle resolved) l.promise;
        stands = refl;
        has_engine = refl;
        shown = inl l.shown;
      }))
behind-waits errors o p c l = failed _ (errors-failed p c l)
behind-waits ends o p c l =
    subst Stands
      (sym (
        on_socket-at ends p l.has_client
        ∙ behind_quiet ends tt p c pending pending l.no_handlers l.promise l.promise))
      (waits _ (record {
        has_client = refl;
        promise = l.promise;
        no_handlers = l.no_handlers;
        stands = l.stands;
        no_engine = l.no_engine;
        no_timers = l.no_timers;
        shown = l.shown;
      }))
behind-waits (receives text) o p c l =
    subst Stands
      (sym (
        on_socket-at (receives text) p l.has_client
        ∙ behind_quiet (receives text) tt p c pending pending l.no_handlers l.promise l.promise))
      (waits c (record {
        has_client = refl;
        promise = l.promise;
        no_handlers = l.no_handlers;
        stands = l.stands;
        no_engine = l.no_engine;
        no_timers = l.no_timers;
        shown = l.shown;
      }))
behind-waits (Event.ons kind handler) o p c l = absurd o
behind-waits (Event.sends message) o p c l = absurd o
behind-waits Event.waits o p c l = absurd o
behind-waits Event.closes o p c l = absurd o

pub on_socket-Stands :
    (e : Event Handler Payload) → IsOutside e → (p : Page) → Stands p → Stands (on_socket e p)
on_socket-Stands e o p (choosing h) = subst Stands (sym (on_socket-at e p h.no_client)) (choosing h)
on_socket-Stands e o p (waits c l) = behind-waits e o p c l
on_socket-Stands e o p (failed c l) = failed _ (behind-failed e o p c l)
on_socket-Stands e o p (running c r) = running _ (
    subst (Running (Signal.step e c)) (sym (on_socket-at e p r.has_client))
      (behind-Running e o p c r))
