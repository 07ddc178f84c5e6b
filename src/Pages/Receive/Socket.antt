-- ===== src/Pages/Receive/Socket.antt =====
-- What a message and the promise of `waitOpen` do to the receive page.
use p2ptransfer.Base.{
  ◌≡◌, inl, inr, refl, sym, ap, ap₂, ◌∙◌, subst, arith, List, [], ◌∷◌, some, true, false,
}
use p2ptransfer.Signal
use p2ptransfer.Signal.{
  Client, Promise, pending, resolved, unasked, rejected, Event, opens, errors, ends, receives,
  calls_of, settle, new_client, wait_open,
}
use p2ptransfer.Signal.Outside.{IsOutside, no_calls, promise-kept, handlers-step}
use p2ptransfer.Pages.{Payload}
use p2ptransfer.Pages.Receive.{
  Page, Handler, on_offer, on_candidate, on_disconnected, handle, handle_all, show_transfer, joined,
  refuse, continue,
}
use p2ptransfer.Pages.Receive.Cards.{connecting, only, Showing, Stands, waits, failed, running}

-- A handler that is called while the page runs.
handle-running :
    (h : Handler) (m : Payload) (p : Page) (c : Client Handler Payload)
    → p.client ≡ some c
    → p.receive_started ≡ true
    → p.engine ≡ true
    → Showing p
    → ((handle h m p).client ≡ some c)
      × ((handle h m p).receive_started ≡ true)
      × ((handle h m p).engine ≡ true)
      × Showing (handle h m p)
unfolding handle show_transfer
handle-running on_offer m p c at s e (inl (sh, f)) = (
  ground (arith, f, at),
  ground (arith, f, s),
  ground (arith, f, e),
  inr (inl (ground (arith, f, sh)), ground (arith, f)),
)
handle-running on_offer m p c at s e (inr (inl sh, f)) = (
  ground (arith, f, at),
  ground (arith, f, s),
  ground (arith, f, e),
  inr (inl (ground (arith, f, sh)), ground (arith, f)),
)
handle-running on_offer m p c at s e (inr (inr sh, f)) = (
  ground (arith, f, at),
  ground (arith, f, s),
  ground (arith, f, e),
  inr (inr (ground (arith, f, sh)), ground (arith, f)),
)
handle-running on_candidate m p c at s e w = (at, s, e, w)
handle-running on_disconnected m p c at s e w = (at, s, e, w)

handle_all-running :
    (hs : List (Handler × Payload)) (p : Page) (c : Client Handler Payload)
    → p.client ≡ some c
    → p.receive_started ≡ true
    → p.engine ≡ true
    → Showing p
    → c.promise ≡ resolved
    → Stands (handle_all hs p)
unfolding handle_all
handle_all-running [] p c at s e w q = running c at q s e w
handle_all-running ((h, m) ∷ hs) p c at s e w q =
    let (at', s', e', w') = handle-running h m p c at s e w in
    handle_all-running hs (handle h m p) c at' s' e' w' q

-- The page behind an event of its socket.
abbrev pub behind : Event Handler Payload → Client Handler Payload → Page → Page
behind e c p =
    continue c.promise (Signal.step e c).promise (Signal.step e c)
      (handle_all (calls_of e c) (record p { client = some (Signal.step e c) }))

continue-at :
    {a b : Promise} (a' b' : Promise) (c : Client Handler Payload) (p : Page)
    → a ≡ a'
    → b ≡ b'
    → continue a b c p ≡ continue a' b' c p
continue-at a' b' c p h k = ap₂ (λ x y. continue x y c p) h k

behind_quiet :
    (e : Event Handler Payload) (c : Client Handler Payload) (p : Page) (a b : Promise)
    → c.handlers ≡ []
    → c.promise ≡ a
    → (Signal.step e c).promise ≡ b
    → behind e c p ≡ continue a b (Signal.step e c) (record p { client = some (Signal.step e c) })
unfolding handle_all
behind_quiet e c p a b hs at to =
    ap
      (λ calls.
        continue c.promise (Signal.step e c).promise (Signal.step e c)
          (handle_all calls (record p { client = some (Signal.step e c) })))
      (no_calls e c hs)
    ∙ continue-at a b (Signal.step e c) (record p { client = some (Signal.step e c) }) at to

module _ (e : Event Handler Payload) (o : IsOutside e) (p : Page) (c : Client Handler Payload) where
  pub behind-running :
      c.promise ≡ resolved
      → p.receive_started ≡ true
      → p.engine ≡ true
      → Showing p
      → Stands (behind e c p)
  unfolding continue
  behind-running q s en w =
      subst Stands
        (sym (
          continue-at resolved (Signal.step e c).promise (Signal.step e c)
            (handle_all (calls_of e c) (record p { client = some (Signal.step e c) })) q refl))
        (handle_all-running (calls_of e c) (record p { client = some (Signal.step e c) })
          (Signal.step e c) refl s en w (promise-kept e c resolved o q (λ x. refl)))

  pub behind-failed :
      c.promise ≡ rejected
      → c.handlers ≡ []
      → p.receive_started ≡ true
      → p.engine ≡ false
      → p.shown ≡ only connecting
      → Stands (behind e c p)
  unfolding continue
  behind-failed q hs s en sh =
      subst Stands (sym (behind_quiet e c p rejected (Signal.step e c).promise hs q refl)) (
        failed (Signal.step e c) refl (promise-kept e c rejected o q (λ x. refl))
          (handlers-step e c o hs) s en sh)

pub behind-waits :
    (e : Event Handler Payload)
    → IsOutside e
    → (p : Page) (c : Client Handler Payload) → c.promise ≡ pending
    → c.handlers ≡ []
    → p.receive_started ≡ true
    → p.engine ≡ false
    → p.shown ≡ only connecting
    → Stands (behind e c p)
unfolding continue joined refuse Signal.step
behind-waits opens o p c q hs s en sh =
    subst Stands (sym (behind_quiet opens c p pending resolved hs q (ap (settle resolved) q)))
      (running _ refl (ap (settle resolved) q) s refl (inl (sh, refl)))
behind-waits errors o p c q hs s en sh =
    subst Stands (sym (behind_quiet errors c p pending rejected hs q (ap (settle rejected) q)))
      (failed _ refl (ap (settle rejected) q) hs s en sh)
behind-waits ends o p c q hs s en sh =
    subst Stands (sym (behind_quiet ends c p pending pending hs q q)) (waits _ refl q hs s en sh)
behind-waits (receives text) o p c q hs s en sh =
    subst Stands (sym (behind_quiet (receives text) c p pending pending hs q q))
      (waits _ refl q hs s en sh)
behind-waits (Event.ons kind handler) o p c q hs s en sh = absurd o
behind-waits (Event.sends message) o p c q hs s en sh = absurd o
behind-waits Event.waits o p c q hs s en sh = absurd o
behind-waits Event.closes o p c q hs s en sh = absurd o
