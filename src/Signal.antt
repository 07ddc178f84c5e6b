-- ===== src/Signal.antt =====
-- `SignalingClient` of web/static/js/transfer.js: the WebSocket to the signaling server, the table of
-- handlers and the promise of `waitOpen`. A message type is the number of its text; what a text
-- parses to is a `Message`, or none where `JSON.parse` throws. A handler is a value, and `receive`
-- says which one is called with which payload.
pub mod Calls
pub mod Outside
use p2ptransfer.Base.{
  ℕ, List, [], ◌∷◌, ◌++◌, Option, none, some, Bool, true, false, lookup, insert, if◌then◌else◌,
}

-- `readyState`
pub data Ready : Type 0 where
  connecting open_now closing closed : Ready

abbrev pub is_open : Ready → Bool
is_open connecting = false
is_open open_now = true
is_open closing = false
is_open closed = false

-- The promise of `waitOpen`: not asked for, pending, or settled.
pub data Promise : Type 0 where
  unasked pending resolved rejected : Promise

-- A promise that is settled stays as it is.
abbrev pub settle : Promise → Promise → Promise
settle outcome unasked = unasked
settle outcome pending = outcome
settle outcome resolved = resolved
settle outcome rejected = rejected

-- The promise of a call of `waitOpen`, if there has been one.
abbrev pub asked : Promise → List Promise
asked unasked = []
asked pending = pending ∷ []
asked resolved = resolved ∷ []
asked rejected = rejected ∷ []

-- `ws.readyState`, `handlers`, the promise of the last `waitOpen` and those of the calls before it, and
-- what `ws.send` has been given.
pub record Client {ℓ κ} (H : Type ℓ) (P : Type κ) : Type (ℓ ⊔ κ) where
  pub ready : Ready
  pub handlers : List (ℕ × H)
  pub promise : Promise
  pub earlier : List Promise
  pub sent : List (ℕ × P)

module _ {ℓ κ} {H : Type ℓ} {P : Type κ} where
  -- The constructor.
  abbrev pub new_client : Client H P
  new_client = record {
    ready = connecting;
    handlers = [];
    promise = unasked;
    earlier = [];
    sent = [];
  }

  -- `on(type, handler)`
  unfoldable pub on : ℕ → H → Client H P → Client H P
  on kind handler c = record c { handlers = insert kind handler c.handlers }

  -- `send(msg)`
  unfoldable pub send : ℕ × P → Client H P → Client H P
  send message c = if is_open c.ready then record c { sent = c.sent ++ message ∷ [] } else c

  -- `waitOpen()`: a new promise. It is resolved at once if the socket is open, and no promise of an
  -- earlier call is pending then, since the opening has settled it. Otherwise `ws.onopen` and
  -- `ws.onerror` are its own from then on, and the promise of an earlier call stays as it is.
  unfoldable pub wait_open : Client H P → Client H P
  wait_open c = record c {
    promise = if is_open c.ready then resolved else pending;
    earlier = c.earlier ++ asked c.promise;
  }

  -- The promises of all calls of `waitOpen`, in order.
  abbrev pub promises : Client H P → List Promise
  promises c = c.earlier ++ asked c.promise

  -- `close()`
  unfoldable pub close : Client H P → Client H P
  close c = elim c.ready [
    | connecting ↦ record c { ready = closing }
    | open_now ↦ record c { ready = closing }
    | closing ↦ c
    | closed ↦ c
  ]

  -- `ws.onopen`, `ws.onerror` and `ws.onclose`.
  unfoldable pub opened : Client H P → Client H P
  opened c = record c { ready = open_now; promise = settle resolved c.promise }

  unfoldable pub errored : Client H P → Client H P
  errored c = record c { promise = settle rejected c.promise }

  unfoldable pub socket_closed : Client H P → Client H P
  socket_closed c = record c { ready = closed }

  -- `ws.onmessage`: the handler that is called, with its payload.
  unfoldable pub receive : Option (ℕ × P) → Client H P → List (H × P)
  receive none c = []
  receive (some (kind, payload)) c = elim (lookup kind c.handlers) [
    | none ↦ []
    | some handler ↦ (handler, payload) ∷ []
  ]

pub data Event {ℓ κ} (H : Type ℓ) (P : Type κ) : Type (ℓ ⊔ κ) where
  ons : ℕ → H → Event H P
  sends : ℕ × P → Event H P
  waits closes opens errors ends : Event H P
  receives : Option (ℕ × P) → Event H P

module _ {ℓ κ} {H : Type ℓ} {P : Type κ} where
  unfoldable pub step : Event H P → Client H P → Client H P
  unfolding on send wait_open close opened errored socket_closed
  step (ons kind handler) c = on kind handler c
  step (sends message) c = send message c
  step waits c = wait_open c
  step closes c = close c
  step opens c = opened c
  step errors c = errored c
  step ends c = socket_closed c
  step (receives text) c = c

  -- The handlers that an event calls.
  unfoldable pub calls_of : Event H P → Client H P → List (H × P)
  unfolding receive
  calls_of (ons kind handler) c = []
  calls_of (sends message) c = []
  calls_of waits c = []
  calls_of closes c = []
  calls_of opens c = []
  calls_of errors c = []
  calls_of ends c = []
  calls_of (receives text) c = receive text c

  unfoldable pub run : List (Event H P) → Client H P → Client H P
  unfolding step
  run [] c = c
  run (e ∷ es) c = run es (step e c)

  unfoldable pub calls : List (Event H P) → Client H P → List (H × P)
  unfolding step calls_of
  calls [] c = []
  calls (e ∷ es) c = calls_of e c ++ calls es (step e c)
