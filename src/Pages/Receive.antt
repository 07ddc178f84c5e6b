-- ===== src/Pages/Receive.antt =====
-- web/static/js/receive.js: the countdown, the start of the transfer, and which of the four steps of
-- the page is shown. Text that only shows speed and progress is left out.
pub mod Countdown
pub mod Cards
pub mod Socket
pub mod Steps
pub mod Follows
pub mod Relayed
pub mod Candidates
use Prim.Native.String.{String}
use p2ptransfer.Base.{
  ℕ, ◌+◌, ◌-◌, List, [], ◌∷◌, ◌++◌, Option, none, some, Bool, true, false, leb, if◌then◌else◌,
}
use p2ptransfer.Signal
use p2ptransfer.Signal.{
  Client, Promise, pending, resolved, unasked, rejected, Event, opens, errors, ends, receives,
  new_client, on, wait_open, calls_of,
}
use p2ptransfer.Pages.{Payload, offer_kind, candidate_kind, disconnected_kind}

-- The handlers that the page registers.
pub data Handler : Type 0 where
  on_offer on_candidate on_disconnected : Handler

-- What the page asks of its engine.
pub data Call : Type 0 where
  start_relay_receiver : Call
  handle_offer : ℕ → Call
  add_ice_candidate : ℕ → Option ℕ → Call

-- Which cards are not `hidden`.
pub record Shown : Type 0 where
  pub interstitial : Bool
  pub connecting : Bool
  pub transfer : Bool
  pub complete : Bool

-- `starts` counts the calls of `startReceive`. `refused` is whether the card of the step `connecting`
-- has been replaced by the message that the connection failed.
pub record Page : Type 0 where
  pub countdown : ℕ
  pub countdown_text : ℕ
  pub timer : Bool
  pub button : Bool
  pub receive_started : Bool
  pub starts : ℕ
  pub client : Option (Client Handler Payload)
  pub engine : Bool
  pub first_offer_received : Bool
  pub shown : Shown
  pub refused : Bool
  pub file_shown : Option (String × ℕ)
  pub calls : List Call

-- The page as web/templates/receive.html and the top of the script leave it.
abbrev pub new_page : Page
new_page = record {
  countdown = 5;
  countdown_text = 5;
  timer = true;
  button = false;
  receive_started = false;
  starts = 0;
  client = none;
  engine = false;
  first_offer_received = false;
  shown = record { interstitial = true; connecting = false; transfer = false; complete = false };
  refused = false;
  file_shown = none;
  calls = [];
}

-- `startReceive()` up to the promise of `waitOpen`.
unfoldable pub start_receive : Page → Page
unfolding wait_open
start_receive p = record p {
  receive_started = true;
  starts = p.starts + 1;
  shown = record p.shown { interstitial = false; connecting = true };
  client = some (wait_open new_client);
}

unfoldable pub start_unless_started : Page → Page
unfolding start_receive
start_unless_started p = if p.receive_started then p else start_receive p

-- The callback of `setInterval`, while the interval runs.
unfoldable pub tick : Page → Page
unfolding start_unless_started
tick p =
    let counted = record p { countdown = p.countdown - 1; countdown_text = p.countdown - 1 } in
    let over = record counted { timer = false; countdown_text = 0; button = true } in
    let ticked = if leb counted.countdown 0 then start_unless_started over else counted in
    if p.timer then ticked else p

-- The click on `btn-start-download`, taken whether the button is hidden or not.
unfoldable pub click : Page → Page
unfolding start_unless_started
click p = start_unless_started (record p { timer = false })

-- The callback of `waitOpen().then`, and that of `catch`.
unfoldable pub joined : Client Handler Payload → Page → Page
unfolding on
joined c p = record p {
  engine = true;
  first_offer_received = false;
  calls = p.calls ++ start_relay_receiver ∷ [];
  client = some (
      on disconnected_kind on_disconnected
        (on candidate_kind on_candidate (on offer_kind on_offer c)));
}

unfoldable pub refuse : Page → Page
refuse p = record p { refused = true }

-- The handlers.
unfoldable pub show_transfer : Page → Page
show_transfer p = record p {
  first_offer_received = true;
  shown = record p.shown { connecting = false; transfer = true };
}

unfoldable pub handle : Handler → Payload → Page → Page
unfolding show_transfer
handle on_offer m p =
    let seen = if p.first_offer_received then p else show_transfer p in
    record seen { calls = seen.calls ++ handle_offer m.index ∷ [] }
handle on_candidate m p = record p { calls = p.calls ++ add_ice_candidate m.index m.candidate ∷ [] }
handle on_disconnected m p = p

unfoldable pub handle_all : List (Handler × Payload) → Page → Page
unfolding handle
handle_all [] p = p
handle_all ((h, m) ∷ rest) p = handle_all rest (handle h m p)

-- The callbacks of a promise run when it is settled.
unfoldable pub continue : Promise → Promise → Client Handler Payload → Page → Page
unfolding joined refuse
continue pending resolved c p = joined c p
continue pending rejected c p = refuse p
continue pending pending c p = p
continue pending unasked c p = p
continue unasked after c p = p
continue resolved after c p = p
continue rejected after c p = p

-- Something happens to the WebSocket.
unfoldable pub on_socket : Event Handler Payload → Page → Page
unfolding continue handle_all
on_socket e p = elim p.client [
  | none ↦ p
  | some c ↦
      let c' = Signal.step e c in
      continue c.promise c'.promise c' (handle_all (calls_of e c) (record p { client = some c' }))
]

-- `engine.onFileInfo` and `engine.onComplete`.
unfoldable pub on_file_info : String → ℕ → Page → Page
on_file_info name size p = if p.engine then record p { file_shown = some (name, size) } else p

unfoldable pub on_complete : Page → Page
on_complete p =
    if p.engine
    then record p { shown = record p.shown { transfer = false; complete = true } }
    else p

pub data PageEvent : Type 0 where
  ticks clicks : PageEvent
  socket_opens socket_errors socket_ends : PageEvent
  messages : Option (ℕ × Payload) → PageEvent
  file_info : String → ℕ → PageEvent
  completes : PageEvent

unfoldable pub step : PageEvent → Page → Page
unfolding tick click on_socket on_file_info on_complete
step ticks p = tick p
step clicks p = click p
step socket_opens p = on_socket opens p
step socket_errors p = on_socket errors p
step socket_ends p = on_socket ends p
step (messages text) p = on_socket (receives text) p
step (file_info name size) p = on_file_info name size p
step completes p = on_complete p

unfoldable pub run : List PageEvent → Page → Page
unfolding step
run [] p = p
run (e ∷ es) p = run es (step e p)
