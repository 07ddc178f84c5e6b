-- ===== src/Pages/Send.antt =====
-- web/static/js/send.js: the choice of a file, the creation of a room and its link, the start of the
-- transfer when a receiver joins, and which of the four steps of the page is shown. Texts that only
-- show names, sizes, speed and progress are left out.
pub mod Rooms
pub mod Requests
pub mod Stuck
pub mod Cards
pub mod Socket
pub mod Steps
pub mod Copy
use Prim.Native.String.{String}
use p2ptransfer.Base.{
  ℕ, zero, suc, ◌+◌, List, [], ◌∷◌, ◌++◌, Option, none, some, Bool, true, false, not, ◌&&◌, ◌||◌,
  if◌then◌else◌,
}
use p2ptransfer.Wire.{Bytes}
use p2ptransfer.Signal
use p2ptransfer.Signal.{
  Client, Promise, pending, resolved, unasked, rejected, Event, opens, errors, ends, receives,
  new_client, on, wait_open, calls_of,
}
use p2ptransfer.Pages.{Payload, answer_kind, candidate_kind, joined_kind, disconnected_kind}

pub record File : Type 0 where
  pub name : String
  pub content : Bytes

pub data Handler : Type 0 where
  on_joined on_answer on_candidate on_disconnected : Handler

pub data Call : Type 0 where
  create_offer : File → Call
  handle_answer : ℕ → Call
  add_ice_candidate : ℕ → Option ℕ → Call

-- Where the click handler of `btn-send` stands: not called or over by an exception, at the await of
-- `fetch`, of `res.json()`, of `waitOpen`, or through.
pub data Stage : Type 0 where
  idle fetching parsing opening through : Stage

-- `status-badge` and `status-text`.
pub data Status : Type 0 where
  waiting connected gone troubled : Status

pub record Shown : Type 0 where
  pub select : Bool
  pub share : Bool
  pub transfer : Bool
  pub complete : Bool

-- `rooms` counts the requests for a room, `timers` the timeouts of `peer-joined` that have not fired.
-- A room id is the number of its text.
pub record Page : Type 0 where
  pub selected_file : Option File
  pub file_info_shown : Bool
  pub disabled : Bool
  pub stage : Stage
  pub rooms : ℕ
  pub share_url : Option ℕ
  pub client : Option (Client Handler Payload)
  pub engine : Bool
  pub timers : ℕ
  pub shown : Shown
  pub status : Status
  pub calls : List Call

-- The page as web/templates/send.html and the top of the script leave it.
abbrev pub new_page : Page
new_page = record {
  selected_file = none;
  file_info_shown = false;
  disabled = false;
  stage = idle;
  rooms = 0;
  share_url = none;
  client = none;
  engine = false;
  timers = 0;
  shown = record { select = true; share = false; transfer = false; complete = false };
  status = waiting;
  calls = [];
}

-- `handleFile(file)`, from a drop or from the file input. A picker that was opened in time hands over
-- its file even when the card of the step is hidden by then.
unfoldable pub handle_file : File → Page → Page
handle_file file p = record p { selected_file = some file; file_info_shown = true }

-- The click on `btn-send` up to the await of `fetch`. A button that is disabled or hidden takes no
-- clicks.
unfoldable pub click : Page → Page
click p =
    let asked = record p { disabled = true; stage = fetching; rooms = p.rooms + 1 } in
    let chosen = elim p.selected_file as (λ f. Page) [ none ↦ p | some file ↦ asked ] in
    if p.shown.select && not p.disabled then chosen else p

-- The `catch` of the handler.
unfoldable pub give_up : Page → Page
give_up p = record p { disabled = false; stage = idle }

-- `fetch` answers, or throws.
unfoldable pub room_reply : Bool → Page → Page
unfolding give_up
room_reply ok p = elim p.stage [
  | fetching ↦ if ok then record p { stage = parsing } else give_up p
  | idle ↦ p
  | parsing ↦ p
  | opening ↦ p
  | through ↦ p
]

-- `res.json()` gives the room id, or throws; the socket is opened.
unfoldable pub room_data : Option ℕ → Page → Page
unfolding give_up wait_open
room_data none p = elim p.stage [
  | parsing ↦ give_up p
  | idle ↦ p
  | fetching ↦ p
  | opening ↦ p
  | through ↦ p
]
room_data (some room) p = elim p.stage [
  | parsing ↦ record p {
    share_url = some room;
    shown = record p.shown { select = false; share = true };
    client = some (wait_open new_client);
    stage = opening;
  }
  | idle ↦ p
  | fetching ↦ p
  | opening ↦ p
  | through ↦ p
]

-- The handler behind `waitOpen`: the engine is made and the handlers are registered.
unfoldable pub start_engine : Client Handler Payload → Page → Page
unfolding on
start_engine c p = record p {
  engine = true;
  stage = through;
  client = some (
      on disconnected_kind on_disconnected
        (on candidate_kind on_candidate (on answer_kind on_answer (on joined_kind on_joined c))));
}

unfoldable pub handle : Handler → Payload → Page → Page
handle on_joined m p = record p { status = connected; timers = p.timers + 1 }
handle on_answer m p = record p { calls = p.calls ++ handle_answer m.index ∷ [] }
handle on_candidate m p = record p { calls = p.calls ++ add_ice_candidate m.index m.candidate ∷ [] }
handle on_disconnected m p = record p { status = gone }

unfoldable pub handle_all : List (Handler × Payload) → Page → Page
unfolding handle
handle_all [] p = p
handle_all ((h, m) ∷ rest) p = handle_all rest (handle h m p)

unfoldable pub continue : Promise → Promise → Client Handler Payload → Page → Page
unfolding start_engine give_up
continue pending resolved c p = start_engine c p
continue pending rejected c p = give_up p
continue pending pending c p = p
continue pending unasked c p = p
continue unasked after c p = p
continue resolved after c p = p
continue rejected after c p = p

unfoldable pub on_socket : Event Handler Payload → Page → Page
unfolding continue handle_all
on_socket e p = elim p.client as (λ c. Page) [
  | none ↦ p
  | some c ↦
      let c' = Signal.step e c in
      continue c.promise c'.promise c' (handle_all (calls_of e c) (record p { client = some c' }))
]

-- The timeout of `peer-joined`: the file that is selected now is offered. Without one the callback
-- throws behind the change of the cards.
unfoldable pub fire : ℕ → Page → Page
fire zero p = p
fire (suc timers) p =
    let turned = record p {
      timers = timers;
      shown = record p.shown { share = false; transfer = true };
    } in
    elim p.selected_file as (λ f. Page) [
      | none ↦ turned
      | some file ↦ record turned { calls = p.calls ++ create_offer file ∷ [] }
    ]

-- `engine.onComplete` and `engine.onError`.
unfoldable pub on_complete : Page → Page
on_complete p =
    if p.engine
    then record p { shown = record p.shown { transfer = false; complete = true } }
    else p

unfoldable pub on_error : Page → Page
on_error p = if p.engine then record p { status = troubled } else p

pub data PageEvent : Type 0 where
  chooses : File → PageEvent
  clicks : PageEvent
  replies : Bool → PageEvent
  parses : Option ℕ → PageEvent
  socket_opens socket_errors socket_ends : PageEvent
  messages : Option (ℕ × Payload) → PageEvent
  fires completes troubles : PageEvent

unfoldable pub step : PageEvent → Page → Page
unfolding handle_file click room_reply room_data on_socket fire on_complete on_error
step (chooses file) p = handle_file file p
step clicks p = click p
step (replies ok) p = room_reply ok p
step (parses room) p = room_data room p
step socket_opens p = on_socket opens p
step socket_errors p = on_socket errors p
step socket_ends p = on_socket ends p
step (messages text) p = on_socket (receives text) p
step fires p = fire p.timers p
step completes p = on_complete p
step troubles p = on_error p

unfoldable pub run : List PageEvent → Page → Page
unfolding step
run [] p = p
run (e ∷ es) p = run es (step e p)
