-- ===== src/Worker.antt =====
-- The service worker, web/static/js/sw.js: the table `streams`, the `message` handler and the
-- `fetch` handler. An id is the number of the text that the page draws. A `ReadableStream` is what
-- its controller has done to it; the streams that were answered stand in `opened`, and an entry's
-- `controller` is a place in that list.
pub mod Streams
pub mod Sound
pub mod Isolated
pub mod Stages
pub mod Turns
pub mod Delivery
use Prim.Native.String.{String}
use p2ptransfer.Base.{
  ℕ, zero, suc, List, [], ◌∷◌, ◌++◌, Option, none, some, Bool, true, false, length, get_elem?, ◌==◌,
  ◌&&◌, lookup, insert, remove, if◌then◌else◌,
}
use p2ptransfer.Wire.{Bytes}

-- The state of a stream, and the id whose request opened it. A stream that is closed or errored, or was cancelled, takes nothing more.
pub data Status : Type 0 where
  readable closed errored cancelled : Status

pub record Stream : Type 0 where
  pub owner : ℕ
  pub queue : List Bytes
  pub status : Status

-- `controller.enqueue`, `close` and `error`. Each call in the source stands in a `try` whose
-- `catch` does nothing, so a call that throws leaves the stream as it was.
unfoldable pub enqueue : Bytes → Stream → Stream
enqueue bytes s = elim s.status [
  | readable ↦ record s { queue = s.queue ++ bytes ∷ [] }
  | closed ↦ s
  | errored ↦ s
  | cancelled ↦ s
]

unfoldable pub finish : Status → Stream → Stream
finish status s = elim s.status [
  | readable ↦ record s { status = status }
  | closed ↦ s
  | errored ↦ s
  | cancelled ↦ s
]

-- Whether the browser can still cancel a stream: it is readable, or it has been closed with chunks in
-- it, of which some may not have been read yet.
abbrev pub can_cancel : Stream → Bool
can_cancel s = elim s.status [
  | readable ↦ true
  | closed ↦ elim s.queue [ [] ↦ false | bytes ∷ more ↦ true ]
  | errored ↦ false
  | cancelled ↦ false
]

unfoldable pub discard : Stream → Stream
discard s = record s { status = cancelled }

pub record Entry : Type 0 where
  pub controller : Option ℕ
  pub filename : String
  pub size : ℕ
  pub mime : String
  pub pending : List Bytes
  pub closed : Bool

pub record Worker : Type 0 where
  pub streams : List (ℕ × Entry)
  pub opened : List Stream

pub data Message : Type 0 where
  register : String → ℕ → String → Message
  chunk : Bytes → Message
  close : Message
  abort : Message

-- `entry.controller.f(...)` on the stream at place `c`.
unfoldable pub on_stream : ℕ → (Stream → Stream) → List Stream → List Stream
on_stream c f [] = []
on_stream zero f (s ∷ ss) = f s ∷ ss
on_stream (suc c) f (s ∷ ss) = s ∷ on_stream c f ss

-- The branches of the `message` handler behind `streams.get(msg.id)`, each on `entry.controller`: a
-- chunk goes to the stream, or waits for it.
unfoldable pub on_chunk : Option ℕ → ℕ → Bytes → Entry → Worker → Worker
unfolding on_stream enqueue
on_chunk (some c) id bytes entry w = record w { opened = on_stream c (enqueue bytes) w.opened }
on_chunk none id bytes entry w = record w {
  streams = insert id (record entry { pending = entry.pending ++ bytes ∷ [] }) w.streams;
}

unfoldable pub on_close : Option ℕ → ℕ → Entry → Worker → Worker
unfolding on_stream finish
on_close (some c) id entry w = record w {
  opened = on_stream c (finish Status.closed) w.opened;
  streams = remove id w.streams;
}
on_close none id entry w = record w {
  streams = insert id (record entry { closed = true }) w.streams;
}

unfoldable pub on_abort : Option ℕ → ℕ → Worker → Worker
unfolding on_stream finish
on_abort (some c) id w = record w {
  opened = on_stream c (finish errored) w.opened;
  streams = remove id w.streams;
}
on_abort none id w = record w { streams = remove id w.streams }

unfoldable pub if_found : Option Entry → (Entry → Worker) → Worker → Worker
if_found none f w = w
if_found (some entry) f w = f entry

-- `mime || 'application/octet-stream'`
unfoldable pub mime_or_default : String → String
mime_or_default String.[] = "application/octet-stream"
mime_or_default (String.◌∷◌ c s) = String.◌∷◌ c s

unfoldable pub new_entry : String → ℕ → String → Entry
new_entry name size mime = record {
  controller = none;
  filename = name;
  size = size;
  mime = mime_or_default mime;
  pending = [];
  closed = false;
}

-- The `message` handler.
unfoldable pub on_message : ℕ → Message → Worker → Worker
unfolding if_found new_entry on_chunk on_close on_abort
on_message id (register name size mime) w = record w {
  streams = insert id (new_entry name size mime) w.streams;
}
on_message id (chunk bytes) w =
    if_found (lookup id w.streams) (λ entry. on_chunk entry.controller id bytes entry w) w
on_message id close w =
    if_found (lookup id w.streams) (λ entry. on_close entry.controller id entry w) w
on_message id abort w = if_found (lookup id w.streams) (λ entry. on_abort entry.controller id w) w

-- What the worker answers to a request: nothing of its own, a 404, or the stream at a place, with
-- the headers `Content-Type`, `Content-Disposition` and `Content-Length`.
pub data Response : Type 0 where
  network : Response
  not_found : Response
  streaming : ℕ → String → String → ℕ → Response

-- A request for `/sw-download/<id>`, or any other.
pub data Request : Type 0 where
  other : Request
  download : ℕ → Request

unfoldable pub enqueue_all : List Bytes → Stream → Stream
enqueue_all [] s = s
enqueue_all (b ∷ bs) s = enqueue_all bs (enqueue b s)

-- `start(controller)`: the new stream and what becomes of the entry.
unfoldable pub start_stream : ℕ → Entry → Stream
unfolding enqueue enqueue_all finish
start_stream id entry =
    let fresh : Stream = record { owner = id; queue = []; status = readable } in
    let flushed = enqueue_all entry.pending fresh in
    if entry.closed then finish Status.closed flushed else flushed

unfoldable pub start_entry : ℕ → ℕ → Entry → List (ℕ × Entry) → List (ℕ × Entry)
start_entry id c entry streams =
    if entry.closed
    then remove id streams
    else insert id (record entry { controller = some c; pending = [] }) streams

unfoldable pub serve : ℕ → Entry → Worker → Worker × Response
unfolding start_stream start_entry
serve id entry w = (
  record w {
    opened = w.opened ++ start_stream id entry ∷ [];
    streams = start_entry id (length w.opened) entry w.streams;
  },
  streaming (length w.opened) entry.mime entry.filename entry.size,
)

unfoldable pub answer : Option Entry → ℕ → Worker → Worker × Response
unfolding serve
answer none id w = (w, not_found)
answer (some entry) id w = serve id entry w

-- The `fetch` handler.
unfoldable pub on_fetch : Request → Worker → Worker × Response
unfolding answer
on_fetch other w = (w, network)
on_fetch (download id) w = answer (lookup id w.streams) id w

-- `cancel()` of the stream at place `c`, if the fetch for `id` opened it and it can be cancelled.
unfoldable pub cancel_stream : Option Stream → ℕ → ℕ → Worker → Worker
unfolding on_stream discard
cancel_stream none id c w = w
cancel_stream (some s) id c w =
    let gone : Worker = record w {
      opened = on_stream c discard w.opened;
      streams = remove id w.streams;
    } in
    if s.owner == id && can_cancel s then gone else w

unfoldable pub on_cancel : ℕ → ℕ → Worker → Worker
unfolding cancel_stream
on_cancel id c w = cancel_stream (get_elem? w.opened c) id c w

pub data Event : Type 0 where
  message : ℕ → Message → Event
  fetch : Request → Event
  cancel : ℕ → ℕ → Event

unfoldable pub step : Event → Worker → Worker
unfolding on_message on_fetch on_cancel
step (message id m) w = on_message id m w
step (fetch r) w = (on_fetch r w).0
step (cancel id c) w = on_cancel id c w

unfoldable pub run : List Event → Worker → Worker
run [] w = w
run (e ∷ es) w = run es (step e w)
