-- ===== src/Worker/Sound.antt =====
-- Every event of the service worker keeps the invariant of its table.
use p2ptransfer.Base.{
  ℕ, ◌≡◌, refl, List, [], ◌∷◌, ◌++◌, Option, none, some, Bool, true, false, length, lookup, insert,
  remove, ◌==◌, ◌&&◌, get_elem?, if◌then◌else◌,
}
use p2ptransfer.Wire.{Bytes}
use p2ptransfer.Worker.{
  Status, errored, Stream, Entry, Worker, Message, register, chunk, close, abort, download, other,
  Event, message, fetch, cancel, enqueue, finish, on_chunk, on_close, on_abort, if_found,
  on_message, answer, on_fetch, on_cancel, cancel_stream, start_stream, start_entry, serve, step,
  run, new_entry, can_cancel, discard,
}
use p2ptransfer.Worker.Streams.{
  IsSound, owner-enqueue, owner-finish, owner-discard, owner-start_stream, insert_waiting,
  insert_live, remove_entry, change_stream, open_stream, get_elem?-snoc_last,
}

if-IsSound : (b : Bool) {u v : Worker} → IsSound u → IsSound v → IsSound (if b then u else v)
if-IsSound true p q = p
if-IsSound false p q = q

if_found-IsSound :
    (o : Option Entry) (f : Entry → Worker) (w : Worker)
    → IsSound w
    → ((e : Entry) → IsSound (f e))
    → IsSound (if_found o f w)
unfolding if_found
if_found-IsSound none f w v keep = v
if_found-IsSound (some e) f w v keep = keep e

module _ {w : Worker} (v : IsSound w) where
  on_chunk-IsSound :
      (o : Option ℕ) (id : ℕ) (b : Bytes) (e : Entry)
      → e.controller ≡ o
      → IsSound (on_chunk o id b e w)
  unfolding on_chunk
  on_chunk-IsSound none id b e ctl =
      insert_waiting v id (record e { pending = e.pending ++ b ∷ [] }) ctl
  on_chunk-IsSound (some c) id b e ctl = change_stream v c (enqueue b) (owner-enqueue b)

  on_close-IsSound :
      (o : Option ℕ) (id : ℕ) (e : Entry) → e.controller ≡ o → IsSound (on_close o id e w)
  unfolding on_close
  on_close-IsSound none id e ctl = insert_waiting v id (record e { closed = true }) ctl
  on_close-IsSound (some c) id e ctl =
      remove_entry (change_stream v c (finish Status.closed) (owner-finish Status.closed)) id

  on_abort-IsSound : (o : Option ℕ) (id : ℕ) → IsSound (on_abort o id w)
  unfolding on_abort
  on_abort-IsSound none id = remove_entry v id
  on_abort-IsSound (some c) id =
      remove_entry (change_stream v c (finish errored) (owner-finish errored)) id

  on_message-IsSound : (id : ℕ) (m : Message) → IsSound (on_message id m w)
  unfolding on_message new_entry
  on_message-IsSound id (register name size mime) =
      insert_waiting v id (new_entry name size mime) refl
  on_message-IsSound id (chunk b) =
      if_found-IsSound (lookup id w.streams) (λ e. on_chunk e.controller id b e w) w v
        (λ e. on_chunk-IsSound e.controller id b e refl)
  on_message-IsSound id close =
      if_found-IsSound (lookup id w.streams) (λ e. on_close e.controller id e w) w v
        (λ e. on_close-IsSound e.controller id e refl)
  on_message-IsSound id abort =
      if_found-IsSound (lookup id w.streams) (λ e. on_abort e.controller id w) w v
        (λ e. on_abort-IsSound e.controller id)

  start-IsSound :
      (b : Bool) (id : ℕ) (e : Entry) (s : Stream)
      → s.owner ≡ id
      → IsSound (record w {
        opened = w.opened ++ s ∷ [];
        streams =
            if b
            then remove id w.streams
            else insert id
                (record e { controller = some (length w.opened); pending = [] })
                w.streams;
      })
  start-IsSound true id e s own = remove_entry (open_stream v s) id
  start-IsSound false id e s own =
      insert_live (open_stream v s) id (length w.opened)
        (record e { controller = some (length w.opened); pending = [] }) s refl
        (get_elem?-snoc_last w.opened s) own

  answer-IsSound : (o : Option Entry) (id : ℕ) → IsSound ((answer o id w).0)
  unfolding answer serve start_entry
  answer-IsSound none id = v
  answer-IsSound (some e) id =
      start-IsSound e.closed id e (start_stream id e) (owner-start_stream id e)

  cancel-IsSound : (o : Option Stream) (id c : ℕ) → IsSound (cancel_stream o id c w)
  unfolding cancel_stream
  cancel-IsSound none id c = v
  cancel-IsSound (some s) id c =
      if-IsSound (s.owner == id && can_cancel s)
        (remove_entry (change_stream v c discard owner-discard) id) v

  pub step-IsSound : (e : Event) → IsSound (step e w)
  unfolding step on_fetch on_cancel
  step-IsSound (message id m) = on_message-IsSound id m
  step-IsSound (fetch other) = v
  step-IsSound (fetch (download id)) = answer-IsSound (lookup id w.streams) id
  step-IsSound (cancel id c) = cancel-IsSound (get_elem? w.opened c) id c

-- Whatever events come, in whatever order, an entry that has a controller has one that a request for
-- its own id opened, and an id stands in the table once.
pub run-IsSound : (es : List Event) {w : Worker} → IsSound w → IsSound (run es w)
unfolding run
run-IsSound [] v = v
run-IsSound (e ∷ es) v = run-IsSound es (step-IsSound v e)
