-- ===== src/Worker/Isolated.antt =====
-- Two downloads in one service worker: an event that names another id touches neither the entry of an
-- id nor the streams that its requests opened.
use p2ptransfer.Base.{
  ℕ, ◌≡◌, ◌≢◌, refl, ap, arith, List, Option, none, some, Bool, true, false, lookup, insert, remove,
  get_elem?, ◌==◌, ◌&&◌, if◌then◌else◌, lookup-insert, lookup-remove, Bool-cases, inl, inr, ==_iff,
}
use p2ptransfer.Wire.{Bytes}
use p2ptransfer.Worker.{
  Status, errored, Stream, Entry, Worker, Message, register, chunk, close, abort, download, other,
  Event, message, fetch, cancel, enqueue, finish, on_stream, on_chunk, on_close, on_abort, if_found,
  on_message, answer, on_fetch, on_cancel, cancel_stream, start_stream, start_entry, serve, step,
  can_cancel, discard,
}
use p2ptransfer.Worker.Streams.{IsSound, get_elem?-on_stream, get_elem?-snoc}

-- Whether an event names an id.
abbrev pub is_about : ℕ → Event → Bool
is_about id (message j m) = id == j
is_about id (fetch other) = false
is_about id (fetch (download j)) = id == j
is_about id (cancel j c) = id == j

-- What an id has in a worker is the same in another.
pub record Untouched (id : ℕ) (w w' : Worker) : Type 0 where
  pub entry : lookup id w'.streams ≡ lookup id w.streams
  pub streams :
      (c : ℕ) (s : Stream)
      → get_elem? w.opened c ≡ some s
      → s.owner ≡ id
      → get_elem? w'.opened c ≡ some s

Untouched-refl : (id : ℕ) (w : Worker) → Untouched id w w
Untouched-refl id w = record { entry = refl; streams = λ c s at own. at }

on_stream-other :
    (d c : ℕ) (f : Stream → Stream) (l : List Stream) {s t : Stream}
    → get_elem? l d ≡ some t
    → get_elem? l c ≡ some s
    → s.owner ≢ t.owner
    → get_elem? (on_stream d f l) c ≡ some s
on_stream-other d c f l {s} {t} at_d at_c differ = elim (Bool-cases (d == c)) [
  | inl same ↦ absurd (differ (ground (arith, at_c, at_d, ap (get_elem? l) ((==_iff d c).0 same))))
  | inr differs ↦ ground (arith, get_elem?-on_stream d c f l)
]

module _ {w : Worker} (v : IsSound w) (id j : ℕ) (apart : (id == j) ≡ false) where
  insert_other : (e : Entry) → lookup id (insert j e w.streams) ≡ lookup id w.streams
  insert_other e = ground (arith, lookup-insert id j e w.streams)

  remove_other : lookup id (remove j w.streams) ≡ lookup id w.streams
  remove_other = ground (arith, lookup-remove id j w.streams v.distinct)

  change_other :
      (d : ℕ) (f : Stream → Stream) (e : Entry)
      → lookup j w.streams ≡ some e
      → e.controller ≡ some d
      → (c : ℕ) (s : Stream) → get_elem? w.opened c ≡ some s
      → s.owner ≡ id
      → get_elem? (on_stream d f w.opened) c ≡ some s
  change_other d f e at ctl c s there own =
      let (t, at_d, own_t) = v.owned j e d at ctl in
      on_stream-other d c f w.opened at_d there (λ same. ground arith)

  on_chunk-Untouched :
      (o : Option ℕ) (b : Bytes) (e : Entry)
      → lookup j w.streams ≡ some e
      → e.controller ≡ o
      → Untouched id w (on_chunk o j b e w)
  unfolding on_chunk
  on_chunk-Untouched none b e at ctl = record {
    entry = insert_other _;
    streams = λ c s there own. there;
  }
  on_chunk-Untouched (some d) b e at ctl = record {
    entry = refl;
    streams = change_other d (enqueue b) e at ctl;
  }

  on_close-Untouched :
      (o : Option ℕ) (e : Entry)
      → lookup j w.streams ≡ some e
      → e.controller ≡ o
      → Untouched id w (on_close o j e w)
  unfolding on_close
  on_close-Untouched none e at ctl = record {
    entry = insert_other _;
    streams = λ c s there own. there;
  }
  on_close-Untouched (some d) e at ctl = record {
    entry = remove_other;
    streams = change_other d (finish Status.closed) e at ctl;
  }

  on_abort-Untouched :
      (o : Option ℕ) (e : Entry)
      → lookup j w.streams ≡ some e
      → e.controller ≡ o
      → Untouched id w (on_abort o j w)
  unfolding on_abort
  on_abort-Untouched none e at ctl = record {
    entry = remove_other;
    streams = λ c s there own. there;
  }
  on_abort-Untouched (some d) e at ctl = record {
    entry = remove_other;
    streams = change_other d (finish errored) e at ctl;
  }

  if_found-Untouched :
      (o : Option Entry) (f : Entry → Worker)
      → ((e : Entry) → o ≡ some e → Untouched id w (f e))
      → Untouched id w (if_found o f w)
  unfolding if_found
  if_found-Untouched none f keep = Untouched-refl id w
  if_found-Untouched (some e) f keep = keep e refl

  on_message-Untouched : (m : Message) → Untouched id w (on_message j m w)
  unfolding on_message
  on_message-Untouched (register name size mime) = record {
    entry = insert_other _;
    streams = λ c s there own. there;
  }
  on_message-Untouched (chunk b) =
      if_found-Untouched (lookup j w.streams) (λ e. on_chunk e.controller j b e w)
        (λ e at. on_chunk-Untouched e.controller b e at refl)
  on_message-Untouched close =
      if_found-Untouched (lookup j w.streams) (λ e. on_close e.controller j e w)
        (λ e at. on_close-Untouched e.controller e at refl)
  on_message-Untouched abort =
      if_found-Untouched (lookup j w.streams) (λ e. on_abort e.controller j w)
        (λ e at. on_abort-Untouched e.controller e at refl)

  start-Untouched :
      (b : Bool) (e : Entry)
      → lookup id (if b then remove j w.streams else insert j e w.streams) ≡ lookup id w.streams
  start-Untouched true e = remove_other
  start-Untouched false e = insert_other e

  answer-Untouched : (o : Option Entry) → Untouched id w ((answer o j w).0)
  unfolding answer serve start_entry
  answer-Untouched none = Untouched-refl id w
  answer-Untouched (some e) = record {
    entry = start-Untouched e.closed _;
    streams = λ c s there own. get_elem?-snoc w.opened (start_stream j e) c there;
  }

  gone-Untouched :
      (b : Bool) (c : ℕ) (s : Stream)
      → get_elem? w.opened c ≡ some s
      → (s.owner == j && can_cancel s) ≡ b
      → Untouched id w (
          if b
          then record w { opened = on_stream c discard w.opened; streams = remove j w.streams }
          else w)
  gone-Untouched false c s at h = Untouched-refl id w
  gone-Untouched true c s at h = record {
    entry = remove_other;
    streams = λ d t there own. on_stream-other c d discard w.opened at there (λ same. ground arith);
  }

  cancel-Untouched :
      (o : Option Stream) (c : ℕ)
      → get_elem? w.opened c ≡ o
      → Untouched id w (cancel_stream o j c w)
  unfolding cancel_stream
  cancel-Untouched none c at = Untouched-refl id w
  cancel-Untouched (some s) c at = gone-Untouched (s.owner == j && can_cancel s) c s at refl

-- In a sound worker an event that names another id, be it a registration, a chunk, a close, an abort,
-- a request or a cancellation, leaves the entry of an id and every stream that its requests opened.
pub step-Untouched :
    (id : ℕ) (e : Event) {w : Worker}
    → IsSound w
    → is_about id e ≡ false
    → Untouched id w (step e w)
unfolding step on_fetch on_cancel
step-Untouched id (message j m) v apart = on_message-Untouched v id j apart m
step-Untouched id (fetch other) {w} v apart = Untouched-refl id w
step-Untouched id (fetch (download j)) {w} v apart =
    answer-Untouched v id j apart (lookup j w.streams)
step-Untouched id (cancel j c) {w} v apart =
    cancel-Untouched v id j apart (get_elem? w.opened c) c refl
