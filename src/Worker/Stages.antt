-- ===== src/Worker/Stages.antt =====
-- The stages of one id's download in the service worker, and what other ids' events and its own
-- chunks do to them.
use Prim.Native.String.{String}
use p2ptransfer.Base.{
  ℕ, ◌≡◌, sym, ap, ◌∙◌, arith, List, [], ◌∷◌, ◌++◌, Option, none, some, Bool, false, lookup,
  get_elem?, lookup-insert, subst,
}
use p2ptransfer.Wire.{Bytes}
use p2ptransfer.Worker.{
  Status, readable, Stream, Entry, Worker, chunk, Event, message, enqueue, on_chunk, if_found,
  on_message, step,
}
use p2ptransfer.Worker.Streams.{IsSound, enqueue-readable, on_stream-at}
use p2ptransfer.Worker.Isolated.{is_about, step-Untouched}

-- Registered as `info` (name, size, MIME type) and not yet requested, with the chunks that wait and
-- whether the page closed it.
pub record Waiting (id : ℕ) (info : String × ℕ × String) (shut : Bool) (bs : List Bytes)
    (w : Worker) : Type 0 where
  pub entry : Entry
  pub found : lookup id w.streams ≡ some entry
  pub no_stream : entry.controller ≡ none
  pub waits : entry.pending ≡ bs
  pub is_shut : entry.closed ≡ shut
  pub described : (entry.filename, entry.size, entry.mime) ≡ info

-- Requested, with the stream at place `c` and what it has been given.
pub record Live (id c : ℕ) (bs : List Bytes) (w : Worker) : Type 0 where
  pub entry : Entry
  pub found : lookup id w.streams ≡ some entry
  pub its_stream : entry.controller ≡ some c
  pub stream : Stream
  pub stands : get_elem? w.opened c ≡ some stream
  pub own : stream.owner ≡ id
  pub given : stream.queue ≡ bs
  pub takes : stream.status ≡ readable

-- Closed: the entry is gone and the stream at place `c` ends after what it was given.
abbrev pub Ended : ℕ → ℕ → List Bytes → Worker → Type 0
Ended id c bs w =
    (lookup id w.streams ≡ none)
    × (get_elem? w.opened c ≡ some (record { owner = id; queue = bs; status = Status.closed }))

-- What `id` has is the same after another id's event.
pub Waiting-other :
    (id : ℕ) {info : String × ℕ × String} {shut : Bool} (bs : List Bytes) (e : Event) {w : Worker}
    → IsSound w
    → is_about id e ≡ false
    → Waiting id info shut bs w
    → Waiting id info shut bs (step e w)
Waiting-other id bs e v apart h = record {
  entry = h.entry;
  found = (step-Untouched id e v apart).entry ∙ h.found;
  no_stream = h.no_stream;
  waits = h.waits;
  is_shut = h.is_shut;
  described = h.described;
}

pub Live-other :
    (id c : ℕ) (bs : List Bytes) (e : Event) {w : Worker}
    → IsSound w
    → is_about id e ≡ false
    → Live id c bs w
    → Live id c bs (step e w)
Live-other id c bs e v apart h = record {
  entry = h.entry;
  found = (step-Untouched id e v apart).entry ∙ h.found;
  its_stream = h.its_stream;
  stream = h.stream;
  stands = (step-Untouched id e v apart).streams c h.stream h.stands h.own;
  own = h.own;
  given = h.given;
  takes = h.takes;
}

chunk_found :
    (id : ℕ) (b : Bytes) (w : Worker) {e : Entry} {o : Option ℕ}
    → lookup id w.streams ≡ some e
    → e.controller ≡ o
    → step (message id (chunk b)) w ≡ on_chunk o id b e w
unfolding step on_message if_found
chunk_found id b w at ctl = rw (at, ctl)

pub Waiting-chunk :
    (id : ℕ) {info : String × ℕ × String} {shut : Bool} (b : Bytes) (bs : List Bytes) {w : Worker}
    → Waiting id info shut bs w
    → Waiting id info shut (bs ++ b ∷ []) (step (message id (chunk b)) w)
unfolding on_chunk
Waiting-chunk id b bs {w} h =
    let longer : Entry = record h.entry { pending = h.entry.pending ++ b ∷ [] } in
    subst (Waiting id _ _ (bs ++ b ∷ [])) (sym (chunk_found id b w h.found h.no_stream)) (record {
      entry = longer;
      found = ground (arith, lookup-insert id id longer w.streams);
      no_stream = h.no_stream;
      waits = ap (λ q. q ++ b ∷ []) h.waits;
      is_shut = h.is_shut;
      described = h.described;
    })

pub Live-chunk :
    (id c : ℕ) (b : Bytes) (bs : List Bytes) {w : Worker}
    → Live id c bs w
    → Live id c (bs ++ b ∷ []) (step (message id (chunk b)) w)
unfolding on_chunk
Live-chunk id c b bs {w} h =
    subst (Live id c (bs ++ b ∷ [])) (sym (chunk_found id b w h.found h.its_stream)) (record {
      entry = h.entry;
      found = h.found;
      its_stream = h.its_stream;
      stream = record h.stream { queue = h.stream.queue ++ b ∷ [] };
      stands =
          on_stream-at c (enqueue b) w.opened h.stands
          ∙ ap some (enqueue-readable b h.stream h.takes);
      own = h.own;
      given = ap (λ q. q ++ b ∷ []) h.given;
      takes = h.takes;
    })
