-- ===== src/Worker/Turns.antt =====
-- The events that take a download in the service worker from one stage to the next.
use Prim.Native.String.{String}
use p2ptransfer.Base.{
  ℕ, ◌≡◌, refl, sym, ap, ◌∙◌, arith, List, [], Option, some, Bool, true, false, length, lookup,
  if◌then◌else◌, lookup-insert, lookup-remove, subst,
}
use p2ptransfer.Wire.{Bytes}
use p2ptransfer.Worker.{
  Status, readable, Stream, Entry, Worker, register, close, download, message, fetch, finish,
  on_close, if_found, on_message, answer, on_fetch, start_stream, start_entry, serve, step,
  new_entry, mime_or_default, streaming,
}
use p2ptransfer.Worker.Streams.{
  IsSound, get_elem?-snoc_last, enqueue_all-queue, finish-readable, on_stream-at,
}
use p2ptransfer.Worker.Stages.{Waiting, Live, Ended}

pub register-Waiting :
    (id : ℕ) (name : String) (size : ℕ) (mime : String) (w : Worker)
    → Waiting id
        (name, size, mime_or_default mime)
        false
        []
        (step (message id (register name size mime)) w)
unfolding step on_message new_entry
register-Waiting id name size mime w = record {
  entry = new_entry name size mime;
  found = ground (arith, lookup-insert id id (new_entry name size mime) w.streams);
  no_stream = refl;
  waits = refl;
  is_shut = refl;
  described = refl;
}

close_found :
    (id : ℕ) (w : Worker) {e : Entry} {o : Option ℕ}
    → lookup id w.streams ≡ some e
    → e.controller ≡ o
    → step (message id close) w ≡ on_close o id e w
unfolding step on_message if_found
close_found id w at ctl = rw (at, ctl)

pub close-Waiting :
    (id : ℕ) {info : String × ℕ × String} (bs : List Bytes) {w : Worker}
    → Waiting id info false bs w
    → Waiting id info true bs (step (message id close) w)
unfolding on_close
close-Waiting id bs {w} h =
    let shut : Entry = record h.entry { closed = true } in
    subst (Waiting id _ true bs) (sym (close_found id w h.found h.no_stream)) (record {
      entry = shut;
      found = ground (arith, lookup-insert id id shut w.streams);
      no_stream = h.no_stream;
      waits = h.waits;
      is_shut = refl;
      described = h.described;
    })

pub close-Live :
    (id c : ℕ) (bs : List Bytes) {w : Worker}
    → IsSound w
    → Live id c bs w
    → Ended id c bs (step (message id close) w)
unfolding on_close
close-Live id c bs {w} v h = subst (Ended id c bs) (sym (close_found id w h.found h.its_stream)) (
  ground (arith, lookup-remove id id w.streams v.distinct),
  on_stream-at c (finish Status.closed) w.opened h.stands
      ∙ ap some (finish-readable Status.closed h.stream h.takes ∙ ended),
)
  where
    ended :
        record h.stream { status = Status.closed }
        ≡ record { owner = id; queue = bs; status = Status.closed }
    ended = ground (arith, h.own, h.given)

fetch_found :
    (id : ℕ) (w : Worker) {e : Entry}
    → lookup id w.streams ≡ some e
    → step (fetch (download id)) w ≡ (serve id e w).0
unfolding step on_fetch answer
fetch_found id w at = ap (λ o. (answer o id w).0) at

start_stream-of :
    (id : ℕ) {shut : Bool} {bs : List Bytes} (e : Entry)
    → e.closed ≡ shut
    → e.pending ≡ bs
    → start_stream id e
      ≡ record { owner = id; queue = bs; status = if shut then Status.closed else readable }
unfolding start_stream
start_stream-of id {shut} {bs} e is_shut waits =
    let fresh : Stream = record { owner = id; queue = []; status = readable } in
    ground (
      arith,
      enqueue_all-queue e.pending fresh refl,
      finish-readable Status.closed (record { owner = id; queue = e.pending; status = readable })
          refl,
    )

pub fetch-Live :
    (id : ℕ) {info : String × ℕ × String} (bs : List Bytes) {w : Worker}
    → Waiting id info false bs w
    → Live id (length w.opened) bs (step (fetch (download id)) w)
unfolding serve start_entry
fetch-Live id bs {w} h =
    let entry' : Entry = record h.entry { controller = some (length w.opened); pending = [] } in
    let s : Stream = record { owner = id; queue = bs; status = readable } in
    subst (Live id (length w.opened) bs) (sym (fetch_found id w h.found)) (record {
      entry = entry';
      found = ground (arith, h.is_shut, lookup-insert id id entry' w.streams);
      its_stream = refl;
      stream = s;
      stands =
          get_elem?-snoc_last w.opened (start_stream id h.entry)
          ∙ ap some (start_stream-of id h.entry h.is_shut h.waits);
      own = refl;
      given = refl;
      takes = refl;
    })

pub fetch-Ended :
    (id : ℕ) {info : String × ℕ × String} (bs : List Bytes) {w : Worker}
    → IsSound w
    → Waiting id info true bs w
    → Ended id (length w.opened) bs (step (fetch (download id)) w)
unfolding serve start_entry
fetch-Ended id bs {w} v h = subst (Ended id (length w.opened) bs) (sym (fetch_found id w h.found)) (
  ground (arith, h.is_shut, lookup-remove id id w.streams v.distinct),
  get_elem?-snoc_last w.opened (start_stream id h.entry)
      ∙ ap some (start_stream-of id h.entry h.is_shut h.waits),
)

pub fetch-answer :
    (id : ℕ) {name : String} {size : ℕ} {mime : String} {shut : Bool} {bs : List Bytes} {w : Worker}
    → Waiting id (name, size, mime) shut bs w
    → (on_fetch (download id) w).1 ≡ streaming (length w.opened) mime name size
unfolding on_fetch answer serve
fetch-answer id {w = w} h =
    ap (λ o. (answer o id w).1) h.found
    ∙ ap (λ (i : String × ℕ × String). streaming (length w.opened) i.2 i.0 i.1) h.described
