-- ===== src/Worker/Delivery.antt =====
-- A download that streams through the service worker: the chunks that the page posted before the
-- request and after it stand in the response's stream, whatever other downloads do in between.
use Prim.Native.String.{String}
use p2ptransfer.Base.{
  ℕ, ◌≡◌, refl, sym, ap, ◌∙◌, List, [], ◌∷◌, ◌++◌, Bool, true, false, length, ◌==◌, if◌then◌else◌,
  Bool-cases, inl, inr, append_assoc, append-nil, All, ◌⊎◌, subst, ==_iff,
}
use p2ptransfer.Wire.{Bytes}
use p2ptransfer.Worker.{
  Worker, register, chunk, close, abort, download, other, Event, message, fetch, cancel, on_fetch,
  step, run, mime_or_default, streaming,
}
use p2ptransfer.Worker.Streams.{IsSound}
use p2ptransfer.Worker.Sound.{step-IsSound, run-IsSound}
use p2ptransfer.Worker.Isolated.{is_about}
use p2ptransfer.Worker.Stages.{
  Waiting, Live, Ended, Waiting-other, Waiting-chunk, Live-other, Live-chunk,
}
use p2ptransfer.Worker.Turns.{
  register-Waiting, close-Waiting, close-Live, fetch-Live, fetch-Ended, fetch-answer,
}

-- An event of the page that leaves the download of `id` running: another id's, or a chunk of its.
abbrev pub IsQuiet : ℕ → Event → Type 0
IsQuiet id (message j (register n s m)) = (id == j) ≡ false
IsQuiet id (message j (chunk b)) = Unit
IsQuiet id (message j close) = (id == j) ≡ false
IsQuiet id (message j abort) = (id == j) ≡ false
IsQuiet id (fetch other) = Unit
IsQuiet id (fetch (download j)) = (id == j) ≡ false
IsQuiet id (cancel j c) = (id == j) ≡ false

-- The chunks that the page posts for `id`.
abbrev pub posted_chunk : ℕ → Event → List Bytes
posted_chunk id (message j (register n s m)) = []
posted_chunk id (message j (chunk b)) = if id == j then b ∷ [] else []
posted_chunk id (message j close) = []
posted_chunk id (message j abort) = []
posted_chunk id (fetch r) = []
posted_chunk id (cancel j c) = []

abbrev pub posted_chunks : ℕ → List Event → List Bytes
posted_chunks id [] = []
posted_chunks id (e ∷ es) = posted_chunk id e ++ posted_chunks id es

-- A quiet event is another id's, or a chunk of this one's.
Quiet-cases :
    (id : ℕ) (e : Event)
    → IsQuiet id e
    → ((is_about id e ≡ false) × (posted_chunk id e ≡ []))
      ⊎ ((b : Bytes) × (e ≡ message id (chunk b)) × (posted_chunk id e ≡ b ∷ []))
Quiet-cases id (message j (register n s m)) q = inl (q, refl)
Quiet-cases id (message j (chunk b)) q = elim (Bool-cases (id == j)) [
  | inl same ↦ inr (
    b,
    ap (λ k. message k (chunk b)) (sym ((==_iff id j).0 same)),
    ap (λ (own : Bool). if own then b ∷ [] else []) same,
  )
  | inr apart ↦ inl (apart, ap (λ (own : Bool). if own then b ∷ [] else []) apart)
]
Quiet-cases id (message j close) q = inl (q, refl)
Quiet-cases id (message j abort) q = inl (q, refl)
Quiet-cases id (fetch other) q = inl (refl, refl)
Quiet-cases id (fetch (download j)) q = inl (q, refl)
Quiet-cases id (cancel j c) q = inl (q, refl)

-- A condition that another id's events keep and that this one's chunks extend is extended by quiet
-- events.
module _ (id : ℕ) (P : List Bytes → Worker → Type 0)
    (on_other : (bs : List Bytes) (e : Event) (w : Worker)
      → IsSound w
      → is_about id e ≡ false
      → P bs w
      → P bs (step e w))
    (on_own : (b : Bytes) (bs : List Bytes) (w : Worker)
      → P bs w
      → P (bs ++ b ∷ []) (step (message id (chunk b)) w)) where
  quiet_step :
      (e : Event) (bs : List Bytes) {w : Worker}
      → IsQuiet id e
      → IsSound w
      → P bs w
      → P (bs ++ posted_chunk id e) (step e w)
  quiet_step e bs {w} q v h = elim (Quiet-cases id e q) [
    | inl (apart, nothing) ↦
        subst (λ cs. P cs (step e w)) (sym (ap (λ cs. bs ++ cs) nothing ∙ append-nil bs))
          (on_other bs e w v apart h)
    | inr (b, this, its) ↦
        subst (λ cs. P cs (step e w)) (sym (ap (λ cs. bs ++ cs) its))
          (subst (λ x. P (bs ++ b ∷ []) (step x w)) (sym this) (on_own b bs w h))
  ]

  quiet_run :
      (es : List Event) (bs : List Bytes) {w : Worker}
      → All (IsQuiet id) es
      → IsSound w
      → P bs w
      → P (bs ++ posted_chunks id es) (run es w)
  unfolding run
  quiet_run [] bs {w} q v h = subst (λ cs. P cs w) (sym (append-nil bs)) h
  quiet_run (e ∷ es) bs {w} q v h =
      subst (λ cs. P cs (run es (step e w)))
        (append_assoc bs (posted_chunk id e) (posted_chunks id es))
        (quiet_run es (bs ++ posted_chunk id e) q.1 (step-IsSound v e) (quiet_step e bs q.0 v h))

-- The events of one download, the page's close before or after the request.
abbrev pub fetched_then_closed : ℕ → String → ℕ → String → List Event → List Event → List Event
fetched_then_closed id name size mime before after =
    message id (register name size mime)
    ∷ (before ++ (fetch (download id) ∷ (after ++ message id close ∷ [])))

abbrev pub closed_then_fetched : ℕ → String → ℕ → String → List Event → List Event → List Event
closed_then_fetched id name size mime before after =
    message id (register name size mime)
    ∷ (before ++ (message id close ∷ (after ++ fetch (download id) ∷ [])))

run-append : (es fs : List Event) (w : Worker) → run (es ++ fs) w ≡ run fs (run es w)
unfolding run
run-append [] fs w = refl
run-append (e ∷ es) fs w = run-append es fs (step e w)

run-parts :
    (e : Event) (es : List Event) (f : Event) (fs : List Event) (g : Event) (w : Worker)
    → run (e ∷ (es ++ (f ∷ (fs ++ g ∷ [])))) w ≡ step g (run fs (step f (run es (step e w))))
unfolding run
run-parts e es f fs g w =
    run-append es (f ∷ (fs ++ g ∷ [])) (step e w)
    ∙ run-append fs (g ∷ []) (step f (run es (step e w)))

module _ (id : ℕ) (name : String) (size : ℕ) (mime : String) (before after : List Event)
    (w : Worker) (v : IsSound w) (q : All (IsQuiet id) before) (q' : All (IsQuiet id) after) where
  abbrev start : Event
  start = message id (register name size mime)

  abbrev described : String × ℕ × String
  described = (name, size, mime_or_default mime)

  waited : Waiting id described false (posted_chunks id before) (run before (step start w))
  waited =
      quiet_run id (Waiting id described false) (λ bs e w'. Waiting-other id bs e)
        (λ b bs w'. Waiting-chunk id b bs) before [] q (step-IsSound v start)
        (register-Waiting id name size mime w)

  sound : IsSound (run before (step start w))
  sound = run-IsSound before (step-IsSound v start)

  -- A download is registered in a sound worker, requested and closed, with chunks for it and any
  -- events of other ids in between. The request is answered with the stream at the next place and the
  -- registered headers; at the end that stream is closed, belongs to this id and holds the chunks that
  -- were posted before and after the request, in order, and the id is gone from the table.
  pub run-delivers :
      let asked = run before (step (message id (register name size mime)) w) in
      ((on_fetch (download id) asked).1
        ≡ streaming (length asked.opened) (mime_or_default mime) name size)
      × Ended id
          (length asked.opened)
          (posted_chunks id before ++ posted_chunks id after)
          (run (fetched_then_closed id name size mime before after) w)
  run-delivers =
      let c = length (run before (step start w)).opened in
      let v' = step-IsSound sound (fetch (download id)) in
      (
        fetch-answer id waited,
        subst (Ended id c (posted_chunks id before ++ posted_chunks id after))
            (sym (run-parts start before (fetch (download id)) after (message id close) w))
            (close-Live id c (posted_chunks id before ++ posted_chunks id after)
              (run-IsSound after v')
              (quiet_run id (Live id c) (λ bs e w'. Live-other id c bs e)
                (λ b bs w'. Live-chunk id c b bs) after (posted_chunks id before) q' v'
                (fetch-Live id (posted_chunks id before) waited))),
      )

  -- A download is registered in a sound worker and closed before the browser requests it, with chunks
  -- for it and any events of other ids before and after the close. The request is answered with the
  -- stream at the next place and the registered headers; that stream is closed, belongs to this id and
  -- holds all the chunks in order, and the id is gone from the table.
  pub run-delivers_late :
      let asked =
        run after
          (step (message id close) (run before (step (message id (register name size mime)) w))) in
      ((on_fetch (download id) asked).1
        ≡ streaming (length asked.opened) (mime_or_default mime) name size)
      × Ended id
          (length asked.opened)
          (posted_chunks id before ++ posted_chunks id after)
          (run (closed_then_fetched id name size mime before after) w)
  run-delivers_late =
      let v' = step-IsSound sound (message id close) in
      let last = run after (step (message id close) (run before (step start w))) in
      let waits : Waiting id described true (posted_chunks id before ++ posted_chunks id after)
          last =
        quiet_run id (Waiting id described true) (λ bs e w'. Waiting-other id bs e)
          (λ b bs w'. Waiting-chunk id b bs) after (posted_chunks id before) q' v'
          (close-Waiting id (posted_chunks id before) waited) in
      (
        fetch-answer id waits,
        subst (Ended id (length last.opened) (posted_chunks id before ++ posted_chunks id after))
            (sym (run-parts start before (message id close) after (fetch (download id)) w))
            (fetch-Ended id (posted_chunks id before ++ posted_chunks id after)
              (run-IsSound after v') waits),
      )
