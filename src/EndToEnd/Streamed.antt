-- ===== src/EndToEnd/Streamed.antt =====
-- From the sender's file to the response that the receiver's service worker streams to the browser.
use Prim.Native.String.{String}
use p2ptransfer.Base.{
  ℕ, zero, suc, ◌^◌, ◌≤◌, ◌≡◌, ◌⊎◌, inl, inr, refl, sym, ap, ◌∙◌, subst, List, [], ◌∷◌, ◌++◌, map,
  some, true, arith, length, All, append-nil, flatten, ==_self, ap₂, some-injective,
}
use p2ptransfer.Wire.{Bytes, chunks_of}
use p2ptransfer.Worker.{
  Worker, Message, register, chunk, close, Event, message, fetch, download, run, step,
}
use p2ptransfer.Worker.Streams.{IsSound}
use p2ptransfer.Worker.Stages.{Ended}
use p2ptransfer.Worker.Delivery.{IsQuiet, posted_chunks, run-delivers, run-delivers_late}
use p2ptransfer.Batch.{Chunk}
use p2ptransfer.Download.{Downloader, sw}
use p2ptransfer.Download.Progress.{Passed, streamed, buffered}
use p2ptransfer.Receiver.{Receiver, handle_all}
use p2ptransfer.Receiver.Transfer.{IsReady}
use p2ptransfer.Streams.Schedule as Sched
use p2ptransfer.Streams.Schedule.{create_offer}
use p2ptransfer.EndToEnd.{Delivers, frames, transfer_end_to_end}

-- The messages of a page for its download, with the browser's request behind the first `k`.
abbrev pub requested : ℕ → ℕ → List Message → List Event
requested id zero ms = fetch (download id) ∷ map (message id) ms
requested id (suc k) [] = fetch (download id) ∷ []
requested id (suc k) (m ∷ ms) = message id m ∷ requested id k ms

abbrev posts : ℕ → List Bytes → List Event
posts id = map λ b. message id (chunk b)

posts-IsQuiet : (id : ℕ) (bs : List Bytes) → All (IsQuiet id) (posts id bs)
posts-IsQuiet id [] = tt
posts-IsQuiet id (b ∷ bs) = (tt, posts-IsQuiet id bs)

chunks-posts : (id : ℕ) (bs : List Bytes) → posted_chunks id (posts id bs) ≡ bs
chunks-posts id [] = refl
chunks-posts id (b ∷ bs) = ground (arith, ==_self id, chunks-posts id bs)

map-posts :
    (id : ℕ) (bs : List Bytes)
    → map (message id) (map chunk bs ++ close ∷ []) ≡ posts id bs ++ message id close ∷ []
map-posts id [] = refl
map-posts id (b ∷ bs) = ap (λ es. message id (chunk b) ∷ es) (map-posts id bs)

-- The request comes between the chunks or behind the close.
requested-cases :
    (id k : ℕ) (bs : List Bytes)
    → ((before : List Bytes) × (after : List Bytes) × (before ++ after ≡ bs)
        × (requested id k (map chunk bs ++ close ∷ [])
            ≡ posts id before ++ (fetch (download id) ∷ (posts id after ++ message id close ∷ []))))
      ⊎ (requested id k (map chunk bs ++ close ∷ [])
          ≡ posts id bs ++ (message id close ∷ fetch (download id) ∷ []))
requested-cases id zero bs =
    inl ([], bs, refl, ap (λ es. fetch (download id) ∷ es) (map-posts id bs))
requested-cases id (suc k) [] = inr (behind k)
  where
    behind :
        (k : ℕ) → message id close ∷ requested id k [] ≡ message id close ∷ fetch (download id) ∷ []
    behind zero = refl
    behind (suc k) = refl
requested-cases id (suc k) (b ∷ bs) = elim (requested-cases id k bs) [
  | inl (before, after, whole, e) ↦
      inl (b ∷ before, after, ap (λ q. b ∷ q) whole, ap (λ es. message id (chunk b) ∷ es) e)
  | inr e ↦ inr (ap (λ es. message id (chunk b) ∷ es) e)
]

pub run-requested :
    (id k : ℕ) (name : String) (size : ℕ) (mime : String) (bs : List Bytes) (w : Worker)
    → IsSound w
    → (c : ℕ) × Ended id c bs
        (run (message id (register name size mime) ∷ requested id k (map chunk bs ++ close ∷ [])) w)
unfolding run
run-requested id k name size mime bs w v = elim (requested-cases id k bs) [
  | inl (before, after, whole, e) ↦
      let c = length (run (posts id before) (step registered w)).opened in
      let (answered, done) =
        run-delivers id name size mime (posts id before) (posts id after) w v
          (posts-IsQuiet id before) (posts-IsQuiet id after) in
      (
        c,
        subst (λ q. Ended id c q (run (registered ∷ requested id k (map chunk bs ++ close ∷ [])) w))
            (ap₂ (λ p q. p ++ q) (chunks-posts id before) (chunks-posts id after) ∙ whole)
            (subst
              (λ es.
                Ended id c (posted_chunks id (posts id before) ++ posted_chunks id (posts id after))
                  (run (registered ∷ es) w))
              (sym e) done),
      )
  | inr e ↦
      let c = length (step (message id close) (run (posts id bs) (step registered w))).opened in
      let (answered, done) =
        run-delivers_late id name size mime (posts id bs) [] w v (posts-IsQuiet id bs) tt in
      (
        c,
        subst (λ q. Ended id c q (run (registered ∷ requested id k (map chunk bs ++ close ∷ [])) w))
            (append-nil (posted_chunks id (posts id bs)) ∙ chunks-posts id bs)
            (subst
              (λ es. Ended id c (posted_chunks id (posts id bs) ++ []) (run (registered ∷ es) w))
              (sym e) done),
      )
]
  where
    registered : Event
    registered = message id (register name size mime)

-- A downloader that streams has posted the chunks and the `close` behind what it had posted.
Passed-posted :
    {before : List Message} {bs : List Bytes} {d : Downloader}
    → Passed before bs true d
    → d.mode ≡ sw
    → d.posted ≡ before ++ (map chunk bs ++ close ∷ [])
Passed-posted (streamed m p s) h = p
Passed-posted (buffered m f s p) h = absurd (ground arith)

module _ (file : Bytes) (es : List Sched.Event) (fits : chunks_of (length file) ≤ 2 ^ 32)
    (ds : List Chunk) (r : Receiver) (d : Downloader)
    (fired : (Sched.run es (create_offer file)).engine.complete_fired ≡ true)
    (net : Delivers (Sched.run es (create_offer file)).sent ds) (id k : ℕ) (name : String)
    (size : ℕ) (mime : String) (w : Worker)
    (ready : IsReady (register name size mime ∷ []) (chunks_of (length file)) r)
    (its : (handle_all (frames ds) r).downloader ≡ some d) (streams : d.mode ≡ sw)
    (v : IsSound w) where
  -- From the sender's file to the browser's download, for a receiver whose downloader has registered
  -- itself with the service worker and streams. Once the sender has declared the transfer complete and
  -- the network has delivered what was sent, the messages that the downloader has posted, with the
  -- browser's request behind any of them from the registration on, leave in a sound worker a stream of
  -- that id that is closed and holds buffers which put together are the file; the worker has forgotten
  -- the id.
  pub transfer_streams :
      (c : ℕ) × (bs : List Bytes) × Ended id c bs (run (requested id (suc k) d.posted) w)
      × (flatten bs ≡ file)
  transfer_streams =
      let before = register name size mime ∷ [] in
      let (d', bs, at, passed, whole, once) =
        transfer_end_to_end file es fits before ds r fired net ready in
      let same : d' ≡ d = some-injective d' d (sym at ∙ its) in
      let posted : d.posted ≡ before ++ (map chunk bs ++ close ∷ []) =
        Passed-posted (subst (Passed before bs true) same passed) streams in
      let (c, done) = run-requested id k name size mime bs w v in
      (
        c,
        bs,
        subst (λ ms. Ended id c bs (run (requested id (suc k) ms) w)) (sym posted) done,
        whole,
      )
