-- ===== src/Download/Early.antt =====
-- Chunks that are written while `prepare` still waits.
use p2ptransfer.Base.{
  ◌≡◌, refl, sym, ap, ◌∙◌, subst, List, [], ◌∷◌, ◌++◌, append-nil, append_assoc, arith,
}
use p2ptransfer.Wire.{Bytes}
use p2ptransfer.Worker.{Message, chunk, close}
use p2ptransfer.Download.{
  Downloader, unset, sw, registering, prepared, Reply, write, resume, acknowledged, close_download,
}

abbrev pub write_all : List Bytes → Downloader → Downloader
write_all [] d = d
write_all (b ∷ bs) d = write_all bs (write b d)

-- What the receiver and the platform do with a downloader, but for `abort`.
pub data Use : Type 0 where
  writes : Bytes → Use
  replies : Reply → Use
  closes : Use

abbrev pub use_once : Use → Downloader → Downloader
use_once (writes b) d = write b d
use_once (replies a) d = resume a d
use_once closes d = close_download d

abbrev pub use_all : List Use → Downloader → Downloader
use_all [] d = d
use_all (u ∷ us) d = use_all us (use_once u d)

-- The messages to the worker that these uses stand for.
abbrev pub messages_of : List Use → List Message
messages_of [] = []
messages_of (writes b ∷ us) = chunk b ∷ messages_of us
messages_of (replies a ∷ us) = messages_of us
messages_of (closes ∷ us) = close ∷ messages_of us

-- What `d'` has of `d`: messages, the fallback buffer, and what has been saved.
record Beyond (d : Downloader) (sent : List Message) (kept : List Bytes) (d' : Downloader)
    : Type 0 where
  posted : d'.posted ≡ d.posted ++ sent
  fallback : d'.fallback_chunks ≡ d.fallback_chunks ++ kept
  saved : d'.saved ≡ d.saved
  mode : d'.mode ≡ d.mode
  phase : d'.phase ≡ d.phase

Beyond-nil : (d : Downloader) → Beyond d [] [] d
Beyond-nil d = record {
  posted = sym (append-nil d.posted);
  fallback = sym (append-nil d.fallback_chunks);
  saved = refl;
  mode = refl;
  phase = refl;
}

Beyond-append :
    {d e f : Downloader} {ms ns : List Message} {bs cs : List Bytes}
    → Beyond d ms bs e
    → Beyond e ns cs f
    → Beyond d (ms ++ ns) (bs ++ cs) f
Beyond-append {d} {e} {f} {ms} {ns} {bs} {cs} v w = record {
  posted = w.posted ∙ ap (λ xs. xs ++ ns) v.posted ∙ append_assoc d.posted ms ns;
  fallback = w.fallback ∙ ap (λ xs. xs ++ cs) v.fallback ∙ append_assoc d.fallback_chunks bs cs;
  saved = w.saved ∙ v.saved;
  mode = w.mode ∙ v.mode;
  phase = w.phase ∙ v.phase;
}

unset_write : (b : Bytes) (d : Downloader) → d.mode ≡ unset → Beyond d [] (b ∷ []) (write b d)
unfolding write
unset_write b d m = record {
  posted = ground (arith, m, append-nil d.posted);
  fallback = ground (arith, m);
  saved = ground (arith, m);
  mode = ground (arith, m);
  phase = ground (arith, m);
}

unset_writes : (bs : List Bytes) (d : Downloader) → d.mode ≡ unset → Beyond d [] bs (write_all bs d)
unset_writes [] d m = Beyond-nil d
unset_writes (b ∷ bs) d m =
    let one = unset_write b d m in Beyond-append one (unset_writes bs (write b d) (one.mode ∙ m))

-- A downloader that streams, and whose `prepare` has returned.
streaming_use :
    (u : Use) (d : Downloader)
    → d.mode ≡ sw
    → d.phase ≡ prepared
    → Beyond d (messages_of (u ∷ [])) [] (use_once u d)
unfolding write resume close_download
streaming_use (writes b) d m p = record {
  posted = ground (arith, m);
  fallback = ground (arith, m, append-nil d.fallback_chunks);
  saved = ground (arith, m);
  mode = ground (arith, m);
  phase = ground (arith, m);
}
streaming_use closes d m p = record {
  posted = ground (arith, m);
  fallback = ground (arith, m, append-nil d.fallback_chunks);
  saved = ground (arith, m);
  mode = ground (arith, m);
  phase = ground (arith, m);
}
streaming_use (replies a) d m p = subst (Beyond d [] []) (sym same) (Beyond-nil d)
  where
    same : resume a d ≡ d
    same = rw (p)

messages_of-cons :
    (u : Use) (us : List Use) → messages_of (u ∷ []) ++ messages_of us ≡ messages_of (u ∷ us)
messages_of-cons (writes b) us = refl
messages_of-cons (replies a) us = refl
messages_of-cons closes us = refl

streaming_uses :
    (us : List Use) (d : Downloader)
    → d.mode ≡ sw
    → d.phase ≡ prepared
    → Beyond d (messages_of us) [] (use_all us d)
streaming_uses [] d m p = Beyond-nil d
streaming_uses (u ∷ us) d m p =
    let one = streaming_use u d m p in
    subst (λ ms. Beyond d ms [] (use_all us (use_once u d))) (messages_of-cons u us)
      (Beyond-append one (streaming_uses us (use_once u d) (one.mode ∙ m) (one.phase ∙ p)))

acknowledged_lem :
    (d : Downloader)
    → d.phase ≡ registering
    → resume acknowledged d ≡ record d { mode = sw; phase = prepared }
unfolding resume
acknowledged_lem d p = rw (p)

-- Chunks, any number of them, that are written while the service worker's acknowledgement is awaited
-- go into the buffer of the Blob fallback, and stay there when the mode becomes 'sw'. Whatever is
-- written, closed and answered afterwards, only the later chunks and `close` are posted to the
-- worker, none of the early ones, and no Blob is saved.
pub early_writes_lost :
    (early : List Bytes) (late : List Use) (d : Downloader)
    → d.mode ≡ unset
    → d.phase ≡ registering
    → let after = use_all late (resume acknowledged (write_all early d)) in
      (after.posted ≡ d.posted ++ messages_of late)
      × (after.saved ≡ d.saved)
      × (after.fallback_chunks ≡ d.fallback_chunks ++ early)
early_writes_lost early late d m p =
    let first = unset_writes early d m in
    let e = write_all early d in
    let on : Downloader = record e { mode = sw; phase = prepared } in
    let rest = streaming_uses late on refl refl in
    subst
      (λ (x : Downloader).
        let after = use_all late x in
        (after.posted ≡ d.posted ++ messages_of late)
        × (after.saved ≡ d.saved)
        × (after.fallback_chunks ≡ d.fallback_chunks ++ early))
      (sym (acknowledged_lem e (first.phase ∙ p)))
      (
        rest.posted ∙ ap (λ xs. xs ++ messages_of late) (first.posted ∙ append-nil d.posted),
        rest.saved ∙ first.saved,
        rest.fallback ∙ append-nil e.fallback_chunks ∙ first.fallback,
      )
