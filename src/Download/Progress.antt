-- ===== src/Download/Progress.antt =====
-- What a downloader has passed on, in each of its modes.
use p2ptransfer.Base.{
  ◌≡◌, ap, ◌∙◌, List, [], ◌∷◌, ◌++◌, map, Bool, true, false, arith, map-append, append_assoc,
  append-nil, if◌then◌else◌,
}
use p2ptransfer.Wire.{Bytes}
use p2ptransfer.Worker.{Message, chunk, close}
use p2ptransfer.Download.{sw, blob, Downloader, write, close_download}

-- The messages for these chunks, and `close` behind them if the download is complete.
abbrev pub messages : List Bytes → Bool → List Message
messages bs done = map chunk bs ++ (if done then close ∷ [] else [])

-- A downloader whose mode is decided has passed on these chunks, in this order and nothing else
-- since it had posted `before`: to the worker, with a `close` if it is done; or into the buffer of
-- the Blob fallback, which `close` turns into one saved file.
pub data Passed (before : List Message) (bs : List Bytes) (done : Bool) (d : Downloader)
    : Type 0 where
  streamed :
      d.mode ≡ sw → d.posted ≡ before ++ messages bs done → d.saved ≡ [] → Passed before bs done d
  buffered :
      d.mode ≡ blob
      → d.fallback_chunks ≡ (if done then [] else bs)
      → d.saved ≡ (if done then bs ∷ [] else [])
      → d.posted ≡ before
      → Passed before bs done d

messages-write :
    (before : List Message) (bs : List Bytes) (b : Bytes)
    → (before ++ messages bs false) ++ chunk b ∷ [] ≡ before ++ messages (bs ++ b ∷ []) false
messages-write before bs b = simp (map-append, append_assoc, append-nil)

messages-close :
    (before : List Message) (bs : List Bytes)
    → (before ++ messages bs false) ++ close ∷ [] ≡ before ++ messages bs true
messages-close before bs = simp (append_assoc, append-nil)

posted-write :
    (b : Bytes) (d : Downloader) → d.mode ≡ sw → (write b d).posted ≡ d.posted ++ chunk b ∷ []
unfolding write
posted-write b d m = ground arith

posted-close : (d : Downloader) → d.mode ≡ sw → (close_download d).posted ≡ d.posted ++ close ∷ []
unfolding close_download
posted-close d m = ground arith

pub write-Passed :
    (b : Bytes) {before : List Message} {bs : List Bytes} {d : Downloader}
    → Passed before bs false d
    → Passed before (bs ++ b ∷ []) false (write b d)
unfolding write
write-Passed b {before} {bs} {d} (streamed m p s) =
    streamed (ground arith)
      (posted-write b d m ∙ ap (λ ms. ms ++ chunk b ∷ []) p ∙ messages-write before bs b)
      (ground arith)
write-Passed b (buffered m f s p) =
    buffered (ground arith) (ground arith) (ground arith) (ground arith)

pub close_download-Passed :
    {before : List Message} {bs : List Bytes} {d : Downloader}
    → Passed before bs false d
    → Passed before bs true (close_download d)
unfolding close_download
close_download-Passed {before} {bs} {d} (streamed m p s) =
    streamed (ground arith)
      (posted-close d m ∙ ap (λ ms. ms ++ close ∷ []) p ∙ messages-close before bs) (ground arith)
close_download-Passed {before} {bs} (buffered m f s p) =
    buffered (ground arith) (ground arith) (ground arith) (ground arith)
