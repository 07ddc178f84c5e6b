-- ===== src/Download.antt =====
-- `StreamingDownloader` of web/static/js/transfer.js. The platform's answers inside `prepare` come
-- as events, since other handlers run at each `await`. What `_sw.postMessage` has sent stands in
-- `posted`, what the Blob link has saved in `saved`.
pub mod Progress
pub mod Early
use Prim.Native.String.{String}
use p2ptransfer.Base.{ℕ, List, [], ◌∷◌, ◌++◌, Bool, true, false, if◌then◌else◌}
use p2ptransfer.Wire.{Bytes}
use p2ptransfer.Worker.{Message, register, chunk, close, abort, mime_or_default}

-- `this.mode`: null, 'sw' or 'blob'.
pub data Mode : Type 0 where
  unset sw blob : Mode

-- Where `prepare` stands: not called, awaiting the registration and `_waitForActive`, awaiting the
-- worker's acknowledgement, or returned.
pub data Phase : Type 0 where
  created finding registering prepared : Phase

pub record Downloader : Type 0 where
  pub mode : Mode
  pub phase : Phase
  pub name : String
  pub mime : String
  pub size : ℕ
  pub fallback_chunks : List Bytes
  pub posted : List Message
  pub saved : List (List Bytes)

-- The constructor.
unfoldable pub new_downloader : Downloader
new_downloader = record {
  mode = unset;
  phase = created;
  name = "download";
  mime = "application/octet-stream";
  size = 0;
  fallback_chunks = [];
  posted = [];
  saved = [];
}

unfoldable pub post : Message → Downloader → Downloader
post m d = record d { posted = d.posted ++ m ∷ [] }

unfoldable pub fall_back : Downloader → Downloader
fall_back d = record d { mode = blob; phase = prepared }

-- `prepare`, up to its first `await`. `secure` says that service workers exist and the context is
-- secure.
unfoldable pub prepare : Bool → String → ℕ → String → Downloader → Downloader
unfolding fall_back
prepare secure name size mime d =
    let named = record d { name = name; mime = mime_or_default mime; size = size } in
    if secure then record named { phase = finding } else fall_back named

-- How an `await` of `prepare` ends: an active worker, none, the worker's acknowledgement, or an
-- exception.
pub data Reply : Type 0 where
  active none_active acknowledged failed : Reply

-- `prepare` behind the `await` that it stands at.
unfoldable pub resume_finding : Reply → Downloader → Downloader
unfolding post fall_back
resume_finding active d = record (post (register d.name d.size d.mime) d) { phase = registering }
resume_finding none_active d = fall_back d
resume_finding acknowledged d = d
resume_finding failed d = fall_back d

unfoldable pub resume_registering : Reply → Downloader → Downloader
unfolding fall_back
resume_registering active d = d
resume_registering none_active d = d
resume_registering acknowledged d = record d { mode = sw; phase = prepared }
resume_registering failed d = fall_back d

unfoldable pub resume : Reply → Downloader → Downloader
unfolding resume_finding resume_registering
resume reply d = elim d.phase [
  | created ↦ d
  | finding ↦ resume_finding reply d
  | registering ↦ resume_registering reply d
  | prepared ↦ d
]

-- `write(uint8)`
unfoldable pub write : Bytes → Downloader → Downloader
unfolding post
write bytes d = elim d.mode [
  | sw ↦ post (chunk bytes) d
  | unset ↦ record d { fallback_chunks = d.fallback_chunks ++ bytes ∷ [] }
  | blob ↦ record d { fallback_chunks = d.fallback_chunks ++ bytes ∷ [] }
]

unfoldable pub save : Downloader → Downloader
save d = record d { saved = d.saved ++ d.fallback_chunks ∷ []; fallback_chunks = [] }

-- `close()`
unfoldable pub close_download : Downloader → Downloader
unfolding post save
close_download d = elim d.mode [ sw ↦ post close d | unset ↦ save d | blob ↦ save d ]

-- `abort(reason)`. The `_sw` of the source is there whenever the mode is 'sw'.
unfoldable pub abort_download : Downloader → Downloader
unfolding post
abort_download d = elim d.mode [
  | sw ↦ record (post abort d) { fallback_chunks = [] }
  | unset ↦ record d { fallback_chunks = [] }
  | blob ↦ record d { fallback_chunks = [] }
]
