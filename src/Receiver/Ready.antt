-- ===== src/Receiver/Ready.antt =====
-- How a receiver gets ready: the file info comes, and `prepare` runs to its end.
use Prim.Native.String.{String}
use p2ptransfer.Base.{
  ap, ◌++◌, ◌<◌, ◌≡◌, refl, sym, ◌∙◌, subst, List, [], ◌∷◌, some, Bool, true, false, arith,
  some-injective, append-nil,
}
use p2ptransfer.Worker.{Message, register, mime_or_default}
use p2ptransfer.Download.{
  Downloader, sw, blob, finding, registering, prepared, Reply, active, none_active, acknowledged,
  failed, new_downloader, prepare, resume, resume_finding, resume_registering, fall_back, post,
}
use p2ptransfer.Download.Progress.{Passed, streamed, buffered}
use p2ptransfer.Receiver.{
  Receiver, FileInfo, new_receiver, receive_info, resume_prepare, on_file_info,
}
use p2ptransfer.Receiver.Transfer.{IsReady}

-- The awaits of `prepare` end one after the other.
abbrev pub resume_all : List Reply → Receiver → Receiver
resume_all [] r = r
resume_all (a ∷ more) r = resume_all more (resume_prepare a r)

-- The message that registers the download.
abbrev pub registration : FileInfo → Message
registration info = register info.name info.size (mime_or_default info.mime)

-- What a downloader that no chunk has reached has posted: it streams behind its registration, or
-- buffers, whether it has registered or not.
pub data Begun (info : FileInfo) (d : Downloader) : Type 0 where
  streams : d.mode ≡ sw → d.posted ≡ registration info ∷ [] → d.saved ≡ [] → Begun info d
  buffers : d.mode ≡ blob → d.fallback_chunks ≡ [] → d.saved ≡ [] → Begun info d

-- The same at any point of `prepare`.
data IsFresh (info : FileInfo) (d : Downloader) : Type 0 where
  finds :
      d.phase ≡ finding
      → registration info ≡ register d.name d.size d.mime
      → d.posted ≡ []
      → d.fallback_chunks ≡ []
      → d.saved ≡ []
      → IsFresh info d
  registers :
      d.phase ≡ registering
      → d.posted ≡ registration info ∷ []
      → d.fallback_chunks ≡ []
      → d.saved ≡ []
      → IsFresh info d
  decided : d.phase ≡ prepared → Begun info d → IsFresh info d

mime_twice : (mime : String) → mime_or_default mime ≡ mime_or_default (mime_or_default mime)
unfolding mime_or_default
mime_twice String.[] = refl
mime_twice (String.◌∷◌ c s) = refl

prepare-IsFresh :
    (secure : Bool) (info : FileInfo)
    → IsFresh info (prepare secure info.name info.size (mime_or_default info.mime) new_downloader)
unfolding prepare fall_back new_downloader
prepare-IsFresh true info =
    finds refl (ap (register info.name info.size) (mime_twice info.mime)) refl refl refl
prepare-IsFresh false info = decided refl (buffers refl refl refl)

resume_finding-IsFresh :
    (info : FileInfo) (a : Reply) (d : Downloader)
    → d.phase ≡ finding
    → registration info ≡ register d.name d.size d.mime
    → d.posted ≡ []
    → d.fallback_chunks ≡ []
    → d.saved ≡ []
    → IsFresh info (resume_finding a d)
unfolding resume_finding fall_back post
resume_finding-IsFresh info active d at named p f s =
    registers refl
      (ap (λ ms. ms ++ register d.name d.size d.mime ∷ []) p ∙ ap (λ m. m ∷ []) (sym named)) f s
resume_finding-IsFresh info none_active d at named p f s = decided refl (buffers refl f s)
resume_finding-IsFresh info acknowledged d at named p f s = finds at named p f s
resume_finding-IsFresh info failed d at named p f s = decided refl (buffers refl f s)

resume_registering-IsFresh :
    (info : FileInfo) (a : Reply) (d : Downloader)
    → d.phase ≡ registering
    → d.posted ≡ registration info ∷ []
    → d.fallback_chunks ≡ []
    → d.saved ≡ []
    → IsFresh info (resume_registering a d)
unfolding resume_registering fall_back
resume_registering-IsFresh info active d at p f s = registers at p f s
resume_registering-IsFresh info none_active d at p f s = registers at p f s
resume_registering-IsFresh info acknowledged d at p f s = decided refl (streams refl p s)
resume_registering-IsFresh info failed d at p f s = decided refl (buffers refl f s)

resume-finding : (a : Reply) (d : Downloader) → d.phase ≡ finding → resume a d ≡ resume_finding a d
unfolding resume
resume-finding a d h = rw (h)

resume-registering :
    (a : Reply) (d : Downloader) → d.phase ≡ registering → resume a d ≡ resume_registering a d
unfolding resume
resume-registering a d h = rw (h)

resume-prepared : (a : Reply) (d : Downloader) → d.phase ≡ prepared → resume a d ≡ d
unfolding resume
resume-prepared a d h = rw (h)

resume-IsFresh :
    (info : FileInfo) (a : Reply) (d : Downloader) → IsFresh info d → IsFresh info (resume a d)
resume-IsFresh info a d (finds at named p f s) =
    subst (IsFresh info) (sym (resume-finding a d at))
      (resume_finding-IsFresh info a d at named p f s)
resume-IsFresh info a d (registers at p f s) =
    subst (IsFresh info) (sym (resume-registering a d at))
      (resume_registering-IsFresh info a d at p f s)
resume-IsFresh info a d (decided at begun) =
    subst (IsFresh info) (sym (resume-prepared a d at)) (decided at begun)

-- The receiver behind the file info, with a downloader at any point of `prepare`.
record IsPreparing (info : FileInfo) (r : Receiver) : Type 0 where
  inner : Downloader
  known : r.file_info ≡ some info
  announced : r.total_chunks ≡ info.total_chunks
  has_inner : r.downloader ≡ some inner
  fresh : IsFresh info inner
  none_received : r.received_chunks ≡ 0
  none_written : r.next_write_index ≡ 0
  none_pending : r.pending_chunks ≡ []
  not_completed : r.completions ≡ 0

receive_info-IsPreparing :
    (secure : Bool) (info : FileInfo) → IsPreparing info (receive_info secure info new_receiver)
unfolding receive_info on_file_info new_receiver
receive_info-IsPreparing secure info = record {
  inner = prepare secure info.name info.size (mime_or_default info.mime) new_downloader;
  known = refl;
  announced = refl;
  has_inner = refl;
  fresh = prepare-IsFresh secure info;
  none_received = refl;
  none_written = refl;
  none_pending = refl;
  not_completed = refl;
}

resume_prepare-IsPreparing :
    (a : Reply) {info : FileInfo} {r : Receiver}
    → IsPreparing info r
    → IsPreparing info (resume_prepare a r)
unfolding resume_prepare
resume_prepare-IsPreparing a {info} {r} v =
    subst (IsPreparing info) (sym (opened v.has_inner)) (record {
      inner = resume a v.inner;
      known = v.known;
      announced = v.announced;
      has_inner = refl;
      fresh = resume-IsFresh info a v.inner v.fresh;
      none_received = v.none_received;
      none_written = v.none_written;
      none_pending = v.none_pending;
      not_completed = v.not_completed;
    })
  where
    opened :
        r.downloader ≡ some v.inner
        → resume_prepare a r ≡ record r { downloader = some (resume a v.inner) }
    opened h = rw (h)

resume_all-IsPreparing :
    (replies : List Reply) {info : FileInfo} {r : Receiver}
    → IsPreparing info r
    → IsPreparing info (resume_all replies r)
resume_all-IsPreparing [] v = v
resume_all-IsPreparing (a ∷ more) v = resume_all-IsPreparing more (resume_prepare-IsPreparing a v)

Begun-Passed : {info : FileInfo} {d : Downloader} → Begun info d → Passed d.posted [] false d
Begun-Passed {d = d} (streams m p s) = streamed m (sym (append-nil d.posted)) s
Begun-Passed (buffers m f s) = buffered m f s refl

-- Whatever `prepare` meets on its way, a receiver that takes the file info of a file with chunks is
-- ready for them when `prepare` has returned: it has the chunk count, nothing received, and a
-- downloader that has passed on no chunk. This streams, and then has posted the registration with the
-- name, the size and the type of the file, once and nothing else; or it buffers, with an empty buffer.
pub resume_all-IsReady :
    (secure : Bool) (info : FileInfo) (replies : List Reply) (d : Downloader)
    → 0 < info.total_chunks
    → (resume_all replies (receive_info secure info new_receiver)).downloader ≡ some d
    → d.phase ≡ prepared
    → IsReady d.posted info.total_chunks
        (resume_all replies (receive_info secure info new_receiver))
      × Begun info d
resume_all-IsReady secure info replies d some_chunks its at =
    let v = resume_all-IsPreparing replies (receive_info-IsPreparing secure info) in
    let same : v.inner ≡ d = some-injective v.inner d (sym v.has_inner ∙ its) in
    let begun = begun_at d (subst (IsFresh info) same v.fresh) at in
    (
      record {
        known = (info, v.known);
        announced = v.announced;
        some_chunks = some_chunks;
        prepared = (d, its, Begun-Passed begun);
        none_received = v.none_received;
        none_written = v.none_written;
        none_pending = v.none_pending;
        not_completed = v.not_completed;
      },
      begun,
    )
  where
    begun_at : (d : Downloader) → IsFresh info d → d.phase ≡ prepared → Begun info d
    begun_at d (finds other named p f s) h = ground (arith, other, h)
    begun_at d (registers other p f s) h = ground (arith, other, h)
    begun_at d (decided there begun) h = begun
