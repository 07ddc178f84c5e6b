-- ===== src/Tests/Streamed.antt =====
-- A transfer that streams through the receiver's service worker.
use p2ptransfer.Base.{ℕ, ◌≡◌, refl, List, [], ◌∷◌, flatten, some, true, arith, length}
use p2ptransfer.Wire.{Bytes, chunks_of, get_uint32}
use p2ptransfer.Worker
use p2ptransfer.Worker.{register, Message, chunk, close, mime_or_default}
use p2ptransfer.Worker.Stages.{Ended}
use p2ptransfer.Download.{
  Downloader, sw, prepared, active, acknowledged, close_download, write, resume, prepare,
  new_downloader,
}
use p2ptransfer.Receiver.{
  Receiver, FileInfo, new_receiver, receive_info, resume_prepare, handle_all,
}
use p2ptransfer.Receiver.Transfer.{IsReady}
use p2ptransfer.Receiver.Ready.{resume_all, resume_all-IsReady, Begun}
use p2ptransfer.EndToEnd.{frames}
use p2ptransfer.EndToEnd.Streamed.{requested, transfer_streams}
use p2ptransfer.Tests.Runs.{one_chunk, one_relay, one_relay_fired}
use p2ptransfer.Tests.Whole.{delivered, delivered-Delivers, few_chunks}
use p2ptransfer.Tests.Workers.{new_worker, new_worker-IsSound}

abbrev info : FileInfo
info = record { name = "a.bin"; size = 3; mime = "text/plain"; total_chunks = 1 }

abbrev preparing : Receiver
preparing = resume_all (active ∷ acknowledged ∷ []) (receive_info true info new_receiver)

abbrev registered : Downloader
registered = record {
  mode = sw;
  phase = prepared;
  name = "a.bin";
  mime = "text/plain";
  size = 3;
  fallback_chunks = [];
  posted = register "a.bin" 3 "text/plain" ∷ [];
  saved = [];
}

has_registered : preparing.downloader ≡ some registered
unfolding receive_info resume_prepare mime_or_default new_receiver resume prepare new_downloader
has_registered = refl

resume_all-IsReady_example : IsReady registered.posted 1 preparing × Begun info registered
resume_all-IsReady_example =
    resume_all-IsReady true info (active ∷ acknowledged ∷ []) registered (omega arith)
      has_registered refl

preparing-IsReady : IsReady registered.posted (chunks_of (length one_chunk)) preparing
unfolding chunks_of
preparing-IsReady =
    (resume_all-IsReady true info (active ∷ acknowledged ∷ []) registered (omega arith)
      has_registered refl).0

abbrev streamed_all : Downloader
streamed_all = record registered {
  posted = register "a.bin" 3 "text/plain" ∷ chunk (10 ∷ 20 ∷ 30 ∷ []) ∷ close ∷ [];
}

has_streamed : (handle_all (frames delivered) preparing).downloader ≡ some streamed_all
unfolding handle_all receive_info resume_prepare mime_or_default get_uint32 new_receiver
    close_download write resume prepare new_downloader
has_streamed = refl

transfer_streams_example :
    (c : ℕ) × (bs : List Bytes) × Ended 5 c bs
      (Worker.run (requested 5 2 streamed_all.posted) new_worker)
    × (flatten bs ≡ one_chunk)
transfer_streams_example =
    transfer_streams one_chunk one_relay few_chunks delivered preparing streamed_all one_relay_fired
      delivered-Delivers 5 1 "a.bin" 3 "text/plain" new_worker preparing-IsReady has_streamed refl
      new_worker-IsSound
