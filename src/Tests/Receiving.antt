-- ===== src/Tests/Receiving.antt =====
-- A transfer of two chunks, as the receiver sees it.
use mathlib.Core.Quot
use p2ptransfer.Base.{ℕ, ◌≡◌, refl, List, [], ◌∷◌, ◌++◌, none, some, false, arith, lookup}
use p2ptransfer.Wire.{Bytes, get_uint32, frame, set_uint32}
use p2ptransfer.Worker.{chunk, close}
use p2ptransfer.Download.{
  Downloader, sw, unset, registering, prepared, write, resume, acknowledged, failed, close_download,
}
use p2ptransfer.Download.Progress.{streamed}
use p2ptransfer.Download.Early.{
  early_writes_lost, Use, writes, replies, closes, use_all, write_all, messages_of,
}
use p2ptransfer.Receiver.{Receiver, FileInfo, handle_all, drain}
use p2ptransfer.Receiver.Drain.{Holds, Moved, drain-Moved}
use p2ptransfer.Receiver.Delivery.{AllCarry, nil, cons}
use p2ptransfer.Receiver.Order.{SameArrivals, arrived, reach, handle_all-same}
use p2ptransfer.Receiver.Transfer.{IsReady, HasReached, handle_all-HasReached}

abbrev two_chunks : FileInfo
two_chunks = record { name = "a.bin"; size = 2; mime = ""; total_chunks = 2 }

abbrev streaming : Downloader
streaming = record {
  mode = sw;
  phase = prepared;
  name = "a.bin";
  mime = "application/octet-stream";
  size = 2;
  fallback_chunks = [];
  posted = [];
  saved = [];
}

abbrev ready : Receiver
ready = record {
  file_info = some two_chunks;
  total_chunks = 2;
  received_chunks = 0;
  bytes_transferred = 0;
  next_write_index = 0;
  pending_chunks = [];
  downloader = some streaming;
  timing = false;
  stats = false;
  completions = 0;
}

ready-IsReady : IsReady [] 2 ready
ready-IsReady = record {
  known = (two_chunks, refl);
  announced = refl;
  some_chunks = omega arith;
  prepared = (streaming, refl, streamed refl refl refl);
  none_received = refl;
  none_written = refl;
  none_pending = refl;
  not_completed = refl;
}

-- Chunk `i` holds the byte `i`.
abbrev content : ℕ → Bytes
content i = i ∷ []

abbrev late_first : List Bytes
late_first = frame 1 (1 ∷ []) ∷ frame 1 (1 ∷ []) ∷ frame 0 (0 ∷ []) ∷ []

late_first-AllCarry : AllCarry content [] 2 (1 ∷ 1 ∷ 0 ∷ []) late_first
unfolding frame set_uint32 get_uint32
late_first-AllCarry =
    cons (record { header = refl; body = refl; in_range = omega arith })
      (cons (record { header = refl; body = refl; in_range = omega arith })
        (cons (record { header = refl; body = refl; in_range = omega arith }) nil))

-- The chunk that came too early and twice is written once, behind the other.
late_first_runs :
    (handle_all late_first ready).downloader
    ≡ some (record streaming { posted = chunk (0 ∷ []) ∷ chunk (1 ∷ []) ∷ close ∷ [] })
unfolding handle_all write close_download frame set_uint32 get_uint32
late_first_runs = refl

handle_all-HasReached_example :
    (due : ℕ) × HasReached content [] 2 (1 ∷ 1 ∷ 0 ∷ []) due (handle_all late_first ready)
handle_all-HasReached_example =
    handle_all-HasReached content [] 2 (1 ∷ 1 ∷ 0 ∷ []) late_first ready late_first-AllCarry
      ready-IsReady

abbrev in_order : List Bytes
in_order = frame 0 (0 ∷ []) ∷ frame 1 (1 ∷ []) ∷ []

in_order-AllCarry : AllCarry content [] 2 (0 ∷ 1 ∷ []) in_order
unfolding frame set_uint32 get_uint32
in_order-AllCarry =
    cons (record { header = refl; body = refl; in_range = omega arith })
      (cons (record { header = refl; body = refl; in_range = omega arith }) nil)

both_arrive : SameArrivals (1 ∷ 1 ∷ 0 ∷ []) (0 ∷ 1 ∷ [])
both_arrive k = ground arith

handle_all-same_example :
    HasReached content [] 2
      (1 ∷ 1 ∷ 0 ∷ [])
      (reach 2 (arrived (1 ∷ 1 ∷ 0 ∷ [])))
      (handle_all late_first ready)
    × HasReached content [] 2
        (0 ∷ 1 ∷ [])
        (reach 2 (arrived (1 ∷ 1 ∷ 0 ∷ [])))
        (handle_all in_order ready)
handle_all-same_example =
    handle_all-same content 2 [] [] (1 ∷ 1 ∷ 0 ∷ []) (0 ∷ 1 ∷ []) late_first in_order ready ready
      (Quot.sound both_arrive) late_first-AllCarry in_order-AllCarry ready-IsReady ready-IsReady

reach-two : reach 2 (arrived (1 ∷ 1 ∷ 0 ∷ [])) ≡ 2
unfolding reach
reach-two = refl

-- Chunks 1 and 2 of three wait for the chunk that has just been written.
abbrev gap_closed : Receiver
gap_closed = record ready {
  total_chunks = 3;
  received_chunks = 3;
  next_write_index = 1;
  pending_chunks = (2, 2 ∷ []) ∷ (1, 1 ∷ []) ∷ [];
  downloader = some (record streaming { posted = chunk (0 ∷ []) ∷ [] });
}

gap_closed-Holds : Holds content [] false gap_closed
gap_closed-Holds = record {
  distinct = (refl, (refl, tt));
  keys = λ k b found. ground (arith, found);
  passed = (record streaming { posted = chunk (0 ∷ []) ∷ [] }, refl, streamed refl refl refl);
}

drain-Moved_example :
    Moved content [] gap_closed (drain 2 gap_closed)
    × (lookup (drain 2 gap_closed).next_write_index (drain 2 gap_closed).pending_chunks ≡ none)
drain-Moved_example = drain-Moved content [] 2 gap_closed gap_closed-Holds (omega arith)

abbrev waiting_for_worker : Downloader
waiting_for_worker = record streaming { mode = unset; phase = registering }

abbrev early_chunks : List Bytes
early_chunks = (1 ∷ []) ∷ (2 ∷ []) ∷ []

abbrev late_uses : List Use
late_uses = writes (3 ∷ []) ∷ replies failed ∷ writes (4 ∷ []) ∷ closes ∷ []

late_messages : messages_of late_uses ≡ chunk (3 ∷ []) ∷ chunk (4 ∷ []) ∷ close ∷ []
late_messages = refl

early_writes_lost_example :
    let after =
      use_all late_uses (resume acknowledged (write_all early_chunks waiting_for_worker)) in
    (after.posted ≡ waiting_for_worker.posted ++ messages_of late_uses)
    × (after.saved ≡ waiting_for_worker.saved)
    × (after.fallback_chunks ≡ waiting_for_worker.fallback_chunks ++ early_chunks)
early_writes_lost_example = early_writes_lost early_chunks late_uses waiting_for_worker refl refl
