-- ===== src/Tests/Whole.antt =====
-- A transfer from the sender's file to the receiver's.
use p2ptransfer.Base.{
  ℕ, take, ◌==◌, if◌then◌else◌, ◌^◌, ◌≤◌, ◌≡◌, refl, inl, List, [], ◌∷◌, flatten, some, true, false,
  arith, length,
}
use p2ptransfer.Wire.{Bytes, chunks_of}
use p2ptransfer.Batch.{Chunk}
use p2ptransfer.Download.{Downloader, blob, prepared}
use p2ptransfer.Download.Progress.{Passed, buffered}
use p2ptransfer.Receiver.{Receiver, handle_all}
use p2ptransfer.Receiver.Transfer.{IsReady}
use p2ptransfer.Streams.Schedule.{run, create_offer}
use p2ptransfer.EndToEnd.Prefix.{transfer_so_far}
use p2ptransfer.EndToEnd.{Delivers, frames, transfer_end_to_end}
use p2ptransfer.Tests.Runs.{simulate, one_chunk, one_relay, one_relay_fired}

abbrev pub the_chunk : Chunk
the_chunk = record { frame = 0 ∷ 0 ∷ 0 ∷ 0 ∷ 10 ∷ 20 ∷ 30 ∷ []; size = 3; index = 0 }

-- The only frame arrives twice.
abbrev pub delivered : List Chunk
delivered = the_chunk ∷ the_chunk ∷ []

pub delivered-Delivers : Delivers (run one_relay (create_offer one_chunk)).sent delivered
unfolding simulate
delivered-Delivers = record { only = (inl refl, (inl refl, tt)); every = (refl, tt) }

abbrev buffering : Downloader
buffering = record {
  mode = blob;
  phase = prepared;
  name = "a.bin";
  mime = "application/octet-stream";
  size = 3;
  fallback_chunks = [];
  posted = [];
  saved = [];
}

abbrev pub waiting : Receiver
waiting = record {
  file_info = some (record { name = "a.bin"; size = 3; mime = ""; total_chunks = 1 });
  total_chunks = 1;
  received_chunks = 0;
  bytes_transferred = 0;
  next_write_index = 0;
  pending_chunks = [];
  downloader = some buffering;
  timing = false;
  stats = false;
  completions = 0;
}

pub waiting-IsReady : IsReady [] (chunks_of (length one_chunk)) waiting
unfolding chunks_of
waiting-IsReady = record {
  known = (record { name = "a.bin"; size = 3; mime = ""; total_chunks = 1 }, refl);
  announced = refl;
  some_chunks = omega arith;
  prepared = (buffering, refl, buffered refl refl refl refl);
  none_received = refl;
  none_written = refl;
  none_pending = refl;
  not_completed = refl;
}

pub few_chunks : chunks_of (length one_chunk) ≤ 2 ^ 32
unfolding chunks_of
few_chunks = omega arith

transfer_end_to_end_example :
    (d : Downloader) × (bs : List Bytes) × ((handle_all (frames delivered) waiting).downloader
      ≡ some d)
    × Passed [] bs true d
    × (flatten bs ≡ one_chunk)
    × ((handle_all (frames delivered) waiting).completions ≡ 1)
transfer_end_to_end_example =
    transfer_end_to_end one_chunk one_relay few_chunks [] delivered waiting one_relay_fired
      delivered-Delivers waiting-IsReady

transfer_so_far_example :
    (n : ℕ) × (d : Downloader) × (bs : List Bytes) × (n ≤ length one_chunk)
    × ((handle_all (frames delivered) waiting).downloader ≡ some d)
    × Passed [] bs (n == length one_chunk) d
    × (flatten bs ≡ take n one_chunk)
    × ((handle_all (frames delivered) waiting).completions
        ≡ (if n == length one_chunk then 1 else 0))
transfer_so_far_example =
    transfer_so_far one_chunk one_relay [] delivered waiting few_chunks delivered-Delivers.only
      waiting-IsReady
