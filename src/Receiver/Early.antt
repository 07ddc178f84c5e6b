-- ===== src/Receiver/Early.antt =====
-- Chunks that come before the download is prepared.
use p2ptransfer.Base.{ℕ, Bool, true}
use p2ptransfer.Wire.{Bytes}
use p2ptransfer.Receiver.{Receiver, FileInfo, new_receiver, handle_chunk, receive_info}

-- The receiver after a message and the file info behind it.
abbrev pub late_info : Bool → FileInfo → Bytes → Receiver
late_info secure info m = receive_info secure info (handle_chunk m new_receiver)

-- The receiver that has taken a chunk of `n` bytes with nowhere to write it.
abbrev lost_one : ℕ → Receiver
lost_one n = record new_receiver {
  received_chunks = 1;
  bytes_transferred = n;
  next_write_index = 1;
  timing = true;
  stats = true;
}
