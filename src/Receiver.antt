-- ===== src/Receiver.antt =====
-- The receiving half of `TransferEngine` in web/static/js/transfer.js: `_onFileInfoReceived`,
-- `_handleChunk`, `_writeChunk` and `_finishDownload`. `onComplete` is counted in `completions`;
-- the other callbacks only display, and times are left out but for whether the clock has started.
pub mod Drain
pub mod Place
pub mod Settled
pub mod Delivery
pub mod Transfer
pub mod Order
pub mod Early
pub mod Ready
use Prim.Native.String.{String}
use p2ptransfer.Base.{
  ℕ, zero, suc, ◌+◌, List, [], ◌∷◌, Option, none, some, Bool, true, false, ltb, ◌==◌, ◌||◌,
  if◌then◌else◌, length, drop, lookup, has, insert, remove,
}
use p2ptransfer.Wire.{Bytes, header_size, get_uint32}
use p2ptransfer.Worker.{mime_or_default}
use p2ptransfer.Download.{Downloader, Reply, new_downloader, prepare, resume, write, close_download}

-- The payload of a 'file-info' message.
pub record FileInfo : Type 0 where
  pub name : String
  pub size : ℕ
  pub mime : String
  pub total_chunks : ℕ

-- The fields of the engine that the receiver uses. `timing` is whether `startTime` is set, `stats`
-- whether the interval of `_startStatsInterval` runs.
pub record Receiver : Type 0 where
  pub file_info : Option FileInfo
  pub total_chunks : ℕ
  pub received_chunks : ℕ
  pub bytes_transferred : ℕ
  pub next_write_index : ℕ
  pub pending_chunks : List (ℕ × Bytes)
  pub downloader : Option Downloader
  pub timing : Bool
  pub stats : Bool
  pub completions : ℕ

-- The constructor.
unfoldable pub new_receiver : Receiver
new_receiver = record {
  file_info = none;
  total_chunks = 0;
  received_chunks = 0;
  bytes_transferred = 0;
  next_write_index = 0;
  pending_chunks = [];
  downloader = none;
  timing = false;
  stats = false;
  completions = 0;
}

-- `_onFileInfoReceived`, up to the `await` of `prepare`.
unfoldable pub on_file_info : Bool → FileInfo → Receiver → Receiver
on_file_info secure info r = record r {
  file_info = some info;
  total_chunks = info.total_chunks;
  downloader = some (prepare secure info.name info.size (mime_or_default info.mime) new_downloader);
}

-- The handlers of text messages on the relay and of the control channel take the first one only.
unfoldable pub receive_info : Bool → FileInfo → Receiver → Receiver
unfolding on_file_info
receive_info secure info r = elim r.file_info [ none ↦ on_file_info secure info r | some _ ↦ r ]

-- An `await` of `prepare` ends.
unfoldable pub resume_prepare : Reply → Receiver → Receiver
resume_prepare reply r = elim r.downloader [
  | none ↦ r
  | some d ↦ record r { downloader = some (resume reply d) }
]

-- `_writeChunk`
unfoldable pub write_chunk : Bytes → Receiver → Receiver
write_chunk bytes r = elim r.downloader [
  | none ↦ r
  | some d ↦ record r { downloader = some (write bytes d) }
]

unfoldable pub close_downloader : Receiver → Receiver
close_downloader r = elim r.downloader [
  | none ↦ r
  | some d ↦ record r { downloader = some (close_download d) }
]

-- The call of `onComplete`. Without a file info, `this.fileInfo.name` throws.
unfoldable pub complete : Receiver → Receiver
complete r = elim r.file_info [ none ↦ r | some _ ↦ record r { completions = r.completions + 1 } ]

-- `_finishDownload`
unfoldable pub finish_download : Receiver → Receiver
unfolding close_downloader complete
finish_download r = complete (record (close_downloader r) { pending_chunks = [] })

-- A round of the loop that drains the buffered chunks, and `_writeChunk` and `_nextWriteIndex++`
-- for the chunk that has just come.
unfoldable pub advance : Bytes → Receiver → Receiver
unfolding write_chunk
advance bytes r =
    let written = write_chunk bytes r in
    record written { next_write_index = written.next_write_index + 1 }

unfoldable pub take_pending : Receiver → Receiver
take_pending r = record r { pending_chunks = remove r.next_write_index r.pending_chunks }

-- `while (this._pendingChunks.has(this._nextWriteIndex))`. Each round deletes an entry, so the size
-- of the map is fuel enough.
unfoldable pub drain : ℕ → Receiver → Receiver
unfolding advance take_pending
drain zero r = r
drain (suc fuel) r = elim (lookup r.next_write_index r.pending_chunks) [
  | none ↦ r
  | some bytes ↦ drain fuel (advance bytes (take_pending r))
]

-- Either branch of `index === this._nextWriteIndex`.
unfoldable pub place : ℕ → Bytes → Receiver → Receiver
unfolding drain advance
place index bytes r =
    let in_order = drain (length r.pending_chunks) (advance bytes r) in
    let stashed = record r { pending_chunks = insert index bytes r.pending_chunks } in
    if index == r.next_write_index then in_order else stashed

-- The last test of `_handleChunk`.
unfoldable pub check_complete : Receiver → Receiver
unfolding finish_download
check_complete r =
    if r.received_chunks == r.total_chunks then finish_download (record r { stats = false }) else r

-- `_handleChunk` behind the duplicate test.
unfoldable pub accept : ℕ → Bytes → Receiver → Receiver
unfolding place check_complete
accept index bytes r = check_complete (
    place index bytes (record r {
      received_chunks = r.received_chunks + 1;
      bytes_transferred = r.bytes_transferred + length bytes;
    }))

-- The duplicate test.
unfoldable pub seen : Receiver → ℕ → Bool
seen r index = ltb index r.next_write_index || has index r.pending_chunks

unfoldable pub start_clock : Receiver → Receiver
start_clock r = if r.timing then r else record r { timing = true; stats = true }

-- `_handleChunk(data)`. A message of fewer than four bytes makes `getUint32` throw.
unfoldable pub handle_chunk : Bytes → Receiver → Receiver
unfolding start_clock seen accept
handle_chunk message r =
    let started = start_clock r in
    elim (get_uint32 message) [
      | none ↦ started
      | some index ↦
          if seen started index then started else accept index (drop header_size message) started
    ]

unfoldable pub handle_all : List Bytes → Receiver → Receiver
unfolding handle_chunk
handle_all [] r = r
handle_all (m ∷ ms) r = handle_all ms (handle_chunk m r)
