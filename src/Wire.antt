-- ===== src/Wire.antt =====
-- The wire format and the cutting of a file into chunks: the constants at the top of
-- web/static/js/transfer.js, and what `_readBatch` and `_handleChunk` do with bytes.
-- A byte is a number below 256, a buffer a list of bytes. `File.slice` and `Uint8Array.subarray`
-- clamp their ends to the buffer, as `take` and `drop` do.
pub mod Codec
pub mod Split
use p2ptransfer.Base.{
  ℕ, ◌+◌, ◌-◌, ◌*◌, ◌/◌, ◌%◌, ◌^◌, min, List, [], ◌∷◌, ◌++◌, Option, none, some, take, drop, length,
}

abbrev pub Bytes : Type 0
Bytes = List ℕ

abbrev pub chunk_payload_size : ℕ
chunk_payload_size = 64 * 1024 - 4

abbrev pub header_size : ℕ
header_size = 4

-- The bytes from `start` up to `end`.
unfoldable pub slice : ℕ → ℕ → Bytes → Bytes
slice start end bytes = take (end - start) (drop start bytes)

-- `DataView.setUint32(0, n)`: big-endian, modulo 2 ^ 32.
unfoldable pub set_uint32 : ℕ → Bytes
set_uint32 n = (n / 2 ^ 24 % 256) ∷ (n / 2 ^ 16 % 256) ∷ (n / 2 ^ 8 % 256) ∷ (n % 256) ∷ []

-- `DataView.getUint32(0)`: `none` is the RangeError of a buffer that is too short.
unfoldable pub get_uint32 : Bytes → Option ℕ
get_uint32 (a ∷ b ∷ c ∷ d ∷ rest) = some (a * 2 ^ 24 + b * 2 ^ 16 + c * 2 ^ 8 + d)
get_uint32 _ = none

-- `combined`: the header and the payload in one buffer.
unfoldable pub frame : ℕ → Bytes → Bytes
frame index payload = set_uint32 index ++ payload

-- `Math.ceil(file.size / CHUNK_SIZE)`.
unfoldable pub chunks_of : ℕ → ℕ
chunks_of size = (size + chunk_payload_size - 1) / chunk_payload_size

-- The bytes of the file that chunk `index` carries.
unfoldable pub payload : Bytes → ℕ → Bytes
payload file index =
    slice (index * chunk_payload_size)
      (min (index * chunk_payload_size + chunk_payload_size) (length file)) file
