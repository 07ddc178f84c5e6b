-- ===== src/Wire/Codec.antt =====
-- What is read from a frame is what was written into it.
use p2ptransfer.Base.{ℕ, ◌+◌, ◌^◌, ◌<◌, ◌≡◌, refl, ap, some, arith, length, drop, All}
use p2ptransfer.Wire.{Bytes, header_size, set_uint32, get_uint32, frame}

pub get_uint32-frame :
    (index : ℕ) (bytes : Bytes) → index < 2 ^ 32 → get_uint32 (frame index bytes) ≡ some index
unfolding get_uint32 frame set_uint32
get_uint32-frame index bytes h = ap some (omega arith)

pub drop-frame : (index : ℕ) (bytes : Bytes) → drop header_size (frame index bytes) ≡ bytes
unfolding frame set_uint32
drop-frame index bytes = refl

pub length-frame :
    (index : ℕ) (bytes : Bytes) → length (frame index bytes) ≡ header_size + length bytes
unfolding frame set_uint32
length-frame index bytes = omega arith

-- The header consists of bytes.
pub set_uint32-All-byte : (n : ℕ) → All (λ b. b < 256) (set_uint32 n)
unfolding set_uint32
set_uint32-All-byte n = omega arith
