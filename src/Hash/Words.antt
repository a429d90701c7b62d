-- ===== src/Hash/Words.antt =====
-- The rotations and the reads of src/metadata_hash.cpp, on a machine that stores the lowest byte
-- first.
use flocate.Prelude.{ℕ, ◌+◌, ◌-◌, ◌*◌, ◌/◌, ◌%◌, ◌^◌, bit_or, Bytes, take, drop, length, ◌++◌}
use flocate.Bytes.Words.{or_bytes}

unfoldable pub rotl64 : ℕ → ℕ → ℕ
rotl64 value bits = bit_or (value * 2 ^ bits % 2 ^ 64) (value / 2 ^ (64 - bits))

unfoldable pub rotr32 : ℕ → ℕ → ℕ
rotr32 value bits = bit_or (value / 2 ^ bits) (value * 2 ^ (32 - bits) % 2 ^ 32)

unfoldable pub read64 : Bytes → ℕ
unfolding or_bytes
read64 ptr = or_bytes (take 8 ptr) 0 0

unfoldable pub read32 : Bytes → ℕ
unfolding or_bytes
read32 ptr = or_bytes (take 4 ptr) 0 0

-- `memcpy(buffer + at, input, length of input)`, where the buffer has the room.
abbrev pub write_at : Bytes → ℕ → Bytes → Bytes
write_at buffer at input = take at buffer ++ (input ++ drop (at + length input) buffer)
