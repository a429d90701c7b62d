-- ===== src/Pfor/Bits.antt =====
-- Bit packing: BitWriter and encode_bitmap of include/turbopfor-encode.h, BitReader of
-- src/turbopfor.cpp, and include/turbopfor-common.h. An `unsigned` has 32 bits, and a mask of the
-- lowest bits is a remainder.
use flocate.Prelude.{
  ℕ, zero, suc, ◌+◌, ◌-◌, ◌*◌, ◌/◌, ◌%◌, ◌^◌, bit_or, List, [], ◌∷◌, ◌++◌, Bytes, Option, none,
  some, ltb, if◌then◌else◌, length, take, drop,
}
use flocate.Bytes.Words.{little_endian, or_bytes}

unfoldable pub div_round_up : ℕ → ℕ → ℕ
div_round_up val div = (val + div - 1) % 2 ^ 32 / div

unfoldable pub bytes_for_packed_bits : ℕ → ℕ → ℕ
unfolding div_round_up
bytes_for_packed_bits num bit_width = div_round_up (num * bit_width % 2 ^ 32) 8

-- `x & mask_for_bits(bit_width)`
abbrev pub masked : ℕ → ℕ → ℕ
masked bit_width x = x % 2 ^ bit_width

-- The bytes before `out`, and those from `out` on that the last write has left there.
pub record BitWriter : Type 0 where
  pub written : Bytes
  pub behind : Bytes
  pub bits_used : ℕ
  pub cur_val : ℕ

abbrev pub new_writer : BitWriter
new_writer = record { written = []; behind = []; bits_used = 0; cur_val = 0 }

unfoldable pub write : ℕ → BitWriter → ℕ → BitWriter
write bits bs val =
    let cur = bit_or bs.cur_val (val * 2 ^ bs.bits_used % 2 ^ 32) in
    let used = bs.bits_used + bits in
    record {
      written = bs.written ++ take (used / 8) (little_endian 4 cur);
      behind = drop (used / 8) (little_endian 4 cur);
      bits_used = used % 8;
      cur_val = cur / 2 ^ (used / 8 * 8);
    }

unfoldable pub write_all : ℕ → BitWriter → List ℕ → BitWriter
write_all bits bs [] = bs
write_all bits bs (val ∷ vals) = write_all bits (write bits bs val) vals

-- The bytes that a bit writer has left up to a pointer `size` bytes behind its start.
abbrev pub packed : ℕ → BitWriter → Bytes
packed size bs = take size (bs.written ++ bs.behind)

unfoldable pub mask_all : ℕ → List ℕ → List ℕ
mask_all bit_width [] = []
mask_all bit_width (val ∷ vals) = masked bit_width val ∷ mask_all bit_width vals

-- `encode_bitmap` without interleaving.
unfoldable pub encode_bitmap : ℕ → List ℕ → Bytes
unfolding mask_all
encode_bitmap bit_width vals =
    packed (bytes_for_packed_bits (length vals) bit_width)
      (write_all bit_width new_writer (mask_all bit_width vals))

pub record BitReader : Type 0 where
  pub input : Bytes
  pub bits_used : ℕ

-- `none` is a read past the end of the buffer.
unfoldable pub read : ℕ → BitReader → Option (ℕ × BitReader)
read bits bs =
    let used = bs.bits_used + bits in
    if ltb (length bs.input) 4
    then none
    else some (
      masked bits (or_bytes (take 4 bs.input) 0 0 / 2 ^ bs.bits_used),
      record { input = drop (used / 8) bs.input; bits_used = used % 8 },
    )

-- `num` reads in a row.
unfoldable pub read_all : ℕ → BitReader → ℕ → Option (List ℕ)
read_all bits bs zero = some []
read_all bits bs (suc num) = elim (read bits bs) [
  | none ↦ none
  | some (val, bs') ↦ elim (read_all bits bs' num) [ none ↦ none | some vals ↦ some (val ∷ vals) ]
]
