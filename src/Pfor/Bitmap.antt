-- ===== src/Pfor/Bitmap.antt =====
-- Blocks with bitmap exceptions (PFOR_BITMAP): encode_pfor_bitmap of include/turbopfor-encode.h,
-- decode_pfor_bitmap_exceptions and the decoders over it of src/turbopfor.cpp.
pub mod Indexes
pub mod Exceptions
pub mod RoundTrip
use flocate.Prelude.{
  ℕ, zero, suc, ◌+◌, ◌-◌, ◌*◌, ◌/◌, ◌%◌, ◌^◌, bit_or, Bool, List, [], ◌∷◌, ◌++◌, Bytes, Option,
  none, some, ltb, ◌==◌, if◌then◌else◌, length, take, drop, replicate,
}
use flocate.Bytes.Words.{or_bytes}
use flocate.Bytes.Reader.{overrun, done, Reader, pure, ◌>>=◌}
use flocate.Pfor.Bits.{write_all, new_writer, packed, bytes_for_packed_bits, div_round_up, read_all}
use flocate.Pfor.Blocks.{delta_decode, use_read, read_values, encode_base, exceptions}

-- What a bit writer leaves of values that are not masked.
unfoldable pub pack_bits : ℕ → List ℕ → Bytes
pack_bits bits vals =
    packed (bytes_for_packed_bits (length vals) bits) (write_all bits new_writer vals)

-- `(in[i] >> bit_width) != 0`
unfoldable pub flags : ℕ → List ℕ → List ℕ
flags bit_width [] = []
flags bit_width (val ∷ vals) = (if val / 2 ^ bit_width == 0 then 0 else 1) ∷ flags bit_width vals

unfoldable pub encode_pfor_bitmap : Bool → ℕ → ℕ → List ℕ → Bytes
unfolding pack_bits
encode_pfor_bitmap interleaved bit_width exception_bit_width vals =
    exception_bit_width % 2 ^ 8
    ∷ (pack_bits 1 (flags bit_width vals)
        ++ (pack_bits exception_bit_width (exceptions bit_width vals)
            ++ encode_base interleaved bit_width vals))

-- The positions of the bits that are set in a word, the lowest first, from `i` on: the loop over
-- `ffsll(exceptions)` and `exceptions &= exceptions - 1`.
unfoldable pub set_bits : ℕ → ℕ → ℕ → List ℕ
set_bits zero i w = []
set_bits (suc n) i w =
    if w % 2 == 0 then set_bits n (i + 1) (w / 2) else i ∷ set_bits n (i + 1) (w / 2)

-- The indexes `idx` of the loops over the bitmap: `left` is `num - i`, and a round reads 64 bits,
-- wherever the bitmap ends.
unfoldable pub bitmap_indexes : ℕ → ℕ → ℕ → Bytes → Option (List ℕ)
unfolding set_bits or_bytes
bitmap_indexes zero i left p = some []
bitmap_indexes (suc rounds) i left p =
    let all = or_bytes (take 8 p) 0 0 in
    let w = if ltb left 64 then all % 2 ^ left else all in
    let rest = bitmap_indexes rounds (i + 64) (left - 64) (drop 8 p) in
    if left == 0
    then some []
    else if ltb (length p) 8
    then none
    else elim rest [ none ↦ none | some idxs ↦ some (set_bits 64 i w ++ idxs) ]

-- `out[idx] = val`
unfoldable pub set_at : List ℕ → ℕ → ℕ → Option (List ℕ)
set_at [] i val = none
set_at (x ∷ out) zero val = some (val ∷ out)
set_at (x ∷ out) (suc i) val = elim (set_at out i val) [ none ↦ none | some out' ↦ some (x ∷ out') ]

-- An index behind the block would be a write past the end of `out`.
unfoldable pub put_exceptions : List ℕ → List ℕ → List ℕ → Option (List ℕ)
unfolding set_at
put_exceptions out [] vals = some out
put_exceptions out (idx ∷ idxs) [] = none
put_exceptions out (idx ∷ idxs) (val ∷ vals) = elim (set_at out idx val) [
  | none ↦ none
  | some out' ↦ put_exceptions out' idxs vals
]

-- Given `out` full of zeros. The indexes are collected before the values are read; neither depends
-- on the other.
unfoldable pub decode_pfor_bitmap_exceptions : ℕ → Reader (List ℕ)
unfolding bitmap_indexes put_exceptions
decode_pfor_bitmap_exceptions num [] = overrun
decode_pfor_bitmap_exceptions num (exception_bit_width ∷ p) =
    let bitmap_size = div_round_up num 8 in
    use_read (bitmap_indexes (div_round_up num 64) 0 num p)
      (λ idxs q.
        let num_exceptions = length idxs in
        let values =
          read_all exception_bit_width (record { input = q; bits_used = 0 }) num_exceptions in
        use_read values (λ vals r. use_read (put_exceptions (replicate num 0) idxs vals) pure r)
          (drop (bytes_for_packed_bits num_exceptions exception_bit_width) q))
      (drop bitmap_size p)

-- `(out[i] << bit_width) | val`
unfoldable pub join_all : ℕ → List ℕ → List ℕ → List ℕ
join_all bit_width [] vals = []
join_all bit_width (high ∷ highs) [] = []
join_all bit_width (high ∷ highs) (val ∷ vals) =
    bit_or (high * 2 ^ bit_width % 2 ^ 32) val ∷ join_all bit_width highs vals

unfoldable pub decode_pfor_bitmap : Bool → ℕ → ℕ → Reader (List ℕ)
unfolding decode_pfor_bitmap_exceptions join_all
decode_pfor_bitmap interleaved num prev_val [] = overrun
decode_pfor_bitmap interleaved num prev_val (header ∷ p) =
    let bit_width = header % 2 ^ 6 in
    (decode_pfor_bitmap_exceptions num >>= λ highs.
    read_values interleaved bit_width num
      (λ vals. pure (delta_decode prev_val (join_all bit_width highs vals))))
      p
