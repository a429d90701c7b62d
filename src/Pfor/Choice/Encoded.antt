-- ===== src/Pfor/Choice/Encoded.antt =====
-- A block that is written is made of bytes.
use flocate.Prelude.{
  ℕ, ◌+◌, ◌^◌, ◌≤◌, ◌<◌, sym, subst, Bool, false, List, [], ◌∷◌, ◌++◌, length, All, All-append,
  All-take, IsByte, arith,
}
use flocate.Prelude.Bits.{bit_or-above}
use flocate.Bytes.Words.{little_endian, little_endian-bytes}
use flocate.Pfor.Packing.{FitsIn}
use flocate.Pfor.BlockRoundTrip.{encode_base-bytes, widest, widest_bounds, IsBlock, IsBlock-short}
use flocate.Pfor.ConstantRoundTrip.{num_bits-le}
use flocate.Pfor.VbRoundTrip.{write_vbs-bytes, indexes-bytes, length-exceptions}
use flocate.Pfor.Bitmap.Exceptions.{flags-FitsIn, length-flags, pack_bits-encode, exceptions-FitsIn}
use flocate.Pfor.Bitmap.{encode_pfor_bitmap, pack_bits, flags}
use flocate.Pfor.Bits.{div_round_up}
use flocate.Pfor.Blocks.{
  BlockType, straight, pfor_vb, pfor_bitmap, constant, block_type_code, block_header, num_bits,
  encode_base, encode_for, encode_constant, exceptions, write_vbs, exception_indexes,
  encode_pfor_vb,
}
use flocate.Pfor.Choice.{decide_block_type, encode_as, encode_pfor_single_block}
use flocate.Pfor.Choice.Sound.{Holds, decide_block_type-Fits}

header-IsByte : (t : BlockType) (w : ℕ) → w < 64 → block_header t w < 256
unfolding block_header
header-IsByte t w h = omega (arith, bit_or-above 6 w (block_type_code t) (omega arith), code t)
  where
    code : (t' : BlockType) → block_type_code t' ≤ 3
    code straight = omega arith
    code pfor_vb = omega arith
    code pfor_bitmap = omega arith
    code constant = omega arith

vb-bytes :
    (interleaved : Bool) (w : ℕ) (vals : List ℕ)
    → w ≤ widest interleaved
    → IsBlock interleaved vals
    → All IsByte (encode_pfor_vb interleaved w vals)
unfolding encode_pfor_vb
vb-bytes interleaved w vals few block = (
  omega arith,
  All-append IsByte (encode_base interleaved w vals)
      (write_vbs (exceptions w vals) ++ exception_indexes w 0 vals)
      (encode_base-bytes interleaved w vals few block)
      (All-append IsByte (write_vbs (exceptions w vals)) (exception_indexes w 0 vals)
        (write_vbs-bytes (exceptions w vals)) (indexes-bytes w 0 vals)),
)

bitmap-bytes :
    (interleaved : Bool) (w more : ℕ) (vals : List ℕ)
    → w ≤ widest interleaved
    → more ≤ 25
    → All (FitsIn (w + more)) vals
    → IsBlock interleaved vals
    → All IsByte (encode_pfor_bitmap interleaved w more vals)
unfolding encode_pfor_bitmap
bitmap-bytes interleaved w more vals few few_more fits block =
    let short = IsBlock-short interleaved vals block in
    let found = exceptions w vals in
    let found_fits = exceptions-FitsIn w more vals fits in
    let bitmap : All IsByte (pack_bits 1 (flags w vals)) =
      subst (All IsByte) (sym (pack_bits-encode 1 (flags w vals) (flags-FitsIn w vals))) (
        encode_base-bytes false 1 (flags w vals) (omega arith)
          (omega (arith, length-flags w vals, short))) in
    let high : All IsByte (pack_bits more found) =
      subst (All IsByte) (sym (pack_bits-encode more found found_fits)) (
        encode_base-bytes false more found few_more
          (omega (arith, length-exceptions w vals, short))) in
    (
      omega arith,
      All-append IsByte (pack_bits 1 (flags w vals))
          (pack_bits more found ++ encode_base interleaved w vals) bitmap
          (All-append IsByte (pack_bits more found) (encode_base interleaved w vals) high
            (encode_base-bytes interleaved w vals few block)),
    )

encode_as-bytes :
    (t : BlockType) (interleaved : Bool) (w more : ℕ) (vals : List ℕ)
    → Holds t w more vals
    → IsBlock interleaved vals
    → All IsByte (block_header t w ∷ encode_as t interleaved w more vals)
unfolding encode_as encode_for encode_constant
encode_as-bytes straight interleaved w more vals (few, fits) block = (
  header-IsByte straight w (omega arith),
  encode_base-bytes interleaved w vals (omega (arith, widest_bounds interleaved)) block,
)
encode_as-bytes pfor_vb interleaved w more vals (few, some_left) block = (
  header-IsByte pfor_vb w (omega arith),
  vb-bytes interleaved w vals (omega (arith, widest_bounds interleaved)) block,
)
encode_as-bytes pfor_bitmap interleaved w more vals (few, fits) block = (
  header-IsByte pfor_bitmap w (omega arith),
  bitmap-bytes interleaved w more vals (omega (arith, widest_bounds interleaved)) (omega arith) fits
      block,
)
encode_as-bytes constant interleaved w more [] h block = absurd (omega arith)
encode_as-bytes constant interleaved w more (val ∷ vals) (width, copies) block = (
  header-IsByte constant w (omega (arith, num_bits-le val)),
  All-take IsByte (div_round_up (num_bits val) 8) (little_endian 4 val) (little_endian-bytes 4 val),
)

pub encode_pfor_single_block-bytes :
    (interleaved : Bool) (vals : List ℕ) (unset : ℕ)
    → 0 < length vals
    → All (λ v. v < 2 ^ 25) vals
    → IsBlock interleaved vals
    → All IsByte (encode_pfor_single_block interleaved vals unset)
unfolding encode_pfor_single_block
encode_pfor_single_block-bytes interleaved vals unset some_left words block =
    let d = decide_block_type vals unset in
    encode_as-bytes d.block_type interleaved d.bit_width d.exception_bit_width vals
      (decide_block_type-Fits vals unset some_left words).fits block
