-- ===== src/Pfor/Examples.antt =====
-- Concrete values and blocks.
use flocate.Prelude.{
  ℕ, ◌+◌, ◌*◌, ◌/◌, ◌^◌, ◌≡◌, ◌<◌, refl, List, [], ◌∷◌, ◌++◌, Bytes, some, length, replicate, All,
  IsByte, arith, false, true,
}
use flocate.Bytes.Words.{little_endian}
use flocate.Bytes.Reader.{done}
use flocate.Pfor.Values.{write_baseval, write_vb}
use flocate.Pfor.Bits.{encode_bitmap, mask_all}
use flocate.Pfor.Packing.{pack, FitsIn, encode_bitmap-pack}
use flocate.Pfor.Blocks.{
  pfor_vb, pfor_bitmap, block_header, delta_decode, exceptions, encode_pfor_vb, decode_pfor_vb,
}
use flocate.Pfor.VbRoundTrip.{decode_pfor_vb-encode}
use flocate.Pfor.Bitmap.{encode_pfor_bitmap, decode_pfor_bitmap}
use flocate.Pfor.Bitmap.RoundTrip.{decode_pfor_bitmap-encode}
use flocate.Pfor.Choice.{encode_pfor_single_block, decode_block}
use flocate.Pfor.Choice.RoundTrip.{decode_block-encode}

baseval_three : write_baseval 0x12345 ≡ some (0xc1 ∷ 0x45 ∷ 0x23 ∷ [])
unfolding write_baseval
baseval_three = refl

vb_two : write_vb 1000 ≡ 180 ∷ 55 ∷ []
unfolding write_vb
vb_two = refl

abbrev deltas : List ℕ
deltas = 5 ∷ 0 ∷ 7 ∷ 2 ∷ []

abbrev behind : Bytes
behind = 0 ∷ 255 ∷ 3 ∷ 9 ∷ []

behind-bytes : All IsByte behind
behind-bytes = search arith

deltas-FitsIn : All (FitsIn 3) deltas
deltas-FitsIn = search arith

encode_bitmap-pack_example :
    encode_bitmap 3 deltas
    ≡ little_endian ((length deltas * 3 + 7) / 8) (pack 3 (mask_all 3 deltas))
encode_bitmap-pack_example = encode_bitmap-pack 3 deltas (omega arith) (omega arith)

abbrev far_deltas : List ℕ
far_deltas = 5 ∷ 0 ∷ 70000 ∷ 2 ∷ []

far_deltas-IsDelta : All (λ (v : ℕ). v < 2 ^ 32) far_deltas
far_deltas-IsDelta = search arith

one_exception : 0 < length (exceptions 3 far_deltas)
unfolding exceptions
one_exception = omega arith

decode_pfor_vb-encode_example :
    decode_pfor_vb false 4 10
      (block_header pfor_vb 3 ∷ (encode_pfor_vb false 3 far_deltas ++ behind))
    ≡ done (delta_decode 10 far_deltas) behind
decode_pfor_vb-encode_example =
    decode_pfor_vb-encode false 3 10 far_deltas behind (omega arith) far_deltas-IsDelta
      (omega arith) one_exception behind-bytes (omega arith)

abbrev slop : Bytes
slop = replicate 16 255

slop-bytes : All IsByte slop
slop-bytes = search arith

abbrev whole_block : List ℕ
whole_block = replicate 127 5 ++ (70000 ∷ [])

whole_block-small : All (λ (v : ℕ). v < 2 ^ 25) whole_block
whole_block-small = omega arith

decode_block-encode_example :
    decode_block true 128 10 (encode_pfor_single_block true whole_block 0 ++ slop)
    ≡ done (delta_decode 10 whole_block) slop
decode_block-encode_example =
    decode_block-encode true 10 slop slop-bytes (omega arith) whole_block 0 (omega arith)
      whole_block-small refl

far_deltas-FitsIn : All (FitsIn (3 + 15)) far_deltas
far_deltas-FitsIn = omega arith

decode_pfor_bitmap-encode_example :
    decode_pfor_bitmap false 4 10
      (block_header pfor_bitmap 3 ∷ (encode_pfor_bitmap false 3 15 far_deltas ++ slop))
    ≡ done (delta_decode 10 far_deltas) slop
decode_pfor_bitmap-encode_example =
    decode_pfor_bitmap-encode false 3 15 10 far_deltas slop (omega arith) (omega arith)
      (omega arith) (omega arith) far_deltas-FitsIn slop-bytes (omega arith)
