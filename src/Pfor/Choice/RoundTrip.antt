-- ===== src/Pfor/Choice/RoundTrip.antt =====
-- A block of any type is decoded to the running sums of its deltas.
use flocate.Prelude.{
  ℕ, ◌/◌, ◌^◌, ◌≤◌, ◌<◌, ◌≡◌, sym, ap, ◌∙◌, Bool, List, [], ◌∷◌, ◌++◌, Bytes, length, All, IsByte,
  arith, suc,
}
use flocate.Prelude.Bits.{bit_or-above}
use flocate.Bytes.Reader.{done}
use flocate.Pfor.BlockRoundTrip.{decode_for-encode, widest_bounds, slack_bounds, IsBlock}
use flocate.Pfor.ConstantRoundTrip.{decode_constant-encode, num_bits-le}
use flocate.Pfor.VbRoundTrip.{decode_pfor_vb-encode}
use flocate.Pfor.Bitmap.RoundTrip.{decode_pfor_bitmap-encode}
use flocate.Pfor.Blocks.{
  BlockType, straight, pfor_vb, pfor_bitmap, constant, block_type_code, block_header, delta_decode,
  num_bits,
}
use flocate.Pfor.Choice.{decide_block_type, encode_as, encode_pfor_single_block, decode_block}
use flocate.Pfor.Choice.Sound.{Holds, decide_block_type-Fits}

header_code : (t : BlockType) (w : ℕ) → w < 64 → block_header t w / 2 ^ 6 ≡ block_type_code t
unfolding block_header
header_code t w h = omega (arith, bit_or-above 6 w (block_type_code t) (omega arith))

module _ (interleaved : Bool) (prev_val : ℕ) (rest : Bytes) (byte : All IsByte rest)
    (room : 16 ≤ length rest) where
  decode-encode_as :
      (t : BlockType) (w more : ℕ) (vals : List ℕ)
      → Holds t w more vals
      → All (λ v. v < 2 ^ 25) vals
      → IsBlock interleaved vals
      → decode_block interleaved
          (length vals)
          prev_val
          (block_header t w ∷ (encode_as t interleaved w more vals ++ rest))
        ≡ done (delta_decode prev_val vals) rest
  unfolding decode_block encode_as
  decode-encode_as straight w more vals (few, fits) words block =
      rw (header_code straight w (omega arith)) (
        decode_for-encode interleaved w prev_val vals rest
          (omega (arith, widest_bounds interleaved)) fits block byte
          (omega (arith, room, slack_bounds interleaved)))
  decode-encode_as pfor_vb w more vals (few, some_left) words block =
      rw (header_code pfor_vb w (omega arith)) (
        decode_pfor_vb-encode interleaved w prev_val vals rest
          (omega (arith, widest_bounds interleaved)) (all_words vals words) block some_left byte
          (omega (arith, room, slack_bounds interleaved)))
    where
      all_words : (vs : List ℕ) → All (λ (v : ℕ). v < 2 ^ 25) vs → All (λ (v : ℕ). v < 2 ^ 32) vs
      all_words [] h = tt
      all_words (v ∷ vs) (h, hs) = (omega arith, all_words vs hs)
  decode-encode_as pfor_bitmap w more vals (few, fits) words block =
      rw (header_code pfor_bitmap w (omega arith)) (
        decode_pfor_bitmap-encode interleaved w more prev_val vals rest
          (omega (arith, widest_bounds interleaved)) (omega arith) (omega arith) block fits byte
          room)
  decode-encode_as constant w more [] h words block = absurd (omega arith)
  decode-encode_as constant w more (val ∷ vals) (width, copies) words block =
      let small = num_bits-le val in
      rw (width, header_code constant (num_bits val) (omega (arith, small)))
        (decode_constant-encode (suc (length vals)) prev_val val rest (omega (arith, words.0)) byte
            (omega (arith, room))
          ∙ ap (λ (vs : List ℕ). done (delta_decode prev_val (val ∷ vs)) rest) (sym copies))

  -- A block of deltas below 2 ^ 25, with sixteen bytes behind it that may be read.
  pub decode_block-encode :
      (vals : List ℕ) (unset : ℕ)
      → 0 < length vals
      → All (λ v. v < 2 ^ 25) vals
      → IsBlock interleaved vals
      → decode_block interleaved
          (length vals)
          prev_val
          (encode_pfor_single_block interleaved vals unset ++ rest)
        ≡ done (delta_decode prev_val vals) rest
  unfolding encode_pfor_single_block
  decode_block-encode vals unset some_left words block =
      let d = decide_block_type vals unset in
      decode-encode_as d.block_type d.bit_width d.exception_bit_width vals
        (decide_block_type-Fits vals unset some_left words).fits words block
