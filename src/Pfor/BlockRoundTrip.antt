-- ===== src/Pfor/BlockRoundTrip.antt =====
-- Each block decodes to the running sums of the deltas that were encoded.
use flocate.Prelude.{
  ℕ, ◌+◌, ◌*◌, ◌/◌, ◌%◌, ◌^◌, ◌≤◌, ◌<◌, ◌≡◌, refl, sym, ap, ◌∙◌, List, [], ◌∷◌, ◌++◌, Bytes, some,
  length, drop, drop-append_length, All, IsByte, arith, Bool, true, false, subst,
}
use flocate.Prelude.Bits.{bit_or-above}
use flocate.Bytes.Words.{little_endian, length-little_endian, little_endian-bytes}
use flocate.Bytes.Reader.{done, Reader, pure}
use flocate.Pfor.Bits.{read_all, mask_all, bytes_for_packed_bits}
use flocate.Pfor.Packing.{
  pack, FitsIn, encode_bitmap-pack, length-mask_all, mask_all-FitsIn, packed_size,
}
use flocate.Pfor.Unpacking.{read_all-pack}
use flocate.Pfor.Blocks.{
  BlockType, straight, block_type_code, block_header, delta_decode, use_read, read_values,
  decode_for, encode_for, read_base, encode_base,
}
use flocate.Pfor.Interleaved.RoundTrip.{
  read_interleaved-encode, length-encode_interleaved, encode_interleaved-bytes,
}
use native.Mathlib.Nat.{mod-eq_of_lt, mul-le-mul_left}

pub header_bits : (t : BlockType) (bits : ℕ) → bits < 64 → block_header t bits % 2 ^ 6 ≡ bits
unfolding block_header
header_bits t bits h = omega (arith, bit_or-above 6 bits (block_type_code t) (omega arith))

pub mask_all_lem : (bits : ℕ) (vals : List ℕ) → All (FitsIn bits) vals → mask_all bits vals ≡ vals
unfolding mask_all
mask_all_lem bits [] h = refl
mask_all_lem bits (val ∷ vals) (h, hs) =
    rw (mod-eq_of_lt h) (ap (◌∷◌ val) (mask_all_lem bits vals hs))

-- The number of values in a block, the bytes behind it that may be read, and the widths.
abbrev pub IsBlock : Bool → List ℕ → Type 0
IsBlock true vals = length vals ≡ 128
IsBlock false vals = length vals ≤ 128

abbrev pub slack : Bool → ℕ
slack true = 16
slack false = 4

abbrev pub widest : Bool → ℕ
widest true = 32
widest false = 25

pub IsBlock-short :
    (interleaved : Bool) (vals : List ℕ) → IsBlock interleaved vals → length vals ≤ 128
IsBlock-short true vals h = omega arith
IsBlock-short false vals h = h

pub widest_bounds : (interleaved : Bool) → (25 ≤ widest interleaved) × (widest interleaved ≤ 32)
widest_bounds true = omega arith
widest_bounds false = omega arith

pub slack_bounds : (interleaved : Bool) → slack interleaved ≤ 16
slack_bounds true = omega arith
slack_bounds false = omega arith

-- Base values are read back, and as many bytes as they take are skipped.
pub read_base-encode :
    (interleaved : Bool) (bits : ℕ) (vals : List ℕ) (rest : Bytes)
    → bits ≤ widest interleaved
    → IsBlock interleaved vals
    → All IsByte rest
    → slack interleaved ≤ length rest
    → (read_base interleaved bits (length vals) (encode_base interleaved bits vals ++ rest)
        ≡ some (mask_all bits vals))
      × (length (encode_base interleaved bits vals) ≡ bytes_for_packed_bits (length vals) bits)
unfolding read_base encode_base
read_base-encode true bits vals rest few whole h room = (
  read_interleaved-encode bits vals few whole rest room,
  length-encode_interleaved bits vals few whole,
)
read_base-encode false bits vals rest few short h room =
    let bound : length vals * bits < 2 ^ 31 = omega (arith, mul-le-mul_left (length vals) few) in
    let low = mask_all bits vals in
    let size = (length vals * bits + 7) / 8 in
    let bytes = encode_bitmap-pack bits vals few bound in
    (
      ap (λ b. read_all bits (record { input = b ++ rest; bits_used = 0 }) (length vals)) bytes
          ∙ ap
              (λ (n : ℕ).
                read_all bits
                  (record {
                    input = little_endian ((n * bits + 7) / 8) (pack bits low) ++ rest;
                    bits_used = 0;
                  })
                  n)
              (sym (length-mask_all bits vals))
          ∙ read_all-pack bits low rest few (mask_all-FitsIn bits vals) h room,
      ap (length {A = ℕ}) bytes
          ∙ length-little_endian size (pack bits low)
          ∙ sym (packed_size vals bits bound),
    )

pub encode_base-bytes :
    (interleaved : Bool) (bits : ℕ) (vals : List ℕ)
    → bits ≤ widest interleaved
    → IsBlock interleaved vals
    → All IsByte (encode_base interleaved bits vals)
unfolding encode_base
encode_base-bytes true bits vals few whole = encode_interleaved-bytes bits vals few whole
encode_base-bytes false bits vals few short =
    let bound : length vals * bits < 2 ^ 31 = omega (arith, mul-le-mul_left (length vals) few) in
    subst (All IsByte) (sym (encode_bitmap-pack bits vals few bound)) (little_endian-bytes _ _)

-- What a decoder reads of the base values, and where it goes on.
pub read_values-bitmap {ℓ} :
    {A : Type ℓ} (interleaved : Bool) (bits : ℕ) (vals : List ℕ) (rest : Bytes)
    (use_values : List ℕ → Reader A)
    → bits ≤ widest interleaved
    → IsBlock interleaved vals
    → All IsByte rest
    → slack interleaved ≤ length rest
    → read_values interleaved bits
        (length vals)
        use_values
        (encode_base interleaved bits vals ++ rest)
      ≡ use_values (mask_all bits vals) rest
read_values-bitmap interleaved bits vals rest use_values few short h room =
    let (reads, size) = read_base-encode interleaved bits vals rest few short h room in
    ap
      (λ r. use_read r use_values (
        drop (bytes_for_packed_bits (length vals) bits)
          (encode_base interleaved bits vals ++ rest)))
      reads
    ∙ ap (use_values (mask_all bits vals)) (
        drop-append_length (bytes_for_packed_bits (length vals) bits)
          (encode_base interleaved bits vals) rest size)

-- A straight block of deltas that fit its width.
pub decode_for-encode :
    (interleaved : Bool) (bits prev_val : ℕ) (vals : List ℕ) (rest : Bytes)
    → bits ≤ widest interleaved
    → All (FitsIn bits) vals
    → IsBlock interleaved vals
    → All IsByte rest
    → slack interleaved ≤ length rest
    → decode_for interleaved
        (length vals)
        prev_val
        (block_header straight bits ∷ (encode_for interleaved bits vals ++ rest))
      ≡ done (delta_decode prev_val vals) rest
unfolding decode_for encode_for
decode_for-encode interleaved bits prev_val vals rest few fits short h room =
    let low = mask_all_lem bits vals fits in
    let narrow : bits < 64 = omega (arith, widest_bounds interleaved) in
    rw (header_bits straight bits narrow) (
      read_values-bitmap interleaved bits vals rest (λ vs. pure (delta_decode prev_val vs)) few
        short h room
      ∙ ap (λ vs. pure (delta_decode prev_val vs) rest) low
      ∙ unfold pure in refl)
