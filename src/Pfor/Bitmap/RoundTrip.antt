-- ===== src/Pfor/Bitmap/RoundTrip.antt =====
-- A block with bitmap exceptions decodes to the running sums of its deltas.
use flocate.Prelude.{
  ℕ, ◌+◌, ◌-◌, ◌*◌, ◌/◌, ◌%◌, ◌^◌, ◌≤◌, ◌<◌, ◌≡◌, refl, sym, ap, ◌∙◌, Bool, false, List, [], ◌∷◌,
  ◌++◌, append_assoc, Bytes, some, length, length-append, drop, drop-append_length, replicate, All,
  All-append, IsByte, arith,
}
use flocate.Prelude.Bits.{pow-add}
use flocate.Bytes.Words.{little_endian, length-little_endian, little_endian-bytes}
use flocate.Bytes.Reader.{done, Reader, pure, bind-done}
use flocate.Pfor.Bits.{bytes_for_packed_bits, div_round_up, read_all}
use flocate.Pfor.Numbers.{number, number-little_endian}
use flocate.Pfor.Packing.{pack, FitsIn, pow_mono, encode_bitmap-pack}
use flocate.Pfor.Unpacking.{pack-lt}
use flocate.Pfor.BlockRoundTrip.{
  header_bits, mask_all_lem, read_base-encode, read_values-bitmap, encode_base-bytes, widest,
  widest_bounds, slack_bounds, IsBlock, IsBlock-short,
}
use flocate.Pfor.Blocks.{
  pfor_bitmap, block_header, delta_decode, use_read, read_values, exceptions, encode_base,
  read_base,
}
use flocate.Pfor.Bitmap.{
  flags, encode_pfor_bitmap, bitmap_indexes, put_exceptions, decode_pfor_bitmap_exceptions,
  join_all, decode_pfor_bitmap,
}
use flocate.Pfor.VbRoundTrip.{length-exceptions}
use flocate.Pfor.Bitmap.Indexes.{positions, indexes-positions}
use flocate.Pfor.Bitmap.Exceptions.{
  flags-FitsIn, length-flags, length-positions, highs, put-highs, join_all_lem, exceptions-FitsIn,
  pack_bits-encode,
}

-- What stands behind the bitmap: the exceptions and the base values.
module _ (interleaved : Bool) (bits more : ℕ) (vals : List ℕ) (rest : Bytes)
    (few : bits ≤ widest interleaved) (few_more : more ≤ 25) (block : IsBlock interleaved vals)
    (fits : All (FitsIn (bits + more)) vals) (byte : All IsByte rest)
    (room : 16 ≤ length rest) where
  abbrev found : List ℕ
  found = exceptions bits vals

  abbrev fl : List ℕ
  fl = flags bits vals

  abbrev after_bitmap : Bytes
  after_bitmap = encode_base false more found ++ (encode_base interleaved bits vals ++ rest)

  short : length vals ≤ 128
  short = IsBlock-short interleaved vals block

  found_short : length found ≤ 128
  found_short = omega (arith, short, length-exceptions bits vals)

  base-bytes : All IsByte (encode_base interleaved bits vals ++ rest)
  base-bytes =
      All-append IsByte (encode_base interleaved bits vals) rest
        (encode_base-bytes interleaved bits vals few block) byte

  after-bytes : All IsByte after_bitmap
  after-bytes =
      All-append IsByte (encode_base false more found) (encode_base interleaved bits vals ++ rest)
        (encode_base-bytes false more found few_more found_short) base-bytes

  abbrev bitmap_size : ℕ
  bitmap_size = (length fl * 1 + 7) / 8

  size_bound : length fl ≤ 8 * bitmap_size
  size_bound = omega arith

  bitmap : encode_base false 1 fl ≡ little_endian bitmap_size (pack 1 fl)
  unfolding encode_base
  bitmap =
      encode_bitmap-pack 1 fl (omega arith) (omega (arith, length-flags bits vals, short))
      ∙ ap (λ fs. little_endian bitmap_size (pack 1 fs))
          (mask_all_lem 1 fl (flags-FitsIn bits vals))

  -- The bytes from the bitmap on, as one number.
  whole_number :
      (above : ℕ) × (number (little_endian bitmap_size (pack 1 fl) ++ after_bitmap)
        ≡ pack 1 fl + above * 2 ^ length fl)
  whole_number =
      let k = 8 * bitmap_size - length fl in
      let e : k + length fl ≡ 8 * bitmap_size = omega (arith, size_bound) in
      let one : 1 * length fl ≡ length fl = omega arith in
      let power : 2 ^ k * 2 ^ length fl ≡ 2 ^ (8 * bitmap_size) =
        sym (pow-add k (length fl)) ∙ ap (λ (t : ℕ). 2 ^ t) e in
      let bound : pack 1 fl < 2 ^ (8 * bitmap_size) = omega (
        arith,
        pack-lt 1 fl (flags-FitsIn bits vals),
        ap (λ (t : ℕ). 2 ^ t) one,
        pow_mono (length fl) (8 * bitmap_size) size_bound,
      ) in
      (
        number after_bitmap * 2 ^ k,
        number-little_endian bitmap_size (pack 1 fl) after_bitmap bound
            ∙ omega (arith, ap (λ (t : ℕ). number after_bitmap * t) power),
      )

  -- The indexes that the decoder finds.
  find-indexes :
      bitmap_indexes
        (div_round_up (length vals) 64)
        0
        (length vals)
        (encode_base false 1 fl ++ after_bitmap)
      ≡ some (positions 0 fl)
  unfolding div_round_up
  find-indexes =
      let (above, same) = whole_number in
      let rounds : (length vals + 64 - 1) % 2 ^ 32 / 64 ≡ (length vals + 63) / 64 =
        omega (arith, short) in
      let len = length-flags bits vals in
      let size = length-little_endian bitmap_size (pack 1 fl) in
      let whole = length-append (little_endian bitmap_size (pack 1 fl)) after_bitmap in
      let behind =
        length-append (encode_base false more found) (encode_base interleaved bits vals ++ rest) in
      let behind' = length-append (encode_base interleaved bits vals) rest in
      rw bitmap (
        indexes-positions ((length vals + 64 - 1) % 2 ^ 32 / 64) 0 (length vals) fl
          (little_endian bitmap_size (pack 1 fl) ++ after_bitmap) above len
          (omega (arith, rounds, short)) (flags-FitsIn bits vals)
          (All-append IsByte (little_endian bitmap_size (pack 1 fl)) after_bitmap
            (little_endian-bytes bitmap_size (pack 1 fl)) after-bytes)
          (omega (arith, rounds, short, size, whole, behind, behind', room)) same)

  abbrev read_found : List ℕ → Reader (List ℕ)
  read_found idxs q =
      use_read (read_all more (record { input = q; bits_used = 0 }) (length idxs))
        (λ vs r. use_read (put_exceptions (replicate (length vals) 0) idxs vs) pure r)
        (drop (bytes_for_packed_bits (length idxs) more) q)

  read_found-positions :
      read_found (positions 0 fl) after_bitmap
      ≡ done (highs bits vals) (encode_base interleaved bits vals ++ rest)
  unfolding read_base
  read_found-positions =
      let behind = encode_base interleaved bits vals ++ rest in
      let behind_size = length-append (encode_base interleaved bits vals) rest in
      let (reads, size) =
        read_base-encode false more found behind few_more found_short base-bytes
          (omega (arith, behind_size, room)) in
      let values : read_all more (record { input = after_bitmap; bits_used = 0 }) (length found)
          ≡ some found =
        reads
        ∙ ap (λ vs. some vs) (mask_all_lem more found (exceptions-FitsIn bits more vals fits)) in
      let left =
        drop-append_length (bytes_for_packed_bits (length found) more)
          (encode_base false more found) behind size in
      rw (length-positions bits 0 vals, values, left)
        (ap (λ r. use_read r pure behind) (put-highs bits [] vals) ∙ unfold pure in refl)

  decode-exceptions :
      decode_pfor_bitmap_exceptions (length vals) (more ∷ (encode_base false 1 fl ++ after_bitmap))
      ≡ done (highs bits vals) (encode_base interleaved bits vals ++ rest)
  unfolding decode_pfor_bitmap_exceptions div_round_up
  decode-exceptions =
      let size : length (encode_base false 1 fl) ≡ div_round_up (length vals) 8 =
        ap (length {A = ℕ}) bitmap
        ∙ length-little_endian bitmap_size (pack 1 fl)
        ∙ omega (arith, length-flags bits vals, short) in
      ap
        (λ r.
          use_read r read_found
            (drop (div_round_up (length vals) 8) (encode_base false 1 fl ++ after_bitmap)))
        find-indexes
      ∙ ap (read_found (positions 0 fl)) (
          drop-append_length (div_round_up (length vals) 8) (encode_base false 1 fl) after_bitmap
            size)
      ∙ read_found-positions

  encoded_form :
      encode_pfor_bitmap interleaved bits more vals ++ rest
      ≡ more ∷ (encode_base false 1 fl ++ after_bitmap)
  unfolding encode_pfor_bitmap
  encoded_form =
      let small : more % 2 ^ 8 ≡ more = omega (arith, few_more) in
      rw
        (
          small,
          pack_bits-encode 1 fl (flags-FitsIn bits vals),
          pack_bits-encode more found (exceptions-FitsIn bits more vals fits),
          append_assoc (encode_base false 1 fl)
              (encode_base false more found ++ encode_base interleaved bits vals) rest,
          append_assoc (encode_base false more found) (encode_base interleaved bits vals) rest,
        )
        refl

  decode-bitmap_block :
      (prev_val : ℕ)
      → bits + more ≤ 32
      → decode_pfor_bitmap interleaved
          (length vals)
          prev_val
          (block_header pfor_bitmap bits ∷ (encode_pfor_bitmap interleaved bits more vals ++ rest))
        ≡ done (delta_decode prev_val vals) rest
  unfolding decode_pfor_bitmap pure
  decode-bitmap_block prev_val both =
      let narrow : bits < 64 = omega (arith, few, widest_bounds interleaved) in
      let words = All-mono vals fits in
      let use_highs : List ℕ → Reader (List ℕ) = λ hs.
        read_values interleaved bits (length vals)
          λ vs. pure (delta_decode prev_val (join_all bits hs vs)) in
      rw (header_bits pfor_bitmap bits narrow, encoded_form)
        (bind-done (decode_pfor_bitmap_exceptions (length vals)) use_highs decode-exceptions
          ∙ read_values-bitmap interleaved bits vals rest _ few block byte
              (omega (arith, slack_bounds interleaved, room))
          ∙ ap (λ vs. done (delta_decode prev_val vs) rest) (join_all_lem bits vals words))
    where
      All-mono : (vs : List ℕ) → All (FitsIn (bits + more)) vs → All (λ (v : ℕ). v < 2 ^ 32) vs
      All-mono [] h = tt
      All-mono (v ∷ vs) (h, hs) = (omega (arith, h, pow_mono (bits + more) 32 both), All-mono vs hs)

-- A block with bitmap exceptions, of 32-bit deltas that fit the two widths.
pub decode_pfor_bitmap-encode :
    (interleaved : Bool) (bits more prev_val : ℕ) (vals : List ℕ) (rest : Bytes)
    → bits ≤ widest interleaved
    → more ≤ 25
    → bits + more ≤ 32
    → IsBlock interleaved vals
    → All (FitsIn (bits + more)) vals
    → All IsByte rest
    → 16 ≤ length rest
    → decode_pfor_bitmap interleaved
        (length vals)
        prev_val
        (block_header pfor_bitmap bits ∷ (encode_pfor_bitmap interleaved bits more vals ++ rest))
      ≡ done (delta_decode prev_val vals) rest
decode_pfor_bitmap-encode interleaved bits more prev_val vals rest few few_more both block fits byte
      room =
    decode-bitmap_block interleaved bits more vals rest few few_more block fits byte room prev_val
      both
