-- ===== src/Pfor/Choice.antt =====
-- The choice of a block's type: decide_block_type and encode_pfor_single_block of
-- include/turbopfor-encode.h, and the decoder for a block of any type of src/turbopfor.cpp.
pub mod Sound
pub mod RoundTrip
pub mod Encoded
use flocate.Prelude.{
  ℕ, zero, suc, ◌+◌, ◌-◌, ◌*◌, ◌/◌, ◌%◌, ◌^◌, max, Bool, true, false, ◌&&◌, List, [], ◌∷◌, ◌++◌,
  Bytes, length, get_or, replicate, ltb, leb, ◌==◌, if◌then◌else◌,
}
use flocate.Bytes.Reader.{overrun, Reader}
use flocate.Pfor.Bits.{bytes_for_packed_bits}
use flocate.Pfor.Bitmap.{encode_pfor_bitmap, decode_pfor_bitmap}
use flocate.Pfor.Blocks.{
  BlockType, straight, pfor_vb, pfor_bitmap, constant, block_header, num_bits, encode_for,
  encode_constant, encode_pfor_vb, decode_for, decode_constant, decode_pfor_vb,
}

-- `in[i] != in[0]` for no `i`
unfoldable pub all_equal : ℕ → List ℕ → Bool
all_equal first [] = true
all_equal first (val ∷ vals) = (val == first) && all_equal first vals

unfoldable pub increment : List ℕ → ℕ → List ℕ
increment [] bits = []
increment (n ∷ ns) zero = (n + 1) % 2 ^ 32 ∷ ns
increment (n ∷ ns) (suc bits) = n ∷ increment ns bits

-- `++histogram[num_bits(in[i])]`
unfoldable pub count_bits : List ℕ → List ℕ → List ℕ
unfolding increment num_bits
count_bits histogram [] = histogram
count_bits histogram (val ∷ vals) = count_bits (increment histogram (num_bits val)) vals

-- `max_bits = std::max(max_bits, bits)`
unfoldable pub max_num_bits : ℕ → List ℕ → ℕ
unfolding num_bits
max_num_bits max_bits [] = max_bits
max_num_bits max_bits (val ∷ vals) = max_num_bits (max max_bits (num_bits val)) vals

pub record Best : Type 0 where
  pub cost : ℕ
  pub bit_width : ℕ

abbrev pub better : Best → ℕ → ℕ → Best
better best cost bit_width =
    if ltb cost best.cost then record { cost = cost; bit_width = bit_width } else best

-- The loop over exception widths: the rounds that are left, and the width of the next one.
unfoldable pub try_bitmaps : ℕ → ℕ → ℕ → ℕ → List ℕ → ℕ → Best → Best
unfolding bytes_for_packed_bits
try_bitmaps zero width num max_bits histogram num_exceptions best = best
try_bitmaps (suc rounds) width num max_bits histogram num_exceptions best =
    let test_bit_width = max_bits - width in
    let num_exceptions' = (num_exceptions + get_or histogram (test_bit_width + 1) 0) % 2 ^ 32 in
    let cost =
      (1
        + bytes_for_packed_bits num 1
        + bytes_for_packed_bits num test_bit_width
        + bytes_for_packed_bits num_exceptions' width)
      % 2 ^ 32 in
    try_bitmaps rounds (width + 1) num max_bits histogram num_exceptions'
      (better best cost test_bit_width)

-- The histogram made cumulative. No value has more than `max_bits` bits, so the entries behind that
-- one, which are zero, may take part.
unfoldable pub cumulate : List ℕ → List ℕ
cumulate [] = []
cumulate (n ∷ ns) = (n + get_or (cumulate ns) 0 0) % 2 ^ 32 ∷ cumulate ns

-- `histogram[test_bit_width + further]`, if there is a value that long.
abbrev pub longer : List ℕ → ℕ → ℕ → ℕ → ℕ
longer histogram max_bits test_bit_width further =
    if leb (test_bit_width + further) max_bits
    then get_or histogram (test_bit_width + further) 0
    else 0

-- What is added for the exceptions. A value with fewer bits than one test asks for fails the later
-- tests too.
unfoldable pub varbyte_cost : List ℕ → ℕ → ℕ → ℕ
varbyte_cost histogram max_bits width =
    2 * longer histogram max_bits width 1
    + longer histogram max_bits width 7
    + longer histogram max_bits width 14
    + longer histogram max_bits width 19
    + longer histogram max_bits width 24

-- The loop over the widths of base values: the rounds that are left, the next width, and
-- `best_is_varbyte`.
unfoldable pub try_varbytes : ℕ → ℕ → ℕ → ℕ → List ℕ → Best → Bool → Best × Bool
unfolding bytes_for_packed_bits varbyte_cost
try_varbytes zero width num max_bits histogram best is_varbyte = (best, is_varbyte)
try_varbytes (suc rounds) width num max_bits histogram best is_varbyte =
    let start = 1 + bytes_for_packed_bits num width in
    let cost = (start + varbyte_cost histogram max_bits width) % 2 ^ 32 in
    let rest =
      try_varbytes rounds (width + 1) num max_bits histogram (better best cost width)
        (if ltb cost best.cost then true else is_varbyte) in
    if leb best.cost start then (best, is_varbyte) else rest

-- The block type with `*bit_width` and `*exception_bit_width`, which only PFOR_BITMAP sets.
pub record Decision : Type 0 where
  pub block_type : BlockType
  pub bit_width : ℕ
  pub exception_bit_width : ℕ

-- The end of `decide_block_type`.
unfoldable pub conclude : ℕ → ℕ → Best × Bool → Decision
conclude max_bits unset (best, is_varbyte) =
    if is_varbyte
    then record { block_type = pfor_vb; bit_width = best.bit_width; exception_bit_width = unset }
    else if best.bit_width == max_bits
    then record { block_type = straight; bit_width = max_bits; exception_bit_width = unset }
    else record {
      block_type = pfor_bitmap;
      bit_width = best.bit_width;
      exception_bit_width = max_bits - best.bit_width;
    }

unfoldable pub decide_varying : ℕ → List ℕ → ℕ → Decision
unfolding count_bits max_num_bits try_bitmaps cumulate try_varbytes conclude
decide_varying num vals unset =
    let histogram = count_bits (replicate 33 0) vals in
    let max_bits = max_num_bits 0 vals in
    let straight_best : Best = record {
      cost = bytes_for_packed_bits num max_bits;
      bit_width = max_bits;
    } in
    let best = try_bitmaps max_bits 1 num max_bits histogram 0 straight_best in
    conclude max_bits unset (try_varbytes max_bits 0 num max_bits (cumulate histogram) best false)

-- `unset` is what an exception width holds that is not set.
unfoldable pub decide_block_type : List ℕ → ℕ → Decision
unfolding decide_varying all_equal num_bits
decide_block_type [] unset = record {
  block_type = constant;
  bit_width = 0;
  exception_bit_width = unset;
}
decide_block_type (val ∷ vals) unset =
    if all_equal val vals
    then record { block_type = constant; bit_width = num_bits val; exception_bit_width = unset }
    else decide_varying (suc (length vals)) (val ∷ vals) unset

unfoldable pub encode_as : BlockType → Bool → ℕ → ℕ → List ℕ → Bytes
unfolding encode_constant encode_for encode_pfor_bitmap encode_pfor_vb
encode_as constant interleaved width more [] = []
encode_as constant interleaved width more (val ∷ vals) = encode_constant val
encode_as straight interleaved width more vals = encode_for interleaved width vals
encode_as pfor_bitmap interleaved width more vals = encode_pfor_bitmap interleaved width more vals
encode_as pfor_vb interleaved width more vals = encode_pfor_vb interleaved width vals

-- `num` is the number of deltas, one at least.
unfoldable pub encode_pfor_single_block : Bool → List ℕ → ℕ → Bytes
unfolding decide_block_type encode_as block_header
encode_pfor_single_block interleaved vals unset =
    let choice = decide_block_type vals unset in
    block_header choice.block_type choice.bit_width
    ∷ encode_as choice.block_type interleaved choice.bit_width choice.exception_bit_width vals

-- The `switch (in[0] >> 6)`; a header byte below 2 ^ 8 has no other code.
unfoldable pub decode_block : Bool → ℕ → ℕ → Reader (List ℕ)
unfolding decode_for decode_pfor_vb decode_pfor_bitmap decode_constant
decode_block interleaved num prev_val [] = overrun
decode_block interleaved num prev_val (header ∷ p) =
    let code = header / 2 ^ 6 in
    if code == 0
    then decode_for interleaved num prev_val (header ∷ p)
    else if code == 1
    then decode_pfor_vb interleaved num prev_val (header ∷ p)
    else if code == 2
    then decode_pfor_bitmap interleaved num prev_val (header ∷ p)
    else decode_constant num prev_val (header ∷ p)
