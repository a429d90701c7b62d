-- ===== src/Pfor/Blocks.antt =====
-- The block formats: the encoders of include/turbopfor-encode.h and decoders of src/turbopfor.cpp
-- for straight (FOR), constant and variable-byte (PFOR_VB) blocks. A decoder takes `num` and
-- `out[-1]`, and returns what it writes to `out`. The flag says whether the base values are
-- interleaved; the decoders for interleaved blocks differ from the others in nothing else, and are
-- for `num` 128.
use flocate.Prelude.{
  ℕ, zero, suc, ◌+◌, ◌*◌, ◌/◌, ◌%◌, ◌^◌, bit_or, List, [], ◌∷◌, ◌++◌, Bytes, Option, none, some,
  Bool, ltb, ◌==◌, if◌then◌else◌, length, take, drop, replicate,
}
use flocate.Bytes.Words.{little_endian, or_bytes}
use flocate.Bytes.Reader.{done, overrun, Reader, pure, ◌>>=◌, get_u32}
use flocate.Pfor.Values.{write_vb, read_vb}
use flocate.Pfor.Interleaved.{read_interleaved, encode_bitmap_interleaved}
use flocate.Pfor.Bits.{read_all, encode_bitmap, bytes_for_packed_bits, div_round_up, masked}

pub data BlockType : Type 0 where
  straight : BlockType
  pfor_vb : BlockType
  pfor_bitmap : BlockType
  constant : BlockType

abbrev pub block_type_code : BlockType → ℕ
block_type_code straight = 0
block_type_code pfor_vb = 1
block_type_code pfor_bitmap = 2
block_type_code constant = 3

-- `(block_type << 6) | bit_width`
unfoldable pub block_header : BlockType → ℕ → ℕ
block_header block_type bit_width = bit_or (block_type_code block_type * 2 ^ 6) bit_width

-- `sizeof(x) * CHAR_BIT - __builtin_clz(x)`: halvings until nothing is left, 32 at most.
unfoldable pub halvings : ℕ → ℕ → ℕ
halvings zero x = 0
halvings (suc fuel) x = let rest = halvings fuel (x / 2) in if x == 0 then 0 else suc rest

unfoldable pub num_bits : ℕ → ℕ
unfolding halvings
num_bits x = halvings 32 x

-- The loops `out[i] = prev_val = val + prev_val + 1`.
unfoldable pub delta_decode : ℕ → List ℕ → List ℕ
delta_decode prev_val [] = []
delta_decode prev_val (val ∷ vals) =
    let next = (val + prev_val + 1) % 2 ^ 32 in next ∷ delta_decode next vals

-- `overrun` where there is nothing.
abbrev pub use_read {ℓ} : {A : Type ℓ} → Option (List ℕ) → (List ℕ → Reader A) → Reader A
use_read none use_values p = overrun
use_read (some vals) use_values p = use_values vals p

-- The base values from `in` on.
unfoldable pub read_base : Bool → ℕ → ℕ → Bytes → Option (List ℕ)
read_base interleaved bit_width num p =
    if interleaved
    then read_interleaved bit_width num p
    else read_all bit_width (record { input = p; bits_used = 0 }) num

-- The base values, and then `in += bytes_for_packed_bits(num, bit_width)`.
abbrev pub read_values {ℓ} : {A : Type ℓ} → Bool → ℕ → ℕ → (List ℕ → Reader A) → Reader A
read_values interleaved bit_width num use_values p =
    use_read (read_base interleaved bit_width num p) use_values
      (drop (bytes_for_packed_bits num bit_width) p)

-- `encode_bitmap`
unfoldable pub encode_base : Bool → ℕ → List ℕ → Bytes
encode_base interleaved bit_width vals =
    if interleaved then encode_bitmap_interleaved bit_width vals else encode_bitmap bit_width vals

unfoldable pub decode_for : Bool → ℕ → ℕ → Reader (List ℕ)
decode_for interleaved num prev_val [] = overrun
decode_for interleaved num prev_val (header ∷ p) =
    read_values interleaved (header % 2 ^ 6) num (λ vals. pure (delta_decode prev_val vals)) p

unfoldable pub encode_for : Bool → ℕ → List ℕ → Bytes
encode_for interleaved bit_width vals = encode_base interleaved bit_width vals

-- The bytes of `write_le<uint32_t>` up to the pointer that is returned.
unfoldable pub encode_constant : ℕ → Bytes
encode_constant val = take (div_round_up (num_bits val) 8) (little_endian 4 val)

unfoldable pub decode_constant : ℕ → ℕ → Reader (List ℕ)
decode_constant num prev_val [] = overrun
decode_constant num prev_val (header ∷ p) =
    let bit_width = header % 2 ^ 6 in
    let word = or_bytes (take 4 p) 0 0 in
    let val = if ltb bit_width 32 then masked bit_width word else word in
    if ltb (length p) 4
    then overrun
    else done (delta_decode prev_val (replicate num val)) (drop (div_round_up bit_width 8) p)

-- `in[i] >> bit_width` where it is not zero, and the `i`.
unfoldable pub exceptions : ℕ → List ℕ → List ℕ
exceptions bit_width [] = []
exceptions bit_width (val ∷ vals) =
    if val / 2 ^ bit_width == 0
    then exceptions bit_width vals
    else val / 2 ^ bit_width ∷ exceptions bit_width vals

unfoldable pub exception_indexes : ℕ → ℕ → List ℕ → Bytes
exception_indexes bit_width i [] = []
exception_indexes bit_width i (val ∷ vals) =
    if val / 2 ^ bit_width == 0
    then exception_indexes bit_width (i + 1) vals
    else i % 2 ^ 8 ∷ exception_indexes bit_width (i + 1) vals

unfoldable pub write_vbs : List ℕ → Bytes
write_vbs [] = []
write_vbs (val ∷ vals) = write_vb val ++ write_vbs vals

unfoldable pub encode_pfor_vb : Bool → ℕ → List ℕ → Bytes
encode_pfor_vb interleaved bit_width vals =
    length (exceptions bit_width vals) % 2 ^ 8
    ∷ (encode_base interleaved bit_width vals
        ++ (write_vbs (exceptions bit_width vals) ++ exception_indexes bit_width 0 vals))

unfoldable pub read_many : Reader ℕ → ℕ → Reader (List ℕ)
read_many one zero = pure []
read_many one (suc n) = one >>= λ val. read_many one n >>= λ vals. pure (val ∷ vals)

unfoldable pub read_exceptions : ℕ → Reader (List ℕ)
read_exceptions num_exceptions [] = overrun
read_exceptions num_exceptions (b ∷ p) =
    if b == 255
    then read_many get_u32 num_exceptions p
    else read_many read_vb num_exceptions (b ∷ p)

-- `out[idx] |= val`
unfoldable pub or_at : ℕ → ℕ → List ℕ → Option (List ℕ)
or_at val i [] = none
or_at val zero (x ∷ out) = some (bit_or x val ∷ out)
or_at val (suc i) (x ∷ out) = elim (or_at val i out) [ none ↦ none | some out' ↦ some (x ∷ out') ]

-- An index behind the block would be a write past the end of `out`.
unfoldable pub apply_exceptions : ℕ → List ℕ → List ℕ → Reader (List ℕ)
apply_exceptions bit_width out [] p = done out p
apply_exceptions bit_width out (val ∷ vals) [] = overrun
apply_exceptions bit_width out (val ∷ vals) (idx ∷ p) =
    use_read (or_at (val * 2 ^ bit_width % 2 ^ 32) idx out)
      (λ out'. apply_exceptions bit_width out' vals) p

-- More than BlockSize exceptions would overrun the array `exceptions`.
unfoldable pub decode_pfor_vb : Bool → ℕ → ℕ → Reader (List ℕ)
decode_pfor_vb interleaved num prev_val [] = overrun
decode_pfor_vb interleaved num prev_val (header ∷ []) = overrun
decode_pfor_vb interleaved num prev_val (header ∷ num_exceptions ∷ p) =
    let bit_width = header % 2 ^ 6 in
    if ltb 128 num_exceptions
    then overrun
    else read_values interleaved bit_width num
        (λ out. read_exceptions num_exceptions >>= λ vals.
          apply_exceptions bit_width out vals >>= λ out'. pure (delta_decode prev_val out'))
        p
