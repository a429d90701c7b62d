-- ===== src/Hash/Sha256.antt =====
-- MetadataHashBuilder::Sha256State of src/metadata_hash.cpp and include/metadata_hash.h.
pub mod Streaming
pub mod Padding
use flocate.Prelude.{
  ℕ, zero, suc, ◌+◌, ◌-◌, ◌*◌, ◌/◌, ◌%◌, ◌^◌, bit_or, bit_xor, bit_and, List, Bytes, [], ◌∷◌, ◌++◌,
  length, take, drop, replicate, get_or, ltb, leb, ◌==◌, if◌then◌else◌,
}
use flocate.Hash.Words.{rotr32, write_at}
use flocate.Hash.Blocks.{absorb}

abbrev pub sha256_k : List ℕ
sha256_k =
    0x428a2f98 ∷ 0x71374491 ∷ 0xb5c0fbcf ∷ 0xe9b5dba5 ∷ 0x3956c25b ∷ 0x59f111f1 ∷ 0x923f82a4
    ∷ 0xab1c5ed5 ∷ 0xd807aa98 ∷ 0x12835b01 ∷ 0x243185be ∷ 0x550c7dc3 ∷ 0x72be5d74 ∷ 0x80deb1fe
    ∷ 0x9bdc06a7 ∷ 0xc19bf174 ∷ 0xe49b69c1 ∷ 0xefbe4786 ∷ 0x0fc19dc6 ∷ 0x240ca1cc ∷ 0x2de92c6f
    ∷ 0x4a7484aa ∷ 0x5cb0a9dc ∷ 0x76f988da ∷ 0x983e5152 ∷ 0xa831c66d ∷ 0xb00327c8 ∷ 0xbf597fc7
    ∷ 0xc6e00bf3 ∷ 0xd5a79147 ∷ 0x06ca6351 ∷ 0x14292967 ∷ 0x27b70a85 ∷ 0x2e1b2138 ∷ 0x4d2c6dfc
    ∷ 0x53380d13 ∷ 0x650a7354 ∷ 0x766a0abb ∷ 0x81c2c92e ∷ 0x92722c85 ∷ 0xa2bfe8a1 ∷ 0xa81a664b
    ∷ 0xc24b8b70 ∷ 0xc76c51a3 ∷ 0xd192e819 ∷ 0xd6990624 ∷ 0xf40e3585 ∷ 0x106aa070 ∷ 0x19a4c116
    ∷ 0x1e376c08 ∷ 0x2748774c ∷ 0x34b0bcb5 ∷ 0x391c0cb3 ∷ 0x4ed8aa4a ∷ 0x5b9cca4f ∷ 0x682e6ff3
    ∷ 0x748f82ee ∷ 0x78a5636f ∷ 0x84c87814 ∷ 0x8cc70208 ∷ 0x90befffa ∷ 0xa4506ceb ∷ 0xbef9a3f7
    ∷ 0xc67178f2 ∷ []

abbrev pub initial_h : List ℕ
initial_h =
    0x6a09e667 ∷ 0xbb67ae85 ∷ 0x3c6ef372 ∷ 0xa54ff53a ∷ 0x510e527f ∷ 0x9b05688c ∷ 0x1f83d9ab
    ∷ 0x5be0cd19 ∷ []

pub record Sha256State : Type 0 where
  pub h : List ℕ
  pub total_len : ℕ
  pub buffer_len : ℕ
  pub buffer : Bytes

-- `reset`, which leaves the buffer as it is.
unfoldable pub reset : Bytes → Sha256State
reset buffer = record { h = initial_h; total_len = 0; buffer_len = 0; buffer = buffer }

-- The first `n` words of the block, highest byte first.
unfoldable pub block_words : ℕ → Bytes → List ℕ
block_words zero block = []
block_words (suc n) block =
    bit_or
      (bit_or (bit_or (get_or block 0 0 * 2 ^ 24) (get_or block 1 0 * 2 ^ 16))
        (get_or block 2 0 * 2 ^ 8))
      (get_or block 3 0)
    ∷ block_words n (drop 4 block)

-- `w[i]` for the `i` behind the words so far.
unfoldable pub next_word : List ℕ → ℕ
next_word w =
    let i = length w in
    let w15 = get_or w (i - 15) 0 in
    let w2 = get_or w (i - 2) 0 in
    let s0 = bit_xor (bit_xor (rotr32 w15 7) (rotr32 w15 18)) (w15 / 2 ^ 3) in
    let s1 = bit_xor (bit_xor (rotr32 w2 17) (rotr32 w2 19)) (w2 / 2 ^ 10) in
    (get_or w (i - 16) 0 + s0 + get_or w (i - 7) 0 + s1) % 2 ^ 32

unfoldable pub extend_words : ℕ → List ℕ → List ℕ
extend_words zero w = w
extend_words (suc n) w = extend_words n (w ++ (next_word w ∷ []))

-- The 64 rounds, over the constants and the words side by side.
unfoldable pub block_rounds : List ℕ → List ℕ → ℕ → ℕ → ℕ → ℕ → ℕ → ℕ → ℕ → ℕ → List ℕ
block_rounds (k ∷ ks) (w ∷ ws) a b c d e f g hval =
    let s1 = bit_xor (bit_xor (rotr32 e 6) (rotr32 e 11)) (rotr32 e 25) in
    let ch = bit_xor (bit_and e f) (bit_and (2 ^ 32 - 1 - e) g) in
    let temp1 = (hval + s1 + ch + k + w) % 2 ^ 32 in
    let s0 = bit_xor (bit_xor (rotr32 a 2) (rotr32 a 13)) (rotr32 a 22) in
    let maj = bit_xor (bit_xor (bit_and a b) (bit_and a c)) (bit_and b c) in
    let temp2 = (s0 + maj) % 2 ^ 32 in
    block_rounds ks ws ((temp1 + temp2) % 2 ^ 32) a b c ((d + temp1) % 2 ^ 32) e f g
block_rounds _ _ a b c d e f g hval = a ∷ b ∷ c ∷ d ∷ e ∷ f ∷ g ∷ hval ∷ []

-- `h[i] += ...`
unfoldable pub add_words : List ℕ → List ℕ → List ℕ
add_words (x ∷ xs) (y ∷ ys) = (x + y) % 2 ^ 32 ∷ add_words xs ys
add_words _ _ = []

unfoldable pub process_block : List ℕ → Bytes → List ℕ
process_block h block =
    let w = extend_words 48 (block_words 16 block) in
    add_words h (
      block_rounds sha256_k w (get_or h 0 0) (get_or h 1 0) (get_or h 2 0) (get_or h 3 0)
        (get_or h 4 0) (get_or h 5 0) (get_or h 6 0) (get_or h 7 0))

-- `while (len >= 64)`, and the copy of what is left then into the buffer, if anything.
unfoldable pub consume_blocks : ℕ → List ℕ → ℕ → Bytes → Bytes → Sha256State
consume_blocks total_len h buffer_len buffer p =
    let (h', left) = absorb 64 process_block (length p) h p in
    record {
      h = h';
      total_len = total_len;
      buffer_len = if ltb 0 (length left) then length left else buffer_len;
      buffer = if ltb 0 (length left) then write_at buffer 0 left else buffer;
    }

unfoldable pub consume : Sha256State → Bytes → Sha256State
consume s input =
    let total = (s.total_len + length input) % 2 ^ 64 in
    let room = 64 - s.buffer_len in
    let fill = if ltb (length input) room then length input else room in
    let filled = write_at s.buffer s.buffer_len (take fill input) in
    if ltb 0 s.buffer_len
    then if s.buffer_len + fill == 64
      then consume_blocks total (process_block s.h filled) 0 filled (drop fill input)
      else consume_blocks total s.h (s.buffer_len + fill) filled (drop fill input)
    else consume_blocks total s.h s.buffer_len s.buffer input

-- `buffer[buffer_len++] = (bit_len >> (i * 8)) & 0xff` for `i` from `n - 1` down to 0.
unfoldable pub big_endian : ℕ → ℕ → Bytes
big_endian zero v = []
big_endian (suc n) v = v / 2 ^ (n * 8) % 2 ^ 8 ∷ big_endian n v

-- `out`
unfoldable pub output : List ℕ → Bytes
output [] = []
output (x ∷ h) = big_endian 4 x ++ output h

-- `finalize` from the byte 0x80 on, where the buffer holds `pending`: the hash words and the buffer
-- after the last block.
unfoldable pub finish : List ℕ → ℕ → Bytes → List ℕ × Bytes
finish h bit_len pending =
    let flushed = process_block h (pending ++ replicate (64 - length pending) 0) in
    let last = replicate 56 0 ++ big_endian 8 bit_len in
    let only = (pending ++ replicate (56 - length pending) 0) ++ big_endian 8 bit_len in
    if ltb 56 (length pending)
    then (process_block flushed last, last)
    else (process_block h only, only)

unfoldable pub finalize : Sha256State → Sha256State × Bytes
finalize s =
    let pending = take s.buffer_len s.buffer ++ (0x80 ∷ []) in
    let (h', block) = finish s.h (s.total_len * 8 % 2 ^ 64) pending in
    (record { h = h'; total_len = s.total_len; buffer_len = 64; buffer = block }, output h')
