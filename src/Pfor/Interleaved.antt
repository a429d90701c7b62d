-- ===== src/Pfor/Interleaved.antt =====
-- Bit packing in four streams: InterleavedBitWriter and encode_bitmap of
-- include/turbopfor-encode.h, and InterleavedBitReader of src/turbopfor.cpp. The streams take turns
-- at words of 32 bits, so the words of one stream stand 16 bytes apart.
pub mod Writing
pub mod Reading
pub mod Columns
pub mod RoundTrip
use flocate.Prelude.{
  ℕ, zero, suc, ◌+◌, ◌-◌, ◌*◌, ◌/◌, ◌%◌, ◌^◌, bit_or, List, [], ◌∷◌, ◌++◌, Bytes, Option, none,
  some, ltb, leb, if◌then◌else◌, length, take, drop,
}
use flocate.Bytes.Words.{little_endian, or_bytes}
use flocate.Pfor.Bits.{bytes_for_packed_bits, masked, mask_all}

-- The words that are finished, and the one that the last write has left at `out`.
pub record InterleavedBitWriter : Type 0 where
  pub words : List ℕ
  pub behind : ℕ
  pub bits_used : ℕ
  pub cur_val : ℕ

abbrev pub new_stream : InterleavedBitWriter
new_stream = record { words = []; behind = 0; bits_used = 0; cur_val = 0 }

-- What is done to a full accumulator. `bits_used -= 32` wraps around, and `+= bits` wraps back.
unfoldable pub flush_word : ℕ → InterleavedBitWriter → ℕ → InterleavedBitWriter
flush_word bits bs cur =
    if leb 32 (bs.bits_used + bits)
    then record {
      words = bs.words ++ (cur % 2 ^ 32 ∷ []);
      behind = cur / 2 ^ 32 % 2 ^ 32;
      bits_used = ((bs.bits_used + 2 ^ 32 - 32) % 2 ^ 32 + bits) % 2 ^ 32;
      cur_val = cur / 2 ^ 32;
    }
    else record {
      words = bs.words;
      behind = cur % 2 ^ 32;
      bits_used = bs.bits_used + bits;
      cur_val = cur;
    }

-- `InterleavedBitWriter::write`
unfoldable pub write_stream : ℕ → InterleavedBitWriter → ℕ → InterleavedBitWriter
unfolding flush_word
write_stream bits bs val = flush_word bits bs (bit_or bs.cur_val (val * 2 ^ bs.bits_used % 2 ^ 64))

-- One for each of the streams.
pub record Four (A : Type 0) : Type 0 where
  pub s0 : A
  pub s1 : A
  pub s2 : A
  pub s3 : A

-- The rounds of the loop in `encode_bitmap`; `num` is a multiple of four.
unfoldable pub write_rows : ℕ → Four InterleavedBitWriter → List ℕ → Four InterleavedBitWriter
unfolding write_stream
write_rows bits bs (a ∷ b ∷ c ∷ d ∷ vals) =
    write_rows bits
      (record {
        s0 = write_stream bits bs.s0 a;
        s1 = write_stream bits bs.s1 b;
        s2 = write_stream bits bs.s2 c;
        s3 = write_stream bits bs.s3 d;
      })
      vals
write_rows bits bs [] = bs
write_rows bits bs (a ∷ []) = bs
write_rows bits bs (a ∷ b ∷ []) = bs
write_rows bits bs (a ∷ b ∷ c ∷ []) = bs

unfoldable pub row : ℕ → ℕ → ℕ → ℕ → Bytes
unfolding little_endian
row a b c d = little_endian 4 a ++ (little_endian 4 b ++ (little_endian 4 c ++ little_endian 4 d))

-- The bytes in which the words of the streams take turns. The streams have equally many.
unfoldable pub interleave : List ℕ → List ℕ → List ℕ → List ℕ → Bytes
unfolding row
interleave [] bs cs ds = []
interleave (a ∷ as') [] cs ds = []
interleave (a ∷ as') (b ∷ bs) [] ds = []
interleave (a ∷ as') (b ∷ bs) (c ∷ cs) [] = []
interleave (a ∷ as') (b ∷ bs) (c ∷ cs) (d ∷ ds) = row a b c d ++ interleave as' bs cs ds

-- The bytes that the streams leave in memory.
unfoldable pub stream_bytes : Four InterleavedBitWriter → Bytes
unfolding interleave
stream_bytes bs =
    interleave bs.s0.words bs.s1.words bs.s2.words bs.s3.words
    ++ row bs.s0.behind bs.s1.behind bs.s2.behind bs.s3.behind

-- `encode_bitmap` with interleaving.
unfoldable pub encode_bitmap_interleaved : ℕ → List ℕ → Bytes
unfolding stream_bytes write_rows mask_all
encode_bitmap_interleaved bit_width vals = take (bytes_for_packed_bits (length vals) bit_width) (
    stream_bytes (
      write_rows bit_width
        (record { s0 = new_stream; s1 = new_stream; s2 = new_stream; s3 = new_stream })
        (mask_all bit_width vals)))

pub record InterleavedBitReader : Type 0 where
  pub input : Bytes
  pub bits_used : ℕ

-- `read_le<uint32_t>(in)`, where the four bytes are there.
unfoldable pub word : Bytes → ℕ
unfolding or_bytes
word p = or_bytes (take 4 p) 0 0

-- The bytes behind `in` that a read looks at.
abbrev pub reach : ℕ → ℕ → ℕ
reach bits used = if ltb 32 (used + bits) then 20 else 4

-- `InterleavedBitReader::read`; `none` is a read past the end of the buffer.
unfoldable pub read_stream : ℕ → InterleavedBitReader → Option (ℕ × InterleavedBitReader)
unfolding word
read_stream bits bs =
    let used = bs.bits_used + bits in
    let low = word bs.input / 2 ^ bs.bits_used in
    let high = word (drop 16 bs.input) * 2 ^ (32 - bs.bits_used) % 2 ^ 32 in
    if ltb (length bs.input) (reach bits bs.bits_used)
    then none
    else some (
      masked bits (if ltb 32 used then bit_or low high else low),
      record { input = drop (16 * (used / 32)) bs.input; bits_used = used % 32 },
    )

abbrev pub then_read {ℓ κ} : {A : Type ℓ} {B : Type κ} → Option A → (A → Option B) → Option B
then_read none f = none
then_read (some a) f = f a

-- The rounds of the loops in the decoders: `rows` times four values.
unfoldable pub read_rows : ℕ → ℕ → Four InterleavedBitReader → Option (List ℕ)
unfolding read_stream
read_rows bits zero bs = some []
read_rows bits (suc rows) bs = then_read (read_stream bits bs.s0) λ a.
    then_read (read_stream bits bs.s1) λ b. then_read (read_stream bits bs.s2) λ c.
      then_read (read_stream bits bs.s3) λ d.
        then_read (read_rows bits rows (record { s0 = a.1; s1 = b.1; s2 = c.1; s3 = d.1 }))
          λ vals. some (a.0 ∷ b.0 ∷ c.0 ∷ d.0 ∷ vals)

abbrev pub stream_at : Bytes → ℕ → InterleavedBitReader
stream_at p k = record { input = drop (4 * k) p; bits_used = 0 }

-- `num` base values from `in` on.
unfoldable pub read_interleaved : ℕ → ℕ → Bytes → Option (List ℕ)
unfolding read_rows
read_interleaved bits num p =
    read_rows bits (num / 4)
      (record { s0 = stream_at p 0; s1 = stream_at p 1; s2 = stream_at p 2; s3 = stream_at p 3 })
