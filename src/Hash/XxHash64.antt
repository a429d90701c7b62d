-- ===== src/Hash/XxHash64.antt =====
-- MetadataHashBuilder::XxHash64State of src/metadata_hash.cpp and include/metadata_hash.h.
pub mod Streaming
use flocate.Prelude.{
  ℕ, zero, suc, ◌+◌, ◌-◌, ◌*◌, ◌/◌, ◌%◌, ◌^◌, bit_xor, Bytes, [], ◌∷◌, ◌++◌, length, take, drop,
  replicate, get_or, ltb, leb, if◌then◌else◌,
}
use flocate.Hash.Words.{rotl64, read32, read64, write_at}
use flocate.Hash.Blocks.{absorb}

abbrev pub prime1 : ℕ
prime1 = 11400714785074694791

abbrev pub prime2 : ℕ
prime2 = 14029467366897019727

abbrev pub prime3 : ℕ
prime3 = 1609587929392839161

abbrev pub prime4 : ℕ
prime4 = 9650029242287828579

abbrev pub prime5 : ℕ
prime5 = 2870177450012600261

unfoldable pub xxhash_round : ℕ → ℕ → ℕ
xxhash_round acc input =
    let acc' = (acc + input * prime2 % 2 ^ 64) % 2 ^ 64 in rotl64 acc' 31 * prime1 % 2 ^ 64

unfoldable pub xxhash_merge_round : ℕ → ℕ → ℕ
xxhash_merge_round acc val = (bit_xor acc (xxhash_round 0 val) * prime1 + prime4) % 2 ^ 64

-- `v1`, `v2`, `v3` and `v4`
pub record Lanes : Type 0 where
  pub v1 : ℕ
  pub v2 : ℕ
  pub v3 : ℕ
  pub v4 : ℕ

pub record XxHash64State : Type 0 where
  pub total_len : ℕ
  pub lanes : Lanes
  pub memsize : ℕ
  pub memory : Bytes

unfoldable pub reset_lanes : ℕ → Lanes
reset_lanes seed = record {
  v1 = (seed + prime1 + prime2) % 2 ^ 64;
  v2 = (seed + prime2) % 2 ^ 64;
  v3 = seed;
  v4 = (seed + 2 ^ 64 - prime1) % 2 ^ 64;
}

unfoldable pub reset : ℕ → XxHash64State
reset seed = record {
  total_len = 0;
  lanes = reset_lanes seed;
  memsize = 0;
  memory = replicate 32 0;
}

-- The four rounds over the 32 bytes at `p`.
unfoldable pub rounds : Lanes → Bytes → Lanes
rounds lanes p = record {
  v1 = xxhash_round lanes.v1 (read64 p);
  v2 = xxhash_round lanes.v2 (read64 (drop 8 p));
  v3 = xxhash_round lanes.v3 (read64 (drop 16 p));
  v4 = xxhash_round lanes.v4 (read64 (drop 24 p));
}

-- The end of `consume`: the loop while 32 bytes are left, and the copy of what is left then.
unfoldable pub consume_stripes : ℕ → Lanes → Bytes → Bytes → XxHash64State
consume_stripes total_len lanes memory p =
    let (lanes', left) = absorb 32 rounds (length p) lanes p in
    record {
      total_len = total_len;
      lanes = lanes';
      memsize = length left;
      memory = write_at memory 0 left;
    }

unfoldable pub consume : XxHash64State → Bytes → XxHash64State
consume s input =
    let total = (s.total_len + length input) % 2 ^ 64 in
    let fill = 32 - s.memsize in
    let filled = write_at s.memory s.memsize (take fill input) in
    if ltb (s.memsize + length input) 32
    then record {
      total_len = total;
      lanes = s.lanes;
      memsize = s.memsize + length input;
      memory = write_at s.memory s.memsize input;
    }
    else if ltb 0 s.memsize
    then consume_stripes total (rounds s.lanes filled) filled (drop fill input)
    else consume_stripes total s.lanes s.memory input

-- `while (p + 8 <= end)`: the hash and the bytes that are left.
unfoldable pub digest_words : ℕ → ℕ → Bytes → ℕ × Bytes
digest_words zero hash p = (hash, p)
digest_words (suc fuel) hash p =
    let hash' = bit_xor hash (rotl64 (read64 p * prime2 % 2 ^ 64) 31 * prime1 % 2 ^ 64) in
    let rest = digest_words fuel ((hash' * prime1 + prime4) % 2 ^ 64) (drop 8 p) in
    if leb 8 (length p) then rest else (hash, p)

-- `if (p + 4 <= end)`
unfoldable pub digest_half_word : ℕ → Bytes → ℕ × Bytes
digest_half_word hash p =
    let hash' = bit_xor hash (read32 p * prime1 % 2 ^ 64) in
    if leb 4 (length p) then ((rotl64 hash' 23 * prime2 + prime3) % 2 ^ 64, drop 4 p) else (hash, p)

-- `while (p < end)`
unfoldable pub digest_bytes : ℕ → Bytes → ℕ
digest_bytes hash [] = hash
digest_bytes hash (b ∷ p) =
    digest_bytes (rotl64 (bit_xor hash (b * prime5 % 2 ^ 64)) 11 * prime1 % 2 ^ 64) p

unfoldable pub avalanche : ℕ → ℕ
avalanche hash =
    let hash = bit_xor hash (hash / 2 ^ 33) * prime2 % 2 ^ 64 in
    let hash = bit_xor hash (hash / 2 ^ 29) * prime3 % 2 ^ 64 in bit_xor hash (hash / 2 ^ 32)

unfoldable pub merge_lanes : Lanes → ℕ
merge_lanes v =
    let hash = (rotl64 v.v1 1 + rotl64 v.v2 7 + rotl64 v.v3 12 + rotl64 v.v4 18) % 2 ^ 64 in
    let hash = xxhash_merge_round hash v.v1 in
    let hash = xxhash_merge_round hash v.v2 in
    let hash = xxhash_merge_round hash v.v3 in xxhash_merge_round hash v.v4

-- `digest` of the total length, the lanes and the bytes that wait in the memory.
unfoldable pub digest_of : ℕ → Lanes → Bytes → ℕ
digest_of total_len lanes pending =
    let hash = if leb 32 total_len then merge_lanes lanes else prime5 in
    let (hash, p) = digest_words (length pending) ((hash + total_len) % 2 ^ 64) pending in
    let (hash, p) = digest_half_word hash p in avalanche (digest_bytes hash p)

unfoldable pub digest : XxHash64State → ℕ
digest s = digest_of s.total_len s.lanes (take s.memsize s.memory)
