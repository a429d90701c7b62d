-- ===== src/Hash/Examples.antt =====
-- The hashes on small inputs.
use flocate.Prelude.{
  ℕ, ◌≡◌, refl, Bytes, List, false, [], ◌∷◌, true, some, codes, replicate, length-replicate,
}
use flocate.Metadata.{sha256, xx_hash64}
use flocate.Bytes.Words.{or_bytes}
use flocate.Hash.Blocks.{absorb}
use flocate.Hash.Words.{rotl64, rotr32, read32, read64}
use flocate.Hash.XxHash64
use flocate.Hash.XxHash64.Streaming as XxStreaming
use flocate.Hash.XxHash64.Streaming.{xxh64}
use flocate.Hash.Sha256
use flocate.Hash.Sha256.Padding
use flocate.Hash.Builder.{
  FileCalls, builder, finalize, compute_file_hash_at, fs_allows_hashing, not_permitted, opened,
}
use flocate.Hash.Builder.Streaming.{finalize-updates, updates, content_hash, concat}
use flocate.Hash.Builder.File.{compute_file_hash_at-file_hash, file_hash}

-- XXH64 and SHA-256 of "abc".
xxh64_abc : xxh64 0 (codes "abc") ≡ 0x44bc2cf5ad770999
unfolding xxh64 XxHash64.digest_of XxHash64.avalanche XxHash64.digest_bytes
    XxHash64.digest_half_word XxHash64.digest_words absorb rotl64 read32 read64 XxHash64.merge_lanes
    XxHash64.xxhash_merge_round XxHash64.xxhash_round XxHash64.rounds XxHash64.reset_lanes or_bytes
xxh64_abc = refl

xxh64_long : xxh64 0 (codes "Nobody inspects the spammish repetition") ≡ 0xfbcea83c8a378bf1
unfolding xxh64 XxHash64.digest_of XxHash64.avalanche XxHash64.digest_bytes
    XxHash64.digest_half_word XxHash64.digest_words absorb rotl64 read32 read64 XxHash64.merge_lanes
    XxHash64.xxhash_merge_round XxHash64.xxhash_round XxHash64.rounds XxHash64.reset_lanes or_bytes
xxh64_long = refl

sha256_abc :
    Padding.sha256 (codes "abc")
    ≡ 186 ∷ 120 ∷ 22 ∷ 191 ∷ 143 ∷ 1 ∷ 207 ∷ 234 ∷ 65 ∷ 65 ∷ 64 ∷ 222 ∷ 93 ∷ 174 ∷ 34 ∷ 35 ∷ 176 ∷ 3
      ∷ 97 ∷ 163 ∷ 150 ∷ 23 ∷ 122 ∷ 156 ∷ 180 ∷ 16 ∷ 255 ∷ 97 ∷ 242 ∷ 0 ∷ 21 ∷ 173 ∷ []
unfolding Padding.sha256 Padding.pad Sha256.output absorb Sha256.big_endian Sha256.process_block
    Sha256.add_words Sha256.block_rounds Sha256.extend_words Sha256.next_word Sha256.block_words
    rotr32
sha256_abc = refl

proc_is_denied : fs_allows_hashing (some 0x9fa0) ≡ (false, some 0x9fa0)
unfolding fs_allows_hashing
proc_is_denied = refl

abbrev pieces : List Bytes
pieces = codes "ab" ∷ [] ∷ codes "c" ∷ []

abbrev room : Bytes
room = replicate 64 7

finalize-updates_example :
    (finalize (updates (builder [] [] room sha256) pieces)).1 ≡ content_hash sha256 (concat pieces)
finalize-updates_example = finalize-updates [] [] room sha256 pieces (length-replicate {A = ℕ} 64 7)

-- The first attempt is not permitted, and the file comes in two reads.
abbrev file_calls : FileCalls
file_calls = record {
  open_noatime = not_permitted;
  open_plain = opened;
  is_regular = true;
  reads = some (codes "ab") ∷ some (codes "c") ∷ [];
  closes = true;
}

compute_file_hash_at-file_hash_example :
    compute_file_hash_at (builder [] [] room) file_calls true xx_hash64
    ≡ file_hash file_calls xx_hash64
compute_file_hash_at-file_hash_example =
    compute_file_hash_at-file_hash [] [] room file_calls xx_hash64 (length-replicate {A = ℕ} 64 7)

consume-Holds_example :
    XxStreaming.Holds 0
      (codes "abc")
      (XxHash64.consume (XxHash64.consume (XxHash64.reset 0) (codes "ab")) (codes "c"))
consume-Holds_example =
    XxStreaming.consume-Holds 0 (codes "ab") (codes "c")
      (XxHash64.consume (XxHash64.reset 0) (codes "ab"))
      (XxStreaming.consume-Holds 0 [] (codes "ab") (XxHash64.reset 0) (XxStreaming.reset-Holds 0))
