-- ===== src/Hash/Builder.antt =====
-- MetadataHashBuilder, compute_file_hash_at and fs_allows_hashing of src/metadata_hash.cpp. The
-- system calls are arguments: what they return.
pub mod Streaming
pub mod File
use flocate.Prelude.{
  ℕ, ◌*◌, Bool, true, false, not, ◌&&◌, ◌||◌, List, Bytes, [], ◌∷◌, ◌++◌, Option, none, some,
  length, ltb, ◌==◌, is_empty, if◌then◌else◌,
}
use flocate.Metadata.{MetadataHashKind, MetadataHash, empty_hash, sha256, xx_hash64, unnamed}
use flocate.Hash.Words.{write_at}
use flocate.Hash.XxHash64
use flocate.Hash.XxHash64.{XxHash64State}
use flocate.Hash.Sha256
use flocate.Hash.Sha256.{Sha256State, big_endian}

pub record MetadataHashBuilder : Type 0 where
  pub kind : MetadataHashKind
  pub finished : Bool
  pub xxh_state : XxHash64State
  pub sha_state : Sha256State

-- The members before the constructor's body runs; `memory`, `h` and `buffer` are not initialised.
abbrev pub members : Bytes → List ℕ → Bytes → MetadataHashKind → MetadataHashBuilder
members memory h buffer kind = record {
  kind = kind;
  finished = false;
  xxh_state = record {
    total_len = 0;
    lanes = XxHash64.reset_lanes 0;
    memsize = 0;
    memory = memory;
  };
  sha_state = record { h = h; total_len = 0; buffer_len = 0; buffer = buffer };
}

-- The constructor.
unfoldable pub builder : Bytes → List ℕ → Bytes → MetadataHashKind → MetadataHashBuilder
unfolding XxHash64.reset Sha256.reset
builder memory h buffer xx_hash64 = record (members memory h buffer xx_hash64) {
  xxh_state = XxHash64.reset 0;
}
builder memory h buffer sha256 = record (members memory h buffer sha256) {
  sha_state = Sha256.reset buffer;
}
builder memory h buffer kind = members memory h buffer kind

unfoldable pub update_kind : MetadataHashKind → MetadataHashBuilder → Bytes → MetadataHashBuilder
unfolding XxHash64.consume Sha256.consume
update_kind xx_hash64 b input = record b { xxh_state = XxHash64.consume b.xxh_state input }
update_kind sha256 b input = record b { sha_state = Sha256.consume b.sha_state input }
update_kind _ b input = b

-- `update`, where `none` is a null pointer.
unfoldable pub update : MetadataHashBuilder → Option Bytes → MetadataHashBuilder
unfolding update_kind
update b none = b
update b (some input) = if b.finished || is_empty input then b else update_kind b.kind b input

-- The canonical form: the highest byte first.
unfoldable pub finalize_xxh64 : XxHash64State → MetadataHash
unfolding XxHash64.digest
finalize_xxh64 s = record {
  kind = xx_hash64;
  value = write_at empty_hash.value 0 (big_endian 8 (XxHash64.digest s));
  length = 8;
}

unfoldable pub finalize_sha256 : Sha256State → Sha256State × MetadataHash
unfolding Sha256.finalize
finalize_sha256 s =
    let (s', out) = Sha256.finalize s in
    (s', record { kind = sha256; value = write_at empty_hash.value 0 out; length = 32 })

unfoldable pub finalize_kind :
    MetadataHashKind → MetadataHashBuilder → MetadataHashBuilder × MetadataHash
unfolding finalize_xxh64 finalize_sha256
finalize_kind xx_hash64 b = (b, finalize_xxh64 b.xxh_state)
finalize_kind sha256 b =
    let (s', hash) = finalize_sha256 b.sha_state in (record b { sha_state = s' }, hash)
finalize_kind _ b = (b, empty_hash)

unfoldable pub finalize : MetadataHashBuilder → MetadataHashBuilder × MetadataHash
unfolding finalize_kind
finalize b = finalize_kind b.kind (record b { finished = true })

-- What openat returns: a descriptor, EPERM or another error.
pub data Opened : Type 0 where
  opened not_permitted failed : Opened

-- What the system calls on one file return. `reads` are the results of read in order, `none` for an
-- error; behind the last of them read returns 0.
pub record FileCalls : Type 0 where
  pub open_noatime : Opened
  pub open_plain : Opened
  pub is_regular : Bool
  pub reads : List (Option Bytes)
  pub closes : Bool

-- The file descriptor, with the second attempt.
unfoldable pub open_file : FileCalls → Opened
open_file calls = elim calls.open_noatime [ not_permitted ↦ calls.open_plain | result ↦ result ]

-- `while (true)`; `none` is a read that failed.
unfoldable pub read_file : MetadataHashBuilder → List (Option Bytes) → Option MetadataHashBuilder
unfolding update
read_file b [] = some b
read_file b (none ∷ reads) = none
read_file b (some [] ∷ reads) = some b
read_file b (some (c ∷ input) ∷ reads) = read_file (update b (some (c ∷ input))) reads

-- `if (close(fd) != 0)` and the result; `none` is `false`, which leaves `*out` as it was.
unfoldable pub close_file : Bool → Option MetadataHashBuilder → Option MetadataHash
unfolding finalize
close_file closes none = none
close_file closes (some b) = if closes then some (finalize b).1 else none

unfoldable pub hash_open_file : MetadataHashBuilder → FileCalls → Opened → Option MetadataHash
unfolding read_file close_file
hash_open_file b calls opened =
    if calls.is_regular then close_file calls.closes (read_file b calls.reads) else none
hash_open_file b calls _ = none

-- The builder comes with whatever its members hold before they are initialised. `false` stands for a
-- null pointer `out`.
unfoldable pub compute_file_hash_at :
    (MetadataHashKind → MetadataHashBuilder)
    → FileCalls
    → Bool
    → MetadataHashKind
    → Option MetadataHash
unfolding open_file hash_open_file
compute_file_hash_at new calls false kind = none
compute_file_hash_at new calls true MetadataHashKind.none = some empty_hash
compute_file_hash_at new calls true kind = hash_open_file (new kind) calls (open_file calls)

abbrev pub denied_fs_magic : List ℕ
denied_fs_magic =
    0x9fa0 ∷ 0x62656572 ∷ 0x64626720 ∷ 0x74726163 ∷ 0x73636673 ∷ 0x27e0eb ∷ 0x63677270 ∷ 0x1cd1
    ∷ 0x6165676c ∷ 0xde5e81e4 ∷ 0x62656570 ∷ 0x65735543 ∷ 0xcafe4a11 ∷ 0x42494e4d ∷ 0x19800202
    ∷ 0x958458f6 ∷ 0x67596969 ∷ 0x6e736673 ∷ 0xf97cff8c ∷ 0x43415d53 ∷ 0x0187 ∷ []

unfoldable pub is_denied : ℕ → List ℕ → Bool
is_denied magic [] = false
is_denied magic (denied ∷ rest) = magic == denied || is_denied magic rest

-- fstatfs's `f_type`, `none` if it fails; the result and `*magic_out`, where it is set.
unfoldable pub fs_allows_hashing : Option ℕ → Bool × Option ℕ
unfolding is_denied
fs_allows_hashing none = (true, none)
fs_allows_hashing (some f_type) = (not (is_denied f_type denied_fs_magic), some f_type)
