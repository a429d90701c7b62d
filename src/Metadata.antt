-- ===== src/Metadata.antt =====
-- include/metadata.h: what updatedb records of a file, the events of the change history, and how
-- two records of metadata are compared.
pub mod Differences
mod Examples
use flocate.Prelude.{
  ℕ, Bool, true, false, not, ◌&&◌, [], ◌∷◌, ◌++◌, Bytes, take, replicate, is_empty, ◌==◌, bytes_eq,
  if◌then◌else◌, codes,
}
use flocate.Prelude.Int.{ℤ, pos, negsuc, eq_ℤ, ltb_ℤ}

-- `struct dir_time`
pub record DirTime : Type 0 where
  pub sec : ℤ
  pub nsec : ℤ

-- `dir_time::operator<`
unfoldable pub dir_time_lt : DirTime → DirTime → Bool
dir_time_lt a b = if not (eq_ℤ a.sec b.sec) then ltb_ℤ a.sec b.sec else ltb_ℤ a.nsec b.nsec

-- `dir_time::operator>=`, which negates `other < *this`.
unfoldable pub dir_time_ge : DirTime → DirTime → Bool
unfolding dir_time_lt
dir_time_ge a b = not (dir_time_lt b a)

abbrev pub unknown_dir_time : DirTime
unknown_dir_time = record { sec = pos 0; nsec = pos 0 }

abbrev pub not_a_dir : DirTime
not_a_dir = record { sec = negsuc 0; nsec = pos 0 }

-- `enum class MetadataHashKind : uint8_t`. A byte read from a database is cast to it unchecked, so
-- it can also hold a value with no name.
pub data MetadataHashKind : Type 0 where
  none sha256 xx_hash64 : MetadataHashKind
  unnamed : ℕ → MetadataHashKind

unfoldable pub hash_kind_byte : MetadataHashKind → ℕ
hash_kind_byte MetadataHashKind.none = 0
hash_kind_byte sha256 = 1
hash_kind_byte xx_hash64 = 2
hash_kind_byte (unnamed n) = n

unfoldable pub hash_kind_of_byte : ℕ → MetadataHashKind
hash_kind_of_byte n =
    if n == 0
    then MetadataHashKind.none
    else if n == 1
    then sha256
    else if n == 2
    then xx_hash64
    else unnamed n

-- The size of `std::array<uint8_t, 32> value`.
abbrev pub hash_capacity : ℕ
hash_capacity = 32

pub record MetadataHash : Type 0 where
  pub kind : MetadataHashKind
  pub value : Bytes
  pub length : ℕ

-- `MetadataHash{}`
abbrev pub empty_hash : MetadataHash
empty_hash = record { kind = MetadataHashKind.none; value = replicate hash_capacity 0; length = 0 }

pub record FileMetadata : Type 0 where
  pub enabled : Bool
  pub mode : ℕ
  pub uid : ℕ
  pub gid : ℕ
  pub size : ℕ
  pub mtime : DirTime
  pub ctime : DirTime
  pub atime : DirTime
  pub hash : MetadataHash

-- `FileMetadata{}`
abbrev pub no_metadata : FileMetadata
no_metadata = record {
  enabled = false;
  mode = 0;
  uid = 0;
  gid = 0;
  size = 0;
  mtime = unknown_dir_time;
  ctime = unknown_dir_time;
  atime = unknown_dir_time;
  hash = empty_hash;
}

pub record FileRecord : Type 0 where
  pub path : Bytes
  pub dir_timestamp : DirTime
  pub metadata : FileMetadata

-- `enum class HistoryEventKind : uint8_t`, with the values that have no name.
pub data HistoryEventKind : Type 0 where
  added removed modified run_marker : HistoryEventKind
  unnamed : ℕ → HistoryEventKind

unfoldable pub event_kind_byte : HistoryEventKind → ℕ
event_kind_byte added = 0
event_kind_byte removed = 1
event_kind_byte modified = 2
event_kind_byte run_marker = 3
event_kind_byte (HistoryEventKind.unnamed n) = n

unfoldable pub event_kind_of_byte : ℕ → HistoryEventKind
event_kind_of_byte n =
    if n == 0
    then added
    else if n == 1
    then removed
    else if n == 2
    then modified
    else if n == 3
    then run_marker
    else HistoryEventKind.unnamed n

pub record HistoryEvent : Type 0 where
  pub kind : HistoryEventKind
  pub path : Bytes
  pub event_time : DirTime
  pub old_metadata : FileMetadata
  pub new_metadata : FileMetadata

-- `event.kind == HistoryEventKind::RunMarker`
unfoldable pub is_run_marker : HistoryEventKind → Bool
is_run_marker run_marker = true
is_run_marker _ = false

unfoldable pub dir_time_equals : DirTime → DirTime → Bool
dir_time_equals a b = eq_ℤ a.sec b.sec && eq_ℤ a.nsec b.nsec

-- `std::equal` over the first `a.length` bytes of both arrays
unfoldable pub hash_equals : MetadataHash → MetadataHash → Bool
unfolding hash_kind_byte bytes_eq
hash_equals a b =
    hash_kind_byte a.kind == hash_kind_byte b.kind
    && a.length == b.length
    && bytes_eq (take a.length a.value) (take a.length b.value)

same_bool : Bool → Bool → Bool
same_bool true b = b
same_bool false b = not b

-- The third argument is `compare_atime`.
unfoldable pub metadata_equals : FileMetadata → FileMetadata → Bool → Bool
unfolding same_bool
metadata_equals a b compare_atime =
    if not (same_bool a.enabled b.enabled)
    then false
    else if not a.enabled
    then true
    else if compare_atime && not (dir_time_equals a.atime b.atime)
    then false
    else a.mode == b.mode
      && a.uid == b.uid
      && a.gid == b.gid
      && a.size == b.size
      && dir_time_equals a.mtime b.mtime
      && dir_time_equals a.ctime b.ctime
      && hash_equals a.hash b.hash

-- `add(name)`, called where the fields differ: names are joined by commas.
unfoldable pub add_name : Bool → Bytes → Bytes → Bytes
add_name differs name out =
    if differs then (if is_empty out then name else out ++ (b',' ∷ name)) else out

unfoldable pub metadata_diff_fields : FileMetadata → FileMetadata → Bytes
unfolding same_bool add_name
metadata_diff_fields a b =
    if not (same_bool a.enabled b.enabled)
    then (if a.enabled then codes "metadata-lost" else codes "metadata-gained")
    else if not a.enabled
    then []
    else (let mode = add_name (not (a.mode == b.mode)) (codes "mode") [] in
        let uid = add_name (not (a.uid == b.uid)) (codes "uid") mode in
        let gid = add_name (not (a.gid == b.gid)) (codes "gid") uid in
        let size = add_name (not (a.size == b.size)) (codes "size") gid in
        let mtime = add_name (not (dir_time_equals a.mtime b.mtime)) (codes "mtime") size in
        let ctime = add_name (not (dir_time_equals a.ctime b.ctime)) (codes "ctime") mtime in
        let atime = add_name (not (dir_time_equals a.atime b.atime)) (codes "atime") ctime in
        add_name (not (hash_equals a.hash b.hash)) (codes "hash") atime)
