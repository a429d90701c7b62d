-- ===== src/Codec.antt =====
-- src/metadata_codec.cpp: metadata records and the history stream, as they are stored.
pub mod Record
pub mod Safety
pub mod Stream
pub mod StreamRoundTrip
mod Examples
use flocate.Prelude.{
  ℕ, zero, suc, ◌+◌, ◌-◌, ◌*◌, ◌%◌, ◌^◌, Bool, true, false, not, ◌&&◌, List, [], ◌∷◌, ◌++◌, Bytes,
  Option, none, some, length, take, drop, replicate, get_or, min, ◌==◌, ltb, leb, if◌then◌else◌,
}
use flocate.Prelude.Int.{to_word, of_word, half32, half64}
use flocate.Bytes.Words.{put_u8, put_u32, put_u64}
use flocate.Bytes.Reader.{
  Parsed, done, refused, overrun, Reader, pure, ◌>>=◌, get_u8, get_u32, get_u64, get_bytes,
}
use flocate.Metadata.{
  DirTime, MetadataHash, FileMetadata, no_metadata, hash_capacity, hash_kind_byte,
  hash_kind_of_byte, HistoryEventKind, HistoryEvent, run_marker, event_kind_byte,
  event_kind_of_byte, is_run_marker,
}

pub put_time : Bytes → DirTime → Bytes
put_time dst t = put_u32 (put_u64 dst (to_word half64 t.sec)) (to_word half32 t.nsec)

pub get_time : Reader DirTime
get_time = do
  sec ← get_u64
  nsec ← get_u32
  pure (record { sec = of_word half64 sec; nsec = of_word half32 nsec })

-- `min(metadata.hash.length, metadata.hash.value.size())`
abbrev pub hash_len : MetadataHash → ℕ
hash_len h = min h.length hash_capacity

pub put_fields : Bytes → FileMetadata → Bytes
unfolding put_time
put_fields dst m =
    let ids = put_u32 (put_u32 (put_u32 (put_u8 dst 1) m.mode) m.uid) m.gid in
    let times = put_time (put_time (put_time (put_u64 ids m.size) m.mtime) m.ctime) m.atime in
    put_u8 (put_u8 times (hash_kind_byte m.hash.kind)) (hash_len m.hash)
    ++ take (hash_len m.hash) m.hash.value

pub encode_metadata_record : Bytes → FileMetadata → Bytes
encode_metadata_record dst m = if not m.enabled then put_u8 dst 0 else put_fields dst m

-- METADATA_RECORD_FIXED_BYTES
abbrev pub metadata_record_fixed_bytes : ℕ
metadata_record_fixed_bytes = 4 + 4 + 4 + 8 + 3 * (8 + 4)

abbrev pub up_to_hash_len : ℕ
up_to_hash_len = 1 + metadata_record_fixed_bytes + 2

-- `ptr` and `end` are the bytes between them.
unfoldable pub metadata_record_size : Bytes → ℕ
metadata_record_size [] = 0
metadata_record_size (b ∷ p) =
    if b == 0
    then 1
    else if ltb (length (b ∷ p)) up_to_hash_len
    then 0
    else (let total = up_to_hash_len + get_or (b ∷ p) (up_to_hash_len - 1) 0 in
        if leb total (length (b ∷ p)) then total else 0)

-- `memcpy(meta->hash.value.data(), p, meta->hash.length)` into an array of zeros
abbrev pub filled : Bytes → Bytes
filled bytes = bytes ++ replicate (hash_capacity - length bytes) 0

pub decode_hash : Reader MetadataHash
decode_hash = do
  kind ← get_u8
  len ← get_u8
  value ← get_bytes (min len hash_capacity)
  pure (record {
    kind = hash_kind_of_byte kind;
    value = filled value;
    length = min len hash_capacity;
  })

pub decode_fields : Reader FileMetadata
decode_fields = do
  mode ← get_u32
  uid ← get_u32
  gid ← get_u32
  size ← get_u64
  mtime ← get_time
  ctime ← get_time
  atime ← get_time
  hash ← decode_hash
  pure (record {
    enabled = true;
    mode = mode;
    uid = uid;
    gid = gid;
    size = size;
    mtime = mtime;
    ctime = ctime;
    atime = atime;
    hash = hash;
  })

-- `*ptr += size`: whatever the readers left, the caller goes on behind the whole record.
abbrev pub advance {ℓ} : {A : Type ℓ} → Bytes → Parsed A → Parsed A
advance rest (done a q) = done a rest
advance rest refused = refused
advance rest overrun = overrun

abbrev pub decode_enabled : Bytes → ℕ → Reader FileMetadata
decode_enabled rest enabled p =
    if enabled == 0 then done no_metadata p else advance rest (decode_fields p)

pub decode_metadata_record : Reader FileMetadata
decode_metadata_record p =
    let size = metadata_record_size p in
    if size == 0 then refused else (get_u8 >>= decode_enabled (drop size p)) p

encode_event : Bytes → HistoryEvent → Bytes
unfolding put_time encode_metadata_record
encode_event buf event =
    let kind = put_u8 buf (event_kind_byte event.kind) in
    let header = put_u32 (put_time kind event.event_time) (length event.path % 2 ^ 32) in
    let old = encode_metadata_record (header ++ event.path) event.old_metadata in
    encode_metadata_record old event.new_metadata

encode_events : Bytes → List HistoryEvent → Bytes
unfolding encode_event
encode_events buf [] = buf
encode_events buf (event ∷ events) = encode_events (encode_event buf event) events

pub encode_history_stream : List HistoryEvent → Bytes
unfolding encode_events
encode_history_stream events = encode_events [] events

abbrev pub event_header_bytes : ℕ
event_header_bytes = 1 + 8 + 4 + 4

-- `if (end - ptr < path_len) break;` and the `assign` behind it
get_path : ℕ → Reader Bytes
get_path path_len p = if ltb (length p) path_len then refused else get_bytes path_len p

-- One round of the loop: `refused` is a `break`.
pub decode_event : Reader HistoryEvent
decode_event = do
  kind ← get_u8
  event_time ← get_time
  path_len ← get_u32
  path ← get_path path_len
  old ← decode_metadata_record
  new ← decode_metadata_record
  pure (record {
    kind = event_kind_of_byte kind;
    path = path;
    event_time = event_time;
    old_metadata = old;
    new_metadata = new;
  })

-- `none` means a read past the end of the buffer, or that the fuel ran out.
pub decode_events : ℕ → List HistoryEvent → Bytes → Option (List HistoryEvent)
decode_events zero events p = none
decode_events (suc fuel) events p =
    if ltb (length p) event_header_bytes then some events else elim (decode_event p) [
      | done event q ↦ decode_events fuel (events ++ (event ∷ [])) q
      | refused ↦ some events
      | overrun ↦ none
    ]

-- A stream that does not start with a run marker gets one.
unfoldable pub delimit : List HistoryEvent → List HistoryEvent
unfolding is_run_marker
delimit [] = []
delimit (event ∷ events) =
    if not (is_run_marker event.kind)
    then record {
      kind = run_marker;
      path = [];
      event_time = event.event_time;
      old_metadata = no_metadata;
      new_metadata = no_metadata;
    }
      ∷ event
      ∷ events
    else event ∷ events

-- A round takes at least the header, so a round for each byte and one more are enough.
pub decode_history_stream : Bytes → Option (List HistoryEvent)
decode_history_stream stream = elim (decode_events (suc (length stream)) [] stream) [
  | some events ↦ some (delimit events)
  | none ↦ none
]
