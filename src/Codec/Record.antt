-- ===== src/Codec/Record.antt =====
-- A metadata record that was written is read back, whatever follows it.
use flocate.Prelude.{
  ℕ, ◌+◌, ◌%◌, ◌^◌, ◌≤◌, ◌<◌, ◌≡◌, refl, ap, ◌∙◌, true, [], ◌∷◌, ◌++◌, append_assoc, Bytes, length,
  take, drop, min, arith, length-append, length-take, drop-append_length, if◌then◌else◌, inl, inr,
  Bool-cases,
}
use flocate.Prelude.Int.{
  Fits, half32, half64, to_word, of_word-to_word32, of_word-to_word64, to_word32-lt, to_word64-lt,
}
use flocate.Bytes.Words.{
  put_u8, put_u32, put_u64, little_endian, put_u32-little_endian, put_u64-little_endian,
}
use flocate.Bytes.Reader.{
  done, pure, ◌>>=◌, get_u8, get_u32, get_u64, get_bytes, bind-done, get_u32-little_endian,
  get_u64-little_endian, get_bytes-append,
}
use flocate.Metadata.{
  DirTime, MetadataHash, MetadataHashKind, unnamed, FileMetadata, no_metadata, hash_capacity,
  hash_kind_byte, hash_kind_of_byte,
}
use flocate.Codec.{
  put_time, get_time, hash_len, put_fields, encode_metadata_record, up_to_hash_len,
  metadata_record_size, filled, decode_hash, decode_fields, decode_metadata_record,
}

-- A value of `dir_time`.
pub record IsTime (t : DirTime) : Type 0 where
  pub sec : Fits half64 t.sec
  pub nsec : Fits half32 t.nsec

-- A kind that a byte can hold; the values with a name are written by that name.
abbrev pub IsHashKind : MetadataHashKind → Type 0
IsHashKind (unnamed n) = (3 ≤ n) × (n < 256)
IsHashKind _ = Unit

-- A value of `FileMetadata`: each field lies in the range of its C++ type.
pub record IsMetadata (m : FileMetadata) : Type 0 where
  pub mode : m.mode < 2 ^ 32
  pub uid : m.uid < 2 ^ 32
  pub gid : m.gid < 2 ^ 32
  pub size : m.size < 2 ^ 64
  pub mtime : IsTime m.mtime
  pub ctime : IsTime m.ctime
  pub atime : IsTime m.atime
  pub kind : IsHashKind m.hash.kind
  pub value : length m.hash.value ≡ hash_capacity

-- What a database keeps of metadata: nothing if it is disabled, and of the hash only the first
-- `length` bytes.
abbrev pub stored_hash : MetadataHash → MetadataHash
stored_hash h = record {
  kind = h.kind;
  value = filled (take (hash_len h) h.value);
  length = hash_len h;
}

unfoldable pub stored : FileMetadata → FileMetadata
stored m = if m.enabled then record m { enabled = true; hash = stored_hash m.hash } else no_metadata

-- The bytes that the writers append.
abbrev pub time_bytes : DirTime → Bytes → Bytes
time_bytes t rest =
    little_endian 8 (to_word half64 t.sec) ++ (little_endian 4 (to_word half32 t.nsec) ++ rest)

abbrev pub hash_bytes : MetadataHash → Bytes → Bytes
hash_bytes h rest =
    hash_kind_byte h.kind % 256 ∷ hash_len h % 256 ∷ (take (hash_len h) h.value ++ rest)

abbrev pub field_bytes : FileMetadata → Bytes → Bytes
field_bytes m rest =
    little_endian 4 m.mode
    ++ (little_endian 4 m.uid
        ++ (little_endian 4 m.gid
            ++ (little_endian 8 m.size
                ++ time_bytes m.mtime
                    (time_bytes m.ctime (time_bytes m.atime (hash_bytes m.hash rest))))))

abbrev pub record_bytes : FileMetadata → Bytes → Bytes
record_bytes m rest = if m.enabled then 1 ∷ field_bytes m rest else 0 ∷ rest

pub put_u8-append :
    (dst : Bytes) (v : ℕ) (rest : Bytes) → put_u8 dst v ++ rest ≡ dst ++ (v % 256 ∷ rest)
unfolding put_u8
put_u8-append dst v rest = append_assoc dst (v % 256 ∷ []) rest

pub put_u32-append :
    (dst : Bytes) (v : ℕ) (rest : Bytes)
    → put_u32 dst v ++ rest ≡ dst ++ (little_endian 4 v ++ rest)
put_u32-append dst v rest = rw put_u32-little_endian (append_assoc dst (little_endian 4 v) rest)

pub put_u64-append :
    (dst : Bytes) (v : ℕ) (rest : Bytes)
    → put_u64 dst v ++ rest ≡ dst ++ (little_endian 8 v ++ rest)
put_u64-append dst v rest = rw put_u64-little_endian (append_assoc dst (little_endian 8 v) rest)

ruleset writes = (put_u8-append, put_u32-append, put_u64-append, append_assoc)

pub put_time-bytes :
    (dst : Bytes) (t : DirTime) (rest : Bytes) → put_time dst t ++ rest ≡ dst ++ time_bytes t rest
unfolding put_time
put_time-bytes dst t rest = simp writes

put_fields-bytes :
    (dst : Bytes) (m : FileMetadata) (rest : Bytes)
    → put_fields dst m ++ rest ≡ dst ++ (1 ∷ field_bytes m rest)
unfolding put_fields
put_fields-bytes dst m rest = simp writes

pub encode-bytes :
    (dst : Bytes) (m : FileMetadata) (rest : Bytes)
    → encode_metadata_record dst m ++ rest ≡ dst ++ record_bytes m rest
unfolding encode_metadata_record
encode-bytes dst m rest = elim (Bool-cases m.enabled) [
  | inl on ↦ simp on (put_fields-bytes dst m rest)
  | inr off ↦ simp off (put_u8-append dst 0 rest)
]

field_bytes-append :
    (m : FileMetadata) (rest : Bytes) → field_bytes m [] ++ rest ≡ field_bytes m rest
field_bytes-append m rest = simp append_assoc

record_bytes-append :
    (m : FileMetadata) (rest : Bytes) → record_bytes m [] ++ rest ≡ record_bytes m rest
record_bytes-append m rest = elim (Bool-cases m.enabled) [
  | inl on ↦ simp on (ap (◌∷◌ 1) (field_bytes-append m rest))
  | inr off ↦ simp off
]

pub length-record_bytes :
    (m : FileMetadata) (rest : Bytes) → length rest ≤ length (record_bytes m rest)
length-record_bytes m rest = omega (
  arith,
  length-append (record_bytes m []) rest,
  ap (length {A = ℕ}) (record_bytes-append m rest),
)

module _ (m : FileMetadata) (w : IsMetadata m) where
  length-value : length (take (hash_len m.hash) m.hash.value) ≡ hash_len m.hash
  length-value = omega (arith, length-take (hash_len m.hash) m.hash.value, w.value)

  length-field_bytes : length (field_bytes m []) ≡ 58 + hash_len m.hash
  unfolding little_endian
  length-field_bytes =
      omega (arith, length-value, length-append (take (hash_len m.hash) m.hash.value) [])

  size-field_bytes :
      (rest : Bytes)
      → metadata_record_size (1 ∷ field_bytes m rest) ≡ up_to_hash_len + hash_len m.hash
  unfolding metadata_record_size little_endian
  size-field_bytes rest =
      ground (arith, length-value, length-append (take (hash_len m.hash) m.hash.value) rest)

  drop-field_bytes :
      (rest : Bytes) → drop (up_to_hash_len + hash_len m.hash) (1 ∷ field_bytes m rest) ≡ rest
  drop-field_bytes rest = rw (← field_bytes-append m rest) (
      drop-append_length (up_to_hash_len + hash_len m.hash) (1 ∷ field_bytes m []) rest
        (omega (arith, length-field_bytes)))

hash_kind_of_byte_lem :
    (k : MetadataHashKind) → IsHashKind k → hash_kind_of_byte (hash_kind_byte k % 256) ≡ k
unfolding hash_kind_of_byte hash_kind_byte
hash_kind_of_byte_lem MetadataHashKind.none w = refl
hash_kind_of_byte_lem MetadataHashKind.sha256 w = refl
hash_kind_of_byte_lem MetadataHashKind.xx_hash64 w = refl
hash_kind_of_byte_lem (unnamed n) w = ground arith

pub get_u8-cons : (b : ℕ) (p : Bytes) → get_u8 (b ∷ p) ≡ done b p
unfolding get_u8
get_u8-cons b p = refl

pub pure-done {ℓ} : {A : Type ℓ} {a b : A} {p : Bytes} → a ≡ b → pure a p ≡ done b p
unfolding pure
pure-done {p} e = ap (λ x. done x p) e

pub get_time-bytes :
    (t : DirTime) (rest : Bytes) → IsTime t → get_time (time_bytes t rest) ≡ done t rest
unfolding get_time pure
get_time-bytes t rest w =
    bind-done get_u64 _ (get_u64-little_endian (to_word half64 t.sec) _ (to_word64-lt t.sec))
    ∙ bind-done get_u32 _ (get_u32-little_endian (to_word half32 t.nsec) rest (to_word32-lt t.nsec))
    ∙ simp (of_word-to_word64 t.sec w.sec, of_word-to_word32 t.nsec w.nsec)

decode_hash-bytes :
    (h : MetadataHash) (rest : Bytes)
    → IsHashKind h.kind
    → length h.value ≡ hash_capacity
    → decode_hash (hash_bytes h rest) ≡ done (stored_hash h) rest
unfolding decode_hash
decode_hash-bytes h rest k w =
    let e : min (hash_len h % 256) hash_capacity ≡ hash_len h = omega arith in
    let l : length (take (hash_len h) h.value) ≡ min (hash_len h % 256) hash_capacity =
      omega (arith, length-take (hash_len h) h.value) in
    bind-done get_u8 _ (get_u8-cons _ _)
    ∙ bind-done get_u8 _ (get_u8-cons _ _)
    ∙ bind-done (get_bytes _) _ (get_bytes-append _ (take (hash_len h) h.value) rest l)
    ∙ pure-done (simp (hash_kind_of_byte_lem h.kind k, e))

decode_fields-bytes :
    (m : FileMetadata) (rest : Bytes)
    → IsMetadata m
    → decode_fields (field_bytes m rest)
      ≡ done (record m { enabled = true; hash = stored_hash m.hash }) rest
unfolding decode_fields
decode_fields-bytes m rest w =
    bind-done get_u32 _ (get_u32-little_endian m.mode _ w.mode)
    ∙ bind-done get_u32 _ (get_u32-little_endian m.uid _ w.uid)
    ∙ bind-done get_u32 _ (get_u32-little_endian m.gid _ w.gid)
    ∙ bind-done get_u64 _ (get_u64-little_endian m.size _ w.size)
    ∙ bind-done get_time _ (get_time-bytes m.mtime _ w.mtime)
    ∙ bind-done get_time _ (get_time-bytes m.ctime _ w.ctime)
    ∙ bind-done get_time _ (get_time-bytes m.atime _ w.atime)
    ∙ bind-done decode_hash _ (decode_hash-bytes m.hash rest w.kind w.value)
    ∙ pure-done refl

decode-field_bytes :
    (m : FileMetadata) (rest : Bytes)
    → IsMetadata m
    → decode_metadata_record (1 ∷ field_bytes m rest)
      ≡ done (record m { enabled = true; hash = stored_hash m.hash }) rest
unfolding decode_metadata_record ◌>>=◌ get_u8
decode-field_bytes m rest w =
    rw (size-field_bytes m w rest, decode_fields-bytes m rest w, drop-field_bytes m w rest)
      (ground arith)

pub decode-record_bytes :
    (m : FileMetadata) (rest : Bytes)
    → IsMetadata m
    → decode_metadata_record (record_bytes m rest) ≡ done (stored m) rest
unfolding stored
decode-record_bytes m rest w = elim (Bool-cases m.enabled) [
  | inl on ↦ rw on (decode-field_bytes m rest w)
  | inr off ↦ rw off (unfold decode_metadata_record ◌>>=◌ get_u8 metadata_record_size in refl)
]

-- A record that was written after any bytes is read back from behind them, and the reader goes on
-- right behind it.
pub decode-encode :
    (dst : Bytes) (m : FileMetadata) (rest : Bytes)
    → IsMetadata m
    → decode_metadata_record (drop (length dst) (encode_metadata_record dst m ++ rest))
      ≡ done (stored m) rest
decode-encode dst m rest w =
    rw (encode-bytes, drop-append_length (length dst) dst (record_bytes m rest) refl)
      (decode-record_bytes m rest w)
