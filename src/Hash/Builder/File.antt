-- ===== src/Hash/Builder/File.antt =====
-- compute_file_hash_at against a description of its result.
use flocate.Prelude.{
  ℕ, ◌≡◌, refl, sym, ap, ◌∙◌, Bool, true, false, ◌&&◌, List, Bytes, [], ◌∷◌, ◌++◌, Option, none,
  some, length, append-nil, append_assoc, if◌then◌else◌,
}
use flocate.Metadata.{MetadataHashKind, MetadataHash, empty_hash, sha256, xx_hash64, unnamed}
use flocate.Hash.Builder.{
  MetadataHashBuilder, builder, FileCalls, Opened, opened, not_permitted, failed, read_file,
  compute_file_hash_at, hash_open_file, open_file, close_file,
}
use flocate.Hash.Builder.Streaming.{
  HasTaken, content_hash, builder-HasTaken, update-HasTaken, finalize-HasTaken,
}

-- What the calls of read deliver: the bytes before the first empty result, or nothing if a call
-- fails before it.
abbrev pub delivered : List (Option Bytes) → Option Bytes
delivered [] = some []
delivered (none ∷ reads) = none
delivered (some [] ∷ reads) = some []
delivered (some (c ∷ input) ∷ reads) = elim (delivered reads) [
  | none ↦ none
  | some rest ↦ some ((c ∷ input) ++ rest)
]

-- Whether the first attempt to open the file gives a descriptor, or fails with EPERM and the second does.
abbrev pub is_opened : FileCalls → Bool
is_opened calls = elim calls.open_noatime [
  | opened ↦ true
  | failed ↦ false
  | not_permitted ↦ elim calls.open_plain [ opened ↦ true | _ ↦ false ]
]

-- The hash of what is delivered.
abbrev pub hash_delivered : MetadataHashKind → Option Bytes → Option MetadataHash
hash_delivered kind none = none
hash_delivered kind (some bytes) = some (content_hash kind bytes)

-- The empty hash for the kind None, and for another kind the hash of all bytes delivered, if there is
-- a descriptor, for a regular file, and close succeeds.
unfoldable pub file_hash : FileCalls → MetadataHashKind → Option MetadataHash
file_hash calls MetadataHashKind.none = some empty_hash
file_hash calls kind =
    if is_opened calls && (calls.is_regular && calls.closes)
    then hash_delivered kind (delivered calls.reads)
    else none

abbrev prepend : Bytes → Option Bytes → Option Bytes
prepend front none = none
prepend front (some rest) = some (front ++ rest)

delivered_step :
    (c : ℕ) (input : Bytes) (reads : List (Option Bytes))
    → delivered (some (c ∷ input) ∷ reads) ≡ prepend (c ∷ input) (delivered reads)
delivered_step c input reads = elim (delivered reads) [ none ↦ refl | some rest ↦ refl ]

-- The loop over read, with any bytes taken in before.
close_file-read_file :
    (kind : MetadataHashKind) (bytes : Bytes) (reads : List (Option Bytes))
    (b : MetadataHashBuilder)
    → HasTaken kind bytes b
    → close_file true (read_file b reads) ≡ hash_delivered kind (prepend bytes (delivered reads))
unfolding close_file read_file
close_file-read_file kind bytes [] b h =
    ap some (finalize-HasTaken kind bytes b h ∙ ap (content_hash kind) (sym (append-nil bytes)))
close_file-read_file kind bytes (none ∷ reads) b h = refl
close_file-read_file kind bytes (some [] ∷ reads) b h =
    ap some (finalize-HasTaken kind bytes b h ∙ ap (content_hash kind) (sym (append-nil bytes)))
close_file-read_file kind bytes (some (c ∷ input) ∷ reads) b h =
    close_file-read_file kind (bytes ++ (c ∷ input)) reads _
      (update-HasTaken kind bytes (c ∷ input) b h)
    ∙ ap (hash_delivered kind) (regroup (delivered reads))
    ∙ ap (λ t. hash_delivered kind (prepend bytes t)) (sym (delivered_step c input reads))
  where
    regroup :
        (rest : Option Bytes)
        → prepend (bytes ++ (c ∷ input)) rest ≡ prepend bytes (prepend (c ∷ input) rest)
    regroup none = refl
    regroup (some rest) = ap some (append_assoc bytes (c ∷ input) rest)

close_file-read_first :
    (kind : MetadataHashKind) (b : MetadataHashBuilder) (reads : List (Option Bytes))
    → HasTaken kind [] b
    → close_file true (read_file b reads) ≡ hash_delivered kind (delivered reads)
close_file-read_first kind b reads h =
    close_file-read_file kind [] reads b h
    ∙ ap (hash_delivered kind) (prepend-nil (delivered reads))
  where
    prepend-nil : (rest : Option Bytes) → prepend [] rest ≡ rest
    prepend-nil none = refl
    prepend-nil (some rest) = refl

close_file_error : (b : Option MetadataHashBuilder) → close_file false b ≡ none
unfolding close_file
close_file_error none = refl
close_file_error (some b) = refl

-- The calls taken apart.
open_file_result :
    (kind : MetadataHashKind) (b : MetadataHashBuilder) (first second : Opened)
    (is_regular closes : Bool) (reads : List (Option Bytes))
    → HasTaken kind [] b
    → let calls : FileCalls = record {
      open_noatime = first;
      open_plain = second;
      is_regular = is_regular;
      reads = reads;
      closes = closes;
    } in
      hash_open_file b calls (open_file calls) ≡ (
        if is_opened calls && (is_regular && closes)
        then hash_delivered kind (delivered reads)
        else none)
unfolding hash_open_file open_file
open_file_result kind b opened second true true reads h = close_file-read_first kind b reads h
open_file_result kind b opened second true false reads h = close_file_error (read_file b reads)
open_file_result kind b opened second false closes reads h = refl
open_file_result kind b not_permitted opened true true reads h =
    close_file-read_first kind b reads h
open_file_result kind b not_permitted opened true false reads h =
    close_file_error (read_file b reads)
open_file_result kind b not_permitted opened false closes reads h = refl
open_file_result kind b not_permitted not_permitted is_regular closes reads h = refl
open_file_result kind b not_permitted failed is_regular closes reads h = refl
open_file_result kind b failed second is_regular closes reads h = refl

-- Whatever the system calls return: for the kind None the result is the empty hash; for another kind it
-- is the hash of all bytes that read delivers, if the first open succeeds, or fails with EPERM and the
-- second succeeds, fstat says that the file is regular, no read fails up to the end of the file, and
-- close succeeds; and otherwise there is none.
pub compute_file_hash_at-file_hash :
    (memory : Bytes) (h : List ℕ) (buffer : Bytes) (calls : FileCalls) (kind : MetadataHashKind)
    → length buffer ≡ 64
    → compute_file_hash_at (builder memory h buffer) calls true kind ≡ file_hash calls kind
unfolding compute_file_hash_at file_hash
compute_file_hash_at-file_hash memory h buffer calls MetadataHashKind.none room = refl
compute_file_hash_at-file_hash memory h buffer calls xx_hash64 room =
    open_file_result xx_hash64 _ calls.open_noatime calls.open_plain calls.is_regular calls.closes
      calls.reads (builder-HasTaken memory h buffer xx_hash64 room)
compute_file_hash_at-file_hash memory h buffer calls sha256 room =
    open_file_result sha256 _ calls.open_noatime calls.open_plain calls.is_regular calls.closes
      calls.reads (builder-HasTaken memory h buffer sha256 room)
compute_file_hash_at-file_hash memory h buffer calls (unnamed n) room =
    open_file_result (unnamed n) _ calls.open_noatime calls.open_plain calls.is_regular calls.closes
      calls.reads (builder-HasTaken memory h buffer (unnamed n) room)
