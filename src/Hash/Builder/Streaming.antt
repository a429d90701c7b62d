-- ===== src/Hash/Builder/Streaming.antt =====
-- MetadataHashBuilder: the hash of a file is that of its bytes.
use flocate.Prelude.{
  ℕ, ◌≡◌, refl, sym, ap, subst, false, List, Bytes, [], ◌∷◌, ◌++◌, some, length, append-nil,
  append_assoc,
}
use flocate.Metadata.{MetadataHashKind, MetadataHash, empty_hash, sha256, xx_hash64, unnamed}
use flocate.Hash.Words.{write_at}
use flocate.Hash.XxHash64.Streaming as XxStreaming
use flocate.Hash.XxHash64.Streaming.{xxh64}
use flocate.Hash.Sha256.{big_endian}
use flocate.Hash.Sha256.Streaming as ShaStreaming
use flocate.Hash.Sha256.Padding
use flocate.Hash.Builder.{
  MetadataHashBuilder, builder, update, update_kind, finalize, finalize_kind, finalize_xxh64,
  finalize_sha256,
}

-- The hash of a content, of a kind.
unfoldable pub content_hash : MetadataHashKind → Bytes → MetadataHash
content_hash xx_hash64 bytes = record {
  kind = xx_hash64;
  value = write_at empty_hash.value 0 (big_endian 8 (xxh64 0 bytes));
  length = 8;
}
content_hash sha256 bytes = record {
  kind = sha256;
  value = write_at empty_hash.value 0 (Padding.sha256 bytes);
  length = 32;
}
content_hash _ bytes = empty_hash

-- What the state of the builder's kind says of the bytes taken in.
abbrev pub Holds : MetadataHashKind → Bytes → MetadataHashBuilder → Type 0
Holds xx_hash64 bytes b = XxStreaming.Holds 0 bytes b.xxh_state
Holds sha256 bytes b = ShaStreaming.Holds bytes b.sha_state
Holds _ bytes b = Unit

-- The builder has this kind, is not finished, and has taken in exactly these bytes.
pub record HasTaken (kind : MetadataHashKind) (bytes : Bytes) (b : MetadataHashBuilder)
    : Type 0 where
  pub same : b.kind ≡ kind
  pub unfinished : b.finished ≡ false
  pub state : Holds kind bytes b

pub builder-HasTaken :
    (memory : Bytes) (h : List ℕ) (buffer : Bytes) (kind : MetadataHashKind)
    → length buffer ≡ 64
    → HasTaken kind [] (builder memory h buffer kind)
unfolding builder
builder-HasTaken memory h buffer MetadataHashKind.none room = record {
  same = refl;
  unfinished = refl;
  state = tt;
}
builder-HasTaken memory h buffer xx_hash64 room = record {
  same = refl;
  unfinished = refl;
  state = XxStreaming.reset-Holds 0;
}
builder-HasTaken memory h buffer sha256 room = record {
  same = refl;
  unfinished = refl;
  state = ShaStreaming.reset-Holds buffer room;
}
builder-HasTaken memory h buffer (unnamed n) room = record {
  same = refl;
  unfinished = refl;
  state = tt;
}

update_kind-HasTaken :
    (kind : MetadataHashKind) (bytes input : Bytes) (b : MetadataHashBuilder)
    → HasTaken kind bytes b
    → HasTaken kind (bytes ++ input) (update_kind kind b input)
unfolding update_kind
update_kind-HasTaken MetadataHashKind.none bytes input b h = record {
  same = h.same;
  unfinished = h.unfinished;
  state = tt;
}
update_kind-HasTaken xx_hash64 bytes input b h = record {
  same = h.same;
  unfinished = h.unfinished;
  state = XxStreaming.consume-Holds 0 bytes input b.xxh_state h.state;
}
update_kind-HasTaken sha256 bytes input b h = record {
  same = h.same;
  unfinished = h.unfinished;
  state = ShaStreaming.consume-Holds bytes input b.sha_state h.state;
}
update_kind-HasTaken (unnamed n) bytes input b h = record {
  same = h.same;
  unfinished = h.unfinished;
  state = tt;
}

pub update-HasTaken :
    (kind : MetadataHashKind) (bytes input : Bytes) (b : MetadataHashBuilder)
    → HasTaken kind bytes b
    → HasTaken kind (bytes ++ input) (update b (some input))
unfolding update
update-HasTaken kind bytes [] b h =
    simp h.unfinished (subst (λ t. HasTaken kind t b) (sym (append-nil bytes)) h)
update-HasTaken kind bytes (c ∷ input) b h =
    simp (h.unfinished, h.same) (update_kind-HasTaken kind bytes (c ∷ input) b h)

pub finalize-HasTaken :
    (kind : MetadataHashKind) (bytes : Bytes) (b : MetadataHashBuilder)
    → HasTaken kind bytes b
    → (finalize b).1 ≡ content_hash kind bytes
unfolding finalize finalize_kind finalize_xxh64 finalize_sha256 content_hash
finalize-HasTaken MetadataHashKind.none bytes b h = rw h.same refl
finalize-HasTaken xx_hash64 bytes b h = rw h.same (
    ap
      (λ (t : ℕ). record {
        kind = xx_hash64;
        value = write_at empty_hash.value 0 (big_endian 8 t);
        length = 8;
      })
      (XxStreaming.digest-Holds 0 bytes b.xxh_state h.state))
finalize-HasTaken sha256 bytes b h = rw h.same (
    ap (λ t. record { kind = sha256; value = write_at empty_hash.value 0 t; length = 32 })
      (Padding.finalize-Holds bytes b.sha_state h.state))
finalize-HasTaken (unnamed n) bytes b h = rw h.same refl

abbrev pub concat : List Bytes → Bytes
concat [] = []
concat (chunk ∷ chunks) = chunk ++ concat chunks

-- The calls of `update` for these pieces.
abbrev pub updates : MetadataHashBuilder → List Bytes → MetadataHashBuilder
updates b [] = b
updates b (chunk ∷ chunks) = updates (update b (some chunk)) chunks

updates-HasTaken :
    (kind : MetadataHashKind) (bytes : Bytes) (chunks : List Bytes) (b : MetadataHashBuilder)
    → HasTaken kind bytes b
    → HasTaken kind (bytes ++ concat chunks) (updates b chunks)
updates-HasTaken kind bytes [] b h = subst (λ t. HasTaken kind t b) (sym (append-nil bytes)) h
updates-HasTaken kind bytes (chunk ∷ chunks) b h =
    subst (λ t. HasTaken kind t (updates (update b (some chunk)) chunks))
      (append_assoc bytes chunk (concat chunks))
      (updates-HasTaken kind (bytes ++ chunk) chunks (update b (some chunk))
        (update-HasTaken kind bytes chunk b h))

-- A new builder of any kind, whatever its uninitialised members hold, gives the hash of all bytes
-- at once, however they are cut into pieces: the XXH64 with seed 0 in its canonical form, the
-- SHA-256 with its padding, or the empty hash for the other kinds.
pub finalize-updates :
    (memory : Bytes) (h : List ℕ) (buffer : Bytes) (kind : MetadataHashKind) (chunks : List Bytes)
    → length buffer ≡ 64
    → (finalize (updates (builder memory h buffer kind) chunks)).1
      ≡ content_hash kind (concat chunks)
finalize-updates memory h buffer kind chunks room =
    finalize-HasTaken kind (concat chunks) _
      (updates-HasTaken kind [] chunks _ (builder-HasTaken memory h buffer kind room))
