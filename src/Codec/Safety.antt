-- ===== src/Codec/Safety.antt =====
-- The decoder of metadata records on any bytes at all: it reads inside the buffer, and it stops
-- exactly where `metadata_record_size` says.
use flocate.Prelude.{
  ℕ, zero, suc, ◌+◌, ◌≤◌, ◌<◌, ◌≡◌, refl, sym, ap, ◌∙◌, inl, inr, true, false, [], ◌∷◌, Bytes,
  length, take, drop, min, arith, length-drop, drop-drop, ◌==◌, leb, get_or, Bool-cases,
}
use flocate.Bytes.Words.{or_bytes}
use flocate.Prelude.Int.{of_word, half32, half64}
use flocate.Bytes.Reader.{
  done, refused, Reader, pure, ◌>>=◌, get_u8, get_u32, get_u64, get_word, get_bytes, bind-done,
}
use flocate.Metadata.{DirTime, FileMetadata, no_metadata, hash_capacity}
use flocate.Codec.{
  get_time, decode_hash, decode_fields, decode_metadata_record, metadata_record_size,
}

-- A reader that returns from any buffer of at least `n` bytes, and takes `n` of them.
abbrev pub Takes {ℓ} : {A : Type ℓ} → ℕ → Reader A → Type ℓ
Takes {A} n m = (p : Bytes) → n ≤ length p → (a : A) × (m p ≡ done a (drop n p))

abbrev Returns {ℓ} : {A : Type ℓ} → Reader A → Bytes → Type ℓ
Returns {A} m p = (a : A) × (q : Bytes) × (m p ≡ done a q)

get_or-drop : (n i : ℕ) (p : Bytes) → get_or (drop n p) i 0 ≡ get_or p (n + i) 0
get_or-drop zero i p = ap (λ (t : ℕ). get_or p t 0) (omega arith)
get_or-drop (suc n) i [] = refl
get_or-drop (suc n) i (b ∷ p) =
    let e : suc n + i ≡ suc (n + i) = omega arith in
    get_or-drop n i p ∙ ap (λ (t : ℕ). get_or (b ∷ p) t 0) (sym e)

-- The hash of a record stands behind `k` bytes and lies inside the buffer, its length byte too.
abbrev HasHash : ℕ → Bytes → Type 0
HasHash k p = k + 2 + min (get_or p (k + 1) 0) hash_capacity ≤ length p

HasHash-drop : (n k : ℕ) (p : Bytes) → HasHash (n + k) p → HasHash k (drop n p)
HasHash-drop n k p h =
    let e : n + (k + 1) ≡ n + k + 1 = omega arith in
    omega (arith, length-drop n p, get_or-drop n (k + 1) p, ap (λ (t : ℕ). get_or p t 0) e)

Returns-bind {ℓ κ} :
    {A : Type ℓ} {B : Type κ} (n k : ℕ) (m : Reader A) (f : A → Reader B) (p : Bytes)
    → Takes n m
    → HasHash (n + k) p
    → ((a : A) → HasHash k (drop n p) → Returns (f a) (drop n p))
    → Returns (m >>= f) p
Returns-bind n k m f p takes h after =
    let (a, e) = takes p (omega arith) in
    let (b, q, e') = after a (HasHash-drop n k p h) in (b, q, bind-done m f e ∙ e')

get_word-Takes : (n : ℕ) → Takes n (get_word n)
unfolding get_word
get_word-Takes n p h = (or_bytes (take n p) 0 0, ground arith)

pub get_u32-Takes : Takes 4 get_u32
unfolding get_u32
get_u32-Takes = get_word-Takes 4

get_u64-Takes : Takes 8 get_u64
unfolding get_u64
get_u64-Takes = get_word-Takes 8

pub get_time-Takes : Takes 12 get_time
unfolding get_time pure
get_time-Takes p h =
    let (sec, e) = get_u64-Takes p (omega arith) in
    let (nsec, e') = get_u32-Takes (drop 8 p) (omega (arith, length-drop 8 p)) in
    let t : DirTime = record { sec = of_word half64 sec; nsec = of_word half32 nsec } in
    (t, bind-done get_u64 _ e ∙ bind-done get_u32 _ e' ∙ ap (done t) (drop-drop 8 4 p))

pub get_bytes-Takes : (n : ℕ) → Takes n (get_bytes n)
unfolding get_bytes
get_bytes-Takes n p h = (take n p, ground arith)

decode_hash-Returns : (p : Bytes) → HasHash 0 p → Returns decode_hash p
unfolding decode_hash get_u8 pure
decode_hash-Returns [] h = absurd (omega arith)
decode_hash-Returns (k ∷ []) h = absurd (omega arith)
decode_hash-Returns (k ∷ l ∷ p) h =
    let (value, e) = get_bytes-Takes (min l hash_capacity) p (omega arith) in
    (_, _, bind-done get_u8 _ refl ∙ bind-done get_u8 _ refl ∙ bind-done (get_bytes _) _ e)

decode_fields-Returns : (p : Bytes) → HasHash 56 p → Returns decode_fields p
unfolding decode_fields pure
decode_fields-Returns p h = Returns-bind 4 52 get_u32 _ p get_u32-Takes h λ mode h.
    Returns-bind 4 48 get_u32 _ _ get_u32-Takes h λ uid h.
      Returns-bind 4 44 get_u32 _ _ get_u32-Takes h λ gid h.
        Returns-bind 8 36 get_u64 _ _ get_u64-Takes h λ size h.
          Returns-bind 12 24 get_time _ _ get_time-Takes h λ mtime h.
            Returns-bind 12 12 get_time _ _ get_time-Takes h λ ctime h.
              Returns-bind 12 0 get_time _ _ get_time-Takes h λ atime h.
                let (hash, q, e) = decode_hash-Returns _ h in (_, _, bind-done decode_hash _ e)

-- What the decoder gives on any buffer. A buffer that does not hold the whole record is refused,
-- and otherwise a record is read and the rest is what follows its `metadata_record_size` bytes. It
-- never reads past the end of the buffer.
pub data Decodes (p : Bytes) : Type 0 where
  short : metadata_record_size p ≡ 0 → decode_metadata_record p ≡ refused → Decodes p
  whole :
      (m : FileMetadata)
      → 0 < metadata_record_size p
      → metadata_record_size p ≤ length p
      → decode_metadata_record p ≡ done m (drop (metadata_record_size p) p)
      → Decodes p

size_disabled : (b : ℕ) (p : Bytes) → (b == 0) ≡ true → metadata_record_size (b ∷ p) ≡ 1
unfolding metadata_record_size
size_disabled b p off = ground arith

size_enabled :
    (b : ℕ) (p : Bytes)
    → (b == 0) ≡ false
    → leb (metadata_record_size (b ∷ p)) 0 ≡ false
    → HasHash 56 p × (metadata_record_size (b ∷ p) ≤ suc (length p))
unfolding metadata_record_size
size_enabled b p on fits = ground arith

decode_whole :
    (b : ℕ) (p : Bytes)
    → (b == 0) ≡ false
    → leb (metadata_record_size (b ∷ p)) 0 ≡ false
    → (m : FileMetadata) × (decode_metadata_record (b ∷ p)
        ≡ done m (drop (metadata_record_size (b ∷ p)) (b ∷ p)))
unfolding decode_metadata_record ◌>>=◌ get_u8
decode_whole b p on fits =
    let (m, q, e) = decode_fields-Returns p (size_enabled b p on fits).0 in
    (m, rw (on, e) (ground arith))

pub decode_metadata_record-Decodes : (p : Bytes) → Decodes p
decode_metadata_record-Decodes [] =
    short (unfold metadata_record_size in refl)
      (unfold decode_metadata_record metadata_record_size in refl)
decode_metadata_record-Decodes (b ∷ p) = elim (Bool-cases (b == 0)) [
  | inl off ↦
      let e = size_disabled b p off in
      whole no_metadata (omega arith) (omega arith)
        (unfold decode_metadata_record ◌>>=◌ get_u8 in ground arith)
  | inr on ↦ elim (Bool-cases (leb (metadata_record_size (b ∷ p)) 0)) [
    | inl small ↦ short (ground arith) (unfold decode_metadata_record in ground arith)
    | inr fits ↦
        let (m, e) = decode_whole b p on fits in
        whole m (ground arith) (size_enabled b p on fits).1 e
  ]
]
