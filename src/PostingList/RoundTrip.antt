-- ===== src/PostingList/RoundTrip.antt =====
-- A finished posting list is decoded to its docids.
use flocate.Prelude.{
  ℕ, suc, ◌+◌, ◌-◌, ◌*◌, ◌^◌, ◌≤◌, ◌<◌, ◌≡◌, refl, sym, ap, ◌∙◌, List, [], ◌∷◌, ◌++◌, append_assoc,
  append-nil, Bytes, some, length, length-append, is_empty, All, IsByte, arith, ◌==◌, true, false,
  subst, inl, inr, Bool-cases,
}
use flocate.Bytes.Reader.{done, pure, bind-done}
use flocate.Pfor.Values.{write_baseval, read_baseval, read_baseval-write}
use flocate.Pfor.Choice.{encode_pfor_single_block}
use flocate.Pfor.Blocks.{delta_decode}
use flocate.PostingList.{
  PostingListBuilder, new_list, add_first_docid, finish, add_docid, add_docids, build, last_of,
  decode_blocks, decode_pfor_delta1,
}
use flocate.PostingList.Decoding.{
  join, encode_whole, encode_last, decode-whole, length-delta_decode,
}
use flocate.PostingList.Building.{
  distinct, IsAscending, Holds, add_docids-Holds, length-join, last-add_docid,
}

is_empty-length : (xs : List ℕ) → is_empty xs ≡ true → length xs ≡ 0
is_empty-length [] h = refl
is_empty-length (x ∷ xs) h = absurd (cc)

-- No docid is too large.
last-lt :
    (unset : ℕ) (b : PostingListBuilder) (docids : List ℕ)
    → b.last_docid < 2 ^ 28
    → IsAscending b.last_docid docids
    → (add_docids unset b docids).last_docid < 2 ^ 28
unfolding add_docids
last-lt unset b [] h asc = h
last-lt unset b (docid ∷ docids) h ((low, near, fits), asc) =
    let e = last-add_docid unset b docid in
    last-lt unset (add_docid unset b docid) docids (omega (arith, e))
      (subst (λ d. IsAscending d docids) (sym e) asc)

-- The bytes of a builder after finish, and the number of docids.
module _ (unset first : ℕ) (header : Bytes) (docids : List ℕ) (b : PostingListBuilder)
    (h : Holds unset first header docids b) (fits : b.last_docid < 2 ^ 28) where
  size : length docids ≡ 128 * length h.blocks + length b.pending_deltas
  size =
      ap (length {A = ℕ}) (sym h.sums)
      ∙ length-delta_decode first (join h.blocks ++ b.pending_deltas)
      ∙ length-append (join h.blocks) b.pending_deltas
      ∙ ap (λ t. t + length b.pending_deltas) (length-join h.blocks h.whole)

  num_docids-finish : (finish unset b).num_docids ≡ suc (length docids)
  unfolding finish
  num_docids-finish = elim (Bool-cases (is_empty b.pending_deltas)) [
    | inl nothing ↦
        rw nothing (omega (arith, h.count, size, is_empty-length b.pending_deltas nothing))
    | inr more ↦ rw more (omega (arith, h.count, size, h.bound, fits))
  ]

  encoded-finish :
      (finish unset b).encoded
      ≡ header ++ (encode_whole unset h.blocks ++ encode_last unset b.pending_deltas)
  unfolding finish encode_last
  encoded-finish =
      let behind = λ (t : Bytes). append_assoc header (encode_whole unset h.blocks) t in
      elim (Bool-cases (is_empty b.pending_deltas)) [
        | inl nothing ↦
            rw nothing
              (h.bytes ∙ ap (λ t. header ++ t) (sym (append-nil (encode_whole unset h.blocks))))
        | inr more ↦ rw more (
            ap (λ t. t ++ encode_pfor_single_block false b.pending_deltas unset) h.bytes
            ∙ behind (encode_pfor_single_block false b.pending_deltas unset))
      ]

  -- Given that the first docid is read back.
  decode-finish :
      (rest : Bytes)
      → ((p : Bytes) → read_baseval (header ++ p) ≡ done first p)
      → All IsByte rest
      → 16 ≤ length rest
      → decode_pfor_delta1 (finish unset b).num_docids true ((finish unset b).encoded ++ rest)
        ≡ done (first ∷ docids) rest
  unfolding decode_pfor_delta1 pure
  decode-finish rest reads byte room =
      let blocks = encode_whole unset h.blocks ++ encode_last unset b.pending_deltas in
      let deltas = join h.blocks ++ b.pending_deltas in
      let n : suc (length docids) - 1 ≡ length deltas =
        omega (arith, ap (length {A = ℕ}) h.sums, length-delta_decode first deltas) in
      let used : (suc (length docids) == 0) ≡ false = ground arith in
      let vals : decode_blocks (suc (length docids)) true (length deltas) first (blocks ++ rest)
          ≡ done docids rest =
        decode-whole unset (suc (length docids)) first h.blocks b.pending_deltas rest h.whole
          h.short (omega (arith, n)) h.small byte room
        ∙ ap (λ ds. done ds rest) h.sums in
      rw (num_docids-finish, encoded-finish, used, n, append_assoc header blocks rest)
        (bind-done read_baseval _ (reads (blocks ++ rest))
          ∙ bind-done (decode_blocks (suc (length docids)) true (length deltas) first) _ vals)

-- The form of the first docid does not depend on what follows it.
baseval_form :
    (v : ℕ)
    → v < 2 ^ 28
    → (bytes : Bytes) × (write_baseval v ≡ some bytes)
      × ((p : Bytes) → read_baseval (bytes ++ p) ≡ done v p)
baseval_form v h =
    let (bytes, form, read) = read_baseval-write v [] h in
    (
      bytes,
      form,
      λ p.
          let (bytes', form', read') = read_baseval-write v p h in
          subst (λ bs. read_baseval (bs ++ p) ≡ done v p) (cc (form, form')) read',
    )

abbrev started : Bytes → ℕ → PostingListBuilder
started header first = record {
  encoded = header;
  pending_deltas = [];
  num_docids = 1;
  last_docid = first;
}

started-Holds :
    (unset : ℕ) (header : Bytes) (first : ℕ) → Holds unset first header [] (started header first)
unfolding encode_whole join delta_decode last_of
started-Holds unset header first = record {
  blocks = [];
  whole = tt;
  bytes = sym (append-nil header);
  short = omega arith;
  small = tt;
  sums = refl;
  last = refl;
  count = omega arith;
  bound = omega arith;
}

build_form :
    (unset first : ℕ) (docids : List ℕ) (header : Bytes)
    → write_baseval first ≡ some header
    → build unset first docids
      ≡ some (finish unset (add_docids unset (started header first) docids))
unfolding add_first_docid build finish
build_form unset first docids header e = rw (e, build) refl

-- Docids that do not fall and step by at most 2 ^ 25, all below 2 ^ 28: a list is built, and it
-- decodes to the docids, each once.
pub build-decodes :
    (unset first : ℕ) (docids : List ℕ) (rest : Bytes)
    → first < 2 ^ 28
    → IsAscending first docids
    → All IsByte rest
    → 16 ≤ length rest
    → (b : PostingListBuilder) × (build unset first docids ≡ some b)
      × (decode_pfor_delta1 b.num_docids true (b.encoded ++ rest)
          ≡ done (first ∷ distinct first docids) rest)
build-decodes unset first docids rest low asc byte room =
    let (header, form, reads) = baseval_form first low in
    let start = started header first in
    let held =
      add_docids-Holds unset first header [] start docids (started-Holds unset header first) asc in
    let b = add_docids unset start docids in
    (
      finish unset b,
      build_form unset first docids header form,
      decode-finish unset first header (distinct first docids) b held
          (last-lt unset start docids low asc) rest reads byte room,
    )

pub first_docid_total :
    (docid : ℕ)
    → docid < 2 ^ 28
    → (b : PostingListBuilder) × (add_first_docid new_list docid ≡ some b)
unfolding add_first_docid
first_docid_total docid h =
    let (header, form, reads) = baseval_form docid h in
    (started header docid, rw (form, add_first_docid) refl)

pub build_first :
    (unset first : ℕ) (docids : List ℕ) (b : PostingListBuilder)
    → add_first_docid new_list first ≡ some b
    → build unset first docids ≡ some (finish unset (add_docids unset b docids))
unfolding build
build_first unset first docids b e = rw (e, build) refl
