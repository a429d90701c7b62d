-- ===== src/PostingList/Building.antt =====
-- What a builder holds after any calls of add_docid.
use flocate.Prelude.{
  ℕ, suc, ◌+◌, ◌-◌, ◌*◌, ◌%◌, ◌^◌, ◌≤◌, ◌<◌, ◌≡◌, refl, sym, ap, ◌∙◌, subst, List, [], ◌∷◌, ◌++◌,
  append_assoc, append-nil, Bytes, length, length-append, All, All-append, arith, ◌==◌, ==_iff,
  if◌then◌else◌, inl, inr, Bool-cases, false, true,
}
use flocate.Pfor.Blocks.{delta_decode}
use flocate.Pfor.Choice.{encode_pfor_single_block}
use flocate.PostingList.{PostingListBuilder, append_block, add_docid, add_docids, last_of}
use flocate.PostingList.Decoding.{
  IsSmall, AreWhole, join, encode_whole, delta_decode-append, length-delta_decode,
}

-- The docids that are not equal to the one before them.
unfoldable pub distinct : ℕ → List ℕ → List ℕ
distinct last [] = []
distinct last (docid ∷ docids) =
    if docid == last then distinct last docids else docid ∷ distinct docid docids

-- Docids that do not fall, and step by at most 2 ^ 25.
abbrev pub IsAscending : ℕ → List ℕ → Type 0
IsAscending last [] = Unit {0}
IsAscending last (docid ∷ docids) =
    ((last ≤ docid) × (docid ≤ last + 2 ^ 25) × (docid < 2 ^ 28)) × IsAscending docid docids

last_of-append : (prev : ℕ) (xs : List ℕ) (x : ℕ) → last_of prev (xs ++ (x ∷ [])) ≡ x
unfolding last_of
last_of-append prev [] x = refl
last_of-append prev (y ∷ xs) x = last_of-append y xs x

pub length-join : (cs : List (List ℕ)) → AreWhole cs → length (join cs) ≡ 128 * length cs
unfolding join
length-join [] h = omega arith
length-join (c ∷ cs) ((whole, small), h) =
    omega (arith, length-append c (join cs), length-join cs h)

join-append : (cs : List (List ℕ)) (c : List ℕ) → join (cs ++ (c ∷ [])) ≡ join cs ++ c
unfolding join
join-append [] c = append-nil c
join-append (d ∷ cs) c = ap (λ t. d ++ t) (join-append cs c) ∙ sym (append_assoc d (join cs) c)

encode_whole-append :
    (unset : ℕ) (cs : List (List ℕ)) (c : List ℕ)
    → encode_whole unset (cs ++ (c ∷ []))
      ≡ encode_whole unset cs ++ encode_pfor_single_block true c unset
unfolding encode_whole
encode_whole-append unset [] c = append-nil (encode_pfor_single_block true c unset)
encode_whole-append unset (d ∷ cs) c =
    ap (λ t. encode_pfor_single_block true d unset ++ t) (encode_whole-append unset cs c)
    ∙ sym (append_assoc (encode_pfor_single_block true d unset) _ _)

AreWhole-append :
    (cs : List (List ℕ)) (c : List ℕ)
    → AreWhole cs
    → length c ≡ 128
    → All IsSmall c
    → AreWhole (cs ++ (c ∷ []))
AreWhole-append [] c h whole small = ((whole, small), tt)
AreWhole-append (d ∷ cs) c (hd, h) whole small = (hd, AreWhole-append cs c h whole small)

-- A builder that was given a first docid `first`, whose form is `header`, and then `docids`.
pub record Holds (unset first : ℕ) (header : Bytes) (docids : List ℕ) (b : PostingListBuilder)
    : Type 0 where
  pub blocks : List (List ℕ)
  pub whole : AreWhole blocks
  pub bytes : b.encoded ≡ header ++ encode_whole unset blocks
  pub short : length b.pending_deltas < 128
  pub small : All IsSmall b.pending_deltas
  pub sums : delta_decode first (join blocks ++ b.pending_deltas) ≡ docids
  pub last : b.last_docid ≡ last_of first docids
  pub count : b.num_docids ≡ suc (128 * length blocks)
  pub bound : first + length docids ≤ b.last_docid

module _ (unset first : ℕ) (header : Bytes) (docids : List ℕ) (b : PostingListBuilder)
    (h : Holds unset first header docids b) (docid : ℕ) (above : b.last_docid < docid)
    (near : docid ≤ b.last_docid + 2 ^ 25) (fits : docid < 2 ^ 28) where
  abbrev delta : ℕ
  delta = docid - b.last_docid - 1

  abbrev pending : List ℕ
  pending = b.pending_deltas ++ (delta ∷ [])

  abbrev added : PostingListBuilder
  added = record b { pending_deltas = pending; last_docid = docid }

  sums_added : delta_decode first (join h.blocks ++ pending) ≡ docids ++ (docid ∷ [])
  unfolding delta_decode
  sums_added =
      let before = join h.blocks ++ b.pending_deltas in
      let next : (delta + last_of first docids + 1) % 2 ^ 32 ≡ docid =
        omega (arith, h.last, above, fits) in
      ap (delta_decode first) (sym (append_assoc (join h.blocks) b.pending_deltas (delta ∷ [])))
      ∙ delta_decode-append first before (delta ∷ [])
      ∙ ap (λ ds. ds ++ ((delta + last_of first ds + 1) % 2 ^ 32 ∷ [])) h.sums
      ∙ ap (λ (d : ℕ). docids ++ (d ∷ [])) next

  pending-IsSmall : All IsSmall pending
  pending-IsSmall =
      All-append IsSmall b.pending_deltas (delta ∷ []) h.small (omega (arith, near), tt)

  bound_added : first + length (docids ++ (docid ∷ [])) ≤ docid
  bound_added = omega (arith, length-append docids (docid ∷ []), h.bound, above)

  length_docids : length docids ≡ 128 * length h.blocks + length b.pending_deltas
  length_docids =
      ap (length {A = ℕ}) (sym h.sums)
      ∙ length-delta_decode first (join h.blocks ++ b.pending_deltas)
      ∙ length-append (join h.blocks) b.pending_deltas
      ∙ ap (λ t. t + length b.pending_deltas) (length-join h.blocks h.whole)

  added-Holds : length pending < 128 → Holds unset first header (docids ++ (docid ∷ [])) added
  added-Holds less = record {
    blocks = h.blocks;
    whole = h.whole;
    bytes = h.bytes;
    short = less;
    small = pending-IsSmall;
    sums = sums_added;
    last = sym (last_of-append first docids docid);
    count = h.count;
    bound = bound_added;
  }

  flushed-Holds :
      length pending ≡ 128
      → Holds unset first header (docids ++ (docid ∷ [])) (append_block unset added)
  unfolding append_block
  flushed-Holds full = record {
    blocks = h.blocks ++ (pending ∷ []);
    whole = AreWhole-append h.blocks pending h.whole full pending-IsSmall;
    bytes =
        ap (λ t. t ++ encode_pfor_single_block true pending unset) h.bytes
        ∙ append_assoc header (encode_whole unset h.blocks) _
        ∙ ap (λ t. header ++ t) (sym (encode_whole-append unset h.blocks pending));
    short = omega arith;
    small = tt;
    sums =
        ap (delta_decode first)
          (append-nil (join (h.blocks ++ (pending ∷ []))) ∙ join-append h.blocks pending)
        ∙ sums_added;
    last = sym (last_of-append first docids docid);
    count = omega (
      arith,
      h.count,
      length-append h.blocks (pending ∷ []),
      length_docids,
      h.bound,
      above,
      fits,
    );
    bound = bound_added;
  }

  add-Holds : Holds unset first header (docids ++ (docid ∷ [])) (add_docid unset b docid)
  unfolding add_docid
  add-Holds =
      let fresh : (docid == b.last_docid) ≡ false = differ docid b.last_docid above in
      let wraps : (docid + 2 ^ 33 - b.last_docid - 1) % 2 ^ 32 ≡ delta =
        omega (arith, above, fits) in
      let size = length-append b.pending_deltas (delta ∷ []) in
      rw (fresh, wraps)
        (elim (Bool-cases (length pending == 128)) [
          | inl full ↦ rw full (flushed-Holds ((==_iff (length pending) 128).0 full))
          | inr more ↦
              rw more (added-Holds (below (length pending) (omega (arith, size, h.short)) more))
        ])
    where
      differ : (x y : ℕ) → y < x → (x == y) ≡ false
      differ x y lt = ground arith

      below : (x : ℕ) → x ≤ 128 → (x == 128) ≡ false → x < 128
      below x le ne = ground arith

add_docid_last :
    (unset : ℕ) (b : PostingListBuilder) (docid : ℕ)
    → (docid == b.last_docid) ≡ false
    → (add_docid unset b docid).last_docid ≡ docid
unfolding add_docid append_block
add_docid_last unset b docid e =
    let delta = (docid + 2 ^ 33 - b.last_docid - 1) % 2 ^ 32 in
    rw e (elim (Bool-cases (length (b.pending_deltas ++ (delta ∷ [])) == 128)) [
      | inl full ↦ rw full refl
      | inr more ↦ rw more refl
    ])

pub last-add_docid :
    (unset : ℕ) (b : PostingListBuilder) (docid : ℕ) → (add_docid unset b docid).last_docid ≡ docid
unfolding add_docid append_block
last-add_docid unset b docid = elim (Bool-cases (docid == b.last_docid)) [
  | inl same ↦ rw same (sym ((==_iff docid b.last_docid).0 same))
  | inr fresh ↦ add_docid_last unset b docid fresh
]

pub distinct_fresh :
    (last docid : ℕ) (docids : List ℕ)
    → (docid == last) ≡ false
    → distinct last (docid ∷ docids) ≡ docid ∷ distinct docid docids
unfolding distinct
distinct_fresh last docid docids e = rw e refl

-- Calls of add_docid with docids that do not fall.
pub add_docids-Holds :
    (unset first : ℕ) (header : Bytes) (docids : List ℕ) (b : PostingListBuilder) (more : List ℕ)
    → Holds unset first header docids b
    → IsAscending b.last_docid more
    → Holds unset first header (docids ++ distinct b.last_docid more) (add_docids unset b more)
unfolding add_docids distinct
add_docids-Holds unset first header docids b [] h asc =
    subst (λ ds. Holds unset first header ds b) (sym (append-nil docids)) h
add_docids-Holds unset first header docids b (docid ∷ more) h ((low, near, fits), asc) =
    elim (Bool-cases (docid == b.last_docid)) [
      | inl same ↦
          let e : docid ≡ b.last_docid = (==_iff docid b.last_docid).0 same in
          rw same (
            add_docids-Holds unset first header docids b more h
              (subst (λ d. IsAscending d more) e asc))
      | inr fresh ↦
          let b' = add_docid unset b docid in
          let e = add_docid_last unset b docid fresh in
          let above : b.last_docid < docid = grows b.last_docid docid low fresh in
          let later =
            add_docids-Holds unset first header (docids ++ (docid ∷ [])) b' more
              (add-Holds unset first header docids b h docid above near fits)
              (subst (λ d. IsAscending d more) (sym e) asc) in
          subst (λ ds. Holds unset first header ds (add_docids unset b' more))
            (ap (λ (d : ℕ). (docids ++ (docid ∷ [])) ++ distinct d more) e
              ∙ append_assoc docids (docid ∷ []) (distinct docid more)
              ∙ ap (λ ds. docids ++ ds) (sym (distinct_fresh b.last_docid docid more fresh)))
            later
    ]
  where
    grows : (x y : ℕ) → x ≤ y → (y == x) ≡ false → x < y
    grows x y le ne = ground arith
