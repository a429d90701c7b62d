-- ===== src/PostingList/Index/Complete.antt =====
-- The list of each trigram decodes to the numbers of the blocks that have it.
use flocate.Prelude.{
  ℕ, ◌+◌, ◌%◌, ◌^◌, ◌≤◌, ◌<◌, ◌≡◌, refl, sym, ap, subst, true, List, [], ◌∷◌, ◌++◌, append_assoc,
  append-nil, Bytes, Option, none, some, length, All, IsByte, ◌==◌, ==_iff, if◌then◌else◌, inl, inr,
  Bool-cases, arith,
}
use flocate.Bytes.Reader.{done}
use flocate.PostingList.{
  PostingListBuilder, new_list, add_first_docid, add_docid, add_docids, finish, decode_pfor_delta1,
}
use flocate.PostingList.RoundTrip.{build-decodes, first_docid_total, build_first}
use flocate.PostingList.Building.{distinct}
use flocate.PostingList.Index.{
  Slots, no_lists, add_to_slot, add_trigram, flush_trigrams, flush_blocks,
}
use flocate.PostingList.Index.Occurrences.{
  in_block, occurrences, blocks_with, each_once, each_once-occurrences, occurrences-IsAscending,
}

-- A slot that was given these docids.
abbrev Filled : ℕ → Option PostingListBuilder → List ℕ → Type 0
Filled unset slot [] = slot ≡ none
Filled unset slot (docid ∷ docids) =
    (b : PostingListBuilder) × (add_first_docid new_list docid ≡ some b)
    × (slot ≡ some (add_docids unset b docids))

add_docids-append :
    (unset : ℕ) (b : PostingListBuilder) (docids : List ℕ) (docid : ℕ)
    → add_docids unset b (docids ++ (docid ∷ []))
      ≡ add_docid unset (add_docids unset b docids) docid
unfolding add_docids
add_docids-append unset b [] docid = refl
add_docids-append unset b (d ∷ docids) docid =
    add_docids-append unset (add_docid unset b d) docids docid

slot-Filled :
    (unset : ℕ) (slot : Option PostingListBuilder) (docids : List ℕ) (docid : ℕ)
    → docid < 2 ^ 28
    → Filled unset slot docids
    → (b : PostingListBuilder) × (add_to_slot unset slot docid ≡ some b)
      × Filled unset (some b) (docids ++ (docid ∷ []))
unfolding add_to_slot add_docids
slot-Filled unset slot [] docid h e =
    let (b, first) = first_docid_total docid h in (b, rw e first, (b, first, refl))
slot-Filled unset slot (d ∷ docids) docid h (b, first, e) = (
  add_docid unset (add_docids unset b docids) docid,
  rw e refl,
  (b, first, ap (λ x. some x) (sym (add_docids-append unset b docids docid))),
)

-- The slots of all trigrams, where `given` says what each was given.
abbrev AllFilled : ℕ → Slots → (ℕ → List ℕ) → Type 0
AllFilled unset slots given = (t : ℕ) → Filled unset (slots t) (given t)

add_trigram-Filled :
    (unset : ℕ) (slots : Slots) (given : ℕ → List ℕ) (trgm docid : ℕ)
    → docid < 2 ^ 28
    → AllFilled unset slots given
    → (slots' : Slots) × (add_trigram unset slots trgm docid ≡ some slots')
      × AllFilled unset slots' (λ t. if t == trgm then given t ++ (docid ∷ []) else given t)
unfolding add_trigram
add_trigram-Filled unset slots given trgm docid h filled =
    let (b, added, now) = slot-Filled unset (slots trgm) (given trgm) docid h (filled trgm) in
    (
      λ t. if t == trgm then some b else slots t,
      rw (added, add_trigram) refl,
      λ t. elim (Bool-cases (t == trgm)) [
        | inl same ↦
            let e : t ≡ trgm = (==_iff t trgm).0 same in
            rw same (subst (λ u. Filled unset (some b) (given u ++ (docid ∷ []))) (sym e) now)
        | inr other ↦ rw other (filled t)
      ],
    )

flush_trigrams-Filled :
    (unset : ℕ) (slots : Slots) (given : ℕ → List ℕ) (ts : List ℕ) (docid : ℕ)
    → docid < 2 ^ 28
    → AllFilled unset slots given
    → (slots' : Slots) × (flush_trigrams unset slots ts docid ≡ some slots')
      × AllFilled unset slots' (λ t. given t ++ in_block t docid ts)
unfolding flush_trigrams in_block
flush_trigrams-Filled unset slots given [] docid h filled =
    (slots, refl, λ t. subst (Filled unset (slots t)) (sym (append-nil (given t))) (filled t))
flush_trigrams-Filled unset slots given (trgm ∷ ts) docid h filled =
    let (next, added, now) = add_trigram-Filled unset slots given trgm docid h filled in
    let (slots', flushed, all) =
      flush_trigrams-Filled unset next (λ t. if t == trgm then given t ++ (docid ∷ []) else given t)
        ts docid h now in
    (
      slots',
      flush_step unset slots next slots' trgm ts docid added flushed,
      λ t. subst (Filled unset (slots' t)) (joined t) (all t),
    )
  where
    flush_step :
        (u : ℕ) (s s' s'' : Slots) (t : ℕ) (us : List ℕ) (d : ℕ)
        → add_trigram u s t d ≡ some s'
        → flush_trigrams u s' us d ≡ some s''
        → flush_trigrams u s (t ∷ us) d ≡ some s''
    flush_step u s s' s'' t us d e f = rw (e, flush_trigrams) f

    joined :
        (t : ℕ)
        → (if t == trgm then given t ++ (docid ∷ []) else given t) ++ in_block t docid ts
          ≡ given t ++ (if t == trgm then docid ∷ in_block t docid ts else in_block t docid ts)
    joined t = elim (Bool-cases (t == trgm)) [
      | inl same ↦ rw same (append_assoc (given t) (docid ∷ []) (in_block t docid ts))
      | inr other ↦ rw other refl
    ]

blocks_step :
    (unset : ℕ) (s s' s'' : Slots) (ts : List ℕ) (blocks : List (List ℕ)) (n : ℕ)
    → n % 2 ^ 32 ≡ n
    → flush_trigrams unset s ts n ≡ some s'
    → flush_blocks unset s' blocks (n + 1) ≡ some s''
    → flush_blocks unset s (ts ∷ blocks) n ≡ some s''
unfolding flush_blocks
blocks_step unset s s' s'' ts blocks n same e f = rw (same, e, flush_blocks) f

flush_blocks-Filled :
    (unset : ℕ) (slots : Slots) (given : ℕ → List ℕ) (blocks : List (List ℕ)) (num_blocks : ℕ)
    → num_blocks + length blocks ≤ 2 ^ 28
    → AllFilled unset slots given
    → (slots' : Slots) × (flush_blocks unset slots blocks num_blocks ≡ some slots')
      × AllFilled unset slots' (λ t. given t ++ occurrences t num_blocks blocks)
unfolding flush_blocks occurrences
flush_blocks-Filled unset slots given [] num_blocks h filled =
    (slots, refl, λ t. subst (Filled unset (slots t)) (sym (append-nil (given t))) (filled t))
flush_blocks-Filled unset slots given (ts ∷ blocks) num_blocks h filled =
    let same : num_blocks % 2 ^ 32 ≡ num_blocks = omega arith in
    let (next, added, now) =
      flush_trigrams-Filled unset slots given ts num_blocks (omega arith) filled in
    let (slots', flushed, all) =
      flush_blocks-Filled unset next (λ t. given t ++ in_block t num_blocks ts) blocks
        (num_blocks + 1) (omega arith) now in
    (
      slots',
      blocks_step unset slots next slots' ts blocks num_blocks same added flushed,
      λ t.
          subst (Filled unset (slots' t))
            (append_assoc (given t) (in_block t num_blocks ts)
              (occurrences t (num_blocks + 1) blocks))
            (all t),
    )

-- What a slot answers after finish: no list, or one that decodes to these docids.
abbrev pub Answers : ℕ → Bytes → List ℕ → Option PostingListBuilder → Type 0
Answers unset rest [] slot = slot ≡ none
Answers unset rest (docid ∷ docids) slot =
    (b : PostingListBuilder) × (slot ≡ some b)
    × (decode_pfor_delta1 (finish unset b).num_docids true ((finish unset b).encoded ++ rest)
        ≡ done (docid ∷ docids) rest)

slot-Answers :
    (unset trgm : ℕ) (blocks : List (List ℕ)) (rest : Bytes) (slot : Option PostingListBuilder)
    (docids : List ℕ)
    → length blocks ≤ 2 ^ 25
    → All IsByte rest
    → 16 ≤ length rest
    → occurrences trgm 0 blocks ≡ docids
    → Filled unset slot docids
    → Answers unset rest (each_once docids) slot
slot-Answers unset trgm blocks rest slot [] few byte room e filled = filled
slot-Answers unset trgm blocks rest slot (docid ∷ docids) few byte room e (b, first, now) =
    let (ascending, low) = occurrences-IsAscending trgm docid docids blocks few e in
    let (b', built, decodes) = build-decodes unset docid docids rest low ascending byte room in
    let form = build_first unset docid docids b first in
    let same : b' ≡ finish unset (add_docids unset b docids) = cc (form, built) in
    (
      add_docids unset b docids,
      now,
      subst
          (λ (c : PostingListBuilder).
            decode_pfor_delta1 c.num_docids true (c.encoded ++ rest)
            ≡ done (docid ∷ distinct docid docids) rest)
          same decodes,
    )

-- For at most 2 ^ 25 blocks no call fails, and afterwards each trigram has no list if it is in no
-- block, and else one that decodes to the numbers of the blocks that have it, in order.
pub flush_blocks-Answers :
    (unset : ℕ) (blocks : List (List ℕ)) (rest : Bytes)
    → length blocks ≤ 2 ^ 25
    → All IsByte rest
    → 16 ≤ length rest
    → (slots : Slots) × (flush_blocks unset no_lists blocks 0 ≡ some slots)
      × ((trgm : ℕ) → Answers unset rest (blocks_with trgm 0 blocks) (slots trgm))
flush_blocks-Answers unset blocks rest few byte room =
    let (slots, flushed, all) =
      flush_blocks-Filled unset no_lists (λ t. []) blocks 0 (omega (arith, few)) (λ t. refl) in
    (
      slots,
      flushed,
      λ trgm.
          subst (λ ds. Answers unset rest ds (slots trgm)) (each_once-occurrences trgm 0 blocks)
            (slot-Answers unset trgm blocks rest (slots trgm) (occurrences trgm 0 blocks) few byte
              room refl (all trgm)),
    )
