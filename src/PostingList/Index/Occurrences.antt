-- ===== src/PostingList/Index/Occurrences.antt =====
-- The docids that the list of one trigram is given.
use flocate.Prelude.{
  ℕ, ◌+◌, ◌^◌, ◌≤◌, ◌<◌, ◌≡◌, refl, ap, ◌∙◌, subst, Bool, true, false, ◌||◌, List, [], ◌∷◌, ◌++◌,
  length, All, ◌==◌, if◌then◌else◌, inl, inr, Bool-cases, arith,
}
use flocate.PostingList.Building.{distinct, IsAscending, distinct_fresh}

-- A docid for each time that the trigram stands among those of a block.
unfoldable pub in_block : ℕ → ℕ → List ℕ → List ℕ
in_block trgm docid [] = []
in_block trgm docid (t ∷ ts) =
    if trgm == t then docid ∷ in_block trgm docid ts else in_block trgm docid ts

unfoldable pub occurrences : ℕ → ℕ → List (List ℕ) → List ℕ
unfolding in_block
occurrences trgm docid [] = []
occurrences trgm docid (ts ∷ blocks) = in_block trgm docid ts ++ occurrences trgm (docid + 1) blocks

-- The numbers of the blocks that have the trigram.
unfoldable pub has_trigram : ℕ → List ℕ → Bool
has_trigram trgm [] = false
has_trigram trgm (t ∷ ts) = trgm == t || has_trigram trgm ts

unfoldable pub blocks_with : ℕ → ℕ → List (List ℕ) → List ℕ
unfolding has_trigram
blocks_with trgm docid [] = []
blocks_with trgm docid (ts ∷ blocks) =
    if has_trigram trgm ts
    then docid ∷ blocks_with trgm (docid + 1) blocks
    else blocks_with trgm (docid + 1) blocks

-- Repetitions are left out, without and with the docid before.
abbrev pub each_once : List ℕ → List ℕ
each_once [] = []
each_once (docid ∷ docids) = docid ∷ distinct docid docids

distinct_again :
    (trgm docid : ℕ) (ts more : List ℕ)
    → distinct docid (in_block trgm docid ts ++ more) ≡ distinct docid more
unfolding in_block distinct
distinct_again trgm docid [] more = refl
distinct_again trgm docid (t ∷ ts) more = elim (Bool-cases (trgm == t)) [
  | inl here ↦
      let same : (docid == docid) ≡ true = ground arith in
      rw (here, same) (distinct_again trgm docid ts more)
  | inr away ↦ rw away (distinct_again trgm docid ts more)
]

each_once-block :
    (trgm docid : ℕ) (ts more : List ℕ)
    → each_once (in_block trgm docid ts ++ more)
      ≡ (if has_trigram trgm ts then docid ∷ distinct docid more else each_once more)
unfolding in_block has_trigram
each_once-block trgm docid [] more = refl
each_once-block trgm docid (t ∷ ts) more = elim (Bool-cases (trgm == t)) [
  | inl here ↦ rw here (ap (◌∷◌ docid) (distinct_again trgm docid ts more))
  | inr away ↦ rw away (each_once-block trgm docid ts more)
]

-- The docids do not fall.
abbrev AllFrom : ℕ → List ℕ → Type 0
AllFrom low [] = Unit {0}
AllFrom low (docid ∷ docids) = (low ≤ docid) × AllFrom docid docids

AllFrom-weaken :
    (low low' : ℕ) (docids : List ℕ) → low ≤ low' → AllFrom low' docids → AllFrom low docids
AllFrom-weaken low low' [] le h = tt
AllFrom-weaken low low' (docid ∷ docids) le (h, hs) = (omega arith, hs)

in_block-AllFrom :
    (trgm docid : ℕ) (ts more : List ℕ)
    → AllFrom docid more
    → AllFrom docid (in_block trgm docid ts ++ more)
unfolding in_block
in_block-AllFrom trgm docid [] more h = h
in_block-AllFrom trgm docid (t ∷ ts) more h =
    let later = in_block-AllFrom trgm docid ts more h in
    elim (Bool-cases (trgm == t)) [
      | inl here ↦ rw here (omega arith, later)
      | inr away ↦ rw away later
    ]

occurrences-AllFrom :
    (trgm docid : ℕ) (blocks : List (List ℕ)) → AllFrom docid (occurrences trgm docid blocks)
unfolding occurrences
occurrences-AllFrom trgm docid [] = tt
occurrences-AllFrom trgm docid (ts ∷ blocks) =
    in_block-AllFrom trgm docid ts (occurrences trgm (docid + 1) blocks) (
      AllFrom-weaken docid (docid + 1) _ (omega arith)
        (occurrences-AllFrom trgm (docid + 1) blocks))

in_block-below :
    (trgm docid bound : ℕ) (ts more : List ℕ)
    → docid < bound
    → All (λ d. d < bound) more
    → All (λ d. d < bound) (in_block trgm docid ts ++ more)
unfolding in_block
in_block-below trgm docid bound [] more h hm = hm
in_block-below trgm docid bound (t ∷ ts) more h hm =
    let later = in_block-below trgm docid bound ts more h hm in
    elim (Bool-cases (trgm == t)) [ inl here ↦ rw here (h, later) | inr away ↦ rw away later ]

pub occurrences-below :
    (trgm docid bound : ℕ) (blocks : List (List ℕ))
    → docid + length blocks ≤ bound
    → All (λ d. d < bound) (occurrences trgm docid blocks)
unfolding occurrences
occurrences-below trgm docid bound [] h = tt
occurrences-below trgm docid bound (ts ∷ blocks) h =
    in_block-below trgm docid bound ts (occurrences trgm (docid + 1) blocks) (omega arith)
      (occurrences-below trgm (docid + 1) bound blocks (omega arith))

ascending :
    (last : ℕ) (docids : List ℕ)
    → AllFrom last docids
    → All (λ d. d < 2 ^ 25) docids
    → IsAscending last docids
ascending last [] h hb = tt
ascending last (docid ∷ docids) (h, hs) (hb, hbs) =
    ((h, omega arith, omega arith), ascending docid docids hs hbs)

-- The docids of a list that is given up to 2 ^ 25 blocks.
pub occurrences-IsAscending :
    (trgm first : ℕ) (docids : List ℕ) (blocks : List (List ℕ))
    → length blocks ≤ 2 ^ 25
    → occurrences trgm 0 blocks ≡ first ∷ docids
    → IsAscending first docids × (first < 2 ^ 28)
occurrences-IsAscending trgm first docids blocks h e =
    let from = subst (AllFrom 0) e (occurrences-AllFrom trgm 0 blocks) in
    let below =
      subst (All (λ (d : ℕ). d < 2 ^ 25)) e
        (occurrences-below trgm 0 (2 ^ 25) blocks (omega (arith, h))) in
    (ascending first docids from.1 below.1, omega (arith, below.0))

-- A docid below all others is no repetition.
distinct-each_once :
    (last : ℕ) (docids : List ℕ)
    → AllFrom (last + 1) docids
    → distinct last docids ≡ each_once docids
unfolding distinct
distinct-each_once last [] h = refl
distinct-each_once last (docid ∷ docids) (h, hs) =
    let fresh : (docid == last) ≡ false = ground arith in distinct_fresh last docid docids fresh

pub each_once-occurrences :
    (trgm docid : ℕ) (blocks : List (List ℕ))
    → each_once (occurrences trgm docid blocks) ≡ blocks_with trgm docid blocks
unfolding occurrences blocks_with
each_once-occurrences trgm docid [] = refl
each_once-occurrences trgm docid (ts ∷ blocks) =
    let more = occurrences trgm (docid + 1) blocks in
    let later = each_once-occurrences trgm (docid + 1) blocks in
    each_once-block trgm docid ts more ∙ elim (Bool-cases (has_trigram trgm ts)) [
      | inl here ↦ rw here (
          ap (◌∷◌ docid)
            (distinct-each_once docid more (occurrences-AllFrom trgm (docid + 1) blocks) ∙ later))
      | inr away ↦ rw away later
    ]
