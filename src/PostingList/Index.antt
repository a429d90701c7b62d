-- ===== src/PostingList/Index.antt =====
-- The posting lists of all trigrams: `invindex` and EncodingCorpus::add_docid of
-- src/database-builder.cpp, called by flush_block for the trigrams of each block.
pub mod Occurrences
pub mod Complete
use flocate.Prelude.{ℕ, suc, ◌+◌, ◌%◌, ◌^◌, List, [], ◌∷◌, Option, none, some, ◌==◌, if◌then◌else◌}
use flocate.PostingList.{PostingListBuilder, new_list, add_first_docid, add_docid, finish}

-- `invindex`, where `none` is a null pointer.
abbrev pub Slots : Type 0
Slots = ℕ → Option PostingListBuilder

abbrev pub no_lists : Slots
no_lists trgm = none

-- What `add_docid` makes of a slot; `none` where the first docid has no form.
unfoldable pub add_to_slot : ℕ → Option PostingListBuilder → ℕ → Option PostingListBuilder
unfolding add_first_docid add_docid
add_to_slot unset none docid = add_first_docid new_list docid
add_to_slot unset (some b) docid = some (add_docid unset b docid)

-- `EncodingCorpus::add_docid`
unfoldable pub add_trigram : ℕ → Slots → ℕ → ℕ → Option Slots
unfolding add_to_slot
add_trigram unset slots trgm docid = elim (add_to_slot unset (slots trgm) docid) [
  | none ↦ none
  | some b ↦ some (λ t. if t == trgm then some b else slots t)
]

-- The calls of `add_docid` in flush_block, for the trigrams that it finds in the block.
unfoldable pub flush_trigrams : ℕ → Slots → List ℕ → ℕ → Option Slots
unfolding add_trigram
flush_trigrams unset slots [] docid = some slots
flush_trigrams unset slots (trgm ∷ trgms) docid = elim (add_trigram unset slots trgm docid) [
  | none ↦ none
  | some slots' ↦ flush_trigrams unset slots' trgms docid
]

-- One call of flush_block after another, with `num_blocks` so far.
unfoldable pub flush_blocks : ℕ → Slots → List (List ℕ) → ℕ → Option Slots
unfolding flush_trigrams
flush_blocks unset slots [] num_blocks = some slots
flush_blocks unset slots (trgms ∷ blocks) num_blocks =
    elim (flush_trigrams unset slots trgms (num_blocks % 2 ^ 32)) [
      | none ↦ none
      | some slots' ↦ flush_blocks unset slots' blocks (num_blocks + 1)
    ]
