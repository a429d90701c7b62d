-- ===== src/Corpus.antt =====
-- EncodingCorpus of src/database-builder.cpp: the filename block that `add_file` fills, and the
-- trigrams that `flush_block` takes out of it.
pub mod NameTrigrams
pub mod BlockTrigrams
pub mod Search
mod Examples
use flocate.Prelude.{
  ℕ, zero, suc, ◌+◌, ◌%◌, ◌^◌, Bool, List, [], ◌∷◌, ◌++◌, Bytes, Option, none, some, length, take,
  drop, get_or, is_empty, ◌==◌, ltb, leb, if◌then◌else◌,
}
use flocate.Bytes.Words.{or_bytes}

-- What `add_file` does to `current_block`.
unfoldable pub add_path : Bytes → Bytes → Bytes
add_path current_block path =
    if is_empty current_block then path else (current_block ++ (0 ∷ [])) ++ path

pub add_paths : Bytes → List Bytes → Bytes
add_paths current_block [] = current_block
add_paths current_block (path ∷ paths) = add_paths (add_path current_block path) paths

-- The four bytes at `ptr`, the block's terminating NUL among them if it comes to that.
word_at : Bytes → ℕ
word_at p = or_bytes (take 4 (p ++ (0 ∷ []))) 0 0

-- The inner `for (;;)`: the trigrams of the name at `ptr`, added to those so far, and the bytes from
-- the new `ptr` on. `none` is a read behind the terminating NUL.
pub index_name : Bytes → List ℕ → Option (List ℕ × Bytes)
unfolding word_at
index_name [] trigrams = none
index_name (c ∷ p) trigrams =
    let trgm = word_at (c ∷ p) in
    let trigrams' = trigrams ++ (trgm % 2 ^ 24 ∷ []) in
    let rest = index_name p trigrams' in
    if ltb (length (c ∷ p)) 3
    then none
    else if leb trgm 0xffffff
    then some (trigrams', drop 3 p)
    else rest

-- The loop `while (ptr < end - 3)`, which skips names of fewer than three bytes. `none` means that
-- the fuel ran out, or a read behind the terminating NUL.
pub index_names : ℕ → Bytes → List ℕ → Option (List ℕ)
index_names zero p trigrams = none
index_names (suc fuel) p trigrams =
    let skip_one = index_names fuel (drop 1 p) trigrams in
    let skip_two = index_names fuel (drop 2 p) trigrams in
    let skip_three = index_names fuel (drop 3 p) trigrams in
    let named : Option (List ℕ) = elim (index_name p trigrams) [
      | none ↦ none
      | some (trigrams', rest) ↦ index_names fuel rest trigrams'
    ] in
    if ltb 3 (length p)
    then if get_or p 0 0 == 0
      then skip_one
      else if get_or p 1 0 == 0
      then skip_two
      else if get_or p 2 0 == 0
      then skip_three
      else named
    else some trigrams

-- The trigrams of a block, in the order of the calls of `add_docid`.
pub block_trigrams : Bytes → Option (List ℕ)
block_trigrams current_block = index_names (suc (length current_block)) current_block []
