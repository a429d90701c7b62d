-- ===== src/Locate/Candidates.antt =====
-- The intersection of posting lists in src/flocate.cpp: new_posting_list_read and the reads that
-- complete in any order.
pub mod Sorted
pub mod Step
pub mod Kept
use flocate.Prelude.{
  ℕ, zero, suc, ◌-◌, ◌^◌, Bool, true, false, ◌&&◌, List, [], ◌∷◌, is_empty, ltb, if◌then◌else◌,
  get_or,
}
use flocate.Trigram.{TrigramDisjunction}

-- std::set_union
unfoldable pub set_union : List ℕ → List ℕ → List ℕ
set_union [] ys = ys
set_union (x ∷ xs) [] = x ∷ xs
set_union (x ∷ xs) (y ∷ ys) =
    let first = x ∷ set_union xs (y ∷ ys) in
    let second = y ∷ set_union (x ∷ xs) ys in
    let both = x ∷ set_union xs ys in if ltb x y then first else if ltb y x then second else both

-- std::set_intersection
unfoldable pub set_intersection : List ℕ → List ℕ → List ℕ
set_intersection [] ys = []
set_intersection (x ∷ xs) [] = []
set_intersection (x ∷ xs) (y ∷ ys) =
    let first = set_intersection xs (y ∷ ys) in
    let second = set_intersection (x ∷ xs) ys in
    let both = x ∷ set_intersection xs ys in
    if ltb x y then first else if ltb y x then second else both

-- A disjunction with other docids and another number of lists to read.
abbrev pub with_docids : TrigramDisjunction → List ℕ → ℕ → TrigramDisjunction
with_docids td docids remaining = record td {
  docids = docids;
  remaining_trigrams_to_read = remaining;
}

-- `td->docids` after the first lines.
unfoldable pub join_docids : TrigramDisjunction → List ℕ → List ℕ
unfolding set_union
join_docids td decoded = if is_empty td.docids then decoded else set_union decoded td.docids

-- `--` on 32 bits.
abbrev pub decrement : ℕ → ℕ
decrement zero = 2 ^ 32 - 1
decrement (suc n) = n

-- The disjunction, the candidates and whether the search is done.
unfoldable pub new_posting_list_read :
    Bool → TrigramDisjunction → List ℕ → List ℕ → TrigramDisjunction × List ℕ × Bool
unfolding join_docids set_intersection
new_posting_list_read ignore_case td decoded cur_candidates =
    let docids = join_docids td decoded in
    let remaining = decrement td.remaining_trigrams_to_read in
    let common = set_intersection cur_candidates docids in
    if ltb 0 remaining
    then (with_docids td docids remaining, cur_candidates, false)
    else if is_empty cur_candidates
    then (with_docids td [] remaining, docids, false)
    else (with_docids td docids remaining, common, ignore_case && is_empty common)

-- `td = ...` for the disjunction of an index.
abbrev pub set_group : List TrigramDisjunction → ℕ → TrigramDisjunction → List TrigramDisjunction
set_group [] g td = []
set_group (x ∷ groups) zero td = td ∷ groups
set_group (x ∷ groups) (suc g) td = x ∷ set_group groups g td

-- No disjunction.
abbrev pub no_group : TrigramDisjunction
no_group = record {
  index = 0;
  trigram_alternatives = [];
  read_trigrams = [];
  max_num_docids = 0;
  docids = [];
  remaining_trigrams_to_read = 0;
}

-- The lists in the order in which they come, each for the disjunction of an index, until the search
-- is done: the candidates, and whether it is.
unfoldable pub read_lists :
    Bool → List (ℕ × List ℕ) → List TrigramDisjunction → List ℕ → List ℕ × Bool
unfolding new_posting_list_read
read_lists ignore_case [] groups cur_candidates = (cur_candidates, false)
read_lists ignore_case ((g, decoded) ∷ reads) groups cur_candidates =
    let (td, cur, done) =
      new_posting_list_read ignore_case (get_or groups g no_group) decoded cur_candidates in
    let rest = read_lists ignore_case reads (set_group groups g td) cur in
    if done then (cur, true) else rest
