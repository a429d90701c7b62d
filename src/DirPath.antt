-- ===== src/DirPath.antt =====
-- src/lib.cpp: the order of paths in the database, and the search of a sorted list of paths that
-- is asked for increasing paths.
pub mod Order
pub mod Subtree
pub mod Lookup
mod Examples
use flocate.Prelude.{
  ℕ, zero, suc, ◌+◌, ◌-◌, Bool, true, false, List, [], ◌∷◌, Bytes, drop, ◌==◌, ltb, if◌then◌else◌,
}
use flocate.Prelude.Int.{ℤ, pos, negsuc, ltb_ℤ, eq_ℤ}

-- `std::mismatch`: both strings from the first place on where they differ, or one ends.
unfoldable pub mismatch : Bytes → Bytes → Bytes × Bytes
mismatch [] b = ([], b)
mismatch (x ∷ a) [] = (x ∷ a, [])
mismatch (x ∷ a) (y ∷ b) = if x == y then mismatch a b else (x ∷ a, y ∷ b)

-- int(x) - int(y)
abbrev sub_bytes : ℕ → ℕ → ℤ
sub_bytes x y = if ltb x y then negsuc (y - x - 1) else pos (x - y)

-- The tests behind the call of `mismatch`.
compare_ends : Bytes → Bytes → ℤ
compare_ends [] [] = pos 0
compare_ends [] (y ∷ b) = negsuc 0
compare_ends (x ∷ a) [] = pos 1
compare_ends (x ∷ a) (y ∷ b) =
    if x == y
    then pos 0
    else if x == b'/'
    then negsuc 0
    else if y == b'/'
    then pos 1
    else sub_bytes x y

unfoldable pub dir_path_cmp : Bytes → Bytes → ℤ
unfolding mismatch compare_ends
dir_path_cmp a b = let (ai, bi) = mismatch a b in compare_ends ai bi

-- `dir_path_cmp(a, b) < 0`
abbrev pub dir_path_lt : Bytes → Bytes → Bool
dir_path_lt a b = ltb_ℤ (dir_path_cmp a b) (pos 0)

-- The loop over the entries from `*idx` on. A pair of the new `*idx` and the answer.
contains_from : List Bytes → ℕ → Bytes → ℕ × Bool
contains_from [] idx path = (idx, false)
contains_from (entry ∷ list) idx path =
    let later = contains_from list (idx + 1) path in
    if dir_path_lt entry path
    then later
    else if eq_ℤ (dir_path_cmp entry path) (pos 0)
    then (idx + 1, true)
    else (idx, false)

unfoldable pub string_list_contains_dir_path : List Bytes → ℕ → Bytes → ℕ × Bool
unfolding contains_from
string_list_contains_dir_path list idx path = contains_from (drop idx list) idx path
