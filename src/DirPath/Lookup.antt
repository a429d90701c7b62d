-- ===== src/DirPath/Lookup.antt =====
-- `string_list_contains_dir_path`, called for increasing paths, is membership in the sorted list.
use flocate.Prelude.{
  ℕ, ◌+◌, ◌≡◌, inl, inr, refl, sym, ap, ◌∙◌, Bool, true, false, ◌||◌, List, [], ◌∷◌, Bytes, map,
  All, drop, drop-drop, arith, if◌then◌else◌, Bool-cases, bytes_eq, bytes_eq_iff,
}
use flocate.Prelude.Int.{pos, eq_ℤ, eq_ℤ_iff}
use flocate.DirPath.{dir_path_cmp, dir_path_lt, contains_from, string_list_contains_dir_path}
use flocate.DirPath.Order.{
  dir_path_cmp-zero_iff, dir_path_lt_trans, dir_path_lt_irrefl, dir_path_lt_total,
}

unfoldable pub member : Bytes → List Bytes → Bool
member p [] = false
member p (entry ∷ list) = bytes_eq p entry || member p list

-- As `string_list_dir_path_sort` leaves a list: no entry comes before an earlier one.
abbrev pub IsSorted : List Bytes → Type 0
IsSorted [] = Unit
IsSorted (entry ∷ list) = All (λ later. dir_path_lt later entry ≡ false) list × IsSorted list

-- Each path comes strictly after the one before it, as in the order of a scan.
abbrev pub IsIncreasing : List Bytes → Type 0
IsIncreasing [] = Unit
IsIncreasing (p ∷ paths) = All (λ later. dir_path_lt p later ≡ true) paths × IsIncreasing paths

-- The answers to successive calls, with `*idx` carried from each to the next.
pub ask_all : List Bytes → ℕ → List Bytes → List Bool
ask_all list idx [] = []
ask_all list idx (p ∷ paths) =
    let (idx', found) = string_list_contains_dir_path list idx p in found ∷ ask_all list idx' paths

-- What `*idx` stands before, after a call for `p`.
rest_from : List Bytes → Bytes → List Bytes
rest_from [] p = []
rest_from (entry ∷ list) p =
    let later = rest_from list p in
    if dir_path_lt entry p
    then later
    else if eq_ℤ (dir_path_cmp entry p) (pos 0)
    then list
    else entry ∷ list

drop-next :
    (list entries : List Bytes) (entry : Bytes) (idx : ℕ)
    → drop idx list ≡ entry ∷ entries
    → drop (idx + 1) list ≡ entries
drop-next list entries entry idx e = sym (drop-drop idx 1 list) ∙ ap (drop 1) e

drop-contains_from :
    (list s : List Bytes) (idx : ℕ) (p : Bytes)
    → drop idx list ≡ s
    → drop (contains_from s idx p).0 list ≡ rest_from s p
unfolding contains_from rest_from
drop-contains_from list [] idx p e = e
drop-contains_from list (entry ∷ s) idx p e = ground (
  arith,
  drop-next list s entry idx e,
  drop-contains_from list s (idx + 1) p (drop-next list s entry idx e),
)

-- Entries that do not come before `entry` are not a path before it.
not-member :
    (p entry : Bytes) (list : List Bytes)
    → dir_path_lt p entry ≡ true
    → All (λ later. dir_path_lt later entry ≡ false) list
    → member p list ≡ false
unfolding member
not-member p entry [] h w = refl
not-member p entry (later ∷ list) h (v, w) = elim (Bool-cases (bytes_eq p later)) [
  | inl same ↦
      let e : p ≡ later = (bytes_eq_iff p later).0 same in
      cc (h, v, ap (λ t. dir_path_lt t entry) e)
  | inr differ ↦ rw differ (not-member p entry list h w)
]

bytes_eq-lt : (p q : Bytes) → dir_path_lt q p ≡ true → bytes_eq p q ≡ false
bytes_eq-lt p q h = elim (Bool-cases (bytes_eq p q)) [
  | inl same ↦ cc (ap (λ t. dir_path_lt q t) ((bytes_eq_iff p q).0 same), h, dir_path_lt_irrefl q)
  | inr differ ↦ differ
]

eq_ℤ-refl-cmp : (p entry : Bytes) → eq_ℤ (dir_path_cmp entry p) (pos 0) ≡ true → entry ≡ p
eq_ℤ-refl-cmp p entry h =
    (dir_path_cmp-zero_iff entry p).0 ((eq_ℤ_iff (dir_path_cmp entry p) (pos 0)).0 h)

contains_from-member :
    (s : List Bytes) (idx : ℕ) (p : Bytes) → IsSorted s → (contains_from s idx p).1 ≡ member p s
unfolding contains_from member
contains_from-member [] idx p w = refl
contains_from-member (entry ∷ s) idx p (v, w) = elim (Bool-cases (dir_path_lt entry p)) [
  | inl before ↦ rw (before, bytes_eq-lt p entry before) (contains_from-member s (idx + 1) p w)
  | inr not_before ↦ elim (Bool-cases (eq_ℤ (dir_path_cmp entry p) (pos 0))) [
    | inl same ↦ rw (not_before, same, (bytes_eq_iff p entry).1 (sym (eq_ℤ-refl-cmp p entry same)))
    | inr differ ↦
        let after =
          dir_path_lt_total entry p not_before
            (λ e. cc ((eq_ℤ_iff (dir_path_cmp entry p) (pos 0)).1 e, differ)) in
        rw (not_before, differ, not-member p entry (entry ∷ s) after (dir_path_lt_irrefl entry, v))
  ]
]

-- A later path is in what is left exactly if it was in the list.
member-rest_from :
    (s : List Bytes) (p q : Bytes) → dir_path_lt p q ≡ true → member q (rest_from s p) ≡ member q s
unfolding rest_from member
member-rest_from [] p q h = refl
member-rest_from (entry ∷ s) p q h = elim (Bool-cases (dir_path_lt entry p)) [
  | inl before ↦
      rw (before, bytes_eq-lt q entry (dir_path_lt_trans entry p q before h))
        (member-rest_from s p q h)
  | inr not_before ↦ elim (Bool-cases (eq_ℤ (dir_path_cmp entry p) (pos 0))) [
    | inl same ↦
        let e : dir_path_lt entry q ≡ true =
          ap (λ t. dir_path_lt t q) (eq_ℤ-refl-cmp p entry same) ∙ h in
        rw (not_before, same, bytes_eq-lt q entry e)
    | inr differ ↦ rw (not_before, differ)
  ]
]

IsSorted-rest_from : (s : List Bytes) (p : Bytes) → IsSorted s → IsSorted (rest_from s p)
unfolding rest_from
IsSorted-rest_from [] p w = tt
IsSorted-rest_from (entry ∷ s) p (v, w) = elim (Bool-cases (dir_path_lt entry p)) [
  | inl before ↦ rw before (IsSorted-rest_from s p w)
  | inr not_before ↦ elim (Bool-cases (eq_ℤ (dir_path_cmp entry p) (pos 0))) [
    | inl same ↦ rw (not_before, same) w
    | inr differ ↦ rw (not_before, differ) (v, w)
  ]
]

map-member-rest_from :
    (s paths : List Bytes) (p : Bytes)
    → All (λ later. dir_path_lt p later ≡ true) paths
    → map (λ q. member q (rest_from s p)) paths ≡ map (λ q. member q s) paths
map-member-rest_from s [] p w = refl
map-member-rest_from s (q ∷ paths) p (v, w) =
    cc (member-rest_from s p q v, map-member-rest_from s paths p w)

ask_all-from :
    (list s : List Bytes) (idx : ℕ) (paths : List Bytes)
    → drop idx list ≡ s
    → IsSorted s
    → IsIncreasing paths
    → ask_all list idx paths ≡ map (λ p. member p s) paths
unfolding ask_all
ask_all-from list s idx [] e w i = refl
ask_all-from list s idx (p ∷ paths) e w (j, i) = cc (
  first,
  ask_all-from list (rest_from s p) (string_list_contains_dir_path list idx p).0 paths left
      (IsSorted-rest_from s p w) i,
  map-member-rest_from s paths p j,
)
  where
    call : string_list_contains_dir_path list idx p ≡ contains_from s idx p
    call = unfold string_list_contains_dir_path in ap (λ t. contains_from t idx p) e

    left : drop (string_list_contains_dir_path list idx p).0 list ≡ rest_from s p
    left = ap (λ t. drop t.0 list) call ∙ drop-contains_from list s idx p e

    first : (string_list_contains_dir_path list idx p).1 ≡ member p s
    first = ap (λ t. t.1) call ∙ contains_from-member s idx p w

-- Over a sorted list, successive calls for strictly increasing paths answer whether each path is
-- in the list, though each call goes on where the one before it stopped.
pub ask_all-member :
    (list paths : List Bytes)
    → IsSorted list
    → IsIncreasing paths
    → ask_all list 0 paths ≡ map (λ p. member p list) paths
ask_all-member list paths w i = ask_all-from list list 0 paths refl w i
