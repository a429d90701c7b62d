-- ===== src/UpdatedbConf/Values.antt =====
-- The variables of src/conf.cpp that the configuration file sets, and the readers of their values.
use flocate.Prelude.{
  ℕ, zero, suc, ◌-◌, ◌^◌, Bool, true, false, not, ◌||◌, List, [], ◌∷◌, ◌++◌, Bytes, codes, Option,
  none, some, is_empty, length, map, bytes_eq, ltb, ◌==◌, if◌then◌else◌,
}
use flocate.Metadata.{MetadataHashKind, xx_hash64, sha256}
use flocate.Size.{parse_size}
use flocate.UpdatedbConf.Lexer.{
  CLibrary, Variable, prune_bind_mounts, prunefs, prunenames, prunepaths, metadata_hash,
  history_depth, compare_atime, hash_max_size,
}

-- What is read of a string by a function that takes a `const char *`.
unfoldable pub c_str : Bytes → Bytes
c_str [] = []
c_str (c ∷ p) = if c == 0 then [] else c ∷ c_str p

unfoldable pub parse_bool : Bytes → Option Bool
unfolding bytes_eq
parse_bool str =
    if bytes_eq str (codes "0") || bytes_eq str (codes "no")
    then some false
    else if bytes_eq str (codes "1") || bytes_eq str (codes "yes")
    then some true
    else none

-- The variables of the program that the file sets.
pub record Conf : Type 0 where
  pub prune_bind_mounts : Bool
  pub prunefs : List Bytes
  pub prunenames : List Bytes
  pub prunepaths : List Bytes
  pub metadata_hash_kind : MetadataHashKind
  pub history_depth : ℕ
  pub compare_atime : Bool
  pub hash_max_size : ℕ

module _ (lib : CLibrary) where
  open lib use {isspace, isalpha, isalnum, tolower, toupper, strtol, strtoull}

  -- A word of `val` from here on, and what comes behind it.
  unfoldable pub take_word : Bytes → Bytes × Bytes
  take_word [] = ([], [])
  take_word (c ∷ val) =
      let (word, rest) = take_word val in if isspace c then ([], c ∷ val) else (c ∷ word, rest)

  -- `var_add_values`, with a round for each byte and one more.
  unfoldable pub add_values : ℕ → List Bytes → Bytes → List Bytes
  unfolding take_word
  add_values zero list val = list
  add_values (suc rounds) list [] = list
  add_values (suc rounds) list (c ∷ val) =
      let (word, rest) = take_word val in
      let skip = add_values rounds list val in
      let add = add_values rounds (list ++ ((c ∷ word) ∷ [])) rest in
      if isspace c then skip else add

  unfoldable pub var_add_values : List Bytes → Bytes → List Bytes
  unfolding add_values
  var_add_values list val = add_values (suc (length val)) list val

  unfoldable pub parse_int : Bytes → Option ℕ
  parse_int str =
      let (value, end, error) = strtol str in
      let in_range : Option ℕ = elim value [
        | none ↦ none
        | some n ↦ if ltb (2 ^ 31 - 1) n then none else some n
      ] in
      if is_empty str then none else if error || not (is_empty end) then none else in_range

  unfoldable pub parse_metadata_hash_kind : Bytes → Option MetadataHashKind
  unfolding bytes_eq
  parse_metadata_hash_kind value =
      let lower = map tolower value in
      if bytes_eq lower (codes "none")
      then some MetadataHashKind.none
      else if bytes_eq lower (codes "xxh64")
          || bytes_eq lower (codes "xxhash64")
          || bytes_eq lower (codes "fast")
      then some xx_hash64
      else if bytes_eq lower (codes "sha256")
      then some sha256
      else none

  abbrev set_to : {A : Type 0} → (A → Conf) → Option A → Option Conf
  set_to update none = none
  set_to update (some a) = some (update a)

  -- The assignment to a variable; `none` is an invalid value.
  unfoldable pub assign : Conf → Variable → Bytes → Option Conf
  unfolding c_str parse_bool var_add_values parse_int parse_metadata_hash_kind parse_size
  assign conf prune_bind_mounts value =
      set_to (λ b. record conf { prune_bind_mounts = b }) (parse_bool (c_str value))
  assign conf prunefs value =
      some (record conf { prunefs = var_add_values conf.prunefs (c_str value) })
  assign conf prunenames value =
      some (record conf { prunenames = var_add_values conf.prunenames (c_str value) })
  assign conf prunepaths value =
      some (record conf { prunepaths = var_add_values conf.prunepaths (c_str value) })
  assign conf metadata_hash value =
      set_to (λ k. record conf { metadata_hash_kind = k }) (parse_metadata_hash_kind value)
  assign conf history_depth value =
      set_to (λ n. record conf { history_depth = n }) (parse_int (c_str value))
  assign conf compare_atime value =
      set_to (λ b. record conf { compare_atime = b }) (parse_bool (c_str value))
  assign conf hash_max_size value =
      set_to (λ n. record conf { hash_max_size = n }) (parse_size strtoull toupper (c_str value))
