-- ===== src/Showdiff/Conf.antt =====
-- The configuration block: `gen_conf_block` of src/conf.cpp writes it, and `parse_conf_block` of
-- src/showdiff.cpp reads it. The C library's `toupper` and `to_string` are parameters.
use flocate.Prelude.{
  ℕ, zero, suc, Bool, false, List, [], ◌∷◌, ◌++◌, Bytes, bytes_eq, codes, Option, none, some,
  length, is_empty, map, ◌==◌, if◌then◌else◌,
}
use flocate.Prelude.Int.{ℤ}
use flocate.Metadata.{MetadataHashKind}

-- The variables of src/conf.cpp that the block keeps.
pub record Conf : Type 0 where
  pub conf_prune_bind_mounts : Bool
  pub conf_prunefs : List Bytes
  pub conf_prunenames : List Bytes
  pub conf_prunepaths : List Bytes
  pub conf_metadata_hash_kind : MetadataHashKind
  pub conf_history_depth : ℤ

-- A literal with its terminating NUL, as `CONST` appends it.
abbrev pub const : Bytes → Bytes
const s = s ++ (0 ∷ [])

unfoldable pub gen_conf_block_string_list : Bytes → List Bytes → Bytes
gen_conf_block_string_list obstack [] = obstack ++ (0 ∷ [])
gen_conf_block_string_list obstack (str ∷ strings) =
    gen_conf_block_string_list ((obstack ++ str) ++ (0 ∷ [])) strings

pub record PruneConfig : Type 0 where
  pub prune_bind_mounts : Bool
  pub prunefs : List Bytes
  pub prunenames : List Bytes
  pub prunepaths : List Bytes

abbrev pub new_prune_config : PruneConfig
new_prune_config = record {
  prune_bind_mounts = false;
  prunefs = [];
  prunenames = [];
  prunepaths = [];
}

unfoldable pub metadata_hash_kind_to_string : MetadataHashKind → Bytes
metadata_hash_kind_to_string MetadataHashKind.none = codes "none"
metadata_hash_kind_to_string MetadataHashKind.xx_hash64 = codes "xxh64"
metadata_hash_kind_to_string MetadataHashKind.sha256 = codes "sha256"
metadata_hash_kind_to_string (MetadataHashKind.unnamed n) = codes "unknown"

abbrev pub prepend : ℕ → Option (Bytes × Bytes) → Option (Bytes × Bytes)
prepend c none = none
prepend c (some (out, q)) = some (c ∷ out, q)

-- The lambda `next`: the bytes up to a NUL, and those behind it; `none` if there is no NUL left.
unfoldable pub next : Bytes → Option (Bytes × Bytes)
next [] = none
next (c ∷ p) = if c == 0 then some ([], p) else prepend c (next p)

-- `while (next(&value) && !value.empty())`: the values, and the bytes from `p` on. A `next` that
-- fails leaves `p` where it is. The fuel never runs out.
abbrev pub add_value :
    Bytes → (Bytes → List Bytes × Bytes) → Option (Bytes × Bytes) → List Bytes × Bytes
add_value p more none = ([], p)
add_value p more (some (value, q)) =
    let (values, rest) = more q in if is_empty value then ([], q) else (value ∷ values, rest)

unfoldable pub next_values : ℕ → Bytes → List Bytes × Bytes
next_values zero p = ([], p)
next_values (suc fuel) p = add_value p (next_values fuel) (next p)

module _ (to_string : ℤ → Bytes) where
  -- "1\0" and "0\0" are appended with their own NUL, three bytes in all.
  unfoldable pub gen_conf_block : Conf → Bytes
  gen_conf_block conf =
      let flag =
        const (codes "prune_bind_mounts")
        ++ (if conf.conf_prune_bind_mounts then b'1' ∷ 0 ∷ 0 ∷ [] else b'0' ∷ 0 ∷ 0 ∷ []) in
      let fs = gen_conf_block_string_list (flag ++ const (codes "prunefs")) conf.conf_prunefs in
      let names =
        gen_conf_block_string_list (fs ++ const (codes "prunenames")) conf.conf_prunenames in
      let paths =
        gen_conf_block_string_list (names ++ const (codes "prunepaths")) conf.conf_prunepaths in
      let hash =
        (paths ++ const (codes "metadata_hash"))
        ++ metadata_hash_kind_to_string conf.conf_metadata_hash_kind in
      let depth =
        ((hash ++ (0 ∷ 0 ∷ [])) ++ const (codes "history_depth"))
        ++ to_string conf.conf_history_depth in
      depth ++ (0 ∷ 0 ∷ [])

-- `!values.empty() && values[0] == "1"`
abbrev pub first_is_one : List Bytes → Bool
first_is_one [] = false
first_is_one (value ∷ values) = bytes_eq value (codes "1")

module _ (toupper : ℕ → ℕ) where
  -- The assignments for one key.
  unfoldable pub set_key : PruneConfig → Bytes → List Bytes → PruneConfig
  set_key prune key values =
      if bytes_eq key (codes "prune_bind_mounts")
      then record prune { prune_bind_mounts = first_is_one values }
      else if bytes_eq key (codes "prunefs")
      then record prune { prunefs = map (map toupper) values }
      else if bytes_eq key (codes "prunenames")
      then record prune { prunenames = values }
      else if bytes_eq key (codes "prunepaths")
      then record prune { prunepaths = values }
      else prune

  abbrev pub parse_key :
      (Bytes → PruneConfig → Option PruneConfig)
      → Option (Bytes × Bytes)
      → PruneConfig
      → Option PruneConfig
  parse_key more none prune = some prune
  parse_key more (some (key, q)) prune =
      let (values, rest) = next_values (suc (length q)) q in more rest (set_key prune key values)

  -- `while (next(&key))`; `none` means that the fuel ran out.
  unfoldable pub parse_keys : ℕ → Bytes → PruneConfig → Option PruneConfig
  parse_keys zero p prune = none
  parse_keys (suc fuel) p prune = parse_key (parse_keys fuel) (next p) prune

  unfoldable pub parse_conf_block : Bytes → PruneConfig → Option PruneConfig
  parse_conf_block blob prune = parse_keys (suc (length blob)) blob prune
