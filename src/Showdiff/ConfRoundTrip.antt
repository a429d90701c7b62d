-- ===== src/Showdiff/ConfRoundTrip.antt =====
-- What `parse_conf_block` makes of a block that `gen_conf_block` has written.
use flocate.Prelude.{
  ℕ, zero, suc, ◌≤◌, ◌<◌, ◌≡◌, refl, ap, ◌∙◌, Bool, true, false, List, [], ◌∷◌, ◌++◌, append_assoc,
  Bytes, bytes_eq, codes, some, length, length-append, map, All, arith, ◌==◌, Bool-cases, inl, inr,
}
use flocate.Prelude.Int.{ℤ}
use flocate.Metadata.{MetadataHashKind}
use flocate.Showdiff.Conf.{
  Conf, gen_conf_block_string_list, metadata_hash_kind_to_string, gen_conf_block, PruneConfig, next,
  add_value, next_values, set_key, parse_key, parse_keys, parse_conf_block,
}

-- A value of a list: not empty, and without NUL.
abbrev pub IsText : Bytes → Type 0
IsText value = All (λ c. 0 < c) value

abbrev pub IsValue : Bytes → Type 0
IsValue value = (0 < length value) × IsText value

next-text : (value rest : Bytes) → IsText value → next (value ++ (0 ∷ rest)) ≡ some (value, rest)
unfolding next
next-text [] rest h = refl
next-text (c ∷ value) rest (h, hs) =
    let e : (c == 0) ≡ false = ground arith in rw (e, next-text value rest hs) refl

-- A list of values with the empty value that ends it.
unfoldable value_bytes : List Bytes → Bytes
value_bytes [] = 0 ∷ []
value_bytes (value ∷ values) = value ++ (0 ∷ value_bytes values)

gen-value_bytes :
    (obstack : Bytes) (strings : List Bytes)
    → gen_conf_block_string_list obstack strings ≡ obstack ++ value_bytes strings
unfolding gen_conf_block_string_list value_bytes
gen-value_bytes obstack [] = refl
gen-value_bytes obstack (str ∷ strings) =
    gen-value_bytes ((obstack ++ str) ++ (0 ∷ [])) strings ∙ simp append_assoc

next_values-bytes :
    (fuel : ℕ) (values : List Bytes) (rest : Bytes)
    → All IsValue values
    → length values < fuel
    → next_values fuel (value_bytes values ++ rest) ≡ (values, rest)
unfolding next_values value_bytes
next_values-bytes zero values rest h enough = absurd (omega arith)
next_values-bytes (suc fuel) [] rest h enough = unfold next in refl
next_values-bytes (suc fuel) ([] ∷ values) rest ((h, t), hs) enough = absurd (omega arith)
next_values-bytes (suc fuel) ((c ∷ value) ∷ values) rest ((h, t), hs) enough =
    let p = (c ∷ value) ++ (0 ∷ (value_bytes values ++ rest)) in
    ap (λ q. next_values (suc fuel) q) (append_assoc (c ∷ value) (0 ∷ value_bytes values) rest)
    ∙ ap (add_value p (next_values fuel)) (next-text (c ∷ value) (value_bytes values ++ rest) t)
    ∙ ap (λ (r : List Bytes × Bytes). ((c ∷ value) ∷ r.0, r.1))
        (next_values-bytes fuel values rest hs (omega arith))

length-value_bytes : (values : List Bytes) → length values < length (value_bytes values)
unfolding value_bytes
length-value_bytes [] = omega arith
length-value_bytes (value ∷ values) =
    omega (arith, length-append value (0 ∷ value_bytes values), length-value_bytes values)

-- A key with its values.
record Section : Type 0 where
  key : Bytes
  values : List Bytes

IsSection : Section → Type 0
IsSection section = IsText section.key × All IsValue section.values

unfoldable section_bytes : List Section → Bytes
section_bytes [] = []
section_bytes (section ∷ sections) =
    section.key ++ (0 ∷ (value_bytes section.values ++ section_bytes sections))

length-section_bytes : (sections : List Section) → length sections ≤ length (section_bytes sections)
unfolding section_bytes
length-section_bytes [] = omega arith
length-section_bytes (section ∷ sections) = omega (
  arith,
  length-append section.key (0 ∷ (value_bytes section.values ++ section_bytes sections)),
  length-append (value_bytes section.values) (section_bytes sections),
  length-section_bytes sections,
)

module _ (toupper : ℕ → ℕ) where
  set_keys : PruneConfig → List Section → PruneConfig
  set_keys prune [] = prune
  set_keys prune (section ∷ sections) =
      set_keys (set_key toupper prune section.key section.values) sections

  parse_keys-sections :
      (fuel : ℕ) (sections : List Section) (prune : PruneConfig)
      → All IsSection sections
      → length sections < fuel
      → parse_keys toupper fuel (section_bytes sections) prune ≡ some (set_keys prune sections)
  unfolding parse_keys section_bytes set_keys IsSection
  parse_keys-sections zero sections prune h enough = absurd (omega arith)
  parse_keys-sections (suc fuel) [] prune h enough = unfold next in refl
  parse_keys-sections (suc fuel) (section ∷ sections) prune ((t, v), hs) enough =
      let q = value_bytes section.values ++ section_bytes sections in
      let values = next_values-bytes (suc (length q)) section.values (section_bytes sections) v (
        omega (
          arith,
          length-append (value_bytes section.values) (section_bytes sections),
          length-value_bytes section.values,
        )) in
      ap (λ r. parse_key toupper (parse_keys toupper fuel) r prune) (next-text section.key q t)
      ∙ ap
          (λ (r : List Bytes × Bytes).
            parse_keys toupper fuel r.1 (set_key toupper prune section.key r.0))
          values
      ∙ parse_keys-sections fuel sections _ hs (omega arith)

-- The lists that a configuration holds, once `conf_prepare` has run.
pub record IsConf (to_string : ℤ → Bytes) (conf : Conf) : Type 0 where
  pub prunefs : All IsValue conf.conf_prunefs
  pub prunenames : All IsValue conf.conf_prunenames
  pub prunepaths : All IsValue conf.conf_prunepaths
  pub depth : IsValue (to_string conf.conf_history_depth)

abbrev flag_value : Bool → Bytes
flag_value true = codes "1"
flag_value false = codes "0"

abbrev sections_of : (ℤ → Bytes) → Conf → List Section
sections_of to_string conf =
    record { key = codes "prune_bind_mounts"; values = flag_value conf.conf_prune_bind_mounts ∷ [] }
    ∷ record { key = codes "prunefs"; values = conf.conf_prunefs }
    ∷ record { key = codes "prunenames"; values = conf.conf_prunenames }
    ∷ record { key = codes "prunepaths"; values = conf.conf_prunepaths }
    ∷ record {
      key = codes "metadata_hash";
      values = metadata_hash_kind_to_string conf.conf_metadata_hash_kind ∷ [];
    }
    ∷ record { key = codes "history_depth"; values = to_string conf.conf_history_depth ∷ [] }
    ∷ []

hash_name-IsValue : (kind : MetadataHashKind) → IsValue (metadata_hash_kind_to_string kind)
unfolding metadata_hash_kind_to_string
hash_name-IsValue MetadataHashKind.none = search arith
hash_name-IsValue MetadataHashKind.sha256 = search arith
hash_name-IsValue MetadataHashKind.xx_hash64 = search arith
hash_name-IsValue (MetadataHashKind.unnamed n) = search arith

flag-IsValue : (flag : Bool) → IsValue (flag_value flag)
flag-IsValue true = search arith
flag-IsValue false = search arith

gen_conf_block-sections :
    (to_string : ℤ → Bytes) (conf : Conf)
    → gen_conf_block to_string conf ≡ section_bytes (sections_of to_string conf)
unfolding gen_conf_block section_bytes value_bytes
gen_conf_block-sections to_string conf = elim (Bool-cases conf.conf_prune_bind_mounts) [
  | inl on ↦ simp (on, gen-value_bytes, append_assoc)
  | inr off ↦ simp (off, gen-value_bytes, append_assoc)
]

sections-IsSection :
    (to_string : ℤ → Bytes) (conf : Conf)
    → IsConf to_string conf
    → All IsSection (sections_of to_string conf)
unfolding IsSection
sections-IsSection to_string conf w = (
  (search arith, (flag-IsValue conf.conf_prune_bind_mounts, tt)),
  (
    (search arith, w.prunefs),
    (
      (search arith, w.prunenames),
      (
        (search arith, w.prunepaths),
        (
          (search arith, (hash_name-IsValue conf.conf_metadata_hash_kind, tt)),
          ((search arith, (w.depth, tt)), tt),
        ),
      ),
    ),
  ),
)

-- What the reader makes of a configuration.
abbrev pub read_back : (ℕ → ℕ) → Conf → PruneConfig
read_back toupper conf = record {
  prune_bind_mounts = conf.conf_prune_bind_mounts;
  prunefs = map (map toupper) conf.conf_prunefs;
  prunenames = conf.conf_prunenames;
  prunepaths = conf.conf_prunepaths;
}

set_keys-read_back :
    (toupper : ℕ → ℕ) (to_string : ℤ → Bytes) (conf : Conf) (prune : PruneConfig)
    → set_keys toupper prune (sections_of to_string conf) ≡ read_back toupper conf
unfolding set_keys set_key bytes_eq
set_keys-read_back toupper to_string conf prune = elim (Bool-cases conf.conf_prune_bind_mounts) [
  | inl on ↦ simp on
  | inr off ↦ simp off
]

-- `parse_conf_block` ends on a block that was written for lists of values that are not empty and
-- hold no NUL, and gives back the settings that it keeps, the file system names in upper case.
pub parse_conf_block-gen :
    (toupper : ℕ → ℕ) (to_string : ℤ → Bytes) (conf : Conf) (prune : PruneConfig)
    → IsConf to_string conf
    → parse_conf_block toupper (gen_conf_block to_string conf) prune ≡ some (read_back toupper conf)
unfolding parse_conf_block
parse_conf_block-gen toupper to_string conf prune w =
    let sections = sections_of to_string conf in
    ap (λ b. parse_keys toupper (suc (length b)) b prune) (gen_conf_block-sections to_string conf)
    ∙ parse_keys-sections toupper _ sections prune (sections-IsSection to_string conf w)
        (omega (arith, length-section_bytes sections))
    ∙ ap some (set_keys-read_back toupper to_string conf prune)
