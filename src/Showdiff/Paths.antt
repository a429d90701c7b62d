-- ===== src/Showdiff/Paths.antt =====
-- `extract_paths_from_block` of src/showdiff.cpp, against the block that `EncodingCorpus::add_file`
-- of src/database-builder.cpp fills.
use flocate.Prelude.{
  ℕ, zero, suc, ◌<◌, ◌≡◌, refl, sym, ap, ◌∙◌, false, List, [], ◌∷◌, ◌++◌, append_assoc, append-nil,
  Bytes, Option, none, some, length, length-append, is_empty, All, arith, ◌==◌, if◌then◌else◌,
}
use flocate.Corpus.{add_paths}
use flocate.Corpus.NameTrigrams.{IsNameByte}
use flocate.Corpus.BlockTrigrams.{IsName, block, separated, block_shorter, add_paths-block}

-- `memchr(ptr, '\0', end - ptr)`: the bytes up to `term`, and those from `term + 1` on.
unfoldable pub up_to_nul : Bytes → Bytes × Bytes
up_to_nul [] = ([], [])
up_to_nul (c ∷ p) = let (name, rest) = up_to_nul p in if c == 0 then ([], p) else (c ∷ name, rest)

-- The loop from `ptr` on; `none` would mean that the fuel ran out.
unfoldable pub extract_from : ℕ → Bytes → List Bytes → Option (List Bytes)
extract_from zero p paths = none
extract_from (suc fuel) p paths =
    let (name, rest) = up_to_nul p in
    let rest_paths =
      extract_from fuel rest (if is_empty name then paths else paths ++ (name ∷ [])) in
    if is_empty p then some paths else rest_paths

unfoldable pub extract_paths_from_block : Bytes → List Bytes → Option (List Bytes)
extract_paths_from_block block paths = extract_from (suc (length block)) block paths

up_to_nul-separated : (names : List Bytes) → up_to_nul (separated names) ≡ ([], block names)
unfolding up_to_nul separated block
up_to_nul-separated [] = refl
up_to_nul-separated (name ∷ names) = refl

up_to_nul-name :
    (name : Bytes) (names : List Bytes)
    → All IsNameByte name
    → up_to_nul (name ++ separated names) ≡ (name, block names)
unfolding up_to_nul
up_to_nul-name [] names h = up_to_nul-separated names
up_to_nul-name (c ∷ name) names ((pos, byte), hs) =
    let e : (c == 0) ≡ false = ground arith in rw (e, up_to_nul-name name names hs) refl

extract_from-block :
    (fuel : ℕ) (names paths : List Bytes)
    → All IsName names
    → length (block names) < fuel
    → extract_from fuel (block names) paths ≡ some (paths ++ names)
unfolding extract_from block
extract_from-block zero names paths h enough = absurd (omega arith)
extract_from-block (suc fuel) [] paths h enough = ap some (sym (append-nil paths))
extract_from-block (suc fuel) ([] ∷ names) paths ((h, t), hs) enough = absurd (omega arith)
extract_from-block (suc fuel) ((c ∷ name) ∷ names) paths ((h, t), hs) enough =
    rw (up_to_nul-name (c ∷ name) names t) (
      extract_from-block fuel names (paths ++ ((c ∷ name) ∷ [])) hs
        (omega (arith, block_shorter names, length-append name (separated names)))
      ∙ ap some (append_assoc paths ((c ∷ name) ∷ []) names))

-- The names of a block come back in order, behind those that were there.
pub extract_paths-add_paths :
    (names paths : List Bytes)
    → All IsName names
    → extract_paths_from_block (add_paths [] names) paths ≡ some (paths ++ names)
unfolding extract_paths_from_block
extract_paths-add_paths names paths h =
    rw (add_paths-block names h) (extract_from-block _ names paths h (omega arith))
