-- ===== src/Locate.antt =====
-- The search of src/flocate.cpp: the names of a block that match, numbered for the serializer.
-- Matching a needle and testing that a file can be seen are arguments.
pub mod Tiling
pub mod Receiver
pub mod Candidates
pub mod Printed
mod Examples
use flocate.Prelude.{
  ℕ, suc, ◌+◌, ◌-◌, ◌*◌, ◌%◌, ◌^◌, Bool, true, false, ◌&&◌, List, Bytes, [], ◌∷◌, ◌++◌, Option,
  none, some, is_empty, ◌==◌, if◌then◌else◌,
}
use flocate.Serializer.{Element}

-- The strings of a block, each ended by a NUL; `name` is what is read of the first.
unfoldable pub block_names : Bytes → Bytes → List Bytes
block_names name [] = []
block_names name (c ∷ block) =
    let next = name ∷ block_names [] block in
    let longer = block_names (name ++ (c ∷ [])) block in if c == 0 then next else longer

abbrev pub later_slash : Option Bytes → ℕ → Bytes → Option Bytes
later_slash (some rest) c name = some rest
later_slash none c name = if c == 47 then some name else none

-- What follows the last slash, `strrchr(filename, '/') + 1`.
unfoldable pub behind_last_slash : Bytes → Option Bytes
behind_last_slash [] = none
behind_last_slash (c ∷ name) = later_slash (behind_last_slash name) c name

unfoldable pub haystack : Bool → Bytes → Bytes
unfolding behind_last_slash
haystack match_basename filename =
    if match_basename
    then (elim (behind_last_slash filename) [ none ↦ filename | some basename ↦ basename ])
    else filename

module _ {ℓ} {Needle : Type ℓ} (matches : Needle → Bytes → Bool) where
  -- The loop over the needles.
  unfoldable pub is_found : List Needle → Bytes → Bool
  is_found [] haystack = true
  is_found (needle ∷ needles) haystack =
      if matches needle haystack then is_found needles haystack else false

  -- The test that `scan_names` takes as `found`.
  unfoldable pub is_candidate : List Needle → Bool → Bytes → Bool
  unfolding is_found haystack
  is_candidate needles match_basename filename = is_found needles (haystack match_basename filename)

module _ (is_ok : Bytes → Bool) where
  -- `test_candidate`: the call of `print` that follows once the file has been tested.
  unfoldable pub test_candidate : Bytes → ℕ → ℕ → Element
  test_candidate filename local_seq next_seq = record {
    seq = local_seq;
    skip = (next_seq + 2 ^ 64 - local_seq) % 2 ^ 64;
    msg = if is_ok filename then filename else [];
  }

  -- The loop over the names, from those that are left and the candidate that is waiting. The call
  -- of `print` for the last candidate takes the rest of the block's numbers.
  unfoldable pub scan_names : (Bytes → Bool) → ℕ → ℕ → Option Bytes → List Bytes → List Element
  unfolding test_candidate
  scan_names found seq local_seq none [] =
      record { seq = seq * 2 ^ 32 % 2 ^ 64; skip = 2 ^ 32; msg = [] } ∷ []
  scan_names found seq local_seq (some candidate) [] =
      test_candidate candidate local_seq (suc seq * 2 ^ 32 % 2 ^ 64) ∷ []
  scan_names found seq local_seq none (filename ∷ names) =
      let first = scan_names found seq local_seq (some filename) names in
      let rest = scan_names found seq local_seq none names in if found filename then first else rest
  scan_names found seq local_seq (some candidate) (filename ∷ names) =
      let next =
        test_candidate candidate local_seq (local_seq + 1)
        ∷ scan_names found seq (local_seq + 1) (some filename) names in
      let rest = scan_names found seq local_seq (some candidate) names in
      if found filename then next else rest

  -- `scan_file_block`, from the decompressed block with its final NUL on.
  unfoldable pub scan_file_block : (Bytes → Bool) → Bytes → ℕ → List Element
  unfolding block_names scan_names
  scan_file_block found block seq =
      scan_names found seq (seq * 2 ^ 32 % 2 ^ 64) none (block_names [] block)

  -- `scan_docids`: the calls of `print` in the order of the blocks, though the blocks and the tests
  -- may come in any order. `block_of` reads and decompresses a block.
  unfoldable pub scan_docids : (Bytes → Bool) → (ℕ → Bytes) → List ℕ → ℕ → List Element
  unfolding scan_file_block
  scan_docids found block_of [] i = []
  scan_docids found block_of (docid ∷ docids) i =
      scan_file_block found (block_of docid) i ++ scan_docids found block_of docids (i + 1)

-- `WorkerThreadReceiver::print`
unfoldable pub receive : List Element → Element → List Element
receive [] e = e ∷ []
receive (x ∷ []) e =
    if is_empty e.msg && ((x.seq + x.skip) % 2 ^ 64 == e.seq)
    then record { seq = x.seq; skip = (x.skip + e.skip) % 2 ^ 64; msg = x.msg } ∷ []
    else x ∷ e ∷ []
receive (x ∷ y ∷ results) e = x ∷ receive (y ∷ results) e
