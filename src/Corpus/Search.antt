-- ===== src/Corpus/Search.antt =====
-- The trigrams of a needle (src/needle.cpp) against the trigrams that `flush_block` indexes.
use flocate.Prelude.{◌≡◌, false, List, [], ◌∷◌, Bytes, length, ◌==◌}

-- The name is one of the names of the block, and not a name of three bytes at its end.
pub data IsIndexed (name : Bytes) : List Bytes → Type 0 where
  last : (length name == 3) ≡ false → IsIndexed name (name ∷ [])
  here : (next : Bytes) (names : List Bytes) → IsIndexed name (name ∷ next ∷ names)
  later :
      (before next : Bytes) {names : List Bytes}
      → IsIndexed name (next ∷ names)
      → IsIndexed name (before ∷ next ∷ names)
