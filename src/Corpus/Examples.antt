-- ===== src/Corpus/Examples.antt =====
-- Concrete blocks.
use flocate.Prelude.{◌≡◌, refl, List, [], ◌∷◌, Bytes, codes, some, All, arith}
use flocate.Corpus.{add_paths, block_trigrams, index_names, index_name}
use flocate.Corpus.BlockTrigrams.{IsName, block_windows, block_trigrams-block}

abbrev two_names : List Bytes
two_names = codes "/a/bc" ∷ codes "/z" ∷ []

two_names-IsName : All IsName two_names
two_names-IsName = search arith

-- The last name has three bytes, and its trigram is not indexed.
three_bytes_last : block_trigrams (codes "/bc") ≡ some []
unfolding block_trigrams index_names index_name
three_bytes_last = refl

block_trigrams-block_example :
    block_trigrams (add_paths [] two_names) ≡ some (block_windows two_names)
block_trigrams-block_example = block_trigrams-block two_names two_names-IsName

abbrev searched : List Bytes
searched = codes "/a/bcdyz" ∷ codes "/z" ∷ []
