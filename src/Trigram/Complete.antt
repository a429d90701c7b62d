-- ===== src/Trigram/Complete.antt =====
-- The trigrams of a needle against what it finds.
use flocate.Prelude.{ℕ, ◌+◌, ◌*◌, ◌^◌, ◌≡◌, bit_or, true, false, List, ◌++◌, Bytes}
use flocate.Trigram.{is_invalid, read_unigram, read_trigram, TrigramDisjunction}
use flocate.Trigram.Reads.{Reads}
use flocate.Trigram.Windows.{mem}

-- The parts of a valid trigram are valid.
record IsRead (s : Bytes) (i : ℕ) : Type 0 where
  first : is_invalid (read_unigram s i).0 ≡ false
  second : is_invalid (read_unigram s (i + (read_unigram s i).1)).0 ≡ false
  third :
      is_invalid
        (read_unigram s
          (i + (read_unigram s i).1 + (read_unigram s (i + (read_unigram s i).1)).1)).0
      ≡ false
  value :
      read_trigram s i
      ≡ bit_or
          (bit_or (read_unigram s i).0 ((read_unigram s (i + (read_unigram s i).1)).0 * 2 ^ 8))
          ((read_unigram s
              (i + (read_unigram s i).1 + (read_unigram s (i + (read_unigram s i).1)).1)).0
            * 2 ^ 16)

-- A disjunction that a file with these trigrams satisfies.
abbrev pub IsFoundIn : List ℕ → TrigramDisjunction → Type 0
IsFoundIn trigrams group =
    (t : ℕ) × (mem t group.trigram_alternatives ≡ true) × (mem t trigrams ≡ true)

module _ (needle front back : Bytes) where
  abbrev around : Bytes → Bytes → Bytes
  around skipped m = front ++ (skipped ++ (m ++ back))
