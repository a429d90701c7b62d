-- ===== src/HashTable/Examples.antt =====
-- Small hash tables.
use flocate.Prelude.{ℕ, suc, ◌-◌, ◌≡◌, refl, List, [], ◌∷◌, arith}
use flocate.Trigram.{Trigram}
use flocate.HashTable.{
  create_hashtable, hash_trigram, crc_rounds, insert_from, insert_all, table, empty_slot,
}
use flocate.HashTable.Complete.{create_hashtable-Answers, Answers}

abbrev three : List ℕ
three = 0x636261 ∷ 0x646362 ∷ 0x656463 ∷ []

abbrev docids : ℕ → ℕ
docids t = suc (t - 0x636261)

abbrev entry : ℕ → ℕ → Trigram
entry trgm num_docids = record { trgm = trgm; num_docids = num_docids; offset = 0 }

create_hashtable-Answers_example :
    Answers docids three 5 2 0x646362 (create_hashtable docids three 5 2)
create_hashtable-Answers_example =
    create_hashtable-Answers docids three 5 2 0x646362 (omega arith) (λ e. absurd (omega arith))
      (λ u h e. absurd (omega arith))

-- The second trigram has displaced the first.
three_entries :
    create_hashtable docids three 5 2
    ≡ table (
        entry 0x646362 65794
        ∷ entry 0x636261 1
        ∷ empty_slot
        ∷ entry 0x656463 131587
        ∷ empty_slot
        ∷ empty_slot
        ∷ empty_slot
        ∷ empty_slot
        ∷ [])
unfolding create_hashtable insert_all insert_from hash_trigram crc_rounds
three_entries = refl
