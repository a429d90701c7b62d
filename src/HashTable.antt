-- ===== src/HashTable.antt =====
-- The hash table from trigrams to posting lists: create_hashtable of src/database-builder.cpp,
-- hash_trigram of include/db.h and Corpus::find_trigram of src/flocate.cpp.
pub mod Insert
pub mod Reach
pub mod Find
pub mod Complete
mod Examples
use flocate.Prelude.{
  ℕ, zero, suc, ◌+◌, ◌-◌, ◌*◌, ◌%◌, ◌^◌, bit_xor, Bool, true, false, List, [], ◌∷◌, Option, none,
  some, ltb, leb, ◌==◌, if◌then◌else◌, replicate, get_or,
}
use flocate.Trigram.{Trigram}

-- The CRC-like rounds.
unfoldable pub crc_rounds : ℕ → ℕ → ℕ
crc_rounds zero crc = crc
crc_rounds (suc n) crc =
    let shifted = crc * 2 % 2 ^ 32 in
    crc_rounds n (if leb 0x80000000 crc then bit_xor shifted 0x1edc6f41 else shifted)

unfoldable pub hash_trigram : ℕ → ℕ → ℕ
unfolding crc_rounds
hash_trigram trgm ht_size = crc_rounds 32 trgm % ht_size

-- An entry that is not in use: `uint32_t(-1)`.
abbrev pub empty_slot : Trigram
empty_slot = record { trgm = 2 ^ 32 - 1; num_docids = 0; offset = 0 }

-- `ht[i] = x`, within the table.
abbrev pub set_slot : List Trigram → ℕ → Trigram → List Trigram
set_slot [] i x = []
set_slot (y ∷ ht) zero x = x ∷ ht
set_slot (y ∷ ht) (suc i) x = y ∷ set_slot ht i x

-- What becomes of an insertion: a table, the return of a null pointer, or (never) no fuel.
pub data Built : Type 0 where
  table : List Trigram → Built
  too_far : Built
  stuck : Built

abbrev pub and_then : Built → (List Trigram → Built) → Built
and_then (table ht) next = next ht
and_then too_far next = too_far
and_then stuck next = stuck

module _ (hash : ℕ → ℕ) (num_overflow_slots : ℕ) where
  -- The `while` loop, from a bucket on, with an entry in hand. The entry of a bucket lies at or
  -- behind its hash, so that `other_distance` does not wrap.
  unfoldable pub insert_from : ℕ → List Trigram → Trigram → ℕ → ℕ → Built
  insert_from zero ht to_insert bucket distance = stuck
  insert_from (suc fuel) ht to_insert bucket distance =
      let other = get_or ht bucket empty_slot in
      let other_distance = bucket - hash other.trgm in
      let swapped =
        insert_from fuel (set_slot ht bucket to_insert) other (bucket + 1) (other_distance + 1) in
      let kept = insert_from fuel ht to_insert (bucket + 1) (distance + 1) in
      if other.num_docids == 0
      then table (set_slot ht bucket to_insert)
      else if ltb other_distance distance
      then (if ltb num_overflow_slots (other_distance + 1) then too_far else swapped)
      else if ltb num_overflow_slots (distance + 1)
      then too_far
      else kept

  -- The loop over the trigrams; `docids_of` is the number of documents of a posting list.
  unfoldable pub insert_all : ℕ → (ℕ → ℕ) → List Trigram → List ℕ → Built
  unfolding insert_from
  insert_all fuel docids_of ht [] = table ht
  insert_all fuel docids_of ht (trgm ∷ trigrams) =
      let to_insert : Trigram = record { trgm = trgm; num_docids = docids_of trgm; offset = 0 } in
      and_then (insert_from fuel ht to_insert (hash trgm) 0)
        (λ ht'. insert_all fuel docids_of ht' trigrams)

-- `create_hashtable`. A round moves on by a bucket, so a round for each slot is enough.
unfoldable pub create_hashtable : (ℕ → ℕ) → List ℕ → ℕ → ℕ → Built
unfolding insert_all hash_trigram
create_hashtable docids_of all_trigrams ht_size num_overflow_slots =
    insert_all (λ trgm. hash_trigram trgm ht_size) num_overflow_slots
      (ht_size + num_overflow_slots + 1) docids_of
      (replicate (ht_size + num_overflow_slots + 1) empty_slot) all_trigrams

-- The loop of `find_trigram` over entries from a bucket on: the entry and the length of its posting
-- list, up to the offset of the entry behind it.
unfoldable pub find_from : List Trigram → ℕ → ℕ → ℕ → Option (Trigram × ℕ)
find_from ht trgm i zero = none
find_from ht trgm i (suc n) =
    let rest = find_from ht trgm (i + 1) n in
    let entry = get_or ht i empty_slot in
    let next = get_or ht (i + 1) empty_slot in
    if entry.trgm == trgm
    then some (entry, (next.offset + 2 ^ 64 - entry.offset) % 2 ^ 64)
    else rest

unfoldable pub find_trigram : List Trigram → ℕ → ℕ → ℕ → Option (Trigram × ℕ)
unfolding find_from hash_trigram
find_trigram ht hashtable_size extra_ht_slots trgm =
    find_from ht trgm (hash_trigram trgm hashtable_size) (extra_ht_slots + 1)
