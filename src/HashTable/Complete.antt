-- ===== src/HashTable/Complete.antt =====
-- create_hashtable and find_trigram together: the table answers for exactly the trigrams that were
-- put into it.
use flocate.Prelude.{
  ℕ, zero, suc, ◌+◌, ◌-◌, ◌^◌, ◌≤◌, ◌<◌, ◌≡◌, ◌≢◌, inl, inr, ◌⊎◌, refl, sym, subst, Bool, true,
  false, Option, none, List, [], ◌∷◌, get_or, arith, replicate, length-replicate, ==-refl,
}
use flocate.Trigram.{Trigram}
use flocate.Trigram.Windows.{mem}
use flocate.HashTable.{
  empty_slot, Built, table, too_far, stuck, insert_all, create_hashtable, and_then, hash_trigram,
  find_trigram, crc_rounds,
}
use flocate.HashTable.Insert.{IsTable, Has, Inserted, gave_up, extended}
use flocate.HashTable.Reach.{insert_from-Inserted}
use flocate.HashTable.Find.{Finds, find_from-Has, find_from-none}
use native.Mathlib.Nat.{mod-lt}

first : (t : ℕ) (trigrams : List ℕ) → mem t (t ∷ trigrams) ≡ true
unfolding mem
first t trigrams = rw (==-refl t) refl

later : (u t : ℕ) (trigrams : List ℕ) → mem u trigrams ≡ true → mem u (t ∷ trigrams) ≡ true
unfolding mem
later u t trigrams h = ground (arith, h)

mem_cases :
    (u t : ℕ) (trigrams : List ℕ) → mem u (t ∷ trigrams) ≡ true → (u ≡ t) ⊎ (mem u trigrams ≡ true)
unfolding mem
mem_cases u t trigrams h = ground arith

module _ (hash : ℕ → ℕ) (reach : ℕ) (docids_of : ℕ → ℕ) (known : List ℕ) where
  -- A table of all these trigrams and those of an earlier table, or the insertion gave up.
  data Fills (size : ℕ) (ht : List Trigram) (trigrams : List ℕ) : Built → Type 0 where
    none_fits : Fills size ht trigrams too_far
    fills :
        {ht' : List Trigram}
        → IsTable hash reach docids_of known size ht'
        → ((t : ℕ) → mem t trigrams ≡ true → Has hash reach docids_of known ht' t)
        → ((t : ℕ) → Has hash reach docids_of known ht t → Has hash reach docids_of known ht' t)
        → Fills size ht trigrams (table ht')

  empty-IsTable : (size : ℕ) → IsTable hash reach docids_of known size (replicate size empty_slot)
  empty-IsTable size = record {
    slots = λ i. inl (empty_slots size i);
    room = length-replicate size empty_slot;
  }
    where
      empty_slots : (size i : ℕ) → get_or (replicate size empty_slot) i empty_slot ≡ empty_slot
      empty_slots zero i = refl
      empty_slots (suc size) zero = refl
      empty_slots (suc size) (suc i) = empty_slots size i

  cons-Fills :
      (size t : ℕ) (ht ht' : List Trigram) (trigrams : List ℕ) (r : Built)
      → Has hash reach docids_of known ht' t
      → ((u : ℕ) → Has hash reach docids_of known ht u → Has hash reach docids_of known ht' u)
      → Fills size ht' trigrams r
      → Fills size ht (t ∷ trigrams) r
  cons-Fills size t ht ht' trigrams _ here kept none_fits = none_fits
  cons-Fills size t ht ht' trigrams _ here kept (fills {ht' = ht''} ok all stays) =
      fills ok listed (λ u h. stays u (kept u h))
    where
      listed : (u : ℕ) → mem u (t ∷ trigrams) ≡ true → Has hash reach docids_of known ht'' u
      listed u h = elim (mem_cases u t trigrams h) [
        | inl same ↦ subst (Has hash reach docids_of known ht'') (sym same) (stays t here)
        | inr other ↦ all u other
      ]

  -- An entry is added, and the others after it.
  add-Fills :
      (size t : ℕ) (ht : List Trigram) (trigrams : List ℕ) (first : Built)
      (next : List Trigram → Built)
      → Inserted hash reach docids_of known size ht t first
      → ((ht' : List Trigram)
          → IsTable hash reach docids_of known size ht'
          → Fills size ht' trigrams (next ht'))
      → Fills size ht (t ∷ trigrams) (and_then first next)
  add-Fills size t ht trigrams _ next gave_up rest = none_fits
  add-Fills size t ht trigrams _ next (extended {ht'} e) rest =
      cons-Fills size t ht ht' trigrams _ e.here e.kept (rest ht' e.ok)

  insert_all-Fills :
      (fuel size : ℕ) (ht : List Trigram) (trigrams : List ℕ)
      → ((t : ℕ) → hash t + reach < size)
      → size ≤ fuel
      → ((t : ℕ) → mem t trigrams ≡ true → mem t known ≡ true)
      → ((t : ℕ) → mem t known ≡ true → docids_of t ≢ 0)
      → IsTable hash reach docids_of known size ht
      → Fills size ht trigrams (insert_all hash reach fuel docids_of ht trigrams)
  unfolding insert_all mem
  insert_all-Fills fuel size ht [] bound enough subset used h =
      fills h (λ t e. absurd (ground arith)) (λ t p. p)
  insert_all-Fills fuel size ht (t ∷ trigrams) bound enough subset used h =
      let listed : mem t known ≡ true = subset t (first t trigrams) in
      add-Fills size t ht trigrams _ _
        (insert_from-Inserted hash reach docids_of known fuel size ht _ (hash t) 0 bound h
          (record {
            entry = record { used = used t listed; counted = refl; listed = listed };
            place = omega arith;
            near = omega arith;
            inside = omega (arith, bound t);
          })
          (omega arith))
        (λ ht' h'.
          insert_all-Fills fuel size ht' trigrams bound enough
            (λ u e. subset u (later u t trigrams e)) used h')

hash_trigram-lt : (t ht_size : ℕ) → 1 ≤ ht_size → hash_trigram t ht_size < ht_size
unfolding hash_trigram
hash_trigram-lt t ht_size pos = mod-lt (crc_rounds 32 t) (omega arith)

-- A lookup of a trigram that was put in, or was not.
abbrev pub Looks : Bool → ℕ → ℕ → Option (Trigram × ℕ) → Type 0
Looks true t num_docids found = Finds t num_docids found
Looks false t num_docids found = found ≡ none

-- What the table answers for a number. No fuel is not an outcome.
abbrev pub Answers : (ℕ → ℕ) → List ℕ → ℕ → ℕ → ℕ → Built → Type 0
Answers docids_of trigrams ht_size reach t stuck = ⊥
Answers docids_of trigrams ht_size reach t too_far = Unit
Answers docids_of trigrams ht_size reach t (table ht) =
    Looks (mem t trigrams) t (docids_of t) (find_trigram ht ht_size reach t)

module _ (docids_of : ℕ → ℕ) (trigrams : List ℕ) (ht_size reach t : ℕ) where
  Fills-Looks :
      (ht' : List Trigram) (listed : Bool)
      → mem t trigrams ≡ listed
      → t ≢ 2 ^ 32 - 1
      → IsTable (λ t. hash_trigram t ht_size) reach docids_of trigrams (ht_size + reach + 1) ht'
      → ((u : ℕ)
          → mem u trigrams ≡ true
          → Has (λ t. hash_trigram t ht_size) reach docids_of trigrams ht' u)
      → Looks listed t (docids_of t) (find_trigram ht' ht_size reach t)
  unfolding find_trigram
  Fills-Looks ht' true e ne ok all =
      find_from-Has (λ t. hash_trigram t ht_size) reach docids_of trigrams _ ht' t ok ne (all t e)
  Fills-Looks ht' false e ne ok all =
      find_from-none (λ t. hash_trigram t ht_size) reach docids_of trigrams _ ht' t _ _ ok ne e

  Fills-Answers :
      (r : Built)
      → t ≢ 2 ^ 32 - 1
      → Fills
          (λ t. hash_trigram t ht_size)
          reach
          docids_of
          trigrams
          (ht_size + reach + 1)
          (replicate (ht_size + reach + 1) empty_slot)
          trigrams
          r
      → Answers docids_of trigrams ht_size reach t r
  Fills-Answers _ ne none_fits = tt
  Fills-Answers _ ne (fills {ht'} ok all stays) = Fills-Looks ht' (mem t trigrams) refl ne ok all

  -- For a hash table of at least one bucket, trigrams with posting lists that are not empty, and a
  -- number other than the mark of empty entries: `create_hashtable` ends, and either gives up because
  -- an entry would lie too far from its bucket, or gives a table in which `find_trigram` finds the
  -- number with its number of documents if it is one of the trigrams, and nothing otherwise.
  pub create_hashtable-Answers :
      1 ≤ ht_size
      → t ≢ 2 ^ 32 - 1
      → ((u : ℕ) → mem u trigrams ≡ true → docids_of u ≢ 0)
      → Answers docids_of trigrams ht_size reach t
          (create_hashtable docids_of trigrams ht_size reach)
  unfolding create_hashtable
  create_hashtable-Answers pos ne used = Fills-Answers _ ne (
      insert_all-Fills (λ t. hash_trigram t ht_size) reach docids_of trigrams (ht_size + reach + 1)
        (ht_size + reach + 1) _ trigrams (λ t. omega (arith, hash_trigram-lt t ht_size pos))
        (omega arith) (λ t h. h) used
        (empty-IsTable (λ t. hash_trigram t ht_size) reach docids_of trigrams _))
