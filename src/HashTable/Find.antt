-- ===== src/HashTable/Find.antt =====
-- find_trigram: an entry within reach is found, and no other.
use flocate.Prelude.{
  ℕ, zero, suc, ◌+◌, ◌-◌, ◌^◌, ◌≤◌, ◌<◌, ◌≡◌, ◌≢◌, inl, inr, refl, sym, ap, ◌∙◌, true, false,
  Option, none, some, List, get_or, ◌==◌, Bool-cases, arith, ==_iff,
}
use flocate.Trigram.{Trigram}
use flocate.Trigram.Windows.{mem}
use flocate.HashTable.{empty_slot, find_from}
use flocate.HashTable.Insert.{SlotOk, IsTable, Has}

-- The lookup found the trigram's entry, with this number of documents.
abbrev pub Finds : ℕ → ℕ → Option (Trigram × ℕ) → Type 0
Finds t num_docids found =
    (entry : Trigram) × (len : ℕ) × (found ≡ some (entry, len))
    × (entry.trgm ≡ t)
    × (entry.num_docids ≡ num_docids)

module _ (hash : ℕ → ℕ) (reach : ℕ) (docids_of : ℕ → ℕ) (known : List ℕ) where
  -- An entry of the table with a trigram other than the mark of empty entries.
  entry_docids :
      (i t : ℕ) (s : Trigram)
      → SlotOk hash reach docids_of known i s
      → s.trgm ≡ t
      → t ≢ 2 ^ 32 - 1
      → s.num_docids ≡ docids_of t
  entry_docids i t s (inl empty) same ne =
      absurd (ne (sym same ∙ ap (λ (s : Trigram). s.trgm) empty))
  entry_docids i t s (inr (entry, _, _)) same ne = entry.counted ∙ ap docids_of same

  find_from-Finds :
      (size : ℕ) (ht : List Trigram) (t i n j : ℕ)
      → IsTable hash reach docids_of known size ht
      → t ≢ 2 ^ 32 - 1
      → (get_or ht j empty_slot).trgm ≡ t
      → i ≤ j
      → j < i + n
      → Finds t (docids_of t) (find_from ht t i n)
  unfolding find_from
  find_from-Finds size ht t i zero j h ne same ge lt = absurd (omega arith)
  find_from-Finds size ht t i (suc n) j h ne same ge lt =
      elim (Bool-cases ((get_or ht i empty_slot).trgm == t)) [
        | inl here ↦
            let e : (get_or ht i empty_slot).trgm ≡ t = (==_iff _ t).0 here in
            rw here (
              (
                get_or ht i empty_slot,
                _,
                refl,
                e,
                entry_docids i t (get_or ht i empty_slot) (h.slots i) e ne,
              ))
        | inr other ↦
            rw other
              (find_from-Finds size ht t (i + 1) n j h ne same (further ge other) (omega arith))
      ]
    where
      further : i ≤ j → ((get_or ht i empty_slot).trgm == t) ≡ false → i + 1 ≤ j
      further ge other = elim (Bool-cases (i == j)) [
        | inr apart ↦ ground arith
        | inl e ↦
            let eq : i ≡ j = ground arith in
            let found : (get_or ht i empty_slot).trgm ≡ t =
              ap (λ (k : ℕ). (get_or ht k empty_slot).trgm) eq ∙ same in
            absurd (ground arith)
      ]

  pub find_from-none :
      (size : ℕ) (ht : List Trigram) (t i n : ℕ)
      → IsTable hash reach docids_of known size ht
      → t ≢ 2 ^ 32 - 1
      → mem t known ≡ false
      → find_from ht t i n ≡ none
  unfolding find_from
  find_from-none size ht t i zero h ne absent = refl
  find_from-none size ht t i (suc n) h ne absent =
      rw (differs (get_or ht i empty_slot) (h.slots i))
        (find_from-none size ht t (i + 1) n h ne absent)
    where
      differs : (s : Trigram) → SlotOk hash reach docids_of known i s → (s.trgm == t) ≡ false
      differs s (inl empty) =
          let e : s.trgm ≡ 2 ^ 32 - 1 = ap (λ (s : Trigram). s.trgm) empty in ground arith
      differs s (inr (entry, _, _)) = elim (Bool-cases (s.trgm == t)) [
        | inr other ↦ other
        | inl same ↦
            let listed : mem t known ≡ true =
              ap (λ (u : ℕ). mem u known) (sym ((==_iff s.trgm t).0 same)) ∙ entry.listed in
            absurd (ground arith)
      ]

  -- A trigram with an entry is found, by the slots within reach of its hash.
  pub find_from-Has :
      (size : ℕ) (ht : List Trigram) (t : ℕ)
      → IsTable hash reach docids_of known size ht
      → t ≢ 2 ^ 32 - 1
      → Has hash reach docids_of known ht t
      → Finds t (docids_of t) (find_from ht t (hash t) (reach + 1))
  find_from-Has size ht t h ne (j, inside, same, used) = elim (h.slots j) [
    | inl empty ↦ absurd (used (ap (λ (s : Trigram). s.num_docids) empty))
    | inr (entry, ge, near) ↦
        let e : hash (get_or ht j empty_slot).trgm ≡ hash t = ap hash same in
        find_from-Finds size ht t (hash t) (reach + 1) j h ne same (omega arith) (omega arith)
  ]
