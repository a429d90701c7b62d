-- ===== src/HashTable/Insert.antt =====
-- create_hashtable: every entry stays within reach of its hash, and none is lost.
use flocate.Prelude.{
  ℕ, zero, suc, ◌+◌, ◌≤◌, ◌<◌, ◌≡◌, ◌≢◌, ◌⊎◌, inl, inr, refl, sym, ap, ◌∙◌, subst, true, List, [],
  ◌∷◌, length, get_or, ◌==◌, Bool-cases, arith,
}
use flocate.Trigram.{Trigram}
use flocate.Trigram.Windows.{mem}
use flocate.HashTable.{empty_slot, set_slot, Built, table, too_far}

get_or-set_slot :
    (ht : List Trigram) (i : ℕ) (x : Trigram)
    → i < length ht
    → get_or (set_slot ht i x) i empty_slot ≡ x
get_or-set_slot [] i x h = absurd (omega arith)
get_or-set_slot (y ∷ ht) zero x h = refl
get_or-set_slot (y ∷ ht) (suc i) x h = get_or-set_slot ht i x (omega arith)

get_or-set_slot_other :
    (ht : List Trigram) (i j : ℕ) (x : Trigram)
    → i ≢ j
    → get_or (set_slot ht i x) j empty_slot ≡ get_or ht j empty_slot
get_or-set_slot_other [] i j x h = refl
get_or-set_slot_other (y ∷ ht) zero zero x h = absurd (h refl)
get_or-set_slot_other (y ∷ ht) zero (suc j) x h = refl
get_or-set_slot_other (y ∷ ht) (suc i) zero x h = refl
get_or-set_slot_other (y ∷ ht) (suc i) (suc j) x h =
    get_or-set_slot_other ht i j x (λ e. h (ap suc e))

length-set_slot : (ht : List Trigram) (i : ℕ) (x : Trigram) → length (set_slot ht i x) ≡ length ht
length-set_slot [] i x = refl
length-set_slot (y ∷ ht) zero x = refl
length-set_slot (y ∷ ht) (suc i) x = ap suc (length-set_slot ht i x)

module _ (hash : ℕ → ℕ) (reach : ℕ) (docids_of : ℕ → ℕ) (known : List ℕ) where
  -- An entry of one of the trigrams, with its number of documents, which is not zero.
  pub record IsEntry (s : Trigram) : Type 0 where
    pub used : s.num_docids ≢ 0
    pub counted : s.num_docids ≡ docids_of s.trgm
    pub listed : mem s.trgm known ≡ true

  -- The slot is empty, or its entry is at most `reach` behind its hash.
  abbrev pub SlotOk : ℕ → Trigram → Type 0
  SlotOk i s = (s ≡ empty_slot) ⊎ (IsEntry s × (hash s.trgm ≤ i) × (i ≤ hash s.trgm + reach))

  pub record IsTable (size : ℕ) (ht : List Trigram) : Type 0 where
    pub slots : (i : ℕ) → SlotOk i (get_or ht i empty_slot)
    pub room : length ht ≡ size

  -- The trigram has an entry in the table.
  abbrev pub Has : List Trigram → ℕ → Type 0
  Has ht t =
      (i : ℕ) × (i < length ht)
      × ((get_or ht i empty_slot).trgm ≡ t)
      × ((get_or ht i empty_slot).num_docids ≢ 0)

  -- The entry in hand, at a bucket.
  pub record InHand (size : ℕ) (x : Trigram) (bucket distance : ℕ) : Type 0 where
    pub entry : IsEntry x
    pub place : bucket ≡ hash x.trgm + distance
    pub near : distance ≤ reach
    pub inside : bucket < size

  -- The entry in hand may lie in its bucket.
  InHand-SlotOk :
      {size : ℕ} {x : Trigram} {bucket distance : ℕ}
      → InHand size x bucket distance
      → SlotOk bucket x
  InHand-SlotOk p = inr (p.entry, omega (arith, p.place), omega (arith, p.place, p.near))

  set_slot-SlotOk :
      (ht : List Trigram) (x : Trigram) (bucket : ℕ)
      → bucket < length ht
      → SlotOk bucket x
      → ((i : ℕ) → SlotOk i (get_or ht i empty_slot))
      → (i : ℕ) → SlotOk i (get_or (set_slot ht bucket x) i empty_slot)
  set_slot-SlotOk ht x bucket inside ok h i = elim (Bool-cases (bucket == i)) [
    | inl same ↦
        let e : bucket ≡ i = ground arith in
        subst (λ (t : ℕ). SlotOk t (get_or (set_slot ht bucket x) t empty_slot)) e
          (subst (SlotOk bucket) (sym (get_or-set_slot ht bucket x inside)) ok)
    | inr apart ↦
        subst (SlotOk i) (sym (get_or-set_slot_other ht bucket i x (λ e. absurd (ground arith))))
          (h i)
  ]

  pub set_slot-IsTable :
      (size : ℕ) (ht : List Trigram) (x : Trigram) (bucket distance : ℕ)
      → IsTable size ht
      → InHand size x bucket distance
      → IsTable size (set_slot ht bucket x)
  set_slot-IsTable size ht x bucket distance h p =
      let room = h.room in
      let inside = p.inside in
      record {
        slots = set_slot-SlotOk ht x bucket (omega arith) (InHand-SlotOk p) h.slots;
        room = length-set_slot ht bucket x ∙ h.room;
      }

  -- After the entry has been put into its bucket, the table has its trigram.
  pub set_slot-Has :
      (ht : List Trigram) (x : Trigram) (bucket : ℕ)
      → bucket < length ht
      → x.num_docids ≢ 0
      → Has (set_slot ht bucket x) x.trgm
  set_slot-Has ht x bucket inside used =
      let e = get_or-set_slot ht bucket x inside in
      (
        bucket,
        omega (arith, length-set_slot ht bucket x),
        ap (λ (s : Trigram). s.trgm) e,
        λ z. used (ap (λ (s : Trigram). s.num_docids) (sym e) ∙ z),
      )

  -- The other trigrams stay.
  pub set_slot-Has_other :
      (ht : List Trigram) (x : Trigram) (bucket t : ℕ)
      → Has ht t
      → (Has (set_slot ht bucket x) t)
        ⊎ (((get_or ht bucket empty_slot).trgm ≡ t)
            × ((get_or ht bucket empty_slot).num_docids ≢ 0))
  set_slot-Has_other ht x bucket t (i, inside, same, used) = elim (Bool-cases (bucket == i)) [
    | inl e ↦
        let eq : i ≡ bucket = ground arith in
        inr (
          subst (λ (k : ℕ). (get_or ht k empty_slot).trgm ≡ t) eq same,
          subst (λ (k : ℕ). (get_or ht k empty_slot).num_docids ≢ 0) eq used,
        )
    | inr apart ↦
        let e = get_or-set_slot_other ht bucket i x (λ e. absurd (ground arith)) in
        inl (
          i,
          omega (arith, length-set_slot ht bucket x),
          ap (λ (s : Trigram). s.trgm) e ∙ same,
          λ z. used (ap (λ (s : Trigram). s.num_docids) (sym e) ∙ z),
        )
  ]

  -- A table with the trigram in hand and all of an earlier table.
  pub record Extends (size : ℕ) (ht : List Trigram) (t : ℕ) (ht' : List Trigram) : Type 0 where
    pub ok : IsTable size ht'
    pub here : Has ht' t
    pub kept : (u : ℕ) → Has ht u → Has ht' u

  -- The insertion gives up, or extends the table.
  pub data Inserted (size : ℕ) (ht : List Trigram) (t : ℕ) : Built → Type 0 where
    gave_up : Inserted size ht t too_far
    extended : {ht' : List Trigram} → Extends size ht t ht' → Inserted size ht t (table ht')
