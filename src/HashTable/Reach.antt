-- ===== src/HashTable/Reach.antt =====
-- create_hashtable: the loop for one entry, and the loop over all of them.
use flocate.Prelude.{
  ℕ, zero, suc, ◌+◌, ◌-◌, ◌≤◌, ◌<◌, ◌≡◌, ◌≢◌, inl, inr, ap, subst, true, false, List, length,
  get_or, ltb, ◌==◌, Bool-cases, arith,
}
use flocate.Trigram.{Trigram}
use flocate.HashTable.{empty_slot, set_slot, Built, insert_from}
use flocate.HashTable.Insert.{
  IsEntry, IsTable, Has, InHand, Extends, Inserted, gave_up, extended, set_slot-IsTable,
  set_slot-Has, set_slot-Has_other,
}

module _ (hash : ℕ → ℕ) (reach : ℕ) (docids_of : ℕ → ℕ) (known : List ℕ) where
  -- The bucket is empty.
  put-Extends :
      (size : ℕ) (ht : List Trigram) (x : Trigram) (bucket distance : ℕ)
      → IsTable hash reach docids_of known size ht
      → InHand hash reach docids_of known size x bucket distance
      → get_or ht bucket empty_slot ≡ empty_slot
      → Extends hash reach docids_of known size ht x.trgm (set_slot ht bucket x)
  put-Extends size ht x bucket distance h p empty =
      let room = h.room in
      let inside = p.inside in
      record {
        ok = set_slot-IsTable hash reach docids_of known size ht x bucket distance h p;
        here = set_slot-Has hash reach docids_of known ht x bucket (omega arith) p.entry.used;
        kept = λ u hu. elim (set_slot-Has_other hash reach docids_of known ht x bucket u hu) [
          | inl stays ↦ stays
          | inr (same, used) ↦ absurd (used (ap (λ (s : Trigram). s.num_docids) empty))
        ];
      }

  -- The entries are exchanged, and the search for a place goes on with the other one.
  swap-Inserted :
      (size : ℕ) (ht : List Trigram) (x : Trigram) (bucket : ℕ) (r : Built)
      → bucket < length ht
      → x.num_docids ≢ 0
      → Inserted hash reach docids_of known size
          (set_slot ht bucket x)
          (get_or ht bucket empty_slot).trgm
          r
      → Inserted hash reach docids_of known size ht x.trgm r
  swap-Inserted size ht x bucket _ inside used gave_up = gave_up
  swap-Inserted size ht x bucket _ inside used (extended e) = extended (record {
    ok = e.ok;
    here = e.kept x.trgm (set_slot-Has hash reach docids_of known ht x bucket inside used);
    kept = λ u hu. elim (set_slot-Has_other hash reach docids_of known ht x bucket u hu) [
      | inl stays ↦ e.kept u stays
      | inr (same, _) ↦ subst (Has hash reach docids_of known _) same e.here
    ];
  })

  -- One bucket on, still within reach.
  next_hand :
      (size : ℕ) (s : Trigram) (bucket distance : ℕ)
      → ((t : ℕ) → hash t + reach < size)
      → IsEntry hash reach docids_of known s
      → bucket ≡ hash s.trgm + distance
      → ltb reach (distance + 1) ≡ false
      → InHand hash reach docids_of known size s (bucket + 1) (distance + 1)
  next_hand size s bucket distance bound entry place close =
      let near : distance + 1 ≤ reach = ground arith in
      let limit = bound s.trgm in
      record { entry = entry; place = omega arith; near = near; inside = omega arith }

  -- The loop gives up or puts the entry in hand, and those it displaces, within reach of their
  -- hashes; it does not run out of fuel.
  pub insert_from-Inserted :
      (fuel size : ℕ) (ht : List Trigram) (x : Trigram) (bucket distance : ℕ)
      → ((t : ℕ) → hash t + reach < size)
      → IsTable hash reach docids_of known size ht
      → InHand hash reach docids_of known size x bucket distance
      → size - bucket ≤ fuel
      → Inserted hash reach docids_of known size ht x.trgm
          (insert_from hash reach fuel ht x bucket distance)
  unfolding insert_from
  insert_from-Inserted zero size ht x bucket distance bound h p enough =
      absurd (omega (arith, p.inside))
  insert_from-Inserted (suc fuel) size ht x bucket distance bound h p enough =
      elim (h.slots bucket) [
        | inl empty ↦
            let unused : ((get_or ht bucket empty_slot).num_docids == 0) ≡ true =
              ap (λ (s : Trigram). s.num_docids == 0) empty in
            rw unused (extended (put-Extends size ht x bucket distance h p empty))
        | inr (entry, ge, near) ↦
            let used : ((get_or ht bucket empty_slot).num_docids == 0) ≡ false =
              used_test (get_or ht bucket empty_slot) entry.used in
            let room = h.room in
            let inside = p.inside in
            let place = p.place in
            rw used
              (elim (Bool-cases (ltb (bucket - hash (get_or ht bucket empty_slot).trgm) distance)) [
                | inl nearer ↦
                    rw nearer
                      (elim (Bool-cases
                        (ltb reach (bucket - hash (get_or ht bucket empty_slot).trgm + 1))) [
                          | inl far ↦ rw far gave_up
                          | inr close ↦ rw close (
                              swap-Inserted size ht x bucket _ (omega arith) p.entry.used (
                                insert_from-Inserted fuel size (set_slot ht bucket x)
                                  (get_or ht bucket empty_slot) (bucket + 1) _ bound
                                  (set_slot-IsTable hash reach docids_of known size ht x bucket
                                    distance h p)
                                  (next_hand size _ bucket _ bound entry (omega arith) close)
                                  (omega arith)))
                        ])
                | inr farther ↦ rw farther (elim (Bool-cases (ltb reach (distance + 1))) [
                  | inl far ↦ rw far gave_up
                  | inr close ↦ rw close (
                      insert_from-Inserted fuel size ht x (bucket + 1) (distance + 1) bound h
                        (next_hand size x bucket distance bound p.entry place close) (omega arith))
                ])
              ])
      ]
    where
      used_test : (s : Trigram) → s.num_docids ≢ 0 → (s.num_docids == 0) ≡ false
      used_test s ne = ground arith
