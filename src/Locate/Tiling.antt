-- ===== src/Locate/Tiling.antt =====
-- The calls of print for the names of blocks tile the sequence numbers, and their messages are the
-- names that match.
use flocate.Prelude.{
  ℕ, suc, ◌+◌, ◌-◌, ◌*◌, ◌%◌, ◌^◌, ◌≤◌, ◌<◌, ◌≡◌, refl, sym, ap, ◌∙◌, subst, Bool, true, false,
  List, Bytes, [], ◌∷◌, ◌++◌, none, some, is_empty, length, if◌then◌else◌, Bool-cases, inl, inr,
  arith,
}
use flocate.Serializer.{Element}
use flocate.Serializer.Merges.{Tiles}
use flocate.Serializer.Limit.{messages, messages-empty}
use flocate.Locate.{block_names, test_candidate, scan_names, scan_file_block}

pub Tiles-append :
    (first middle end : ℕ) (xs ys : List Element)
    → Tiles first middle xs
    → Tiles middle end ys
    → Tiles first end (xs ++ ys)
Tiles-append first middle end [] ys tx ty = subst (λ (t : ℕ). Tiles t end ys) (sym tx) ty
Tiles-append first middle end (x ∷ xs) ys tx ty =
    (tx.0, tx.1, Tiles-append (first + x.skip) middle end xs ys tx.2 ty)

pub messages-append : (xs ys : List Element) → messages (xs ++ ys) ≡ messages xs ++ messages ys
unfolding messages
messages-append [] ys = refl
messages-append (x ∷ xs) ys = elim (Bool-cases (is_empty x.msg)) [
  | inl empty ↦ rw empty (messages-append xs ys)
  | inr message ↦ rw message (ap (◌∷◌ x.msg) (messages-append xs ys))
]

-- The names that match.
unfoldable pub select : (Bytes → Bool) → List Bytes → List Bytes
select found [] = []
select found (name ∷ names) = if found name then name ∷ select found names else select found names

select-found :
    (found : Bytes → Bool) (name : Bytes) (names : List Bytes)
    → found name ≡ true
    → select found (name ∷ names) ≡ name ∷ select found names
unfolding select
select-found found name names h = rw h refl

select-other :
    (found : Bytes → Bool) (name : Bytes) (names : List Bytes)
    → found name ≡ false
    → select found (name ∷ names) ≡ select found names
unfolding select
select-other found name names h = rw h refl

-- What is printed of candidates: the names that are not empty of files that can be seen.
unfoldable pub shown : (Bytes → Bool) → List Bytes → List Bytes
shown is_ok [] = []
shown is_ok (name ∷ names) =
    if is_ok name
    then (if is_empty name then shown is_ok names else name ∷ shown is_ok names)
    else shown is_ok names

module _ (is_ok found : Bytes → Bool) where
  candidate-Tiles :
      (candidate : Bytes) (first next : ℕ) (elements : List Element) (end : ℕ)
      → first < next
      → next < 2 ^ 64
      → Tiles next end elements
      → Tiles first end (test_candidate is_ok candidate first next ∷ elements)
  unfolding test_candidate
  candidate-Tiles candidate first next elements end lt bound t =
      let skip : (next + 2 ^ 64 - first) % 2 ^ 64 ≡ next - first = omega arith in
      let back : next ≡ first + (next + 2 ^ 64 - first) % 2 ^ 64 = omega arith in
      (refl, omega arith, subst (λ (t : ℕ). Tiles t end elements) back t)

  waiting-Tiles :
      (seq first : ℕ) (candidate : Bytes) (names : List Bytes)
      → suc seq < 2 ^ 32
      → first + length (select found names) < suc seq * 2 ^ 32
      → Tiles first (suc seq * 2 ^ 32) (scan_names is_ok found seq first (some candidate) names)
  unfolding scan_names
  waiting-Tiles seq first candidate [] bound room =
      let whole : suc seq * 2 ^ 32 % 2 ^ 64 ≡ suc seq * 2 ^ 32 = omega arith in
      rw whole (
        candidate-Tiles candidate first (suc seq * 2 ^ 32) [] (suc seq * 2 ^ 32) (omega arith)
          (omega arith) refl)
  waiting-Tiles seq first candidate (name ∷ names) bound room = elim (Bool-cases (found name)) [
    | inl match ↦ rw match (
        candidate-Tiles candidate first (first + 1) _ (suc seq * 2 ^ 32) (omega arith)
          (omega (arith, ap length (select-found found name names match)))
          (waiting-Tiles seq (first + 1) name names bound
            (omega (arith, ap length (select-found found name names match)))))
    | inr other ↦ rw other (
        waiting-Tiles seq first candidate names bound
          (omega (arith, ap length (select-other found name names other))))
  ]

  names-Tiles :
      (seq : ℕ) (names : List Bytes)
      → suc seq < 2 ^ 32
      → length (select found names) ≤ 2 ^ 32
      → Tiles
          (seq * 2 ^ 32)
          (suc seq * 2 ^ 32)
          (scan_names is_ok found seq (seq * 2 ^ 32 % 2 ^ 64) none names)
  unfolding scan_names
  names-Tiles seq [] bound room = (omega arith, omega arith, omega arith)
  names-Tiles seq (name ∷ names) bound room = elim (Bool-cases (found name)) [
    | inl match ↦
        let first : seq * 2 ^ 32 % 2 ^ 64 ≡ seq * 2 ^ 32 = omega arith in
        rw (match, first)
          (waiting-Tiles seq (seq * 2 ^ 32) name names bound
            (omega (arith, ap length (select-found found name names match))))
    | inr other ↦ rw other (
        names-Tiles seq names bound
          (omega (arith, ap length (select-other found name names other))))
  ]

  candidate_message :
      (candidate : Bytes) (first next : ℕ) (elements : List Element) (names : List Bytes)
      → messages elements ≡ shown is_ok names
      → messages (test_candidate is_ok candidate first next ∷ elements)
        ≡ shown is_ok (candidate ∷ names)
  unfolding test_candidate messages shown
  candidate_message candidate first next elements names h = elim (Bool-cases (is_ok candidate)) [
    | inr hidden ↦ rw hidden h
    | inl visible ↦ rw visible (elim (Bool-cases (is_empty candidate)) [
      | inl empty ↦ rw empty h
      | inr name ↦ rw name (ap (◌∷◌ candidate) h)
    ])
  ]

  none_left : messages [] ≡ shown is_ok (select found [])
  unfolding messages shown select
  none_left = refl

  waiting_messages :
      (seq first : ℕ) (candidate : Bytes) (names : List Bytes)
      → messages (scan_names is_ok found seq first (some candidate) names)
        ≡ shown is_ok (candidate ∷ select found names)
  unfolding scan_names
  waiting_messages seq first candidate [] =
      candidate_message candidate first _ [] (select found []) none_left
  waiting_messages seq first candidate (name ∷ names) = elim (Bool-cases (found name)) [
    | inl match ↦
        rw (match, select-found found name names match)
          (candidate_message candidate first (first + 1) _ (name ∷ select found names)
            (waiting_messages seq (first + 1) name names))
    | inr other ↦
        rw (other, select-other found name names other) (waiting_messages seq first candidate names)
  ]

  names_messages :
      (seq first : ℕ) (names : List Bytes)
      → messages (scan_names is_ok found seq first none names) ≡ shown is_ok (select found names)
  unfolding scan_names
  names_messages seq first [] =
      messages-empty (record { seq = seq * 2 ^ 32 % 2 ^ 64; skip = 2 ^ 32; msg = [] }) [] refl
      ∙ none_left
  names_messages seq first (name ∷ names) = elim (Bool-cases (found name)) [
    | inl match ↦
        rw (match, select-found found name names match) (waiting_messages seq first name names)
    | inr other ↦ rw (other, select-other found name names other) (names_messages seq first names)
  ]

  -- The calls of print for a block tile its sequence numbers.
  pub scan_file_block-Tiles :
      (block : Bytes) (seq : ℕ)
      → suc seq < 2 ^ 32
      → length (select found (block_names [] block)) ≤ 2 ^ 32
      → Tiles (seq * 2 ^ 32) (suc seq * 2 ^ 32) (scan_file_block is_ok found block seq)
  unfolding scan_file_block
  scan_file_block-Tiles block seq bound room = names-Tiles seq (block_names [] block) bound room

  pub scan_file_block-messages :
      (block : Bytes) (seq : ℕ)
      → messages (scan_file_block is_ok found block seq)
        ≡ shown is_ok (select found (block_names [] block))
  unfolding scan_file_block
  scan_file_block-messages block seq = names_messages seq _ (block_names [] block)
