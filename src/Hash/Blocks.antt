-- ===== src/Hash/Blocks.antt =====
-- The loops of src/metadata_hash.cpp that take whole blocks from the front of the data, for any
-- block size and any state: their result does not depend on how the data is cut into pieces.
use flocate.Prelude.{
  ℕ, zero, suc, ◌≤◌, ◌<◌, ◌≡◌, refl, sym, ap, ◌∙◌, Bytes, [], ◌∷◌, ◌++◌, length, take, drop,
  length-drop, length-append, leb, if◌then◌else◌, Bool-cases, inl, inr, leb→le, arith, ◌%◌,
  take-append_length, drop-append_length,
}
use native.Mathlib.Nat.{mod-eq_of_lt, mod-eq-sub-mod}

-- A prefix that is long enough is taken from the front part alone.
pub take-append_le : (n : ℕ) (xs ys : Bytes) → n ≤ length xs → take n (xs ++ ys) ≡ take n xs
take-append_le zero xs ys h = refl
take-append_le (suc n) [] ys h = absurd (omega arith)
take-append_le (suc n) (x ∷ xs) ys h = ap (◌∷◌ x) (take-append_le n xs ys (omega arith))

pub drop-append_le : (n : ℕ) (xs ys : Bytes) → n ≤ length xs → drop n (xs ++ ys) ≡ drop n xs ++ ys
drop-append_le zero xs ys h = refl
drop-append_le (suc n) [] ys h = absurd (omega arith)
drop-append_le (suc n) (x ∷ xs) ys h = drop-append_le n xs ys (omega arith)

module _ {ℓ} {S : Type ℓ} (size : ℕ) (step : S → Bytes → S) where
  -- The state and the bytes that are left, fewer than a block.
  unfoldable pub absorb : ℕ → S → Bytes → S × Bytes
  absorb zero s p = (s, p)
  absorb (suc fuel) s p =
      let rest = absorb fuel (step s (take size p)) (drop size p) in
      if leb size (length p) then rest else (s, p)

  abbrev pub absorb_all : S → Bytes → S × Bytes
  absorb_all s p = absorb (length p) s p

  absorb_step :
      (fuel : ℕ) (s : S) (p : Bytes)
      → size ≤ length p
      → absorb (suc fuel) s p ≡ absorb fuel (step s (take size p)) (drop size p)
  unfolding absorb
  absorb_step fuel s p h = ground arith

  absorb_stop : (fuel : ℕ) (s : S) (p : Bytes) → length p < size → absorb fuel s p ≡ (s, p)
  unfolding absorb
  absorb_stop zero s p h = refl
  absorb_stop (suc fuel) s p h = ground arith

  absorb_fuel :
      (n m : ℕ) (s : S) (p : Bytes)
      → 1 ≤ size
      → length p ≤ n
      → length p ≤ m
      → absorb n s p ≡ absorb m s p
  absorb_fuel zero m s p pos ln lm =
      absorb_stop zero s p (omega arith) ∙ sym (absorb_stop m s p (omega arith))
  absorb_fuel (suc n) zero s p pos ln lm =
      absorb_stop (suc n) s p (omega arith) ∙ sym (absorb_stop zero s p (omega arith))
  absorb_fuel (suc n) (suc m) s p pos ln lm = elim (Bool-cases (leb size (length p))) [
    | inl whole ↦
        let le = leb→le size (length p) whole in
        absorb_step n s p le
        ∙ absorb_fuel n m _ (drop size p) pos (omega (arith, length-drop size p))
            (omega (arith, length-drop size p))
        ∙ sym (absorb_step m s p le)
    | inr short ↦
        absorb_stop (suc n) s p (ground arith) ∙ sym (absorb_stop (suc m) s p (ground arith))
  ]

  pub absorb_all_step :
      (s : S) (p : Bytes)
      → 1 ≤ size
      → size ≤ length p
      → absorb_all s p ≡ absorb_all (step s (take size p)) (drop size p)
  absorb_all_step s p pos h =
      absorb_fuel (length p) (suc (length p)) s p pos (omega arith) (omega arith)
      ∙ absorb_step (length p) s p h
      ∙ absorb_fuel (length p) (length (drop size p)) _ (drop size p) pos
          (omega (arith, length-drop size p)) (omega arith)

  pub absorb_all_stop : (s : S) (p : Bytes) → length p < size → absorb_all s p ≡ (s, p)
  absorb_all_stop s p h = absorb_stop (length p) s p h

  absorb_pieces_stop :
      (s : S) (a b : Bytes)
      → length a < size
      → absorb_all s (a ++ b) ≡ absorb_all (absorb_all s a).0 ((absorb_all s a).1 ++ b)
  absorb_pieces_stop s a b h =
      ap (λ (r : S × Bytes). absorb_all r.0 (r.1 ++ b)) (sym (absorb_all_stop s a h))

  -- The bytes of a first piece may be absorbed before the others are there.
  absorb_pieces :
      (n : ℕ) (s : S) (a b : Bytes)
      → 1 ≤ size
      → length a ≤ n
      → absorb_all s (a ++ b) ≡ absorb_all (absorb_all s a).0 ((absorb_all s a).1 ++ b)
  absorb_pieces zero s a b pos h = absorb_pieces_stop s a b (omega arith)
  absorb_pieces (suc n) s a b pos h = elim (Bool-cases (leb size (length a))) [
    | inr short ↦ absorb_pieces_stop s a b (ground arith)
    | inl whole ↦
        let le = leb→le size (length a) whole in
        absorb_all_step s (a ++ b) pos (omega (arith, length-append a b))
        ∙ ap (λ t. absorb_all (step s t) (drop size (a ++ b))) (take-append_le size a b le)
        ∙ ap (absorb_all (step s (take size a))) (drop-append_le size a b le)
        ∙ absorb_pieces n (step s (take size a)) (drop size a) b pos
            (omega (arith, length-drop size a))
        ∙ ap (λ (r : S × Bytes). absorb_all r.0 (r.1 ++ b)) (sym (absorb_all_step s a pos le))
  ]

  pub absorb_all-append :
      (s : S) (a b : Bytes)
      → 1 ≤ size
      → absorb_all s (a ++ b) ≡ absorb_all (absorb_all s a).0 ((absorb_all s a).1 ++ b)
  absorb_all-append s a b pos = absorb_pieces (length a) s a b pos (omega arith)

  -- What is left is less than a block.
  absorb-lt : (n : ℕ) (s : S) (p : Bytes) → 1 ≤ size → length p ≤ n → length (absorb n s p).1 < size
  unfolding absorb
  absorb-lt zero s p pos h = omega arith
  absorb-lt (suc n) s p pos h =
      ground (arith, length-drop size p, absorb-lt n (step s (take size p)) (drop size p) pos)

  pub absorb_all-lt : (s : S) (p : Bytes) → 1 ≤ size → length (absorb_all s p).1 < size
  absorb_all-lt s p pos = absorb-lt (length p) s p pos (omega arith)

  -- A whole block in front.
  pub absorb_all_block :
      (s : S) (block p : Bytes)
      → 1 ≤ size
      → length block ≡ size
      → absorb_all s (block ++ p) ≡ absorb_all (step s block) p
  absorb_all_block s block p pos e =
      absorb_all_step s (block ++ p) pos (omega (arith, length-append block p))
      ∙ ap (λ t. absorb_all (step s t) (drop size (block ++ p))) (take-append_length size block p e)
      ∙ ap (absorb_all (step s block)) (drop-append_length size block p e)

  absorb-mod :
      (n : ℕ) (s : S) (p : Bytes)
      → 1 ≤ size
      → length p ≤ n
      → length (absorb n s p).1 ≡ length p % size
  absorb-mod zero s p pos h =
      ap (λ (r : S × Bytes). length r.1) (absorb_stop zero s p (omega arith))
      ∙ sym (mod-eq_of_lt (omega arith))
  absorb-mod (suc n) s p pos h = elim (Bool-cases (leb size (length p))) [
    | inr short ↦
        ap (λ (r : S × Bytes). length r.1) (absorb_stop (suc n) s p (ground arith))
        ∙ sym (mod-eq_of_lt (ground arith))
    | inl whole ↦
        let le = leb→le size (length p) whole in
        ap (λ (r : S × Bytes). length r.1) (absorb_step n s p le)
        ∙ absorb-mod n _ (drop size p) pos (omega (arith, length-drop size p))
        ∙ ap (λ (t : ℕ). t % size) (length-drop size p)
        ∙ sym (mod-eq-sub-mod le)
  ]

  -- What is left is the remainder.
  pub absorb_all-mod : (s : S) (p : Bytes) → 1 ≤ size → length (absorb_all s p).1 ≡ length p % size
  absorb_all-mod s p pos = absorb-mod (length p) s p pos (omega arith)
