-- ===== src/Hash/Buffer.antt =====
-- The fixed buffers of src/metadata_hash.cpp after a memcpy into them.
use flocate.Prelude.{
  ℕ, zero, suc, ◌+◌, ◌≤◌, ◌≡◌, refl, sym, ap, ◌∙◌, Bytes, [], ◌∷◌, ◌++◌, length, take, drop,
  length-drop, length-append, length-take, append-nil, append_assoc, arith, take-append_length,
}
use flocate.Hash.Words.{write_at}

pub length-take_le : (n : ℕ) (xs : Bytes) → n ≤ length xs → length (take n xs) ≡ n
length-take_le n xs h = omega (arith, length-take n xs)

pub drop_all : (n : ℕ) (xs : Bytes) → length xs ≤ n → drop n xs ≡ []
drop_all zero [] h = refl
drop_all zero (x ∷ xs) h = absurd (omega arith)
drop_all (suc n) [] h = refl
drop_all (suc n) (x ∷ xs) h = drop_all n xs (omega arith)

pub take_all : (n : ℕ) (xs : Bytes) → length xs ≤ n → take n xs ≡ xs
take_all zero [] h = refl
take_all zero (x ∷ xs) h = absurd (omega arith)
take_all (suc n) [] h = refl
take_all (suc n) (x ∷ xs) h = ap (◌∷◌ x) (take_all n xs (omega arith))

pub length-write_at :
    (buffer input : Bytes) (at : ℕ)
    → at + length input ≤ length buffer
    → length (write_at buffer at input) ≡ length buffer
length-write_at buffer input at h = omega (
  arith,
  length-append (take at buffer) (input ++ drop (at + length input) buffer),
  length-append input (drop (at + length input) buffer),
  length-drop (at + length input) buffer,
  length-take_le at buffer (omega arith),
)

-- The front of the buffer, up to the end of the copy.
pub take-write_at :
    (buffer input : Bytes) (at n : ℕ)
    → at + length input ≤ length buffer
    → n ≡ at + length input
    → take n (write_at buffer at input) ≡ take at buffer ++ input
take-write_at buffer input at n h e =
    ap (take n) (sym (append_assoc (take at buffer) input (drop (at + length input) buffer)))
    ∙ take-append_length n (take at buffer ++ input) _ (
        omega (arith, length-append (take at buffer) input, length-take_le at buffer (omega arith)))

-- A copy up to the end of the buffer.
pub write_at_full :
    (buffer input : Bytes) (at : ℕ)
    → at + length input ≡ length buffer
    → write_at buffer at input ≡ take at buffer ++ input
write_at_full buffer input at h =
    ap (λ t. take at buffer ++ (input ++ t)) (drop_all (at + length input) buffer (omega arith))
    ∙ ap (◌++◌ (take at buffer)) (append-nil input)

-- The front of two pieces, of which the second gives the last `k` bytes.
pub take-append_ge :
    (n k : ℕ) (xs ys : Bytes) → n ≡ length xs + k → take n (xs ++ ys) ≡ xs ++ take k ys
take-append_ge n k [] ys h = let e : n ≡ k = omega arith in ap (λ (t : ℕ). take t ys) e
take-append_ge zero k (x ∷ xs) ys h = absurd (omega arith)
take-append_ge (suc n) k (x ∷ xs) ys h = ap (◌∷◌ x) (take-append_ge n k xs ys (omega arith))

pub drop-append_ge : (n k : ℕ) (xs ys : Bytes) → n ≡ length xs + k → drop n (xs ++ ys) ≡ drop k ys
drop-append_ge n k [] ys h = let e : n ≡ k = omega arith in ap (λ (t : ℕ). drop t ys) e
drop-append_ge zero k (x ∷ xs) ys h = absurd (omega arith)
drop-append_ge (suc n) k (x ∷ xs) ys h = drop-append_ge n k xs ys (omega arith)
