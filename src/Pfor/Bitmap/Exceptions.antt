-- ===== src/Pfor/Bitmap/Exceptions.antt =====
-- Where the exceptions of a block with bitmap exceptions go.
use flocate.Prelude.{
  ℕ, suc, ◌+◌, ◌*◌, ◌/◌, ◌%◌, ◌^◌, ◌<◌, bit_or, ◌≡◌, refl, sym, ap, ◌∙◌, false, List, [], ◌∷◌, ◌++◌,
  append_assoc, some, length, length-append, replicate, All, arith, ◌==◌, inl, inr, Bool-cases,
}
use flocate.Prelude.Bits.{bit_or-above, pow-add}
use flocate.Pfor.Bits.{
  encode_bitmap, mask_all, bytes_for_packed_bits, packed, write_all, new_writer,
}
use flocate.Pfor.Packing.{FitsIn, pow_pos}
use flocate.Pfor.BlockRoundTrip.{mask_all_lem}
use flocate.Pfor.Blocks.{exceptions, encode_base}
use flocate.Pfor.Bitmap.{pack_bits, flags, set_at, put_exceptions, join_all}
use flocate.Pfor.Bitmap.Indexes.{positions}
use native.Mathlib.Nat.{mod-add-div', mod-lt, div-lt_iff_lt-mul, mul_comm}

pub flags-FitsIn : (bits : ℕ) (vals : List ℕ) → All (FitsIn 1) (flags bits vals)
unfolding flags
flags-FitsIn bits [] = tt
flags-FitsIn bits (val ∷ vals) = (ground arith, flags-FitsIn bits vals)

pub length-flags : (bits : ℕ) (vals : List ℕ) → length (flags bits vals) ≡ length vals
unfolding flags
length-flags bits [] = refl
length-flags bits (val ∷ vals) = ap suc (length-flags bits vals)

pub length-positions :
    (bits i : ℕ) (vals : List ℕ)
    → length (positions i (flags bits vals)) ≡ length (exceptions bits vals)
unfolding positions flags exceptions
length-positions bits i [] = refl
length-positions bits i (val ∷ vals) = elim (Bool-cases (val / 2 ^ bits == 0)) [
  | inl fits ↦ rw fits (length-positions bits (i + 1) vals)
  | inr big ↦ rw big (ap suc (length-positions bits (i + 1) vals))
]

pub highs : ℕ → List ℕ → List ℕ
highs bits [] = []
highs bits (val ∷ vals) = val / 2 ^ bits ∷ highs bits vals

set_at-here :
    (front back : List ℕ) (x val : ℕ)
    → set_at (front ++ (x ∷ back)) (length front) val ≡ some (front ++ (val ∷ back))
unfolding set_at
set_at-here [] back x val = refl
set_at-here (y ∷ front) back x val = rw (set_at-here front back x val) refl

put_step :
    (out out' : List ℕ) (idx val : ℕ) (idxs vals : List ℕ)
    → set_at out idx val ≡ some out'
    → put_exceptions out (idx ∷ idxs) (val ∷ vals) ≡ put_exceptions out' idxs vals
unfolding put_exceptions
put_step out out' idx val idxs vals e = rw (e, put_exceptions) refl

-- The exceptions reach their places, and the other places stay zero.
pub put-highs :
    (bits : ℕ) (front vals : List ℕ)
    → put_exceptions
        (front ++ replicate (length vals) 0)
        (positions (length front) (flags bits vals))
        (exceptions bits vals)
      ≡ some (front ++ highs bits vals)
unfolding positions flags exceptions highs put_exceptions
put-highs bits front [] = refl
put-highs bits front (val ∷ vals) =
    let next = front ++ (val / 2 ^ bits ∷ []) in
    let later =
      ap
        (λ (n : ℕ).
          put_exceptions (next ++ replicate (length vals) 0) (positions n (flags bits vals))
            (exceptions bits vals))
        (sym (length-append front (val / 2 ^ bits ∷ [])))
      ∙ put-highs bits next vals
      ∙ ap (λ f. some f) (append_assoc front (val / 2 ^ bits ∷ []) (highs bits vals)) in
    let moved = append_assoc front (val / 2 ^ bits ∷ []) (replicate (length vals) 0) in
    let start =
      ap
        (λ out.
          put_exceptions out (positions (length front + 1) (flags bits vals))
            (exceptions bits vals))
        (sym moved)
      ∙ later in
    elim (Bool-cases (val / 2 ^ bits == 0)) [
      | inl fits ↦
          let none_high : val / 2 ^ bits ≡ 0 = ground arith in
          rw fits (
            ap
              (λ (h : ℕ).
                put_exceptions (front ++ (h ∷ replicate (length vals) 0))
                  (positions (length front + 1) (flags bits vals)) (exceptions bits vals))
              (sym none_high)
            ∙ start)
      | inr big ↦ rw big (
          put_step _ _ (length front) (val / 2 ^ bits)
            (positions (length front + 1) (flags bits vals)) (exceptions bits vals)
            (set_at-here front (replicate (length vals) 0) 0 (val / 2 ^ bits))
          ∙ start)
    ]

-- A value is its exception and its low bits.
pub join_all_lem :
    (bits : ℕ) (vals : List ℕ)
    → All (λ v. v < 2 ^ 32) vals
    → join_all bits (highs bits vals) (mask_all bits vals) ≡ vals
unfolding join_all highs mask_all
join_all_lem bits [] h = refl
join_all_lem bits (val ∷ vals) (h, hs) =
    let parts = mod-add-div' val (2 ^ bits) in
    let fits : val / 2 ^ bits * 2 ^ bits % 2 ^ 32 ≡ val / 2 ^ bits * 2 ^ bits =
      omega (arith, parts) in
    let joined : bit_or (val / 2 ^ bits * 2 ^ bits % 2 ^ 32) (val % 2 ^ bits) ≡ val =
      ap (λ t. bit_or t (val % 2 ^ bits)) fits
      ∙ bit_or-above bits (val % 2 ^ bits) (val / 2 ^ bits) (mod-lt val (pow_pos bits))
      ∙ parts in
    rw joined (ap (◌∷◌ val) (join_all_lem bits vals hs))

pub exceptions-FitsIn :
    (bits more : ℕ) (vals : List ℕ)
    → All (FitsIn (bits + more)) vals
    → All (FitsIn more) (exceptions bits vals)
unfolding exceptions
exceptions-FitsIn bits more [] h = tt
exceptions-FitsIn bits more (val ∷ vals) (h, hs) = elim (Bool-cases (val / 2 ^ bits == 0)) [
  | inl fits ↦ rw fits (exceptions-FitsIn bits more vals hs)
  | inr big ↦ rw big (
    (div-lt_iff_lt-mul (pow_pos bits)).1
        (omega (arith, h, pow-add bits more, mul_comm (2 ^ bits) (2 ^ more))),
    exceptions-FitsIn bits more vals hs,
  )
]

pub pack_bits-encode :
    (bits : ℕ) (vals : List ℕ)
    → All (FitsIn bits) vals
    → pack_bits bits vals ≡ encode_base false bits vals
unfolding pack_bits encode_base encode_bitmap
pack_bits-encode bits vals h =
    ap (λ vs. packed (bytes_for_packed_bits (length vals) bits) (write_all bits new_writer vs))
      (sym (mask_all_lem bits vals h))
