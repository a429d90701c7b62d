-- ===== src/Locate/Candidates/Sorted.antt =====
-- Unions and intersections of ascending lists.
use flocate.Prelude.{
  ℕ, suc, ◌≤◌, ◌<◌, ◌≡◌, refl, true, false, List, [], ◌∷◌, ltb, arith, Bool-cases, inl, inr,
}
use flocate.Trigram.Windows.{mem}
use flocate.Locate.Candidates.{set_union, set_intersection}

-- Ascending, and all above or at a bound.
abbrev pub IsAscending : ℕ → List ℕ → Type 0
IsAscending low [] = Unit
IsAscending low (x ∷ xs) = (low ≤ x) × IsAscending (suc x) xs

pub IsAscending-weaken :
    (low low' : ℕ) (xs : List ℕ) → low ≤ low' → IsAscending low' xs → IsAscending low xs
IsAscending-weaken low low' [] h s = tt
IsAscending-weaken low low' (x ∷ xs) h s = (omega (arith, s.0), s.1)

pub set_union-IsAscending :
    (low : ℕ) (xs ys : List ℕ)
    → IsAscending low xs
    → IsAscending low ys
    → IsAscending low (set_union xs ys)
unfolding set_union
set_union-IsAscending low [] ys hx hy = hy
set_union-IsAscending low (x ∷ xs) [] hx hy = hx
set_union-IsAscending low (x ∷ xs) (y ∷ ys) hx hy = elim (Bool-cases (ltb x y)) [
  | inl less ↦ rw less (hx.0, set_union-IsAscending (suc x) xs (y ∷ ys) hx.1 (ground arith, hy.1))
  | inr ge ↦ rw ge (elim (Bool-cases (ltb y x)) [
    | inl more ↦ rw more (hy.0, set_union-IsAscending (suc y) (x ∷ xs) ys (ground arith, hx.1) hy.1)
    | inr eq ↦ rw eq (
      hx.0,
      set_union-IsAscending (suc x) xs ys hx.1
          (IsAscending-weaken (suc x) (suc y) ys (ground arith) hy.1),
    )
  ])
]

pub mem-set_union_left : (d : ℕ) (xs ys : List ℕ) → mem d xs ≡ true → mem d (set_union xs ys) ≡ true
unfolding set_union mem
mem-set_union_left d [] ys h = absurd (ground arith)
mem-set_union_left d (x ∷ xs) [] h = h
mem-set_union_left d (x ∷ xs) (y ∷ ys) h = ground (
  arith,
  mem-set_union_left d xs (y ∷ ys),
  mem-set_union_left d (x ∷ xs) ys,
  mem-set_union_left d xs ys,
)

pub mem-set_union_right :
    (d : ℕ) (xs ys : List ℕ) → mem d ys ≡ true → mem d (set_union xs ys) ≡ true
unfolding set_union mem
mem-set_union_right d [] ys h = h
mem-set_union_right d (x ∷ xs) [] h = absurd (ground arith)
mem-set_union_right d (x ∷ xs) (y ∷ ys) h = ground (
  arith,
  mem-set_union_right d xs (y ∷ ys),
  mem-set_union_right d (x ∷ xs) ys,
  mem-set_union_right d xs ys,
)

-- An ascending list holds nothing below its bound.
mem-below : (low d : ℕ) (xs : List ℕ) → IsAscending low xs → d < low → mem d xs ≡ false
unfolding mem
mem-below low d [] s h = refl
mem-below low d (x ∷ xs) s h = ground (arith, s.0, mem-below (suc x) d xs s.1)

pub mem-set_intersection :
    (d low : ℕ) (xs ys : List ℕ)
    → IsAscending low xs
    → IsAscending low ys
    → mem d xs ≡ true
    → mem d ys ≡ true
    → mem d (set_intersection xs ys) ≡ true
unfolding set_intersection mem
mem-set_intersection d low [] ys sx sy hx hy = hx
mem-set_intersection d low (x ∷ xs) [] sx sy hx hy = hy
mem-set_intersection d low (x ∷ xs) (y ∷ ys) sx sy hx hy = elim (Bool-cases (ltb x y)) [
  | inl less ↦ rw less (
      mem-set_intersection d low xs (y ∷ ys)
        (IsAscending-weaken low (suc x) xs (omega (arith, sx.0)) sx.1) sy
        (ground (arith, mem-below y d (y ∷ ys) (omega arith, sy.1))) hy)
  | inr ge ↦ rw ge (elim (Bool-cases (ltb y x)) [
    | inl more ↦ rw more (
        mem-set_intersection d low (x ∷ xs) ys sx
          (IsAscending-weaken low (suc y) ys (omega (arith, sy.0)) sy.1) hx
          (ground (arith, mem-below x d (x ∷ xs) (omega arith, sx.1))))
    | inr eq ↦ rw eq (
        ground (
          arith,
          mem-set_intersection d (suc x) xs ys sx.1
              (IsAscending-weaken (suc x) (suc y) ys (ground arith) sy.1),
        ))
  ])
]

pub set_intersection-IsAscending :
    (low : ℕ) (xs ys : List ℕ)
    → IsAscending low xs
    → IsAscending low ys
    → IsAscending low (set_intersection xs ys)
unfolding set_intersection
set_intersection-IsAscending low [] ys hx hy = tt
set_intersection-IsAscending low (x ∷ xs) [] hx hy = tt
set_intersection-IsAscending low (x ∷ xs) (y ∷ ys) hx hy = elim (Bool-cases (ltb x y)) [
  | inl less ↦ rw less (
      set_intersection-IsAscending low xs (y ∷ ys)
        (IsAscending-weaken low (suc x) xs (omega (arith, hx.0)) hx.1) hy)
  | inr ge ↦ rw ge (elim (Bool-cases (ltb y x)) [
    | inl more ↦ rw more (
        set_intersection-IsAscending low (x ∷ xs) ys hx
          (IsAscending-weaken low (suc y) ys (omega (arith, hy.0)) hy.1))
    | inr eq ↦ rw eq (
      hx.0,
      set_intersection-IsAscending (suc x) xs ys hx.1
          (IsAscending-weaken (suc x) (suc y) ys (ground arith) hy.1),
    )
  ])
]
