-- ===== src/Pfor/Numbers.antt =====
-- Byte strings as numbers, lowest byte first.
use flocate.Prelude.{
  ℕ, zero, suc, ◌+◌, ◌-◌, ◌*◌, ◌/◌, ◌%◌, ◌^◌, ◌≤◌, ◌<◌, ◌≡◌, refl, sym, ap, ◌∙◌, [], ◌∷◌, ◌++◌,
  Bytes, length, take, drop, All, IsByte, arith,
}
use flocate.Prelude.Bits.{pow_byte}
use flocate.Bytes.Words.{or_bytes, little_endian, or_bytes-little_endian_zero}
use native.Mathlib.Nat.{
  pow-suc, div-div-eq-div-mul, zero-div, mod-one, mod-lt, mod-eq_of_lt, mod-add-div',
  add-mul-mod_self_right,
}

unfoldable pub number : Bytes → ℕ
number [] = 0
number (b ∷ p) = b + 256 * number p

pub number-lt : (p : Bytes) → All IsByte p → number p < 256 ^ length p
unfolding number
number-lt [] h = omega arith
number-lt (b ∷ p) (hb, h) = omega (arith, number-lt p h, pow-suc 256 (length p))

-- A byte string is the little-endian form of its number.
pub little_endian-number : (p : Bytes) → All IsByte p → little_endian (length p) (number p) ≡ p
unfolding number little_endian
little_endian-number [] h = refl
little_endian-number (b ∷ p) (hb, h) =
    let low : (b + 256 * number p) % 256 ≡ b = omega arith in
    let high : (b + 256 * number p) / 256 ≡ number p = omega arith in
    rw (low, high) (ap (◌∷◌ b) (little_endian-number p h))

pub or_bytes-number : (p : Bytes) → All IsByte p → or_bytes p 0 0 ≡ number p
or_bytes-number p h =
    ap (λ q. or_bytes q 0 0) (sym (little_endian-number p h))
    ∙ or_bytes-little_endian_zero (length p) (number p) (number-lt p h)

pub number-take_four :
    (p : Bytes) → All IsByte p → 4 ≤ length p → number (take 4 p) ≡ number p % 2 ^ 32
unfolding number
number-take_four (a ∷ b ∷ c ∷ d ∷ p) h l = omega (arith, h.0, h.1.0, h.1.1.0, h.1.1.1.0)
number-take_four [] h l = absurd (omega arith)
number-take_four (a ∷ []) h l = absurd (omega arith)
number-take_four (a ∷ b ∷ []) h l = absurd (omega arith)
number-take_four (a ∷ b ∷ c ∷ []) h l = absurd (omega arith)

pow256 : (k : ℕ) → 2 ^ (8 * suc k) ≡ 256 * 2 ^ (8 * k)
pow256 k = let e : 8 * suc k ≡ 8 * k + 8 = omega arith in ap (λ (t : ℕ). 2 ^ t) e ∙ pow_byte (8 * k)

pub number-drop : (k : ℕ) (p : Bytes) → All IsByte p → number (drop k p) ≡ number p / 2 ^ (8 * k)
unfolding number
number-drop zero p h = omega arith
number-drop (suc k) [] h = sym (zero-div (2 ^ (8 * suc k)))
number-drop (suc k) (b ∷ p) (hb, h) =
    let high : (b + 256 * number p) / 256 ≡ number p = omega arith in
    number-drop k p h
    ∙ ap (λ t. t / 2 ^ (8 * k)) (sym high)
    ∙ div-div-eq-div-mul (b + 256 * number p) 256 (2 ^ (8 * k))
    ∙ ap (λ t. (b + 256 * number p) / t) (sym (pow256 k))

div_byte-div : (k v : ℕ) → v / 256 / 2 ^ (8 * k) ≡ v / 2 ^ (8 * suc k)
div_byte-div k v = div-div-eq-div-mul v 256 (2 ^ (8 * k)) ∙ ap (λ t. v / t) (sym (pow256 k))

pub number-little_endian :
    (n v : ℕ) (rest : Bytes)
    → v < 2 ^ (8 * n)
    → number (little_endian n v ++ rest) ≡ v + number rest * 2 ^ (8 * n)
unfolding number little_endian
number-little_endian zero v rest h = omega arith
number-little_endian (suc n) v rest h = omega (
  arith,
  number-little_endian n (v / 256) rest (omega (arith, pow256 n)),
  ap (λ (t : ℕ). number rest * t) (pow256 n),
)

-- The low bytes of a number, and then those of what is left.
pub little_endian-split :
    (k n v : ℕ) → little_endian (k + n) v ≡ little_endian k v ++ little_endian n (v / 2 ^ (8 * k))
unfolding little_endian
little_endian-split zero n v =
    let e : zero + n ≡ n = omega arith in
    let same : v / 2 ^ (8 * zero) ≡ v = omega arith in
    ap (λ (t : ℕ). little_endian t v) e ∙ ap (little_endian n) (sym same)
little_endian-split (suc k) n v =
    let e : suc k + n ≡ suc (k + n) = omega arith in
    ap (λ (t : ℕ). little_endian t v) e
    ∙ ap (◌∷◌ (v % 256)) (
        little_endian-split k n (v / 256)
        ∙ ap (λ t. little_endian k (v / 256) ++ little_endian n t) (div_byte-div k v))

-- Only the low bytes count.
pub little_endian-low : (k v t : ℕ) → little_endian k (v + t * 2 ^ (8 * k)) ≡ little_endian k v
unfolding little_endian
little_endian-low zero v t = refl
little_endian-low (suc k) v t =
    let shifted = ap (λ (u : ℕ). t * u) (pow256 k) in
    let low : (v + t * 2 ^ (8 * suc k)) % 256 ≡ v % 256 = omega (arith, shifted) in
    let high : (v + t * 2 ^ (8 * suc k)) / 256 ≡ v / 256 + t * 2 ^ (8 * k) =
      omega (arith, shifted) in
    rw (low, high) (ap (◌∷◌ (v % 256)) (little_endian-low k (v / 256) t))

-- A writer's first bytes are those of fewer bytes.
pub take-little_endian : (k n v : ℕ) → k ≤ n → take k (little_endian n v) ≡ little_endian k v
unfolding little_endian
take-little_endian zero n v h = refl
take-little_endian (suc k) zero v h = absurd (omega arith)
take-little_endian (suc k) (suc n) v h =
    ap (◌∷◌ (v % 256)) (take-little_endian k n (v / 256) (omega arith))

pub drop-little_endian :
    (k n v : ℕ) → k ≤ n → drop k (little_endian n v) ≡ little_endian (n - k) (v / 2 ^ (8 * k))
unfolding little_endian
drop-little_endian zero n v h =
    let e : n - zero ≡ n = omega arith in
    let same : v / 2 ^ (8 * zero) ≡ v = omega arith in
    ap (little_endian n) (sym same) ∙ ap (λ (t : ℕ). little_endian t (v / 2 ^ (8 * zero))) (sym e)
drop-little_endian (suc k) zero v h = absurd (omega arith)
drop-little_endian (suc k) (suc n) v h =
    let e : suc n - suc k ≡ n - k = omega arith in
    drop-little_endian k n (v / 256) (omega arith)
    ∙ ap (little_endian (n - k)) (div_byte-div k v)
    ∙ ap (λ (t : ℕ). little_endian t (v / 2 ^ (8 * suc k))) (sym e)

-- The first bytes of a string are the lowest part of its number.
pub number-take :
    (k : ℕ) (p : Bytes) → All IsByte p → k ≤ length p → number (take k p) ≡ number p % 2 ^ (8 * k)
unfolding number
number-take zero p h l = sym (mod-one (number p))
number-take (suc k) [] h l = absurd (omega arith)
number-take (suc k) (b ∷ p) (hb, h) l =
    let n = number p in
    let parts : b + 256 * n ≡ b + 256 * (n % 2 ^ (8 * k)) + n / 2 ^ (8 * k) * 2 ^ (8 * suc k) =
      omega (arith, mod-add-div' n (2 ^ (8 * k)), ap (λ (t : ℕ). n / 2 ^ (8 * k) * t) (pow256 k)) in
    let low : b + 256 * (n % 2 ^ (8 * k)) < 2 ^ (8 * suc k) =
      omega (arith, pow256 k, mod-lt n (pow_pos (8 * k))) in
    ap (λ t. b + 256 * t) (number-take k p h (omega arith))
    ∙ sym (
        ap (λ t. t % 2 ^ (8 * suc k)) parts
        ∙ add-mul-mod_self_right _ (n / 2 ^ (8 * k)) (2 ^ (8 * suc k))
        ∙ mod-eq_of_lt low)
  where
    pow_pos : (m : ℕ) → 0 < 2 ^ m
    pow_pos zero = omega arith
    pow_pos (suc m) = omega (arith, pow_pos m, pow-suc 2 m)
