-- ===== src/Prelude/Bits.antt =====
-- Bitwise or of numbers whose bits do not overlap is their sum.
use Prim.Native.Nat.{
  ℕ, zero, suc, ◌+◌, ◌*◌, ◌/◌, ◌%◌, ◌^◌, ◌≤◌, ◌<◌, max, bit_or, digits, bit_or-bitwise,
}
use mathlib.Core.Path.{◌≡◌, refl, ap}
use native.Mathlib.Nat.{pow-suc, add-zero, add-suc}
use native.Mathlib.Numerals.{towards_suc}
use native.Mathlib.Omega.{arith}

-- The definition that the native operation stands for, with its fuel.
abbrev or_digits : ℕ → ℕ → ℕ → ℕ
or_digits n a b = digits (λ b. b) max n a b

or_digits_fuel : (n m a b : ℕ) → a ≤ n → a ≤ m → or_digits n a b ≡ or_digits m a b
or_digits_fuel zero zero a b p q = refl
or_digits_fuel zero (suc m) zero b p q = refl
or_digits_fuel zero (suc m) (suc a) b p q = absurd (omega arith)
or_digits_fuel (suc n) zero zero b p q = refl
or_digits_fuel (suc n) zero (suc a) b p q = absurd (omega arith)
or_digits_fuel (suc n) (suc m) zero b p q = refl
or_digits_fuel (suc n) (suc m) (suc a) b p q =
    omega (arith, or_digits_fuel n m (suc a / 2) (b / 2) (omega arith) (omega arith))

pub bit_or-zero_left : (b : ℕ) → bit_or 0 b ≡ b
bit_or-zero_left b = bit_or-bitwise 0 b

pub bit_or_step : (a b : ℕ) → bit_or a b ≡ bit_or (a / 2) (b / 2) * 2 + max (a % 2) (b % 2)
bit_or_step zero b = omega (arith, bit_or-zero_left b, bit_or-zero_left (b / 2))
bit_or_step (suc a) b = omega (
  arith,
  bit_or-bitwise (suc a) b,
  bit_or-bitwise (suc a / 2) (b / 2),
  or_digits_fuel a (suc a / 2) (suc a / 2) (b / 2) (omega arith) (omega arith),
)

bit_or-zero_right : (a : ℕ) → bit_or a 0 ≡ a
bit_or-zero_right zero = bit_or-zero_left 0
bit_or-zero_right (suc a) =
    omega (arith, bit_or_step (suc a) 0, zero_fuel a (suc a / 2) (omega arith))
  where
    zero_fuel : (n b : ℕ) → b ≤ n → bit_or b 0 ≡ b
    zero_fuel n zero h = bit_or-zero_left 0
    zero_fuel zero (suc b) h = absurd (omega arith)
    zero_fuel (suc n) (suc b) h =
        omega (arith, bit_or_step (suc b) 0, zero_fuel n (suc b / 2) (omega arith))

shift_suc : (k high : ℕ) → high * 2 ^ suc k ≡ high * 2 ^ k * 2
shift_suc k high = omega (arith, ap (λ (t : ℕ). high * t) (pow-suc 2 k))

-- `low | (high << k)` where `low` has k bits.
pub bit_or-shift : (k low high : ℕ) → low < 2 ^ k → bit_or low (high * 2 ^ k) ≡ low + high * 2 ^ k
bit_or-shift zero zero high h = omega (arith, bit_or-zero_left (high * 2 ^ 0))
bit_or-shift zero (suc low) high h = absurd (omega arith)
bit_or-shift (suc k) low high h =
    let e : high * 2 ^ suc k ≡ high * 2 ^ k * 2 = shift_suc k high in
    let half : high * 2 ^ suc k / 2 ≡ high * 2 ^ k = omega arith in
    let low_fits : low / 2 < 2 ^ k = omega (arith, pow-suc 2 k) in
    omega (
      arith,
      bit_or_step low (high * 2 ^ suc k),
      ap (λ (t : ℕ). bit_or (low / 2) t) half,
      bit_or-shift k (low / 2) high low_fits,
    )

-- 2 ^ (s + 8), for offsets that move by whole bytes.
pub pow_byte : (s : ℕ) → 2 ^ (s + 8) ≡ 256 * 2 ^ s
pow_byte s = simp towards_suc (omega arith)

pub pow-add : (a b : ℕ) → 2 ^ (a + b) ≡ 2 ^ a * 2 ^ b
pow-add a zero = omega (arith, ap (λ (t : ℕ). 2 ^ t) (add-zero a))
pow-add a (suc b) = omega (
  arith,
  ap (λ (t : ℕ). 2 ^ t) (add-suc a b),
  pow-suc 2 (a + b),
  ap (λ (t : ℕ). t * 2) (pow-add a b),
  ap (λ (t : ℕ). 2 ^ a * t) (pow-suc 2 b),
)

-- `(high << k) | low`
pub bit_or-above : (k low high : ℕ) → low < 2 ^ k → bit_or (high * 2 ^ k) low ≡ low + high * 2 ^ k
bit_or-above zero zero high h = omega (arith, bit_or-zero_right (high * 2 ^ 0))
bit_or-above zero (suc low) high h = absurd (omega arith)
bit_or-above (suc k) low high h =
    let e : high * 2 ^ suc k ≡ high * 2 ^ k * 2 = shift_suc k high in
    let half : high * 2 ^ suc k / 2 ≡ high * 2 ^ k = omega arith in
    let low_fits : low / 2 < 2 ^ k = omega (arith, pow-suc 2 k) in
    omega (
      arith,
      bit_or_step (high * 2 ^ suc k) low,
      ap (λ (t : ℕ). bit_or t (low / 2)) half,
      bit_or-above k (low / 2) high low_fits,
    )
