-- ===== src/Trigram/Windows.antt =====
-- The trigrams of a byte string: its windows of three bytes. Both sides of the index, the needle's
-- trigrams and those of the file names, are stated by them.
use flocate.Prelude.{
  ℕ, ◌+◌, ◌*◌, ◌^◌, ◌<◌, ◌≡◌, ap, ◌∙◌, bit_or, Bool, true, false, ◌||◌, List, [], ◌∷◌, ◌++◌, Bytes,
  arith, ◌==◌, ==-refl,
}
use flocate.Prelude.Bits.{bit_or-shift}

-- Three bytes as one number, the first lowest.
abbrev pub trigram : ℕ → ℕ → ℕ → ℕ
trigram a b c = a + b * 2 ^ 8 + c * 2 ^ 16

unfoldable pub windows : Bytes → List ℕ
windows [] = []
windows (a ∷ []) = []
windows (a ∷ b ∷ []) = []
windows (a ∷ b ∷ c ∷ s) = trigram a b c ∷ windows (b ∷ c ∷ s)

unfoldable pub mem : ℕ → List ℕ → Bool
mem t [] = false
mem t (x ∷ xs) = t == x || mem t xs

pub bit_or-trigram :
    (a b c : ℕ) → a < 256 → b < 256 → bit_or (bit_or a (b * 2 ^ 8)) (c * 2 ^ 16) ≡ trigram a b c
bit_or-trigram a b c ha hb =
    ap (λ t. bit_or t (c * 2 ^ 16)) (bit_or-shift 8 a b ha)
    ∙ bit_or-shift 16 (a + b * 2 ^ 8) c (omega arith)

pub mem-append_left : (t : ℕ) (xs ys : List ℕ) → mem t xs ≡ true → mem t (xs ++ ys) ≡ true
unfolding mem
mem-append_left t [] ys h = cc
mem-append_left t (x ∷ xs) ys h = ground (arith, mem-append_left t xs ys)

pub mem-append_right : (t : ℕ) (xs ys : List ℕ) → mem t ys ≡ true → mem t (xs ++ ys) ≡ true
unfolding mem
mem-append_right t [] ys h = h
mem-append_right t (x ∷ xs) ys h = ground (arith, mem-append_right t xs ys)

-- The windows of a string are among those of a string that ends with it, or begins with it.
mem-windows_cons : (t a : ℕ) (s : Bytes) → mem t (windows s) ≡ true → mem t (windows (a ∷ s)) ≡ true
unfolding windows mem
mem-windows_cons t a [] h = cc
mem-windows_cons t a (b ∷ []) h = cc
mem-windows_cons t a (b ∷ c ∷ s) h = ground arith

pub mem-windows_suffix :
    (t : ℕ) (front s : Bytes) → mem t (windows s) ≡ true → mem t (windows (front ++ s)) ≡ true
mem-windows_suffix t [] s h = h
mem-windows_suffix t (a ∷ front) s h =
    mem-windows_cons t a (front ++ s) (mem-windows_suffix t front s h)

pub mem-windows_prefix :
    (t : ℕ) (s back : Bytes) → mem t (windows s) ≡ true → mem t (windows (s ++ back)) ≡ true
unfolding windows mem
mem-windows_prefix t [] back h = cc
mem-windows_prefix t (a ∷ []) back h = cc
mem-windows_prefix t (a ∷ b ∷ []) back h = cc
mem-windows_prefix t (a ∷ b ∷ c ∷ s) back h = ground (arith, mem-windows_prefix t (b ∷ c ∷ s) back)

-- The three bytes in front make a window.
pub mem-windows_head :
    (a b c : ℕ) (s : Bytes) → mem (trigram a b c) (windows (a ∷ b ∷ c ∷ s)) ≡ true
unfolding windows mem
mem-windows_head a b c s = ground (arith, ==-refl (trigram a b c))
