-- ===== src/Size/Exact.antt =====
-- A size is exact or refused.
use flocate.Prelude.{
  ℕ, ◌*◌, ◌^◌, ◌<◌, ◌≡◌, false, ◌||◌, [], ◌∷◌, Bytes, Option, none, some, length, ◌==◌, ltb,
  if◌then◌else◌, arith,
}
use flocate.Size.{Strtoull, no_number, suffix_shift, shifted, parse_size}

-- The number that a letter multiplies by.
unfoldable pub unit_of_letter : ℕ → Option ℕ
unit_of_letter letter =
    if letter == b'K'
    then some 1024
    else if letter == b'M'
    then some (1024 * 1024)
    else if letter == b'G'
    then some (1024 * 1024 * 1024)
    else if letter == b'T'
    then some (1024 * 1024 * 1024 * 1024)
    else none

-- What stands behind the number: nothing, or one letter.
unfoldable pub unit_of : (ℕ → ℕ) → Bytes → Option ℕ
unfolding unit_of_letter
unit_of toupper [] = some 1
unit_of toupper (c ∷ []) = unit_of_letter (toupper c)
unit_of toupper (c ∷ d ∷ rest) = none

-- A product that 64 bits hold.
unfoldable pub scaled : ℕ → Option ℕ → Option ℕ
scaled value none = none
scaled value (some unit) = if ltb (value * unit) (2 ^ 64) then some (value * unit) else none

shifted-scaled :
    (value : ℕ) (toupper : ℕ → ℕ) (end : Bytes)
    → value < 2 ^ 64
    → shifted value (suffix_shift toupper end) ≡ scaled value (unit_of toupper end)
unfolding shifted suffix_shift scaled unit_of unit_of_letter
shifted-scaled value toupper [] h = ground arith
shifted-scaled value toupper (c ∷ []) h = ground arith
shifted-scaled value toupper (c ∷ d ∷ rest) h = ground arith

-- Where the string starts with a number that `strtoull` reads into 64 bits, `parse_size` gives the
-- number times 1, 1024, 1024 squared, cubed or to the fourth for nothing, K, M, G or T behind it, if
-- the product fits in 64 bits, and fails if it does not, and for anything else behind the number.
pub parse_size_exact :
    (strtoull : Strtoull) (toupper : ℕ → ℕ) (str : Bytes)
    → no_number str ≡ false
    → (strtoull str).0 < 2 ^ 64
    → ((strtoull str).2 || length (strtoull str).1 == length str) ≡ false
    → parse_size strtoull toupper str ≡ scaled (strtoull str).0 (unit_of toupper (strtoull str).1)
unfolding parse_size
parse_size_exact strtoull toupper str number fits read =
    rw (number, read) (shifted-scaled (strtoull str).0 toupper (strtoull str).1 fits)
