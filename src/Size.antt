-- ===== src/Size.antt =====
-- include/parse_size.h. The C library's `strtoull` and `toupper` are parameters: `strtoull` gives the
-- value, the bytes from `*end` on, and whether `errno` was set.
mod Exact
mod Examples
use flocate.Prelude.{
  ℕ, ◌*◌, ◌/◌, ◌%◌, ◌^◌, ◌-◌, Bool, true, false, ◌||◌, ◌&&◌, not, List, [], ◌∷◌, Bytes, Option,
  none, some, length, is_empty, ◌==◌, ltb, if◌then◌else◌,
}

abbrev pub Strtoull : Type 0
Strtoull = Bytes → ℕ × Bytes × Bool

-- `*str == '\0' || *str == '-'`
abbrev pub no_number : Bytes → Bool
no_number [] = true
no_number (c ∷ str) = c == b'-'

-- The `switch`: the shift, and the bytes from the new `end` on.
unfoldable pub suffix_shift : (ℕ → ℕ) → Bytes → Option (ℕ × Bytes)
suffix_shift toupper [] = some (0, [])
suffix_shift toupper (c ∷ end) =
    if toupper c == 0
    then some (0, c ∷ end)
    else if toupper c == b'K'
    then some (10, end)
    else if toupper c == b'M'
    then some (20, end)
    else if toupper c == b'G'
    then some (30, end)
    else if toupper c == b'T'
    then some (40, end)
    else none

-- The tests behind the `switch`.
unfoldable pub shifted : ℕ → Option (ℕ × Bytes) → Option ℕ
shifted value none = none
shifted value (some (shift, end)) =
    if not (is_empty end)
    then none
    else if not (shift == 0) && ltb ((2 ^ 64 - 1) / 2 ^ shift) value
    then none
    else some (value * 2 ^ shift % 2 ^ 64)

-- `none` is `return false`.
unfoldable pub parse_size : Strtoull → (ℕ → ℕ) → Bytes → Option ℕ
parse_size strtoull toupper str =
    let (value, end, error) = strtoull str in
    if no_number str
    then none
    else if error || length end == length str
    then none
    else shifted value (suffix_shift toupper end)
