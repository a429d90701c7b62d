-- ===== src/Size/Examples.antt =====
-- Concrete sizes.
use flocate.Prelude.{ℕ, ◌≡◌, refl, false, [], ◌∷◌, codes, some, arith}
use flocate.Size.{Strtoull, parse_size, suffix_shift, shifted}
use flocate.Size.Exact.{parse_size_exact, scaled, unit_of}

-- One digit is read.
abbrev one_digit : Strtoull
one_digit [] = (0, [], false)
one_digit (c ∷ str) = (7, str, false)

abbrev ascii : ℕ → ℕ
ascii c = c

seven_m : parse_size one_digit ascii (codes "7M") ≡ some 7340032
unfolding parse_size suffix_shift shifted
seven_m = refl

parse_size_exact_example :
    parse_size one_digit ascii (codes "7K") ≡ scaled 7 (unit_of ascii (codes "K"))
parse_size_exact_example = parse_size_exact one_digit ascii (codes "7K") refl (omega arith) refl
