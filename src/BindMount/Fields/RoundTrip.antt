-- ===== src/BindMount/Fields/RoundTrip.antt =====
-- Fields with octal escapes are read back.
use flocate.Prelude.{
  ℕ, ◌+◌, ◌/◌, ◌%◌, ◌<◌, ◌≡◌, inl, inr, refl, ap, ◌∙◌, Bool, true, false, ◌&&◌, Bytes, [], ◌∷◌,
  ◌++◌, All, IsByte, leb, ◌==◌, ==_iff, if◌then◌else◌, Bool-cases, all_below, all_below_sound,
}
use flocate.BindMount.Fields.{is_octal, octal_value, is_end, push_byte, read_field}

-- A byte as an octal escape, if it must be.
unfoldable pub escape : (ℕ → Bool) → Bytes → Bytes
escape must [] = []
escape must (c ∷ s) =
    if must c
    then 92 ∷ (48 + c / 64) ∷ (48 + c / 8 % 8) ∷ (48 + c % 8) ∷ escape must s
    else c ∷ escape must s

-- The end of the field: the end of the string or a blank.
abbrev pub EndsField : Bytes → Type 0
EndsField [] = Unit
EndsField (c ∷ rest) = is_end c ≡ true

-- A byte that stands for itself.
plain_byte :
    (c : ℕ) (src : Bytes)
    → is_end c ≡ false
    → (c == 92) ≡ false
    → read_field (c ∷ src) ≡ push_byte c (read_field src)
unfolding read_field
plain_byte c [] h k = rw h refl
plain_byte c (a ∷ []) h k = rw h refl
plain_byte c (a ∷ b ∷ []) h k = rw h refl
plain_byte c (a ∷ b ∷ d ∷ src) h k = rw (h, k) refl

-- The digits of a byte are octal digits, and their value is the byte.
abbrev is_escape : ℕ → Bool
is_escape c =
    let a = 48 + c / 64 in
    let b = 48 + c / 8 % 8 in
    let d = 48 + c % 8 in is_octal a && (is_octal b && (is_octal d && leb (octal_value a b d) 255))

abbrev is_value : ℕ → Bool
is_value c = octal_value (48 + c / 64) (48 + c / 8 % 8) (48 + c % 8) == c

escaped_byte :
    (c : ℕ) (src : Bytes)
    → c < 256
    → read_field (92 ∷ (48 + c / 64) ∷ (48 + c / 8 % 8) ∷ (48 + c % 8) ∷ src)
      ≡ push_byte c (read_field src)
unfolding read_field all_below
escaped_byte c src lt =
    let digits : is_escape c ≡ true = all_below_sound 256 is_escape c refl lt in
    let value : is_value c ≡ true = all_below_sound 256 is_value c refl lt in
    rw digits (ap (λ (v : ℕ). push_byte v (read_field src)) ((==_iff _ c).0 value))

end_field : (rest : Bytes) → EndsField rest → read_field rest ≡ ([], rest)
unfolding read_field
end_field [] h = refl
end_field (c ∷ []) h = rw h refl
end_field (c ∷ a ∷ []) h = rw h refl
end_field (c ∷ a ∷ b ∷ []) h = rw h refl
end_field (c ∷ a ∷ b ∷ d ∷ rest) h = rw h refl

-- A field in which bytes that `must` says are written as octal escapes, among them at least the
-- blanks, NUL and the backslash, is read back whole up to the end of the field.
pub read_field-escape :
    (must : ℕ → Bool) (s rest : Bytes)
    → ((c : ℕ) → must c ≡ false → (is_end c ≡ false) × ((c == 92) ≡ false))
    → All IsByte s
    → EndsField rest
    → read_field (escape must s ++ rest) ≡ (s, rest)
unfolding escape
read_field-escape must [] rest all bytes end = end_field rest end
read_field-escape must (c ∷ s) rest all bytes end = elim (Bool-cases (must c)) [
  | inl escaped ↦ rw escaped (
      escaped_byte c (escape must s ++ rest) bytes.0
      ∙ ap (push_byte c) (read_field-escape must s rest all bytes.1 end))
  | inr plain ↦ rw plain (
      plain_byte c (escape must s ++ rest) (all c plain).0 (all c plain).1
      ∙ ap (push_byte c) (read_field-escape must s rest all bytes.1 end))
]
