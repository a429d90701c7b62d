-- ===== src/BindMount/Fields.antt =====
-- parse_mount_string of src/bind-mount.cpp: the fields of a line of mountinfo, with octal escapes.
pub mod RoundTrip
use flocate.Prelude.{
  ℕ, ◌+◌, ◌-◌, ◌*◌, ◌^◌, bit_or, Bool, true, false, ◌&&◌, ◌||◌, Bytes, [], ◌∷◌, Option, none, some,
  is_empty, leb, ◌==◌, if◌then◌else◌,
}

-- `while (*src == ' ' || *src == '\t')`
unfoldable pub skip_blanks : Bytes → Bytes
skip_blanks [] = []
skip_blanks (c ∷ src) = if c == 32 || c == 9 then skip_blanks src else c ∷ src

abbrev pub is_octal : ℕ → Bool
is_octal c = leb 48 c && leb c 55

abbrev pub octal_value : ℕ → ℕ → ℕ → ℕ
octal_value a b d = bit_or (bit_or ((a - 48) * 2 ^ 6) ((b - 48) * 2 ^ 3)) (d - 48)

-- The cases that end the loop.
abbrev pub is_end : ℕ → Bool
is_end c = c == 0 || (c == 32 || c == 9)

-- `mount_string.push_back(v)` in front of what is read later.
abbrev pub push_byte : ℕ → Bytes × Bytes → Bytes × Bytes
push_byte v r = (v ∷ r.0, r.1)

-- The loop: the field and what is left of the string, which the terminating NUL ends.
unfoldable pub read_field : Bytes → Bytes × Bytes
read_field [] = ([], [])
read_field (c ∷ a ∷ b ∷ d ∷ src) =
    let octal = read_field src in
    let plain = read_field (a ∷ b ∷ d ∷ src) in
    let v = octal_value a b d in
    if is_end c
    then ([], c ∷ a ∷ b ∷ d ∷ src)
    else if c == 92 && (is_octal a && (is_octal b && (is_octal d && leb v 255)))
    then push_byte v octal
    else push_byte c plain
read_field (c ∷ src) =
    let plain = read_field src in if is_end c then ([], c ∷ src) else push_byte c plain

-- The field and the new `*str`; `none` is -1.
unfoldable pub parse_mount_string : Bytes → Option (Bytes × Bytes)
unfolding skip_blanks read_field
parse_mount_string str =
    let src = skip_blanks str in if is_empty src then none else some (read_field src)
