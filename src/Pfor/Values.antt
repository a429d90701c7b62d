-- ===== src/Pfor/Values.antt =====
-- Single values (write_baseval and write_vb of include/turbopfor-encode.h, read_baseval and read_vb
-- of src/turbopfor.cpp). A writer's bytes are those from `out` to the pointer it returns.
use flocate.Prelude.{
  ℕ, ◌+◌, ◌-◌, ◌*◌, ◌/◌, ◌%◌, ◌^◌, ◌<◌, ◌≡◌, refl, ap, ◌∙◌, bit_or, [], ◌∷◌, ◌++◌, Bytes, arith,
  Option, none, some, ltb, leb, ◌==◌, if◌then◌else◌, take, inl, inr, Bool-cases, true, false,
  leb→le,
}
use flocate.Prelude.Bits.{bit_or-above, bit_or-shift}
use flocate.Bytes.Words.{little_endian}
use flocate.Bytes.Reader.{
  done, refused, overrun, Reader, pure, ◌>>=◌, get_u8, get_word, get_u32, bind-done,
  get_word-little_endian, get_u32-little_endian,
}

-- `none` is the failed assertion.
unfoldable pub write_baseval : ℕ → Option Bytes
write_baseval v =
    if ltb v 128
    then some (v ∷ [])
    else if ltb v 0x4000
    then some (bit_or (v / 2 ^ 8) 0x80 ∷ v % 2 ^ 8 ∷ [])
    else if ltb v 0x200000
    then some (bit_or (v / 2 ^ 16) 0xc0 ∷ v % 2 ^ 8 ∷ v / 2 ^ 8 % 2 ^ 8 ∷ [])
    else if ltb v 0x10000000
    then some (bit_or (v / 2 ^ 24) 0xe0 ∷ v / 2 ^ 16 % 2 ^ 8 ∷ v / 2 ^ 8 % 2 ^ 8 ∷ v % 2 ^ 8 ∷ [])
    else none

-- `refused` is the failed assertion.
unfoldable pub read_baseval : Reader ℕ
read_baseval [] = overrun
read_baseval (a ∷ p) =
    if ltb a 128
    then done a p
    else if ltb a 192
    then (get_u8 >>= λ b. pure (bit_or (a * 2 ^ 8) b % 2 ^ 14)) p
    else if ltb a 224
    then (get_u8 >>= λ b.
          get_u8 >>= λ c. pure (bit_or (bit_or (a * 2 ^ 16) (c * 2 ^ 8)) b % 2 ^ 21))
        p
    else if ltb a 240
    then (get_u8 >>= λ b. get_u8 >>= λ c. get_u8 >>= λ d.
          pure (bit_or (bit_or (bit_or (a * 2 ^ 24) (b * 2 ^ 16)) (c * 2 ^ 8)) d % 2 ^ 28))
        p
    else refused

-- What is written has `little_endian` bytes for `write_le`; a value of four bytes is written by
-- `write_le<uint32_t>`, whose last byte lies behind the pointer that is returned.
unfoldable pub write_vb : ℕ → Bytes
write_vb v =
    if leb v 176
    then v ∷ []
    else if leb v 16560
    then ((v - 177) / 2 ^ 8 + 177) % 2 ^ 8 ∷ (v - 177) % 2 ^ 8 ∷ []
    else if leb v 540848
    then ((v - 16561) / 2 ^ 16 + 241) % 2 ^ 8 ∷ little_endian 2 ((v - 16561) % 2 ^ 16)
    else if leb v 16777215
    then 249 ∷ take 3 (little_endian 4 v)
    else 250 ∷ little_endian 4 v

-- `refused` is the failed assertion.
unfoldable pub read_vb : Reader ℕ
read_vb [] = overrun
read_vb (a ∷ p) =
    if leb a 176
    then done a p
    else if leb a 240
    then (get_u8 >>= λ b. pure (bit_or ((a - 177) * 2 ^ 8) b + 177)) p
    else if leb a 248
    then (get_word 2 >>= λ w. pure (bit_or ((a - 241) * 2 ^ 16) w + 16561)) p
    else if a == 249
    then (get_u8 >>= λ b.
          get_u8 >>= λ c. get_u8 >>= λ d. pure (bit_or (bit_or b (c * 2 ^ 8)) (d * 2 ^ 16)))
        p
    else if a == 250
    then get_u32 p
    else refused

-- The bytes of a base value come together again.
two_bytes : (v : ℕ) → v < 0x4000 → bit_or (bit_or (v / 2 ^ 8) 0x80 * 2 ^ 8) (v % 2 ^ 8) % 2 ^ 14 ≡ v
two_bytes v h = omega (
  arith,
  bit_or-shift 7 (v / 2 ^ 8) 1 (omega arith),
  bit_or-above 8 (v % 2 ^ 8) (bit_or (v / 2 ^ 8) 0x80) (omega arith),
)

three_bytes :
    (v : ℕ)
    → v < 0x200000
    → bit_or (bit_or (bit_or (v / 2 ^ 16) 0xc0 * 2 ^ 16) (v / 2 ^ 8 % 2 ^ 8 * 2 ^ 8)) (v % 2 ^ 8)
        % 2 ^ 21
      ≡ v
three_bytes v h =
    let top = bit_or (v / 2 ^ 16) 0xc0 in
    let middle = v / 2 ^ 8 % 2 ^ 8 in
    omega (
      arith,
      bit_or-shift 6 (v / 2 ^ 16) 3 (omega arith),
      bit_or-above 16 (middle * 2 ^ 8) top (omega arith),
      bit_or-above 8 (v % 2 ^ 8) (top * 2 ^ 8 + middle) (omega arith),
      ap (λ (t : ℕ). bit_or t (v % 2 ^ 8))
          (bit_or-above 16 (middle * 2 ^ 8) top (omega arith) ∙ regroup top middle),
    )
  where
    regroup : (top middle : ℕ) → middle * 2 ^ 8 + top * 2 ^ 16 ≡ (top * 2 ^ 8 + middle) * 2 ^ 8
    regroup top middle = omega arith

four_bytes :
    (v : ℕ)
    → v < 0x10000000
    → bit_or
          (bit_or
            (bit_or (bit_or (v / 2 ^ 24) 0xe0 * 2 ^ 24) (v / 2 ^ 16 % 2 ^ 8 * 2 ^ 16))
            (v / 2 ^ 8 % 2 ^ 8 * 2 ^ 8))
          (v % 2 ^ 8)
        % 2 ^ 28
      ≡ v
four_bytes v h =
    let top = bit_or (v / 2 ^ 24) 0xe0 in
    let third = v / 2 ^ 16 % 2 ^ 8 in
    let second = v / 2 ^ 8 % 2 ^ 8 in
    let one = bit_or-above 24 (third * 2 ^ 16) top (omega arith) ∙ regroup16 top third in
    let two = bit_or-above 16 (second * 2 ^ 8) (top * 2 ^ 8 + third) (omega arith) in
    omega (
      arith,
      bit_or-shift 5 (v / 2 ^ 24) 7 (omega arith),
      ap (λ (t : ℕ). bit_or (bit_or t (second * 2 ^ 8)) (v % 2 ^ 8)) one,
      ap (λ (t : ℕ). bit_or t (v % 2 ^ 8)) (two ∙ regroup8 (top * 2 ^ 8 + third) second),
      bit_or-above 8 (v % 2 ^ 8) ((top * 2 ^ 8 + third) * 2 ^ 8 + second) (omega arith),
    )
  where
    regroup16 : (top third : ℕ) → third * 2 ^ 16 + top * 2 ^ 24 ≡ (top * 2 ^ 8 + third) * 2 ^ 16
    regroup16 top third = omega arith

    regroup8 : (high low : ℕ) → low * 2 ^ 8 + high * 2 ^ 16 ≡ (high * 2 ^ 8 + low) * 2 ^ 8
    regroup8 high low = omega arith

-- A value below 2 ^ 28 is written, and read back from in front of any bytes.
pub read_baseval-write :
    (v : ℕ) (rest : Bytes)
    → v < 2 ^ 28
    → (bytes : Bytes) × (write_baseval v ≡ some bytes)
      × (read_baseval (bytes ++ rest) ≡ done v rest)
unfolding write_baseval read_baseval ◌>>=◌ pure get_u8
read_baseval-write v rest h = elim (Bool-cases (ltb v 128)) [
  | inl one ↦ (v ∷ [], rw one refl, rw one refl)
  | inr more ↦ elim (Bool-cases (ltb v 0x4000)) [
    | inl two ↦ (
      bit_or (v / 2 ^ 8) 0x80 ∷ v % 2 ^ 8 ∷ [],
      rw (more, two) refl,
      ground (arith, two_bytes v, bit_or-shift 7 (v / 2 ^ 8) 1),
    )
    | inr more2 ↦ elim (Bool-cases (ltb v 0x200000)) [
      | inl three ↦ (
        bit_or (v / 2 ^ 16) 0xc0 ∷ v % 2 ^ 8 ∷ v / 2 ^ 8 % 2 ^ 8 ∷ [],
        rw (more, more2, three) refl,
        ground (arith, three_bytes v, bit_or-shift 6 (v / 2 ^ 16) 3),
      )
      | inr more3 ↦
          let four : ltb v 0x10000000 ≡ true = ground arith in
          (
            bit_or (v / 2 ^ 24) 0xe0 ∷ v / 2 ^ 16 % 2 ^ 8 ∷ v / 2 ^ 8 % 2 ^ 8 ∷ v % 2 ^ 8 ∷ [],
            rw (more, more2, more3, four) refl,
            ground (arith, four_bytes v, bit_or-shift 5 (v / 2 ^ 24) 7),
          )
    ]
  ]
]

two_vb_bytes :
    (w : ℕ) → w < 2 ^ 14 → bit_or (((w / 2 ^ 8 + 177) % 2 ^ 8 - 177) * 2 ^ 8) (w % 2 ^ 8) ≡ w
two_vb_bytes w h =
    omega (arith, bit_or-above 8 (w % 2 ^ 8) ((w / 2 ^ 8 + 177) % 2 ^ 8 - 177) (omega arith))

three_vb_bytes :
    (w : ℕ) → w < 2 ^ 19 → bit_or (((w / 2 ^ 16 + 241) % 2 ^ 8 - 241) * 2 ^ 16) (w % 2 ^ 16) ≡ w
three_vb_bytes w h =
    omega (arith, bit_or-above 16 (w % 2 ^ 16) ((w / 2 ^ 16 + 241) % 2 ^ 8 - 241) (omega arith))

three_low_bytes :
    (v : ℕ)
    → v < 2 ^ 24
    → bit_or (bit_or (v % 256) (v / 256 % 256 * 2 ^ 8)) (v / 256 / 256 % 256 * 2 ^ 16) ≡ v
three_low_bytes v h = omega (
  arith,
  ap (λ (t : ℕ). bit_or t (v / 256 / 256 % 256 * 2 ^ 16))
      (bit_or-shift 8 (v % 256) (v / 256 % 256) (omega arith)),
  bit_or-shift 16 (v % 256 + v / 256 % 256 * 2 ^ 8) (v / 256 / 256 % 256) (omega arith),
)

read_three :
    (a : ℕ) (p : Bytes)
    → leb a 240 ≡ false
    → leb a 248 ≡ true
    → read_vb (a ∷ p) ≡ (get_word 2 >>= λ w. pure (bit_or ((a - 241) * 2 ^ 16) w + 16561)) p
unfolding read_vb
read_three a p h k = ground arith

write_three-read :
    (v : ℕ) (rest : Bytes)
    → leb v 16560 ≡ false
    → leb v 540848 ≡ true
    → read_vb (write_vb v ++ rest) ≡ done v rest
unfolding write_vb pure
write_three-read v rest more three =
    let short : leb v 176 ≡ false = ground arith in
    let first = ((v - 16561) / 2 ^ 16 + 241) % 2 ^ 8 in
    let word = get_word-little_endian 2 ((v - 16561) % 2 ^ 16) rest (omega arith) in
    let value : bit_or ((first - 241) * 2 ^ 16) ((v - 16561) % 2 ^ 16) + 16561 ≡ v =
      omega (arith, leb→le v 540848 three, three_vb_bytes (v - 16561) (ground arith), bigger) in
    rw (short, more, three)
      (read_three first _ (ground arith) (ground arith)
        ∙ bind-done (get_word 2) _ word
        ∙ ap (λ t. done t rest) value)
  where
    bigger : 16560 < v
    bigger = ground arith

-- A 32-bit value is read back from in front of any bytes.
pub read_vb-write : (v : ℕ) (rest : Bytes) → v < 2 ^ 32 → read_vb (write_vb v ++ rest) ≡ done v rest
unfolding write_vb read_vb ◌>>=◌ pure get_u8 little_endian
read_vb-write v rest h = elim (Bool-cases (leb v 176)) [
  | inl one ↦ rw one (rw one refl)
  | inr more ↦ elim (Bool-cases (leb v 16560)) [
    | inl two ↦ ground (arith, two_vb_bytes (v - 177))
    | inr more2 ↦ elim (Bool-cases (leb v 540848)) [
      | inl three ↦ write_three-read v rest more2 three
      | inr more3 ↦ elim (Bool-cases (leb v 16777215)) [
        | inl four ↦ ground (arith, three_low_bytes v)
        | inr more4 ↦ ground (arith, get_u32-little_endian v rest h)
      ]
    ]
  ]
]
