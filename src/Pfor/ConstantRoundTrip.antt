-- ===== src/Pfor/ConstantRoundTrip.antt =====
-- A constant block decodes to the running sums of its one delta.
use flocate.Prelude.{
  ℕ, zero, suc, ◌+◌, ◌-◌, ◌*◌, ◌/◌, ◌%◌, ◌^◌, ◌≤◌, ◌<◌, ◌≡◌, refl, sym, ap, ◌∙◌, ◌∷◌, ◌++◌, Bytes,
  length, length-append, take, drop-append_length, replicate, All, All-append, IsByte, arith, ltb,
  if◌then◌else◌, inl, inr, Bool-cases, false, All-take,
}
use flocate.Prelude.Bits.{pow-add}
use flocate.Bytes.Words.{little_endian, length-little_endian, little_endian-bytes, or_bytes}
use flocate.Bytes.Reader.{done}
use flocate.Pfor.Bits.{masked, div_round_up}
use flocate.Pfor.Numbers.{
  number, or_bytes-number, number-take_four, number-little_endian, take-little_endian,
}
use flocate.Pfor.Packing.{pow_mono}
use flocate.Pfor.Unpacking.{word_bits}
use flocate.Pfor.BlockRoundTrip.{header_bits}
use flocate.Pfor.Blocks.{
  constant, block_header, num_bits, halvings, delta_decode, encode_constant, decode_constant,
}
use native.Mathlib.Nat.{pow-suc, mod-eq_of_lt, mod-mod, add-mul-mod_self_right}

halvings-le : (fuel x : ℕ) → halvings fuel x ≤ fuel
unfolding halvings
halvings-le zero x = omega arith
halvings-le (suc fuel) x = ground (arith, halvings-le fuel (x / 2))

halvings-lt : (fuel x : ℕ) → x < 2 ^ fuel → x < 2 ^ halvings fuel x
unfolding halvings
halvings-lt zero x h = h
halvings-lt (suc fuel) x h = ground (
  arith,
  halvings-lt fuel (x / 2) (omega (arith, pow-suc 2 fuel)),
  pow-suc 2 (halvings fuel (x / 2)),
)

-- A 32-bit value fits in its bits.
pub num_bits-lt : (x : ℕ) → x < 2 ^ 32 → x < 2 ^ num_bits x
unfolding num_bits
num_bits-lt x h = halvings-lt 32 x h

pub num_bits-le : (x : ℕ) → num_bits x ≤ 32
unfolding num_bits
num_bits-le x = halvings-le 32 x

bytes_of_bits : (bits : ℕ) → bits ≤ 32 → div_round_up bits 8 ≡ (bits + 7) / 8
unfolding div_round_up
bytes_of_bits bits h = omega arith

-- The low bits of the bytes of a value, with any bytes behind them.
low_bits :
    (v bits above : ℕ)
    → v < 2 ^ bits
    → bits ≤ 32
    → (v + above * 2 ^ (8 * ((bits + 7) / 8))) % 2 ^ 32 % 2 ^ bits ≡ v
low_bits v bits above h few =
    narrowed
    ∙ ap (λ t. t % 2 ^ bits) raised
    ∙ add-mul-mod_self_right v (above * 2 ^ extra) (2 ^ bits)
    ∙ mod-eq_of_lt h
  where
    size : ℕ
    size = (bits + 7) / 8

    extra : ℕ
    extra = 8 * size - bits

    n : ℕ
    n = v + above * 2 ^ (8 * size)

    narrowed : n % 2 ^ 32 % 2 ^ bits ≡ n % 2 ^ bits
    narrowed =
        let one : n % 2 ^ 32 / 2 ^ 0 ≡ n % 2 ^ 32 = omega arith in
        let all : n / 2 ^ 0 ≡ n = omega arith in
        ap (λ t. t % 2 ^ bits) (sym one)
        ∙ word_bits n 0 bits (omega arith)
        ∙ ap (λ t. t % 2 ^ bits) all

    split : 8 * size ≡ extra + bits
    split = omega arith

    raised : n ≡ v + above * 2 ^ extra * 2 ^ bits
    raised =
        omega (arith, ap (λ (t : ℕ). above * t) (ap (λ (t : ℕ). 2 ^ t) split ∙ pow-add extra bits))

module _ (v : ℕ) (rest : Bytes) (h : v < 2 ^ 32) (byte : All IsByte rest)
    (slack : 4 ≤ length rest) where
  abbrev bits : ℕ
  bits = num_bits v

  abbrev size : ℕ
  size = (bits + 7) / 8

  bytes-constant : encode_constant v ≡ little_endian size v
  unfolding encode_constant
  bytes-constant =
      ap (λ n. take n (little_endian 4 v)) (bytes_of_bits bits (num_bits-le v))
      ∙ take-little_endian size 4 v (omega (arith, num_bits-le v))

  word-constant :
      or_bytes (take 4 (encode_constant v ++ rest)) 0 0
      ≡ (v + number rest * 2 ^ (8 * size)) % 2 ^ 32
  word-constant =
      let input = little_endian size v ++ rest in
      let bytes = All-append IsByte (little_endian size v) rest (little_endian-bytes size v) byte in
      let fits : v < 2 ^ (8 * size) =
        omega (arith, num_bits-lt v h, pow_mono bits (8 * size) (omega arith)) in
      ap (λ b. or_bytes (take 4 (b ++ rest)) 0 0) bytes-constant
      ∙ or_bytes-number (take 4 input) (All-take IsByte 4 input bytes)
      ∙ number-take_four input bytes (omega (arith, length-append (little_endian size v) rest))
      ∙ ap (λ n. n % 2 ^ 32) (number-little_endian size v rest fits)

  value-constant :
      (if ltb bits 32
        then masked bits (or_bytes (take 4 (encode_constant v ++ rest)) 0 0)
        else or_bytes (take 4 (encode_constant v ++ rest)) 0 0)
      ≡ v
  value-constant =
      let low = low_bits v bits (number rest) (num_bits-lt v h) (num_bits-le v) in
      let full = ap (λ (n : ℕ). (v + number rest * 2 ^ (8 * size)) % 2 ^ 32 % 2 ^ n) in
      rw word-constant (elim (Bool-cases (ltb bits 32)) [
        | inl narrow ↦ rw narrow low
        | inr wide ↦
            let e : bits ≡ 32 = ground (arith, num_bits-le v) in
            rw wide (sym (full e ∙ mod-mod ((v + number rest * 2 ^ (8 * size))) (2 ^ 32)) ∙ low)
      ])

-- A constant block, with four bytes behind it that may be read.
pub decode_constant-encode :
    (num prev_val v : ℕ) (rest : Bytes)
    → v < 2 ^ 32
    → All IsByte rest
    → 4 ≤ length rest
    → decode_constant num prev_val
        (block_header constant (num_bits v) ∷ (encode_constant v ++ rest))
      ≡ done (delta_decode prev_val (replicate num v)) rest
unfolding decode_constant
decode_constant-encode num prev_val v rest h byte slack =
    let in_range : ltb (length (encode_constant v ++ rest)) 4 ≡ false =
      ground (arith, length-append (encode_constant v) rest) in
    let size_of : length (encode_constant v) ≡ div_round_up (num_bits v) 8 =
      ap (length {A = ℕ}) (bytes-constant v rest h byte slack)
      ∙ length-little_endian _ v
      ∙ sym (bytes_of_bits (num_bits v) (num_bits-le v)) in
    rw
      (
        header_bits constant (num_bits v) (omega (arith, num_bits-le v)),
        in_range,
        value-constant v rest h byte slack,
        drop-append_length (div_round_up (num_bits v) 8) (encode_constant v) rest size_of,
      )
      refl
