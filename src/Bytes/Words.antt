-- ===== src/Bytes/Words.antt =====
-- Little-endian integers (src/metadata_codec.cpp: put_u8 ... put_u64, and the sums of get_u32 and
-- get_u64), and the plain byte strings that the writers append.
use flocate.Prelude.{
  ℕ, zero, suc, ◌+◌, ◌*◌, ◌/◌, ◌%◌, ◌^◌, ◌≤◌, ◌<◌, bit_or, ◌≡◌, refl, ap, ◌∙◌, [], ◌∷◌, ◌++◌,
  append_assoc, append-nil, arith, sym, Bytes, length, All, IsByte,
}
use flocate.Prelude.Bits.{bit_or-shift, pow_byte}
use native.Mathlib.Nat.{pow-suc, mul_comm, div-div-eq-div-mul, div-add-mod, mul-le-mul_right}

unfoldable pub put_u8 : Bytes → ℕ → Bytes
put_u8 dst v = dst ++ (v % 256 ∷ [])

-- `for (i...) dst.push_back((v >> (8 * i)) & 0xff)` with `rounds` rounds left
put_loop : ℕ → ℕ → ℕ → Bytes → Bytes
put_loop zero i v dst = dst
put_loop (suc rounds) i v dst = put_loop rounds (i + 1) v (dst ++ (v / 2 ^ (8 * i) % 2 ^ 8 ∷ []))

unfoldable pub put_u32 : Bytes → ℕ → Bytes
unfolding put_loop
put_u32 dst v = put_loop 4 0 v dst

unfoldable pub put_u64 : Bytes → ℕ → Bytes
unfolding put_loop
put_u64 dst v = put_loop 8 0 v dst

-- `v |= byte << (8 * i)` over the bytes from number `i` on
unfoldable pub or_bytes : Bytes → ℕ → ℕ → ℕ
or_bytes [] i v = v
or_bytes (b ∷ bs) i v = or_bytes bs (i + 1) (bit_or v (b * 2 ^ (8 * i)))

-- The `n` bytes of `v`, lowest first.
unfoldable pub little_endian : ℕ → ℕ → Bytes
little_endian zero v = []
little_endian (suc n) v = v % 256 ∷ little_endian n (v / 256)

pub length-little_endian : (n v : ℕ) → length (little_endian n v) ≡ n
unfolding little_endian
length-little_endian zero v = refl
length-little_endian (suc n) v = ap suc (length-little_endian n (v / 256))

pub little_endian-bytes : (n v : ℕ) → All IsByte (little_endian n v)
unfolding little_endian
little_endian-bytes zero v = tt
little_endian-bytes (suc n) v = (omega arith, little_endian-bytes n (v / 256))

shift_byte : (i : ℕ) → 2 ^ (8 * (i + 1)) ≡ 256 * 2 ^ (8 * i)
shift_byte i =
    let e : 8 * (i + 1) ≡ 8 * i + 8 = omega arith in ap (λ (t : ℕ). 2 ^ t) e ∙ pow_byte (8 * i)

byte_shift : (v i : ℕ) → v / 2 ^ (8 * (i + 1)) ≡ v / 2 ^ (8 * i) / 256
byte_shift v i =
    ap (λ (t : ℕ). v / t) (shift_byte i ∙ mul_comm 256 (2 ^ (8 * i)))
    ∙ sym (div-div-eq-div-mul v (2 ^ (8 * i)) 256)

put_loop-little_endian :
    (rounds i v : ℕ) (dst : Bytes)
    → put_loop rounds i v dst ≡ dst ++ little_endian rounds (v / 2 ^ (8 * i))
unfolding put_loop little_endian
put_loop-little_endian zero i v dst = sym (append-nil dst)
put_loop-little_endian (suc rounds) i v dst =
    put_loop-little_endian rounds (i + 1) v _
    ∙ append_assoc dst _ _
    ∙ ap (λ t. dst ++ (v / 2 ^ (8 * i) % 256 ∷ little_endian rounds t)) (byte_shift v i)

pub put_u32-little_endian : (dst : Bytes) (v : ℕ) → put_u32 dst v ≡ dst ++ little_endian 4 v
unfolding put_u32
put_u32-little_endian dst v =
    let e : v / 2 ^ (8 * 0) ≡ v = omega arith in
    put_loop-little_endian 4 0 v dst ∙ ap (λ t. dst ++ little_endian 4 t) e

pub put_u64-little_endian : (dst : Bytes) (v : ℕ) → put_u64 dst v ≡ dst ++ little_endian 8 v
unfolding put_u64
put_u64-little_endian dst v =
    let e : v / 2 ^ (8 * 0) ≡ v = omega arith in
    put_loop-little_endian 8 0 v dst ∙ ap (λ t. dst ++ little_endian 8 t) e

last_byte : (v : ℕ) → v % 256 ≤ 255
last_byte v = omega arith

-- The bytes of `v` are added to the accumulator above its `8 * i` bits.
or_bytes-little_endian :
    (n v i acc : ℕ)
    → v < 256 ^ n
    → acc < 2 ^ (8 * i)
    → or_bytes (little_endian n v) i acc ≡ acc + v * 2 ^ (8 * i)
unfolding or_bytes little_endian
or_bytes-little_endian zero v i acc hv ha =
    let e : v ≡ 0 = omega arith in omega (arith, ap (λ (t : ℕ). t * 2 ^ (8 * i)) e)
or_bytes-little_endian (suc n) v i acc hv ha = omega (
  arith,
  ap (or_bytes (little_endian n (v / 256)) (i + 1)) (bit_or-shift (8 * i) acc (v % 256) ha),
  or_bytes-little_endian n (v / 256) (i + 1) (acc + v % 256 * 2 ^ (8 * i))
      (omega (arith, pow-suc 256 n))
      (omega (arith, shift_byte i, mul-le-mul_right (2 ^ (8 * i)) (last_byte v))),
  ap (λ (t : ℕ). v / 256 * t) (shift_byte i),
  ap (λ (t : ℕ). t * 2 ^ (8 * i)) (div-add-mod v 256),
)

pub or_bytes-little_endian_zero : (n v : ℕ) → v < 256 ^ n → or_bytes (little_endian n v) 0 0 ≡ v
or_bytes-little_endian_zero n v h = omega (arith, or_bytes-little_endian n v 0 0 h)
