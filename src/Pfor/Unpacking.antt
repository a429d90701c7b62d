-- ===== src/Pfor/Unpacking.antt =====
-- BitReader takes a packed number apart.
use flocate.Prelude.{
  ℕ, zero, suc, ◌+◌, ◌-◌, ◌*◌, ◌/◌, ◌%◌, ◌^◌, ◌≤◌, ◌<◌, ◌≡◌, refl, sym, ap, ◌∙◌, List, [], ◌∷◌,
  ◌++◌, Bytes, length, length-append, take, drop, length-drop, All, All-take, All-append, IsByte,
  arith, some, ltb, false,
}
use flocate.Prelude.Bits.{pow-add}
use flocate.Bytes.Words.{little_endian, length-little_endian, little_endian-bytes}
use flocate.Pfor.Bits.{BitReader, read, read_all}
use flocate.Pfor.Numbers.{
  number, or_bytes-number, number-take_four, number-drop, number-little_endian,
}
use flocate.Pfor.Packing.{pack, FitsIn, pow_pos, pow_mono}
use native.Mathlib.Nat.{
  mul_comm, mul_assoc, mul-le-mul_right, add-mul-div_right, add-mul-mod_self_right,
  div-div-eq-div-mul, mod-eq_of_lt, div-eq_of_lt, zero-add,
}

-- `num` values out of a number, the lowest first.
unfoldable pub unpack : ℕ → ℕ → ℕ → List ℕ
unpack bits zero n = []
unpack bits (suc num) n = n % 2 ^ bits ∷ unpack bits num (n / 2 ^ bits)

pub All-drop : (P : ℕ → Type 0) (n : ℕ) (p : Bytes) → All P p → All P (drop n p)
All-drop P zero p h = h
All-drop P (suc n) [] h = tt
All-drop P (suc n) (b ∷ p) (hb, h) = All-drop P n p h

-- The bits that a read takes out of a 32-bit word are those of the whole number.
pub word_bits :
    (n used bits : ℕ)
    → used + bits ≤ 32
    → n % 2 ^ 32 / 2 ^ used % 2 ^ bits ≡ n / 2 ^ used % 2 ^ bits
word_bits n used bits h = sym (
    ap (λ t. t / 2 ^ used % 2 ^ bits) parts
    ∙ ap (λ t. t % 2 ^ bits) quotient
    ∙ add-mul-mod_self_right (n % 2 ^ 32 / 2 ^ used) (n / 2 ^ 32 * 2 ^ (32 - used - bits))
        (2 ^ bits))
  where
    exponent : 32 ≡ 32 - used - bits + bits + used
    exponent = omega arith

    power : 2 ^ 32 ≡ 2 ^ (32 - used - bits) * 2 ^ bits * 2 ^ used
    power =
        ap (λ (t : ℕ). 2 ^ t) exponent
        ∙ pow-add (32 - used - bits + bits) used
        ∙ ap (λ (t : ℕ). t * 2 ^ used) (pow-add (32 - used - bits) bits)

    parts : n ≡ n % 2 ^ 32 + n / 2 ^ 32 * 2 ^ (32 - used - bits) * 2 ^ bits * 2 ^ used
    parts = omega (arith, ap (λ (t : ℕ). n / 2 ^ 32 * t) power)

    quotient :
        (n % 2 ^ 32 + n / 2 ^ 32 * 2 ^ (32 - used - bits) * 2 ^ bits * 2 ^ used) / 2 ^ used
        ≡ n % 2 ^ 32 / 2 ^ used + n / 2 ^ 32 * 2 ^ (32 - used - bits) * 2 ^ bits
    quotient = add-mul-div_right (n % 2 ^ 32) _ (pow_pos used)

-- What comes after a read is the number above the bits that were read.
number_after :
    (n used bits : ℕ)
    → n / 2 ^ (8 * ((used + bits) / 8)) / 2 ^ ((used + bits) % 8) ≡ n / 2 ^ used / 2 ^ bits
number_after n used bits =
    let whole = (used + bits) / 8 in
    let left = (used + bits) % 8 in
    let e : 8 * whole + left ≡ used + bits = omega arith in
    div-div-eq-div-mul n (2 ^ (8 * whole)) (2 ^ left)
    ∙ ap (λ (t : ℕ). n / t)
        (sym (pow-add (8 * whole) left) ∙ ap (λ (t : ℕ). 2 ^ t) e ∙ pow-add used bits)
    ∙ sym (div-div-eq-div-mul n (2 ^ used) (2 ^ bits))

-- One read.
read-number :
    (bits : ℕ) (bs : BitReader)
    → bits ≤ 25
    → bs.bits_used < 8
    → All IsByte bs.input
    → 4 ≤ length bs.input
    → read bits bs
      ≡ some (
        number bs.input / 2 ^ bs.bits_used % 2 ^ bits,
        record {
          input = drop ((bs.bits_used + bits) / 8) bs.input;
          bits_used = (bs.bits_used + bits) % 8;
        },
      )
unfolding read
read-number bits bs few used h enough =
    let in_range : ltb (length bs.input) 4 ≡ false = ground arith in
    let word =
      or_bytes-number (take 4 bs.input) (All-take IsByte 4 bs.input h)
      ∙ number-take_four bs.input h enough in
    rw (in_range, word, word_bits (number bs.input) bs.bits_used bits (omega arith)) refl

read_all_step :
    (bits : ℕ) (bs bs' : BitReader) (val : ℕ) (vals : List ℕ) (num : ℕ)
    → read bits bs ≡ some (val, bs')
    → read_all bits bs' num ≡ some vals
    → read_all bits bs (suc num) ≡ some (val ∷ vals)
unfolding read_all
read_all_step bits bs bs' val vals num e e' = ground (arith, e, e')

read_all-unpack :
    (bits : ℕ) (bs : BitReader) (num : ℕ)
    → bits ≤ 25
    → bs.bits_used < 8
    → All IsByte bs.input
    → (bs.bits_used + bits * num) / 8 + 4 ≤ length bs.input
    → read_all bits bs num ≡ some (unpack bits num (number bs.input / 2 ^ bs.bits_used))
unfolding read_all unpack
read_all-unpack bits bs zero few used h enough = refl
read_all-unpack bits bs (suc num) few used h enough =
    let k = (bs.bits_used + bits) / 8 in
    let next : BitReader = record {
      input = drop k bs.input;
      bits_used = (bs.bits_used + bits) % 8;
    } in
    let here : 4 ≤ length bs.input = omega arith in
    let later =
      read_all-unpack bits next num few (omega arith) (All-drop IsByte k bs.input h)
        (omega (arith, length-drop k bs.input)) in
    let same =
      ap (λ t. t / 2 ^ ((bs.bits_used + bits) % 8)) (number-drop k bs.input h)
      ∙ number_after (number bs.input) bs.bits_used bits in
    read_all_step bits bs next _ _ num (read-number bits bs few used h here) later
    ∙ ap (λ t. some (number bs.input / 2 ^ bs.bits_used % 2 ^ bits ∷ unpack bits num t)) same

-- Values that were packed, with anything above them.
unpack-pack :
    (bits : ℕ) (vals : List ℕ) (above : ℕ)
    → All (FitsIn bits) vals
    → unpack bits (length vals) (pack bits vals + above * 2 ^ (bits * length vals)) ≡ vals
unfolding unpack pack
unpack-pack bits [] above h = refl
unpack-pack bits (val ∷ vals) above (h, hs) =
    let e : bits * suc (length vals) ≡ bits * length vals + bits = omega arith in
    let power = ap (λ (t : ℕ). 2 ^ t) e ∙ pow-add (bits * length vals) bits in
    let regroup : val + pack bits vals * 2 ^ bits + above * 2 ^ (bits * suc (length vals))
        ≡ val + (pack bits vals + above * 2 ^ (bits * length vals)) * 2 ^ bits =
      omega (arith, ap (λ (t : ℕ). above * t) power) in
    let low =
      add-mul-mod_self_right val (pack bits vals + above * 2 ^ (bits * length vals)) (2 ^ bits)
      ∙ mod-eq_of_lt h in
    let high =
      add-mul-div_right val (pack bits vals + above * 2 ^ (bits * length vals)) (pow_pos bits)
      ∙ ap (λ (t : ℕ). t + (pack bits vals + above * 2 ^ (bits * length vals))) (div-eq_of_lt h)
      ∙ zero-add (pack bits vals + above * 2 ^ (bits * length vals)) in
    rw (regroup, low, high) (ap (◌∷◌ val) (unpack-pack bits vals above hs))

pub pack-lt :
    (bits : ℕ) (vals : List ℕ) → All (FitsIn bits) vals → pack bits vals < 2 ^ (bits * length vals)
unfolding pack
pack-lt bits [] h = pow_pos (bits * 0)
pack-lt bits (val ∷ vals) (h, hs) = omega (
  arith,
  pow-add (bits * length vals) bits,
  product,
  mul-le-mul_right (2 ^ bits) (pack-lt bits vals hs),
)
  where
    e : bits * suc (length vals) ≡ bits * length vals + bits
    e = omega arith

    product : 2 ^ (bits * suc (length vals)) ≡ 2 ^ (bits * length vals + bits)
    product = ap (λ (t : ℕ). 2 ^ t) e

-- Values that were packed into whole bytes are read back, with any bytes behind them.
pub read_all-pack :
    (bits : ℕ) (vals : List ℕ) (rest : Bytes)
    → bits ≤ 25
    → All (FitsIn bits) vals
    → All IsByte rest
    → 4 ≤ length rest
    → read_all bits
        (record {
          input = little_endian ((length vals * bits + 7) / 8) (pack bits vals) ++ rest;
          bits_used = 0;
        })
        (length vals)
      ≡ some vals
read_all-pack bits vals rest few fits h slack =
    let num = length vals in
    let size = (num * bits + 7) / 8 in
    let extra = 8 * size - bits * num in
    let input = little_endian size (pack bits vals) ++ rest in
    let bits_fit : bits * num ≤ 8 * size = omega (arith, mul_comm bits num) in
    let small : pack bits vals < 2 ^ (8 * size) =
      omega (arith, pack-lt bits vals fits, pow_mono (bits * num) (8 * size) bits_fit) in
    let split : 8 * size ≡ extra + bits * num = omega (arith, bits_fit) in
    let value =
      number-little_endian size (pack bits vals) rest small
      ∙ ap (λ (t : ℕ). pack bits vals + number rest * t)
          (ap (λ (t : ℕ). 2 ^ t) split ∙ pow-add extra (bits * num))
      ∙ ap (λ (t : ℕ). pack bits vals + t)
          (sym (mul_assoc (number rest) (2 ^ extra) (2 ^ (bits * num)))) in
    let whole : number input / 2 ^ 0 ≡ number input = omega arith in
    let enough : (0 + bits * num) / 8 + 4 ≤ length input = omega (
      arith,
      bits_fit,
      length-append (little_endian size (pack bits vals)) rest,
      length-little_endian size (pack bits vals),
    ) in
    read_all-unpack bits (record { input = input; bits_used = 0 }) num few (omega arith)
      (All-append IsByte (little_endian size (pack bits vals)) rest
        (little_endian-bytes size (pack bits vals)) h)
      enough
    ∙ ap (λ t. some (unpack bits num t)) (whole ∙ value)
    ∙ ap some (unpack-pack bits vals (number rest * 2 ^ extra) fits)
