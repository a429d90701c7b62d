-- ===== src/Pfor/Packing.antt =====
-- What BitWriter writes is one number in little-endian form, each value above the ones before it,
-- and BitReader takes that number apart.
use flocate.Prelude.{
  ℕ, zero, suc, ◌+◌, ◌-◌, ◌*◌, ◌/◌, ◌%◌, ◌^◌, ◌≤◌, ◌<◌, bit_or, ◌≡◌, refl, sym, ap, ◌∙◌, List, [],
  ◌∷◌, ◌++◌, append_assoc, Bytes, length, length-append, take, All, arith,
}
use flocate.Prelude.Bits.{bit_or-shift, pow-add}
use flocate.Bytes.Words.{little_endian, length-little_endian}
use flocate.Pfor.Bits.{
  BitWriter, new_writer, write, write_all, encode_bitmap, packed, bytes_for_packed_bits, mask_all,
}
use flocate.Pfor.Numbers.{
  little_endian-split, little_endian-low, take-little_endian, drop-little_endian,
}
use native.Mathlib.Nat.{
  pow-suc, mul_comm, mod-lt, mul-le-mul_right, mul-le-mul_left, add-mul-div_right,
  div-lt_iff_lt-mul,
}

-- The values as one number, the first lowest.
unfoldable pub pack : ℕ → List ℕ → ℕ
pack bits [] = 0
pack bits (val ∷ vals) = val + pack bits vals * 2 ^ bits

abbrev pub FitsIn : ℕ → ℕ → Type 0
FitsIn bits val = val < 2 ^ bits

pub pow_pos : (n : ℕ) → 0 < 2 ^ n
pow_pos zero = omega arith
pow_pos (suc n) = omega (arith, pow_pos n, pow-suc 2 n)

pub pow_mono : (n m : ℕ) → n ≤ m → 2 ^ n ≤ 2 ^ m
pow_mono n zero h = let e : n ≡ zero = omega arith in rw e (omega arith)
pow_mono zero (suc m) h = omega (arith, pow_pos (suc m))
pow_mono (suc n) (suc m) h = omega (arith, pow_mono n m (omega arith), pow-suc 2 n, pow-suc 2 m)

-- The accumulator after a write, before whole bytes are shifted out.
shifted_in :
    (cur val used bits : ℕ)
    → cur < 2 ^ used
    → used < 8
    → bits ≤ 25
    → val < 2 ^ bits
    → bit_or cur (val * 2 ^ used % 2 ^ 32) ≡ cur + val * 2 ^ used
shifted_in cur val used bits hc hu hb hv =
    let bound : val * 2 ^ used < 2 ^ 32 =
      omega (arith, mul-le-mul_left val (pow_mono used 7 (omega arith)), pow_mono bits 25 hb) in
    let e : val * 2 ^ used % 2 ^ 32 ≡ val * 2 ^ used = omega arith in
    ap (bit_or cur) e ∙ bit_or-shift used cur val hc

pub shifted_in-lt :
    (cur val used bits : ℕ)
    → cur < 2 ^ used
    → val < 2 ^ bits
    → cur + val * 2 ^ used < 2 ^ (used + bits)
shifted_in-lt cur val used bits hc hv = omega (
  arith,
  pow-add used bits,
  mul_comm (2 ^ used) (2 ^ bits),
  mul-le-mul_right (2 ^ used) (suc_le val hv),
  suc_mul val,
)
  where
    suc_le : (v : ℕ) → v < 2 ^ bits → suc v ≤ 2 ^ bits
    suc_le v h = omega arith

    suc_mul : (v : ℕ) → suc v * 2 ^ used ≡ v * 2 ^ used + 2 ^ used
    suc_mul v = omega arith

-- A writer between two calls: its accumulator is the last, unfinished byte.
record IsReady (bs : BitWriter) : Type 0 where
  cur : bs.cur_val < 2 ^ bs.bits_used
  used : bs.bits_used < 8
  tail : take ((bs.bits_used + 7) / 8) bs.behind ≡ little_endian ((bs.bits_used + 7) / 8) bs.cur_val

new_writer-IsReady : IsReady new_writer
unfolding little_endian
new_writer-IsReady = record { cur = omega arith; used = omega arith; tail = refl }

module _ (bits : ℕ) (few : bits ≤ 25) (bs : BitWriter) (val : ℕ) (ready : IsReady bs)
    (fits : val < 2 ^ bits) where
  abbrev whole : ℕ
  whole = (bs.bits_used + bits) / 8

  abbrev sum : ℕ
  sum = bs.cur_val + val * 2 ^ bs.bits_used

  abbrev left : ℕ
  left = (bs.bits_used + bits) % 8

  abbrev after : BitWriter
  after = record {
    written = bs.written ++ little_endian whole sum;
    behind = little_endian (4 - whole) (sum / 2 ^ (8 * whole));
    bits_used = left;
    cur_val = sum / 2 ^ (8 * whole);
  }

  write-after : write bits bs val ≡ after
  unfolding write
  write-after =
      let e = shifted_in bs.cur_val val bs.bits_used bits ready.cur ready.used few fits in
      let shift : whole * 8 ≡ 8 * whole = omega arith in
      rw
        (
          e,
          shift,
          take-little_endian whole 4 sum (omega (arith, ready.used)),
          drop-little_endian whole 4 sum (omega (arith, ready.used)),
        )
        refl

  split_bits : 2 ^ (bs.bits_used + bits) ≡ 2 ^ left * 2 ^ (8 * whole)
  split_bits =
      let e : bs.bits_used + bits ≡ left + 8 * whole = omega arith in
      ap (λ (t : ℕ). 2 ^ t) e ∙ pow-add left (8 * whole)

  after-IsReady : IsReady after
  after-IsReady = record {
    cur =
        (div-lt_iff_lt-mul (pow_pos (8 * whole))).1
          (rw (sym split_bits) (shifted_in-lt bs.cur_val val bs.bits_used bits ready.cur fits));
    used = omega arith;
    tail = take-little_endian ((left + 7) / 8) (4 - whole) _ (omega (arith, ready.used));
  }

  -- What the rest of the values adds comes above the bytes that are finished.
  bytes_after :
      (size rest : ℕ)
      → little_endian whole sum ++ little_endian size (sum / 2 ^ (8 * whole) + rest * 2 ^ left)
        ≡ little_endian (whole + size) (bs.cur_val + (val + rest * 2 ^ bits) * 2 ^ bs.bits_used)
  bytes_after size rest =
      ap (λ t. t ++ little_endian size (sum / 2 ^ (8 * whole) + rest * 2 ^ left))
        (sym (little_endian-low whole sum (rest * 2 ^ left)))
      ∙ ap
          (λ t.
            little_endian whole (sum + rest * 2 ^ left * 2 ^ (8 * whole)) ++ little_endian size t)
          (sym (add-mul-div_right sum (rest * 2 ^ left) (pow_pos (8 * whole))))
      ∙ sym (little_endian-split whole size (sum + rest * 2 ^ left * 2 ^ (8 * whole)))
      ∙ ap (little_endian (whole + size)) same
    where
      same :
          sum + rest * 2 ^ left * 2 ^ (8 * whole)
          ≡ bs.cur_val + (val + rest * 2 ^ bits) * 2 ^ bs.bits_used
      same = omega (arith, ap (λ (t : ℕ). rest * t) (sym split_bits ∙ pow-add bs.bits_used bits))

take-append_more : (n : ℕ) (xs ys : Bytes) → take (length xs + n) (xs ++ ys) ≡ xs ++ take n ys
take-append_more n [] ys = let e : zero + n ≡ n = omega arith in ap (λ (t : ℕ). take t ys) e
take-append_more n (x ∷ xs) ys =
    let e : suc (length xs) + n ≡ suc (length xs + n) = omega arith in
    ap (λ (t : ℕ). take t (x ∷ (xs ++ ys))) e ∙ ap (◌∷◌ x) (take-append_more n xs ys)

-- The bytes of a writer are those before it and the number of its accumulator and the values.
write_all-packed :
    (bits : ℕ) (bs : BitWriter) (vals : List ℕ)
    → bits ≤ 25
    → IsReady bs
    → All (FitsIn bits) vals
    → packed
        (length bs.written + (bs.bits_used + bits * length vals + 7) / 8)
        (write_all bits bs vals)
      ≡ bs.written
        ++ little_endian
            ((bs.bits_used + bits * length vals + 7) / 8)
            (bs.cur_val + pack bits vals * 2 ^ bs.bits_used)
unfolding write_all pack
write_all-packed bits bs [] few ready fits =
    let size : bs.bits_used + bits * 0 + 7 ≡ bs.bits_used + 7 = omega arith in
    let total : bs.cur_val + 0 * 2 ^ bs.bits_used ≡ bs.cur_val = omega arith in
    rw (size, total, take-append_more ((bs.bits_used + 7) / 8) bs.written bs.behind, ready.tail)
      refl
write_all-packed bits bs (val ∷ vals) few ready (fit, fits) =
    let next = after bits few bs val ready fit in
    let size = (next.bits_used + bits * length vals + 7) / 8 in
    let sizes : (bs.bits_used + bits * suc (length vals) + 7) / 8
        ≡ (bs.bits_used + bits) / 8 + size =
      omega arith in
    let start : length bs.written + ((bs.bits_used + bits) / 8 + size)
        ≡ length next.written + size =
      omega (
        arith,
        length-append bs.written
            (little_endian ((bs.bits_used + bits) / 8) (bs.cur_val + val * 2 ^ bs.bits_used)),
        length-little_endian ((bs.bits_used + bits) / 8) (bs.cur_val + val * 2 ^ bs.bits_used),
      ) in
    let later =
      write_all-packed bits next vals few (after-IsReady bits few bs val ready fit) fits in
    rw (sizes, start)
      (ap (λ b. packed (length next.written + size) (write_all bits b vals))
          (write-after bits few bs val ready fit)
        ∙ later
        ∙ append_assoc bs.written _ _
        ∙ ap (λ t. bs.written ++ t) (bytes_after bits few bs val ready fit size (pack bits vals)))

pub packed_size :
    (vals : List ℕ) (bits : ℕ)
    → length vals * bits < 2 ^ 31
    → bytes_for_packed_bits (length vals) bits ≡ (length vals * bits + 7) / 8
unfolding bytes_for_packed_bits
packed_size vals bits short = omega arith

pub length-mask_all : (bits : ℕ) (vals : List ℕ) → length (mask_all bits vals) ≡ length vals
unfolding mask_all
length-mask_all bits [] = refl
length-mask_all bits (val ∷ vals) = ap suc (length-mask_all bits vals)

pub mask_all-FitsIn : (bits : ℕ) (vals : List ℕ) → All (FitsIn bits) (mask_all bits vals)
unfolding mask_all
mask_all-FitsIn bits [] = tt
mask_all-FitsIn bits (val ∷ vals) = (mod-lt val (pow_pos bits), mask_all-FitsIn bits vals)

-- `encode_bitmap` gives the lowest bits of the values, packed in as many bytes as they need.
pub encode_bitmap-pack :
    (bits : ℕ) (vals : List ℕ)
    → bits ≤ 25
    → length vals * bits < 2 ^ 31
    → encode_bitmap bits vals
      ≡ little_endian ((length vals * bits + 7) / 8) (pack bits (mask_all bits vals))
unfolding encode_bitmap
encode_bitmap-pack bits vals few short =
    let low = mask_all bits vals in
    let total : 0 + pack bits low * 2 ^ 0 ≡ pack bits low = omega arith in
    let size : (0 + bits * length low + 7) / 8 ≡ (length vals * bits + 7) / 8 =
      omega
        (arith, mul_comm bits (length low), ap (λ (t : ℕ). t * bits) (length-mask_all bits vals)) in
    let start : 0 + (0 + bits * length low + 7) / 8 ≡ bytes_for_packed_bits (length vals) bits =
      omega (arith, size, packed_size vals bits short) in
    ap (λ n. packed n (write_all bits new_writer low)) (sym start)
    ∙ write_all-packed bits new_writer low few new_writer-IsReady (mask_all-FitsIn bits vals)
    ∙ ap (λ n. little_endian n (0 + pack bits low * 2 ^ 0)) size
    ∙ ap (little_endian ((length vals * bits + 7) / 8)) total
