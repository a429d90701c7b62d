-- ===== src/Pfor/Choice/Sound.antt =====
-- Whatever the costs are, the type that is chosen can hold the block.
use flocate.Prelude.{
  ℕ, zero, suc, ◌+◌, ◌-◌, ◌/◌, ◌%◌, ◌^◌, ◌≤◌, ◌<◌, max, ◌≡◌, refl, sym, subst, Bool, true, false,
  List, [], ◌∷◌, length, replicate, All, arith, ltb, leb, ◌==◌, ==_iff, if◌then◌else◌, inl, inr,
  Bool-cases,
}
use flocate.Pfor.Packing.{FitsIn, pow_pos, pow_mono}
use flocate.Pfor.Bits.{bytes_for_packed_bits}
use flocate.Pfor.Blocks.{
  BlockType, straight, pfor_vb, pfor_bitmap, constant, halvings, num_bits, exceptions,
}
use flocate.Pfor.ConstantRoundTrip.{num_bits-lt}
use flocate.Pfor.Choice.{
  all_equal, max_num_bits, Best, better, varbyte_cost, try_bitmaps, try_varbytes, Decision,
  decide_varying, conclude, count_bits, cumulate, decide_block_type,
}
use native.Mathlib.Nat.{pow-suc, div-lt_iff_lt-mul}

halvings-le_of : (fuel w x : ℕ) → x < 2 ^ w → halvings fuel x ≤ w
unfolding halvings
halvings-le_of zero w x h = omega arith
halvings-le_of (suc fuel) zero x h = let e : x ≡ 0 = omega arith in rw e (omega arith)
halvings-le_of (suc fuel) (suc w) x h =
    let later = halvings-le_of fuel w (x / 2) (omega (arith, pow-suc 2 w)) in
    elim (Bool-cases (x == 0)) [
      | inl none_left ↦ rw none_left (omega arith)
      | inr more ↦ rw more (omega (arith, later))
    ]

num_bits-le_of : (w x : ℕ) → x < 2 ^ w → num_bits x ≤ w
unfolding num_bits
num_bits-le_of w x h = halvings-le_of 32 w x h

max_num_bits-ge : (m : ℕ) (vals : List ℕ) → m ≤ max_num_bits m vals
unfolding max_num_bits
max_num_bits-ge m [] = omega arith
max_num_bits-ge m (val ∷ vals) = omega (arith, max_num_bits-ge (max m (num_bits val)) vals)

max_num_bits-FitsIn :
    (m : ℕ) (vals : List ℕ) → All (λ v. v < 2 ^ 32) vals → All (FitsIn (max_num_bits m vals)) vals
unfolding max_num_bits
max_num_bits-FitsIn m [] h = tt
max_num_bits-FitsIn m (val ∷ vals) (h, hs) =
    let most = max_num_bits (max m (num_bits val)) vals in
    let enough = max_num_bits-ge (max m (num_bits val)) vals in
    (
      omega (arith, num_bits-lt val h, pow_mono (num_bits val) most (omega (arith, enough))),
      max_num_bits-FitsIn (max m (num_bits val)) vals hs,
    )

max_num_bits-le : (m w : ℕ) (vals : List ℕ) → m ≤ w → All (FitsIn w) vals → max_num_bits m vals ≤ w
unfolding max_num_bits
max_num_bits-le m w [] hm h = hm
max_num_bits-le m w (val ∷ vals) hm (h, hs) =
    max_num_bits-le (max m (num_bits val)) w vals (omega (arith, num_bits-le_of w val h)) hs

exceptions-none : (w : ℕ) (vals : List ℕ) → length (exceptions w vals) ≡ 0 → All (FitsIn w) vals
unfolding exceptions
exceptions-none w [] h = tt
exceptions-none w (val ∷ vals) h = elim (Bool-cases (val / 2 ^ w == 0)) [
  | inl fits ↦
      let zero_high : val / 2 ^ w ≡ 0 = ground arith in
      (
        omega (arith, (div-lt_iff_lt-mul {x = val} {y = 1} (pow_pos w)).0 (omega arith)),
        exceptions-none w vals (rw fits at h),
      )
  | inr big ↦ absurd (omega (arith, rw big at h))
]

-- A width below the longest value leaves an exception.
exceptions-some : (w : ℕ) (vals : List ℕ) → w < max_num_bits 0 vals → 0 < length (exceptions w vals)
exceptions-some w vals h = elim (Bool-cases (length (exceptions w vals) == 0)) [
  | inl nothing ↦
      let all = exceptions-none w vals ((==_iff _ 0).0 nothing) in
      absurd (omega (arith, max_num_bits-le 0 w vals (omega arith) all))
  | inr found ↦ ground arith
]

try_bitmaps-le :
    (rounds width num max_bits : ℕ) (histogram : List ℕ) (num_exceptions : ℕ) (best : Best)
    → best.bit_width ≤ max_bits
    → (try_bitmaps rounds width num max_bits histogram num_exceptions best).bit_width ≤ max_bits
unfolding try_bitmaps
try_bitmaps-le zero width num max_bits histogram num_exceptions best h = h
try_bitmaps-le (suc rounds) width num max_bits histogram num_exceptions best h =
    try_bitmaps-le rounds (width + 1) num max_bits histogram _ _ (ground arith)

-- With varbyte exceptions the width is below the longest value's.
abbrev IsNarrow : ℕ → Best × Bool → Type 0
IsNarrow max_bits (best, is_varbyte) =
    (best.bit_width ≤ max_bits) × (is_varbyte ≡ true → best.bit_width < max_bits)

try_varbytes-IsNarrow :
    (rounds width num max_bits : ℕ) (histogram : List ℕ) (best : Best) (is_varbyte : Bool)
    → width + rounds ≤ max_bits
    → IsNarrow max_bits (best, is_varbyte)
    → IsNarrow max_bits (try_varbytes rounds width num max_bits histogram best is_varbyte)
unfolding try_varbytes
try_varbytes-IsNarrow zero width num max_bits histogram best is_varbyte below h = h
try_varbytes-IsNarrow (suc rounds) width num max_bits histogram best is_varbyte below h =
    let start = 1 + bytes_for_packed_bits num width in
    let cost = (start + varbyte_cost histogram max_bits width) % 2 ^ 32 in
    let next = better best cost width in
    let flag : Bool = if ltb cost best.cost then true else is_varbyte in
    let later =
      try_varbytes-IsNarrow rounds (width + 1) num max_bits histogram next flag (omega arith)
        (narrow cost (ltb cost best.cost)) in
    elim (Bool-cases (leb best.cost start)) [ inl stop ↦ rw stop h | inr go ↦ rw go later ]
  where
    narrow :
        (cost : ℕ) (b : Bool)
        → IsNarrow max_bits (
          if b then record { cost = cost; bit_width = width } else best,
          if b then true else is_varbyte,
        )
    narrow cost true = (omega arith, λ e. omega arith)
    narrow cost false = h

all_equal-replicate :
    (first : ℕ) (vals : List ℕ) → all_equal first vals ≡ true → vals ≡ replicate (length vals) first
unfolding all_equal
all_equal-replicate first [] h = refl
all_equal-replicate first (val ∷ vals) h = ground (arith, all_equal-replicate first vals)

-- What a type and its widths have to hold of the values of a block.
abbrev pub Holds : BlockType → ℕ → ℕ → List ℕ → Type 0
Holds constant w more [] = 1 ≤ 0
Holds constant w more (val ∷ vals) = (w ≡ num_bits val) × (vals ≡ replicate (length vals) val)
Holds straight w more vals = (w ≤ 25) × All (FitsIn w) vals
Holds pfor_vb w more vals = (w ≤ 25) × (0 < length (exceptions w vals))
Holds pfor_bitmap w more vals = (w + more ≤ 25) × All (FitsIn (w + more)) vals

pub record Fits (d : Decision) (vals : List ℕ) : Type 0 where
  pub fits : Holds d.block_type d.bit_width d.exception_bit_width vals

conclude-Fits :
    (vals : List ℕ) (unset : ℕ) (best : Best) (is_varbyte : Bool)
    → All (λ v. v < 2 ^ 25) vals
    → IsNarrow (max_num_bits 0 vals) (best, is_varbyte)
    → Fits (conclude (max_num_bits 0 vals) unset (best, is_varbyte)) vals
unfolding conclude
conclude-Fits vals unset best true h narrow =
    let most = max_num_bits-le 0 25 vals (omega arith) h in
    let below = narrow.1 refl in
    record { fits = (omega (arith, most, below), exceptions-some best.bit_width vals below) }
conclude-Fits vals unset best false h narrow =
    let most = max_num_bits-le 0 25 vals (omega arith) h in
    let all = max_num_bits-FitsIn 0 vals (words vals h) in
    elim (Bool-cases (best.bit_width == max_num_bits 0 vals)) [
      | inl whole ↦ rw whole (record { fits = (most, all) })
      | inr less ↦
          let sum : best.bit_width + (max_num_bits 0 vals - best.bit_width) ≡ max_num_bits 0 vals =
            omega (arith, narrow.0) in
          rw less (record {
            fits = (omega (arith, sum, most), subst (λ (w : ℕ). All (FitsIn w) vals) (sym sum) all);
          })
    ]
  where
    words : (vs : List ℕ) → All (λ (v : ℕ). v < 2 ^ 25) vs → All (λ (v : ℕ). v < 2 ^ 32) vs
    words [] h' = tt
    words (v ∷ vs) (h', hs) = (omega arith, words vs hs)

-- The decision for a block of deltas below 2 ^ 25 can hold them.
pub decide_block_type-Fits :
    (vals : List ℕ) (unset : ℕ)
    → 0 < length vals
    → All (λ v. v < 2 ^ 25) vals
    → Fits (decide_block_type vals unset) vals
unfolding decide_block_type decide_varying
decide_block_type-Fits [] unset some_left h = absurd (omega arith)
decide_block_type-Fits (val ∷ vals) unset some_left h = elim (Bool-cases (all_equal val vals)) [
  | inl same ↦
      let copies = all_equal-replicate val vals same in rw same (record { fits = (refl, copies) })
  | inr differ ↦
      let num = suc (length vals) in
      let all = val ∷ vals in
      let most = max_num_bits 0 all in
      let histogram = count_bits (replicate 33 0) all in
      let start : Best = record { cost = bytes_for_packed_bits num most; bit_width = most } in
      let best = try_bitmaps most 1 num most histogram 0 start in
      let (found, is_varbyte) = try_varbytes most 0 num most (cumulate histogram) best false in
      rw differ (
        conclude-Fits all unset found is_varbyte h (
          try_varbytes-IsNarrow most 0 num most (cumulate histogram) best false (omega arith)
            (try_bitmaps-le most 1 num most histogram 0 start (omega arith), λ e. cc)))
]
