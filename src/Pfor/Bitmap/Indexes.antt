-- ===== src/Pfor/Bitmap/Indexes.antt =====
-- The decoder finds the indexes of the values with exceptions in the bitmap.
use flocate.Prelude.{
  ℕ, zero, suc, ◌+◌, ◌-◌, ◌*◌, ◌/◌, ◌%◌, ◌^◌, ◌≤◌, ◌<◌, ◌≡◌, refl, sym, ap, ◌∙◌, List, [], ◌∷◌,
  ◌++◌, Bytes, some, length, length-append, take, drop, length-drop, length-take, All, All-take,
  IsByte, arith, ltb, ltb→lt, ltb→ge, ◌==◌, false, if◌then◌else◌, inl, inr, Bool-cases,
  take-append-drop,
}
use flocate.Prelude.Bits.{pow-add}
use flocate.Bytes.Words.{or_bytes}
use flocate.Pfor.Numbers.{number, or_bytes-number, number-drop, number-take}
use flocate.Pfor.Packing.{pack, FitsIn, pow_pos}
use flocate.Pfor.Unpacking.{pack-lt, All-drop}
use flocate.Pfor.Bitmap.{set_bits, bitmap_indexes}
use native.Mathlib.Nat.{
  add-mul-div_right, add-mul-mod_self_right, mod-eq_of_lt, mod-add-div', div-eq_of_lt, zero-add,
  pow-suc,
}

-- The positions of the ones, from `i` on.
unfoldable pub positions : ℕ → List ℕ → List ℕ
positions i [] = []
positions i (f ∷ fs) = if f == 0 then positions (i + 1) fs else i ∷ positions (i + 1) fs

positions-split :
    (n i : ℕ) (fs : List ℕ)
    → positions i (take n fs) ++ positions (i + n) (drop n fs) ≡ positions i fs
unfolding positions
positions-split zero i fs = let e : i + 0 ≡ i = omega arith in ap (λ (t : ℕ). positions t fs) e
positions-split (suc n) i [] = refl
positions-split (suc n) i (f ∷ fs) =
    let e : i + suc n ≡ i + 1 + n = omega arith in
    let later =
      ap (λ (t : ℕ). positions (i + 1) (take n fs) ++ positions t (drop n fs)) e
      ∙ positions-split n (i + 1) fs in
    elim (Bool-cases (f == 0)) [
      | inl none_here ↦ rw none_here later
      | inr one ↦ rw one (ap (◌∷◌ i) later)
    ]

set_bits-zero : (n i : ℕ) → set_bits n i 0 ≡ []
unfolding set_bits
set_bits-zero zero i = refl
set_bits-zero (suc n) i = set_bits-zero n (i + 1)

set_bits-pack :
    (n i : ℕ) (fs : List ℕ)
    → All (FitsIn 1) fs
    → length fs ≤ n
    → set_bits n i (pack 1 fs) ≡ positions i fs
unfolding set_bits pack positions
set_bits-pack n i [] h l = set_bits-zero n i
set_bits-pack zero i (f ∷ fs) h l = absurd (omega arith)
set_bits-pack (suc n) i (f ∷ fs) (h, hs) l =
    let low : (f + pack 1 fs * 2 ^ 1) % 2 ≡ f = omega arith in
    let high : (f + pack 1 fs * 2 ^ 1) / 2 ≡ pack 1 fs = omega arith in
    rw (low, high)
      (ap (λ t. if f == 0 then t else i ∷ t) (set_bits-pack n (i + 1) fs hs (omega arith)))

pack-append : (fs gs : List ℕ) → pack 1 (fs ++ gs) ≡ pack 1 fs + pack 1 gs * 2 ^ length fs
unfolding pack
pack-append [] gs = omega arith
pack-append (f ∷ fs) gs =
    omega (arith, pack-append fs gs, ap (λ (t : ℕ). pack 1 gs * t) (pow-suc 2 (length fs)))

pack-lt_flags : (fs : List ℕ) → All (FitsIn 1) fs → pack 1 fs < 2 ^ length fs
pack-lt_flags fs h =
    let e : 1 * length fs ≡ length fs = omega arith in
    omega (arith, pack-lt 1 fs h, ap (λ (t : ℕ). 2 ^ t) e)

regroup :
    (fs gs : List ℕ) (above : ℕ)
    → pack 1 (fs ++ gs) + above * 2 ^ length (fs ++ gs)
      ≡ pack 1 fs + (pack 1 gs + above * 2 ^ length gs) * 2 ^ length fs
regroup fs gs above = omega (
  arith,
  pack-append fs gs,
  ap (λ (t : ℕ). above * 2 ^ t) (length-append fs gs),
  ap (λ (t : ℕ). above * t) (pow-add (length fs) (length gs)),
)

take_all : (n : ℕ) (fs : List ℕ) → length fs ≤ n → take n fs ≡ fs
take_all n [] h = take_nil n
  where
    take_nil : (m : ℕ) → take {A = ℕ} m [] ≡ []
    take_nil zero = refl
    take_nil (suc m) = refl
take_all zero (f ∷ fs) h = absurd (omega arith)
take_all (suc n) (f ∷ fs) h = ap (◌∷◌ f) (take_all n fs (omega arith))

drop_all : (n : ℕ) (fs : List ℕ) → length fs ≤ n → drop n fs ≡ []
drop_all zero [] h = refl
drop_all zero (f ∷ fs) h = absurd (omega arith)
drop_all (suc n) [] h = refl
drop_all (suc n) (f ∷ fs) h = drop_all n fs (omega arith)

-- The lowest bits of a number are the first flags that are packed in it.
low_flags :
    (fs gs : List ℕ) (above : ℕ)
    → All (FitsIn 1) fs
    → (pack 1 (fs ++ gs) + above * 2 ^ length (fs ++ gs)) % 2 ^ length fs ≡ pack 1 fs
low_flags fs gs above h =
    ap (λ t. t % 2 ^ length fs) (regroup fs gs above)
    ∙ add-mul-mod_self_right (pack 1 fs) _ (2 ^ length fs)
    ∙ mod-eq_of_lt (pack-lt_flags fs h)

high_flags :
    (fs gs : List ℕ) (above : ℕ)
    → All (FitsIn 1) fs
    → (pack 1 (fs ++ gs) + above * 2 ^ length (fs ++ gs)) / 2 ^ length fs
      ≡ pack 1 gs + above * 2 ^ length gs
high_flags fs gs above h =
    ap (λ t. t / 2 ^ length fs) (regroup fs gs above)
    ∙ add-mul-div_right (pack 1 fs) _ (pow_pos (length fs))
    ∙ ap (λ t. t + (pack 1 gs + above * 2 ^ length gs)) (div-eq_of_lt (pack-lt_flags fs h))
    ∙ zero-add _

mod_mod_pow : (n m k : ℕ) → k ≤ m → n % 2 ^ m % 2 ^ k ≡ n % 2 ^ k
mod_mod_pow n m k h =
    let e : m - k + k ≡ m = omega arith in
    let power : 2 ^ (m - k) * 2 ^ k ≡ 2 ^ m = sym (pow-add (m - k) k) ∙ ap (λ (t : ℕ). 2 ^ t) e in
    let parts : n ≡ n % 2 ^ m + n / 2 ^ m * 2 ^ (m - k) * 2 ^ k =
      omega (arith, mod-add-div' n (2 ^ m), ap (λ (t : ℕ). n / 2 ^ m * t) power) in
    sym (ap (λ t. t % 2 ^ k) parts ∙ add-mul-mod_self_right _ (n / 2 ^ m * 2 ^ (m - k)) (2 ^ k))

-- The eight bytes that a round reads.
eight_bytes :
    (p : Bytes) → All IsByte p → 8 ≤ length p → or_bytes (take 8 p) 0 0 ≡ number p % 2 ^ 64
eight_bytes p h l = or_bytes-number (take 8 p) (All-take IsByte 8 p h) ∙ number-take 8 p h l

-- The word of a round has the next flags, at most 64.
round_word :
    (left : ℕ) (fs : List ℕ) (p : Bytes) (above : ℕ)
    → length fs ≡ left
    → All (FitsIn 1) fs
    → All IsByte p
    → 8 ≤ length p
    → number p ≡ pack 1 fs + above * 2 ^ length fs
    → ((if ltb left 64 then or_bytes (take 8 p) 0 0 % 2 ^ left else or_bytes (take 8 p) 0 0)
        ≡ pack 1 (take 64 fs))
      × ((above' : ℕ) × (number (drop 8 p)
            ≡ pack 1 (drop 64 fs) + above' * 2 ^ length (drop 64 fs)))
unfolding pack
round_word left fs p above len h hb l same =
    let bytes = eight_bytes p hb l in
    let further = number-drop 8 p hb in
    let parts = take-append-drop 64 fs in
    let first = All-take (FitsIn 1) 64 fs h in
    elim (Bool-cases (ltb left 64)) [
      | inl last ↦
          let all : take 64 fs ≡ fs = take_all 64 fs (omega (arith, ltb→lt left 64 last)) in
          let none_left : drop 64 fs ≡ [] = drop_all 64 fs (omega (arith, ltb→lt left 64 last)) in
          rw (last, all, none_left, bytes)
            (
              mod_mod_pow (number p) 64 left (omega (arith, ltb→lt left 64 last))
                  ∙ ap (λ (t : ℕ). number p % 2 ^ t) (sym len)
                  ∙ ap (λ t. t % 2 ^ length fs) same
                  ∙ add-mul-mod_self_right (pack 1 fs) above (2 ^ length fs)
                  ∙ mod-eq_of_lt (pack-lt_flags fs h),
              (number (drop 8 p), omega arith),
            )
      | inr more ↦
          let size : length (take 64 fs) ≡ 64 =
            omega (arith, ltb→ge left 64 more, length-take 64 fs) in
          let whole : number p
              ≡ pack 1 (take 64 fs ++ drop 64 fs) + above * 2 ^ length (take 64 fs ++ drop 64 fs) =
            same ∙ ap (λ gs. pack 1 gs + above * 2 ^ length gs) (sym parts) in
          rw more (
            bytes
                ∙ ap (λ (t : ℕ). number p % 2 ^ t) (sym size)
                ∙ ap (λ t. t % 2 ^ length (take 64 fs)) whole
                ∙ low_flags (take 64 fs) (drop 64 fs) above first,
            (
              above,
              further
                  ∙ ap (λ (t : ℕ). number p / 2 ^ t) (sym size)
                  ∙ ap (λ t. t / 2 ^ length (take 64 fs)) whole
                  ∙ high_flags (take 64 fs) (drop 64 fs) above first,
            ),
          )
    ]

-- All rounds.
pub indexes-positions :
    (rounds i left : ℕ) (fs : List ℕ) (p : Bytes) (above : ℕ)
    → length fs ≡ left
    → left ≤ 64 * rounds
    → All (FitsIn 1) fs
    → All IsByte p
    → 8 * rounds ≤ length p
    → number p ≡ pack 1 fs + above * 2 ^ length fs
    → bitmap_indexes rounds i left p ≡ some (positions i fs)
unfolding bitmap_indexes positions
indexes-positions zero i left [] p above len enough h hb l same = refl
indexes-positions zero i left (f ∷ fs) p above len enough h hb l same = absurd (omega arith)
indexes-positions (suc rounds) i left [] p above len enough h hb l same =
    let e : left ≡ 0 = omega arith in rw e refl
indexes-positions (suc rounds) i left (f ∷ fs) p above len enough h hb l same =
    let all = f ∷ fs in
    let (word_of, (above', rest_of)) = round_word left all p above len h hb (omega arith) same in
    let some_left : (left == 0) ≡ false = ground (arith, len) in
    let in_range : ltb (length p) 8 ≡ false = ge→ltb (length p) 8 (omega arith) in
    let later =
      indexes-positions rounds (i + 64) (left - 64) (drop 64 all) (drop 8 p) above'
        (omega (arith, length-drop 64 all)) (omega arith) (All-drop (FitsIn 1) 64 all h)
        (All-drop IsByte 8 p hb) (omega (arith, length-drop 8 p)) rest_of in
    let found =
      set_bits-pack 64 i (take 64 all) (All-take (FitsIn 1) 64 all h)
        (omega (arith, length-take 64 all)) in
    rw (some_left, in_range, later, word_of, found) (ap some (positions-split 64 i all))
  where
    ge→ltb : (a b : ℕ) → b ≤ a → ltb a b ≡ false
    ge→ltb a b h' = ground arith
