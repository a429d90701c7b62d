-- ===== src/Pfor/Interleaved/Reading.antt =====
-- A reader of one stream takes the values out of the words of that stream.
use flocate.Prelude.{
  ℕ, suc, ◌+◌, ◌-◌, ◌*◌, ◌/◌, ◌%◌, ◌^◌, ◌≤◌, ◌<◌, bit_or, ◌≡◌, refl, sym, ap, ◌∙◌, List, [], ◌∷◌,
  Bytes, some, length, drop, arith, ltb, false, if◌then◌else◌, inl, inr, Bool-cases,
}
use flocate.Prelude.Bits.{bit_or-shift, pow-add}
use flocate.Pfor.Packing.{pack, pow_pos}
use flocate.Pfor.Unpacking.{word_bits}
use flocate.Pfor.Interleaved.{InterleavedBitReader, word, read_stream, reach}
use native.Mathlib.Nat.{
  mod-lt, mod-eq_of_lt, mod-add-div', mul-le-mul_right, add-mul-div_right, add-mul-mod_self_right,
  div-div-eq-div-mul, div-lt_iff_lt-mul, mod-one, div-eq_of_lt, zero-add,
}

-- Words as digits to the base 2 ^ 32, the lowest first.
unfoldable pub base : List ℕ → ℕ
base [] = 0
base (w ∷ ws) = w + base ws * 2 ^ 32

-- The words of a stream stand 16 bytes apart, and there are four bytes behind the last one's.
abbrev pub IsLane : List ℕ → Bytes → Type 0
IsLane [] p = 4 ≤ length p
IsLane (w ∷ ws) p = (w < 2 ^ 32) × (word p ≡ w) × (20 ≤ length p) × IsLane ws (drop 16 p)

-- The high part of a value that stands in two words.
high_part : (used w : ℕ) → used < 32 → w * 2 ^ (32 - used) % 2 ^ 32 ≡ w % 2 ^ used * 2 ^ (32 - used)
high_part used w h =
    let k = 32 - used in
    let e : used + k ≡ 32 = omega arith in
    let power : 2 ^ used * 2 ^ k ≡ 2 ^ 32 = sym (pow-add used k) ∙ ap (λ (t : ℕ). 2 ^ t) e in
    let parts : w * 2 ^ k ≡ w % 2 ^ used * 2 ^ k + w / 2 ^ used * 2 ^ 32 = omega (
      arith,
      ap (λ (t : ℕ). t * 2 ^ k) (sym (mod-add-div' w (2 ^ used))),
      ap (λ (t : ℕ). w / 2 ^ used * t) power,
    ) in
    let bound : w % 2 ^ used * 2 ^ k < 2 ^ 32 = omega (
      arith,
      mul-le-mul_right (2 ^ k) (suc_le (w % 2 ^ used) (2 ^ used) (mod-lt w (pow_pos used))),
      power,
      pow_pos k,
    ) in
    ap (λ t. t % 2 ^ 32) parts
    ∙ add-mul-mod_self_right _ (w / 2 ^ used) (2 ^ 32)
    ∙ mod-eq_of_lt bound
  where
    suc_le : (a b : ℕ) → a < b → suc a ≤ b
    suc_le a b h' = omega arith

-- The bits above `used` of a number that starts with the words `w` and `v`.
straddled :
    (used bits w v r : ℕ)
    → used < 32
    → bits ≤ 32
    → (w / 2 ^ used + v % 2 ^ used * 2 ^ (32 - used)) % 2 ^ bits
      ≡ (w + (v + r * 2 ^ 32) * 2 ^ 32) / 2 ^ used % 2 ^ bits
straddled used bits w v r h hb = sym (
    ap (λ t. t / 2 ^ used % 2 ^ bits) regroup
    ∙ ap (λ t. t % 2 ^ bits) (add-mul-div_right w _ (pow_pos used))
    ∙ ap (λ t. t % 2 ^ bits) above
    ∙ add-mul-mod_self_right _ (q * 2 ^ (32 - bits)) (2 ^ bits))
  where
    k : ℕ
    k = 32 - used

    q : ℕ
    q = v / 2 ^ used + r * 2 ^ (32 - used)

    power : 2 ^ (32 - used) * 2 ^ used ≡ 2 ^ 32
    power =
        let e : 32 - used + used ≡ 32 = omega arith in
        sym (pow-add (32 - used) used) ∙ ap (λ (t : ℕ). 2 ^ t) e

    power' : 2 ^ (32 - bits) * 2 ^ bits ≡ 2 ^ 32
    power' =
        let e : 32 - bits + bits ≡ 32 = omega arith in
        sym (pow-add (32 - bits) bits) ∙ ap (λ (t : ℕ). 2 ^ t) e

    regroup : w + (v + r * 2 ^ 32) * 2 ^ 32 ≡ w + (v + r * 2 ^ 32) * 2 ^ (32 - used) * 2 ^ used
    regroup = omega (arith, ap (λ (t : ℕ). (v + r * 2 ^ 32) * t) power)

    above :
        w / 2 ^ used + (v + r * 2 ^ 32) * 2 ^ (32 - used)
        ≡ w / 2 ^ used
          + v % 2 ^ used * 2 ^ (32 - used)
          + (v / 2 ^ used + r * 2 ^ (32 - used)) * 2 ^ (32 - bits) * 2 ^ bits
    above = omega (
      arith,
      ap (λ (t : ℕ). t * 2 ^ (32 - used)) (sym (mod-add-div' v (2 ^ used))),
      ap (λ (t : ℕ). v / 2 ^ used * t) power,
      ap (λ (t : ℕ). r * 2 ^ (32 - used) * t) power,
      ap (λ (t : ℕ). (v / 2 ^ used + r * 2 ^ (32 - used)) * t) power',
    )

-- What a reader still has to read.
pub record Holds (bits : ℕ) (bs : InterleavedBitReader) (vals : List ℕ) : Type 0 where
  pub words : List ℕ
  pub lane : IsLane words bs.input
  pub used : bs.bits_used < 32
  pub enough : bs.bits_used + bits * length vals ≤ 32 * length words
  pub same : base words / 2 ^ bs.bits_used ≡ pack bits vals

abbrev pub after_read : ℕ → InterleavedBitReader → InterleavedBitReader
after_read bits bs = record {
  input = drop (16 * ((bs.bits_used + bits) / 32)) bs.input;
  bits_used = (bs.bits_used + bits) % 32;
}

-- The value that a read finds in the words of a stream.
abbrev found : ℕ → ℕ → Bytes → ℕ
found bits used p =
    (if ltb 32 (used + bits)
      then bit_or (word p / 2 ^ used) (word (drop 16 p) * 2 ^ (32 - used) % 2 ^ 32)
      else word p / 2 ^ used)
    % 2 ^ bits

found-base :
    (bits used : ℕ) (ws : List ℕ) (p : Bytes)
    → bits ≤ 32
    → used < 32
    → IsLane ws p
    → used + bits ≤ 32 * length ws
    → found bits used p ≡ base ws / 2 ^ used % 2 ^ bits
unfolding base
found-base bits used [] p few hu lane h =
    let e : bits ≡ 0 = omega arith in rw e (mod-one _ ∙ sym (mod-one (0 / 2 ^ used)))
found-base bits used (w ∷ ws) p few hu lane h = elim (Bool-cases (ltb 32 (used + bits))) [
  | inr one ↦
      let low : (w + base ws * 2 ^ 32) % 2 ^ 32 ≡ w = omega (arith, lane.0) in
      rw (one, lane.1)
        (ap (λ t. t / 2 ^ used % 2 ^ bits) (sym low)
          ∙ word_bits (w + base ws * 2 ^ 32) used bits (ground arith))
  | inl two ↦ rw (two, lane.1) (both ws lane.3 (ground arith))
]
  where
    both :
        (ws' : List ℕ)
        → IsLane ws' (drop 16 p)
        → 32 < 32 * length (w ∷ ws')
        → bit_or (w / 2 ^ used) (word (drop 16 p) * 2 ^ (32 - used) % 2 ^ 32) % 2 ^ bits
          ≡ (w + base ws' * 2 ^ 32) / 2 ^ used % 2 ^ bits
    both [] lane' h' = absurd (omega arith)
    both (v ∷ vs) lane' h' =
        let e : 32 - used + used ≡ 32 = omega arith in
        let fits : w / 2 ^ used < 2 ^ (32 - used) =
          (div-lt_iff_lt-mul (pow_pos used)).1
            (omega (arith, lane.0, pow-add (32 - used) used, ap (λ (t : ℕ). 2 ^ t) e)) in
        rw lane'.1 (
          ap (λ t. bit_or (w / 2 ^ used) t % 2 ^ bits) (high_part used v hu)
          ∙ ap (λ t. t % 2 ^ bits) (bit_or-shift (32 - used) (w / 2 ^ used) (v % 2 ^ used) fits)
          ∙ straddled used bits w v (base vs) hu few)

in_reach :
    (bits used : ℕ) (ws : List ℕ) (p : Bytes)
    → used < 32
    → IsLane ws p
    → used + bits ≤ 32 * length ws
    → ltb (length p) (reach bits used) ≡ false
in_reach bits used [] p hu lane h = ground arith
in_reach bits used (w ∷ ws) p hu lane h = ground (arith, lane.2)

-- Where a read leaves its reader, in the word it started in or in the next one.
lane_after :
    (bits used rest : ℕ) (ws : List ℕ) (p : Bytes)
    → bits ≤ 32
    → used < 32
    → IsLane ws p
    → used + bits + rest ≤ 32 * length ws
    → (ws' : List ℕ) × IsLane ws' (drop (16 * ((used + bits) / 32)) p)
      × ((used + bits) % 32 + rest ≤ 32 * length ws')
      × (base ws' / 2 ^ ((used + bits) % 32) ≡ base ws / 2 ^ (used + bits))
unfolding base
lane_after bits used rest ws p few hu lane h = elim (Bool-cases (ltb (used + bits) 32)) [
  | inl same ↦
      let short : used + bits < 32 = ground arith in
      let stay : 16 * ((used + bits) / 32) ≡ 0 = omega arith in
      let left : (used + bits) % 32 ≡ used + bits = omega arith in
      rw (stay, left) (ws, lane, h, refl)
  | inr next ↦ further ws lane h (ground arith)
]
  where
    further :
        (ws' : List ℕ)
        → IsLane ws' p
        → used + bits + rest ≤ 32 * length ws'
        → 32 ≤ used + bits
        → (ws'' : List ℕ) × IsLane ws'' (drop (16 * ((used + bits) / 32)) p)
          × ((used + bits) % 32 + rest ≤ 32 * length ws'')
          × (base ws'' / 2 ^ ((used + bits) % 32) ≡ base ws' / 2 ^ (used + bits))
    further [] lane' h' long = absurd (omega arith)
    further (w ∷ ws') lane' h' long =
        let move : 16 * ((used + bits) / 32) ≡ 16 = omega arith in
        let e : 32 + (used + bits) % 32 ≡ used + bits = omega arith in
        let high : (w + base ws' * 2 ^ 32) / 2 ^ 32 ≡ base ws' = omega (arith, lane'.0) in
        rw move (
          ws',
          lane'.3,
          omega arith,
          ap (λ t. t / 2 ^ ((used + bits) % 32)) (sym high)
              ∙ div-div-eq-div-mul _ (2 ^ 32) (2 ^ ((used + bits) % 32))
              ∙ ap (λ (t : ℕ). (w + base ws' * 2 ^ 32) / t)
                  (sym (pow-add 32 ((used + bits) % 32)) ∙ ap (λ (t : ℕ). 2 ^ t) e),
        )

-- One read.
pub read-Holds :
    (bits val : ℕ) (vals : List ℕ) (bs : InterleavedBitReader)
    → bits ≤ 32
    → val < 2 ^ bits
    → Holds bits bs (val ∷ vals)
    → (read_stream bits bs ≡ some (val, after_read bits bs)) × Holds bits (after_read bits bs) vals
unfolding read_stream pack
read-Holds bits val vals bs few fit h =
    let taken =
      found-base bits bs.bits_used h.words bs.input few h.used h.lane (omega (arith, h.enough)) in
    let low : (val + pack bits vals * 2 ^ bits) % 2 ^ bits ≡ val =
      add-mul-mod_self_right val (pack bits vals) (2 ^ bits) ∙ mod-eq_of_lt fit in
    let in_range =
      in_reach bits bs.bits_used h.words bs.input h.used h.lane (omega (arith, h.enough)) in
    let high : (val + pack bits vals * 2 ^ bits) / 2 ^ bits ≡ pack bits vals =
      add-mul-div_right val (pack bits vals) (pow_pos bits)
      ∙ ap (λ t. t + pack bits vals) (div-eq_of_lt fit)
      ∙ zero-add _ in
    let (ws, lane, enough, same) =
      lane_after bits bs.bits_used (bits * length vals) h.words bs.input few h.used h.lane
        (omega (arith, h.enough)) in
    (
      rw in_range (
          ap (λ (t : ℕ). some (t, after_read bits bs))
            (taken ∙ ap (λ t. t % 2 ^ bits) h.same ∙ low)),
      record {
        words = ws;
        lane = lane;
        used = omega arith;
        enough = enough;
        same =
            same
            ∙ ap (λ (t : ℕ). base h.words / t) (pow-add bs.bits_used bits)
            ∙ sym (div-div-eq-div-mul (base h.words) (2 ^ bs.bits_used) (2 ^ bits))
            ∙ ap (λ t. t / 2 ^ bits) h.same
            ∙ high;
      },
    )
