-- ===== src/Pfor/Interleaved/Writing.antt =====
-- A stream's words are the digits of the packed number of its values, to the base 2 ^ 32.
use flocate.Prelude.{
  ℕ, zero, suc, ◌+◌, ◌-◌, ◌*◌, ◌/◌, ◌%◌, ◌^◌, ◌≤◌, ◌<◌, bit_or, ◌≡◌, refl, sym, ap, ◌∙◌, List, [],
  ◌∷◌, ◌++◌, append-nil, append_assoc, length, All, arith, leb, true, false, inl, inr, Bool-cases,
}
use flocate.Prelude.Bits.{bit_or-shift, pow-add}
use flocate.Pfor.Packing.{pack, FitsIn, pow_pos, pow_mono, shifted_in-lt}
use flocate.Pfor.Interleaved.{InterleavedBitWriter, flush_word, write_stream}
use native.Mathlib.Nat.{add-mul-div_right, add-mul-mod_self_right}

-- The lowest `n` digits of a number.
unfoldable pub digits : ℕ → ℕ → List ℕ
digits zero v = []
digits (suc n) v = v % 2 ^ 32 ∷ digits n (v / 2 ^ 32)

unfoldable pub write_streams : ℕ → InterleavedBitWriter → List ℕ → InterleavedBitWriter
write_streams bits bs [] = bs
write_streams bits bs (val ∷ vals) = write_streams bits (write_stream bits bs val) vals

pub record IsReady (bs : InterleavedBitWriter) : Type 0 where
  pub cur : bs.cur_val < 2 ^ bs.bits_used
  pub used : bs.bits_used < 32

module _ (bits : ℕ) (few : bits ≤ 32) (bs : InterleavedBitWriter) (val : ℕ) (ready : IsReady bs)
    (fits : val < 2 ^ bits) where
  abbrev sum : ℕ
  sum = bs.cur_val + val * 2 ^ bs.bits_used

  sum-lt : sum < 2 ^ (bs.bits_used + bits)
  sum-lt = shifted_in-lt bs.cur_val val bs.bits_used bits ready.cur fits

  write-sum : write_stream bits bs val ≡ flush_word bits bs sum
  unfolding write_stream
  write-sum =
      let bound : val * 2 ^ bs.bits_used < 2 ^ 64 =
        omega (arith, sum-lt, pow_mono (bs.bits_used + bits) 64 (omega (arith, ready.used))) in
      let e : val * 2 ^ bs.bits_used % 2 ^ 64 ≡ val * 2 ^ bs.bits_used = omega arith in
      ap (flush_word bits bs)
        (ap (bit_or bs.cur_val) e ∙ bit_or-shift bs.bits_used bs.cur_val val ready.cur)

  -- A write that finishes a word.
  abbrev finished : InterleavedBitWriter
  finished = record {
    words = bs.words ++ (sum % 2 ^ 32 ∷ []);
    behind = sum / 2 ^ 32 % 2 ^ 32;
    bits_used = bs.bits_used + bits - 32;
    cur_val = sum / 2 ^ 32;
  }

  abbrev open_word : InterleavedBitWriter
  open_word = record {
    words = bs.words;
    behind = sum % 2 ^ 32;
    bits_used = bs.bits_used + bits;
    cur_val = sum;
  }

  pub write-finished : leb 32 (bs.bits_used + bits) ≡ true → write_stream bits bs val ≡ finished
  unfolding flush_word
  write-finished h =
      let e : ((bs.bits_used + 2 ^ 32 - 32) % 2 ^ 32 + bits) % 2 ^ 32 ≡ bs.bits_used + bits - 32 =
        ground (arith, ready.used) in
      write-sum ∙ rw (h, e) refl

  pub write-open_word : leb 32 (bs.bits_used + bits) ≡ false → write_stream bits bs val ≡ open_word
  unfolding flush_word
  write-open_word h = write-sum ∙ rw h refl

  pub split_word :
      32 ≤ bs.bits_used + bits → 2 ^ (bs.bits_used + bits) ≡ 2 ^ (bs.bits_used + bits - 32) * 2 ^ 32
  split_word h =
      let e : bs.bits_used + bits ≡ bs.bits_used + bits - 32 + 32 = omega arith in
      ap (λ (t : ℕ). 2 ^ t) e ∙ pow-add (bs.bits_used + bits - 32) 32

  pub finished-IsReady : 32 ≤ bs.bits_used + bits → IsReady finished
  finished-IsReady h = record {
    cur = omega (arith, sum-lt, split_word h);
    used = omega (arith, ready.used);
  }

  pub open_word-IsReady : bs.bits_used + bits < 32 → IsReady open_word
  open_word-IsReady h = record { cur = sum-lt; used = h }

  -- What the rest of the values adds comes above.
  pub above :
      (rest : ℕ)
      → bs.cur_val + (val + rest * 2 ^ bits) * 2 ^ bs.bits_used
        ≡ sum + rest * 2 ^ (bs.bits_used + bits)
  above rest = omega (arith, ap (λ (t : ℕ). rest * t) (pow-add bs.bits_used bits))

  pub digits_after :
      (n rest : ℕ)
      → 32 ≤ bs.bits_used + bits
      → digits (suc n) (bs.cur_val + (val + rest * 2 ^ bits) * 2 ^ bs.bits_used)
        ≡ sum % 2 ^ 32 ∷ digits n (sum / 2 ^ 32 + rest * 2 ^ (bs.bits_used + bits - 32))
  unfolding digits
  digits_after n rest h =
      let whole = above rest ∙ ap (λ (t : ℕ). sum + rest * t) (split_word h) in
      let regroup : sum + rest * (2 ^ (bs.bits_used + bits - 32) * 2 ^ 32)
          ≡ sum + rest * 2 ^ (bs.bits_used + bits - 32) * 2 ^ 32 =
        omega arith in
      ap (digits (suc n)) (whole ∙ regroup)
      ∙ rw
          (
            add-mul-mod_self_right sum (rest * 2 ^ (bs.bits_used + bits - 32)) (2 ^ 32),
            add-mul-div_right sum (rest * 2 ^ (bs.bits_used + bits - 32)) (pow_pos 32),
          )
          refl

-- The words after writing.
pub words-write :
    (bits : ℕ) (bs : InterleavedBitWriter) (vals : List ℕ)
    → bits ≤ 32
    → IsReady bs
    → All (FitsIn bits) vals
    → (write_streams bits bs vals).words
      ≡ bs.words
        ++ digits
            ((bs.bits_used + bits * length vals) / 32)
            (bs.cur_val + pack bits vals * 2 ^ bs.bits_used)
unfolding write_streams pack digits
words-write bits bs [] few ready fits =
    let e : (bs.bits_used + bits * 0) / 32 ≡ 0 = omega (arith, ready.used) in
    rw e (sym (append-nil bs.words))
words-write bits bs (val ∷ vals) few ready (fit, fits) =
    elim (Bool-cases (leb 32 (bs.bits_used + bits))) [
      | inl full ↦
          let h : 32 ≤ bs.bits_used + bits = ground arith in
          let next = finished bits few bs val ready fit in
          let n = (next.bits_used + bits * length vals) / 32 in
          let count : (bs.bits_used + bits * suc (length vals)) / 32 ≡ suc n = omega arith in
          ap (λ b. (write_streams bits b vals).words)
            (write-finished bits few bs val ready fit full)
          ∙ words-write bits next vals few (finished-IsReady bits few bs val ready fit h) fits
          ∙ append_assoc bs.words _ _
          ∙ ap (λ t. bs.words ++ t)
              (sym (digits_after bits few bs val ready fit n (pack bits vals) h))
          ∙ ap
              (λ (k : ℕ).
                bs.words
                ++ digits k (bs.cur_val + (val + pack bits vals * 2 ^ bits) * 2 ^ bs.bits_used))
              (sym count)
      | inr more ↦
          let h : bs.bits_used + bits < 32 = ground arith in
          let next = open_word bits few bs val ready fit in
          let count : (bs.bits_used + bits + bits * length vals) / 32
              ≡ (bs.bits_used + bits * suc (length vals)) / 32 =
            omega arith in
          ap (λ b. (write_streams bits b vals).words)
            (write-open_word bits few bs val ready fit more)
          ∙ words-write bits next vals few (open_word-IsReady bits few bs val ready fit h) fits
          ∙ ap
              (λ (k : ℕ). bs.words ++ digits k (next.cur_val + pack bits vals * 2 ^ next.bits_used))
              count
          ∙ ap (λ (t : ℕ). bs.words ++ digits ((bs.bits_used + bits * suc (length vals)) / 32) t)
              (sym (above bits few bs val ready fit (pack bits vals)))
    ]
