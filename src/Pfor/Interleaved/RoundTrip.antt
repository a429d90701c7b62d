-- ===== src/Pfor/Interleaved/RoundTrip.antt =====
-- A whole block that is packed in four streams is read back.
use flocate.Prelude.{
  ℕ, zero, suc, ◌+◌, ◌*◌, ◌/◌, ◌%◌, ◌^◌, ◌≤◌, ◌<◌, ◌≡◌, refl, sym, ap, ◌∙◌, List, ◌++◌, Bytes, some,
  length, length-append, length-drop, drop, take-append_length, All, All-append, IsByte, subst,
  arith,
}
use flocate.Prelude.Bits.{pow-add}
use flocate.Bytes.Words.{little_endian, or_bytes, length-little_endian, or_bytes-little_endian_zero}
use flocate.Pfor.Bits.{bytes_for_packed_bits, mask_all}
use flocate.Pfor.Packing.{pack, FitsIn, length-mask_all, mask_all-FitsIn, packed_size}
use flocate.Pfor.Unpacking.{pack-lt}
use flocate.Pfor.Interleaved.{
  new_stream, row, interleave, stream_bytes, encode_bitmap_interleaved, word, read_interleaved,
}
use flocate.Pfor.Interleaved.Writing.{digits, write_streams, words-write}
use flocate.Pfor.Interleaved.Reading.{base, IsLane, Holds}
use native.Mathlib.Nat.{mul_comm, div-one}
use flocate.Pfor.Interleaved.Columns.{
  column, first, second, third, fourth, length-column, Picks, column-FitsIn, rows-streams,
  read_rows-Holds,
}

digits-base : (n v : ℕ) → v < 2 ^ (32 * n) → base (digits n v) ≡ v
unfolding digits base
digits-base zero v h = omega arith
digits-base (suc n) v h =
    let e : 32 * suc n ≡ 32 * n + 32 = omega arith in
    omega (
      arith,
      digits-base n (v / 2 ^ 32) (omega (arith, ap (λ (t : ℕ). 2 ^ t) e ∙ pow-add (32 * n) 32)),
    )

length-digits : (n v : ℕ) → length (digits n v) ≡ n
unfolding digits
length-digits zero v = refl
length-digits (suc n) v = ap suc (length-digits n (v / 2 ^ 32))

length-interleave :
    (n a b c d : ℕ)
    → length (interleave (digits n a) (digits n b) (digits n c) (digits n d)) ≡ 16 * n
unfolding digits interleave row little_endian
length-interleave zero a b c d = refl
length-interleave (suc n) a b c d =
    omega (arith, length-interleave n (a / 2 ^ 32) (b / 2 ^ 32) (c / 2 ^ 32) (d / 2 ^ 32))

row-bytes : (a b c d : ℕ) → All IsByte (row a b c d)
unfolding row little_endian
row-bytes a b c d = omega arith

interleave-bytes :
    (n a b c d : ℕ) → All IsByte (interleave (digits n a) (digits n b) (digits n c) (digits n d))
unfolding digits interleave
interleave-bytes zero a b c d = tt
interleave-bytes (suc n) a b c d =
    All-append IsByte (row (a % 2 ^ 32) (b % 2 ^ 32) (c % 2 ^ 32) (d % 2 ^ 32))
      (interleave (digits n (a / 2 ^ 32)) (digits n (b / 2 ^ 32)) (digits n (c / 2 ^ 32))
        (digits n (d / 2 ^ 32)))
      (row-bytes _ _ _ _) (interleave-bytes n (a / 2 ^ 32) (b / 2 ^ 32) (c / 2 ^ 32) (d / 2 ^ 32))

word-little_endian : (v : ℕ) (p : Bytes) → v < 2 ^ 32 → word (little_endian 4 v ++ p) ≡ v
unfolding word
word-little_endian v p h =
    ap (λ q. or_bytes q 0 0) (take-append_length 4 (little_endian 4 v) p (length-little_endian 4 v))
    ∙ or_bytes-little_endian_zero 4 v (omega arith)

-- The words of four streams, and the bytes behind them.
abbrev streams : ℕ → ℕ → ℕ → ℕ → ℕ → Bytes → Bytes
streams n a b c d rest = interleave (digits n a) (digits n b) (digits n c) (digits n d) ++ rest

lanes :
    (n a b c d : ℕ) (rest : Bytes)
    → 16 ≤ length rest
    → IsLane (digits n a) (drop 0 (streams n a b c d rest))
      × IsLane (digits n b) (drop 4 (streams n a b c d rest))
      × IsLane (digits n c) (drop 8 (streams n a b c d rest))
      × IsLane (digits n d) (drop 12 (streams n a b c d rest))
unfolding digits interleave row little_endian
lanes zero a b c d rest h = (
  omega (arith, length-drop 0 rest),
  omega (arith, length-drop 4 rest),
  omega (arith, length-drop 8 rest),
  omega (arith, length-drop 12 rest),
)
lanes (suc n) a b c d rest h =
    let next = lanes n (a / 2 ^ 32) (b / 2 ^ 32) (c / 2 ^ 32) (d / 2 ^ 32) rest h in
    let more =
      length-append
        (interleave (digits n (a / 2 ^ 32)) (digits n (b / 2 ^ 32)) (digits n (c / 2 ^ 32))
          (digits n (d / 2 ^ 32)))
        rest in
    let of = λ (v : ℕ) (p : Bytes). word-little_endian (v % 2 ^ 32) p (omega arith) in
    (
      (omega arith, of a _, omega (arith, more), next.0),
      (omega arith, of b _, omega (arith, more), next.1),
      (omega arith, of c _, omega (arith, more), next.2),
      (omega arith, of d _, omega (arith, more), next.3),
    )

-- The words of a new stream after the values of a whole block.
words-column :
    (pick : ℕ → ℕ → ℕ → ℕ → ℕ) (picks : Picks pick) (bits : ℕ) (vals : List ℕ)
    → bits ≤ 32
    → length vals ≡ 128
    → All (FitsIn bits) vals
    → (write_streams bits new_stream (column pick vals)).words
      ≡ digits bits (pack bits (column pick vals))
words-column pick picks bits vals few l fits =
    let len = length-column pick 32 vals (omega (arith, l)) in
    let count : (0 + bits * length (column pick vals)) / 32 ≡ bits =
      omega (arith, ap (λ (t : ℕ). bits * t) len) in
    let total : 0 + pack bits (column pick vals) * 2 ^ 0 ≡ pack bits (column pick vals) =
      omega arith in
    words-write bits new_stream (column pick vals) few
      (record { cur = omega arith; used = omega arith }) (column-FitsIn pick picks bits vals fits)
    ∙ ap (λ (n : ℕ). digits n (0 + pack bits (column pick vals) * 2 ^ 0)) count
    ∙ ap (digits bits) total

-- A reader at the start of a stream holds the values of its column.
stream-Holds :
    (pick : ℕ → ℕ → ℕ → ℕ → ℕ) (picks : Picks pick) (bits : ℕ) (vals : List ℕ) (p : Bytes)
    → length vals ≡ 128
    → All (FitsIn bits) vals
    → IsLane (digits bits (pack bits (column pick vals))) p
    → Holds bits (record { input = p; bits_used = 0 }) (column pick vals)
stream-Holds pick picks bits vals p l fits lane =
    let len = length-column pick 32 vals (omega (arith, l)) in
    let bound = pack-lt bits (column pick vals) (column-FitsIn pick picks bits vals fits) in
    let exponent : bits * length (column pick vals) ≡ 32 * bits =
      ap (λ (t : ℕ). bits * t) len ∙ mul_comm bits 32 in
    record {
      words = digits bits (pack bits (column pick vals));
      lane = lane;
      used = omega arith;
      enough = omega (arith, exponent, length-digits bits (pack bits (column pick vals)));
      same =
          div-one _
          ∙ digits-base bits (pack bits (column pick vals))
              (omega (arith, bound, ap (λ (t : ℕ). 2 ^ t) exponent));
    }

module _ (bits : ℕ) (vals : List ℕ) (few : bits ≤ 32) (whole : length vals ≡ 128) where
  abbrev low : List ℕ
  low = mask_all bits vals

  whole-low : length low ≡ 128
  whole-low = length-mask_all bits vals ∙ whole

  abbrev lane_value : (ℕ → ℕ → ℕ → ℕ → ℕ) → ℕ
  lane_value pick = pack bits (column pick low)

  abbrev block : Bytes
  block =
      interleave (digits bits (lane_value first)) (digits bits (lane_value second))
        (digits bits (lane_value third)) (digits bits (lane_value fourth))

  length-block : bytes_for_packed_bits (length vals) bits ≡ 16 * bits
  length-block =
      let e : length vals * bits ≡ 128 * bits = ap (λ (t : ℕ). t * bits) whole in
      packed_size vals bits (omega (arith, e)) ∙ omega (arith, e)

  encode-block : encode_bitmap_interleaved bits vals ≡ block
  unfolding encode_bitmap_interleaved stream_bytes
  encode-block =
      let fits = mask_all-FitsIn bits vals in
      rw
        (
          rows-streams bits
              (record { s0 = new_stream; s1 = new_stream; s2 = new_stream; s3 = new_stream }) low,
          words-column first (λ P a b c d ha hb hc hd. ha) bits low few whole-low fits,
          words-column second (λ P a b c d ha hb hc hd. hb) bits low few whole-low fits,
          words-column third (λ P a b c d ha hb hc hd. hc) bits low few whole-low fits,
          words-column fourth (λ P a b c d ha hb hc hd. hd) bits low few whole-low fits,
        )
        (take-append_length (bytes_for_packed_bits (length vals) bits) block _
          (length-interleave bits _ _ _ _ ∙ sym length-block))

  pub length-encode_interleaved :
      length (encode_bitmap_interleaved bits vals) ≡ bytes_for_packed_bits (length vals) bits
  length-encode_interleaved =
      ap (length {A = ℕ}) encode-block ∙ length-interleave bits _ _ _ _ ∙ sym length-block

  pub encode_interleaved-bytes : All IsByte (encode_bitmap_interleaved bits vals)
  encode_interleaved-bytes = subst (All IsByte) (sym encode-block) (interleave-bytes bits _ _ _ _)

  -- The four readers give back the low bits of the values, with sixteen bytes behind the block
  -- that may be read.
  pub read_interleaved-encode :
      (rest : Bytes)
      → 16 ≤ length rest
      → read_interleaved bits (length vals) (encode_bitmap_interleaved bits vals ++ rest)
        ≡ some (mask_all bits vals)
  unfolding read_interleaved
  read_interleaved-encode rest slack =
      let fits = mask_all-FitsIn bits vals in
      let at =
        lanes bits (lane_value first) (lane_value second) (lane_value third) (lane_value fourth)
          rest slack in
      let rows : length vals / 4 ≡ 32 = omega (arith, whole) in
      rw (encode-block, rows)
        (read_rows-Holds bits 32 _ low few (omega (arith, whole-low)) fits
          (stream-Holds first (λ P a b c d ha hb hc hd. ha) bits low _ whole-low fits at.0)
          (stream-Holds second (λ P a b c d ha hb hc hd. hb) bits low _ whole-low fits at.1)
          (stream-Holds third (λ P a b c d ha hb hc hd. hc) bits low _ whole-low fits at.2)
          (stream-Holds fourth (λ P a b c d ha hb hc hd. hd) bits low _ whole-low fits at.3))
