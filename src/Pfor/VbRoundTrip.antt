-- ===== src/Pfor/VbRoundTrip.antt =====
-- A block with variable-byte exceptions decodes to the running sums of its deltas.
use flocate.Prelude.{
  ℕ, suc, ◌+◌, ◌-◌, ◌*◌, ◌/◌, ◌%◌, ◌^◌, ◌≤◌, ◌<◌, bit_or, ◌≡◌, refl, sym, ap, ◌∙◌, subst, List, [],
  ◌∷◌, ◌++◌, append_assoc, Bytes, some, length, length-append, take, All, All-append, All-take,
  IsByte, arith, Bool, ltb, leb, ◌==◌, inl, inr, Bool-cases, false,
}
use flocate.Prelude.Bits.{bit_or-shift}
use flocate.Bytes.Words.{little_endian, little_endian-bytes}
use flocate.Bytes.Reader.{done, Reader, pure, ◌>>=◌, bind-done}
use flocate.Pfor.Values.{write_vb, read_vb, read_vb-write}
use flocate.Pfor.Bits.{mask_all}
use flocate.Pfor.Packing.{pow_pos}
use flocate.Pfor.BlockRoundTrip.{
  header_bits, read_values-bitmap, widest, widest_bounds, slack, IsBlock, IsBlock-short,
}
use flocate.Pfor.Blocks.{
  pfor_vb, block_header, delta_decode, use_read, read_values, exceptions, exception_indexes,
  write_vbs, encode_pfor_vb, read_many, read_exceptions, or_at, apply_exceptions, decode_pfor_vb,
  encode_base,
}
use native.Mathlib.Nat.{mod-add-div, mod-lt, mul_comm, div-le_self}

abbrev IsDelta : ℕ → Type 0
IsDelta v = v < 2 ^ 32

-- The form of a value: its first byte is never 255, the mark of raw exceptions.
record HasFirstByte (bytes : Bytes) : Type 0 where
  byte : ℕ
  more : Bytes
  splits : bytes ≡ byte ∷ more
  not_mark : byte < 255
  are_bytes : All IsByte more

write_vb-HasFirstByte : (v : ℕ) → HasFirstByte (write_vb v)
unfolding write_vb little_endian
write_vb-HasFirstByte v = elim (Bool-cases (leb v 176)) [
  | inl one ↦ record {
    byte = v;
    more = [];
    splits = rw one refl;
    not_mark = ground arith;
    are_bytes = tt;
  }
  | inr more ↦ elim (Bool-cases (leb v 16560)) [
    | inl two ↦ record {
      byte = ((v - 177) / 2 ^ 8 + 177) % 2 ^ 8;
      more = (v - 177) % 2 ^ 8 ∷ [];
      splits = rw (more, two) refl;
      not_mark = ground arith;
      are_bytes = (omega arith, tt);
    }
    | inr more2 ↦ elim (Bool-cases (leb v 540848)) [
      | inl three ↦ record {
        byte = ((v - 16561) / 2 ^ 16 + 241) % 2 ^ 8;
        more = little_endian 2 ((v - 16561) % 2 ^ 16);
        splits = rw (more, more2, three) refl;
        not_mark = ground arith;
        are_bytes = little_endian-bytes 2 _;
      }
      | inr more3 ↦ elim (Bool-cases (leb v 16777215)) [
        | inl four ↦ record {
          byte = 249;
          more = take 3 (little_endian 4 v);
          splits = rw (more, more2, more3, four) refl;
          not_mark = omega arith;
          are_bytes = All-take IsByte 3 (little_endian 4 v) (little_endian-bytes 4 v);
        }
        | inr more4 ↦ record {
          byte = 250;
          more = little_endian 4 v;
          splits = rw (more, more2, more3, more4) refl;
          not_mark = omega arith;
          are_bytes = little_endian-bytes 4 v;
        }
      ]
    ]
  ]
]

pub write_vbs-bytes : (vals : List ℕ) → All IsByte (write_vbs vals)
unfolding write_vbs
write_vbs-bytes [] = tt
write_vbs-bytes (val ∷ vals) =
    let f = write_vb-HasFirstByte val in
    let here : All IsByte (write_vb val) =
      subst (All IsByte) (sym f.splits) (omega (arith, f.not_mark), f.are_bytes) in
    All-append IsByte (write_vb val) (write_vbs vals) here (write_vbs-bytes vals)

read_many-write :
    (vals : List ℕ) (rest : Bytes)
    → All IsDelta vals
    → read_many read_vb (length vals) (write_vbs vals ++ rest) ≡ done vals rest
unfolding read_many write_vbs pure
read_many-write [] rest h = refl
read_many-write (val ∷ vals) rest (h, hs) =
    ap
      (λ p.
        (read_vb >>= λ val'. read_many read_vb (length vals) >>= λ vals'. pure (val' ∷ vals')) p)
      (append_assoc (write_vb val) (write_vbs vals) rest)
    ∙ bind-done read_vb _ (read_vb-write val (write_vbs vals ++ rest) h)
    ∙ bind-done (read_many read_vb (length vals)) _ (read_many-write vals rest hs)

exceptions-IsDelta :
    (bits : ℕ) (vals : List ℕ) → All IsDelta vals → All IsDelta (exceptions bits vals)
unfolding exceptions
exceptions-IsDelta bits [] h = tt
exceptions-IsDelta bits (val ∷ vals) (h, hs) = elim (Bool-cases (val / 2 ^ bits == 0)) [
  | inl fits ↦ rw fits (exceptions-IsDelta bits vals hs)
  | inr big ↦ rw big (omega (arith, div-le_self val (2 ^ bits)), exceptions-IsDelta bits vals hs)
]

or_at-here :
    (front back : List ℕ) (x val : ℕ)
    → or_at val (length front) (front ++ (x ∷ back)) ≡ some (front ++ (bit_or x val ∷ back))
unfolding or_at
or_at-here [] back x val = refl
or_at-here (y ∷ front) back x val = rw (or_at-here front back x val) refl

-- A value is its low bits and its exception.
rejoin :
    (bits val : ℕ)
    → val < 2 ^ 32
    → bit_or (val % 2 ^ bits) (val / 2 ^ bits * 2 ^ bits % 2 ^ 32) ≡ val
rejoin bits val h =
    let parts = mod-add-div val (2 ^ bits) in
    let product = mul_comm (val / 2 ^ bits) (2 ^ bits) in
    let fits : val / 2 ^ bits * 2 ^ bits % 2 ^ 32 ≡ val / 2 ^ bits * 2 ^ bits =
      omega (arith, parts, product) in
    ap (bit_or (val % 2 ^ bits)) fits
    ∙ bit_or-shift bits (val % 2 ^ bits) (val / 2 ^ bits) (mod-lt val (pow_pos bits))
    ∙ omega (arith, parts, product)

apply_step :
    (bits : ℕ) (out out' vals : List ℕ) (val idx : ℕ) (p : Bytes)
    → or_at (val * 2 ^ bits % 2 ^ 32) idx out ≡ some out'
    → apply_exceptions bits out (val ∷ vals) (idx ∷ p) ≡ apply_exceptions bits out' vals p
unfolding apply_exceptions
apply_step bits out out' vals val idx p e =
    ap (λ r. use_read r (λ out'. apply_exceptions bits out' vals) p) e

apply-exceptions :
    (bits : ℕ) (front vals : List ℕ) (rest : Bytes)
    → All IsDelta vals
    → length front + length vals ≤ 256
    → apply_exceptions bits
        (front ++ mask_all bits vals)
        (exceptions bits vals)
        (exception_indexes bits (length front) vals ++ rest)
      ≡ done (front ++ vals) rest
unfolding apply_exceptions exceptions exception_indexes mask_all
apply-exceptions bits front [] rest h few = refl
apply-exceptions bits front (val ∷ vals) rest (h, hs) few =
    let later =
      ap
        (λ f.
          apply_exceptions bits f (exceptions bits vals)
            (exception_indexes bits (length front + 1) vals ++ rest))
        (sym (append_assoc front (val ∷ []) (mask_all bits vals)))
      ∙ ap
          (λ (n : ℕ).
            apply_exceptions bits ((front ++ (val ∷ [])) ++ mask_all bits vals)
              (exceptions bits vals) (exception_indexes bits n vals ++ rest))
          (sym (length-append front (val ∷ [])))
      ∙ apply-exceptions bits (front ++ (val ∷ [])) vals rest hs
          (omega (arith, length-append front (val ∷ [])))
      ∙ ap (λ f. done f rest) (append_assoc front (val ∷ []) vals) in
    elim (Bool-cases (val / 2 ^ bits == 0)) [
      | inl fits ↦
          let low : val % 2 ^ bits ≡ val = ground (arith, mod-add-div val (2 ^ bits)) in
          rw (fits, low) later
      | inr big ↦
          let idx : length front % 2 ^ 8 ≡ length front = omega arith in
          let set =
            or_at-here front (mask_all bits vals) (val % 2 ^ bits)
              (val / 2 ^ bits * 2 ^ bits % 2 ^ 32) in
          rw (big, idx)
            (apply_step bits (front ++ (val % 2 ^ bits ∷ mask_all bits vals)) _
                (exceptions bits vals) (val / 2 ^ bits) (length front) _ set
              ∙ rw (rejoin bits val h) later)
    ]

pub indexes-bytes : (bits i : ℕ) (vals : List ℕ) → All IsByte (exception_indexes bits i vals)
unfolding exception_indexes
indexes-bytes bits i [] = tt
indexes-bytes bits i (val ∷ vals) = elim (Bool-cases (val / 2 ^ bits == 0)) [
  | inl fits ↦ rw fits (indexes-bytes bits (i + 1) vals)
  | inr big ↦ rw big (omega arith, indexes-bytes bits (i + 1) vals)
]

pub length-exceptions : (bits : ℕ) (vals : List ℕ) → length (exceptions bits vals) ≤ length vals
unfolding exceptions
length-exceptions bits [] = omega arith
length-exceptions bits (val ∷ vals) = ground (arith, length-exceptions bits vals)

-- The values of the exceptions, which do not start with the mark of raw ones.
read_exceptions-vb :
    (n b : ℕ) (p q : Bytes) → q ≡ b ∷ p → b < 255 → read_exceptions n q ≡ read_many read_vb n q
read_exceptions-vb n b p q e h =
    ap (read_exceptions n) e ∙ opened ∙ ap (read_many read_vb n) (sym e)
  where
    opened : read_exceptions n (b ∷ p) ≡ read_many read_vb n (b ∷ p)
    opened = unfold read_exceptions in ground arith

read_exceptions-write :
    (vals : List ℕ) (rest : Bytes)
    → All IsDelta vals
    → 0 < length vals
    → read_exceptions (length vals) (write_vbs vals ++ rest) ≡ done vals rest
unfolding write_vbs
read_exceptions-write [] rest h some_left = absurd (omega arith)
read_exceptions-write (val ∷ vals) rest h some_left =
    let f = write_vb-HasFirstByte val in
    read_exceptions-vb (suc (length vals)) f.byte (f.more ++ write_vbs vals ++ rest) _
      (ap (λ b. b ++ write_vbs vals ++ rest) f.splits) f.not_mark
    ∙ read_many-write (val ∷ vals) rest h

-- A block with variable-byte exceptions, one at least, of 32-bit deltas.
pub decode_pfor_vb-encode :
    (interleaved : Bool) (bits prev_val : ℕ) (vals : List ℕ) (rest : Bytes)
    → bits ≤ widest interleaved
    → All IsDelta vals
    → IsBlock interleaved vals
    → 0 < length (exceptions bits vals)
    → All IsByte rest
    → slack interleaved ≤ length rest
    → decode_pfor_vb interleaved
        (length vals)
        prev_val
        (block_header pfor_vb bits ∷ (encode_pfor_vb interleaved bits vals ++ rest))
      ≡ done (delta_decode prev_val vals) rest
unfolding decode_pfor_vb encode_pfor_vb
decode_pfor_vb-encode interleaved bits prev_val vals rest few h block some_left byte room =
    let short = IsBlock-short interleaved vals block in
    let narrow : bits < 64 = omega (arith, widest_bounds interleaved) in
    let found = exceptions bits vals in
    let idxs = exception_indexes bits 0 vals in
    let behind = (write_vbs found ++ idxs) ++ rest in
    let decode : List ℕ → Reader (List ℕ) = λ out. read_exceptions (length found) >>= λ es.
    apply_exceptions bits out es >>= λ out'. pure (delta_decode prev_val out') in
    let few_found = length-exceptions bits vals in
    let count : length found % 2 ^ 8 ≡ length found = omega arith in
    let in_array : ltb 128 (length found) ≡ false = ground arith in
    let bytes =
      All-append IsByte (write_vbs found ++ idxs) rest
        (All-append IsByte (write_vbs found) idxs (write_vbs-bytes found)
          (indexes-bytes bits 0 vals))
        byte in
    rw (count, in_array, header_bits pfor_vb bits narrow)
      (ap (read_values interleaved bits (length vals) decode)
          (append_assoc (encode_base interleaved bits vals) (write_vbs found ++ idxs) rest)
        ∙ read_values-bitmap interleaved bits vals behind decode few block bytes
            (omega (arith, length-append (write_vbs found ++ idxs) rest))
        ∙ ap (decode (mask_all bits vals)) (append_assoc (write_vbs found) idxs rest)
        ∙ bind-done (read_exceptions (length found)) _
            (read_exceptions-write found (idxs ++ rest) (exceptions-IsDelta bits vals h) some_left)
        ∙ bind-done (apply_exceptions bits (mask_all bits vals) found) _
            (apply-exceptions bits [] vals rest h (omega arith))
        ∙ unfold pure in refl)
