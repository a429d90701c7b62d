-- ===== src/PostingList/Decoding.antt =====
-- Whole blocks of deltas, and a shorter one behind them, decode to the running sums of all deltas.
use flocate.Prelude.{
  ℕ, zero, suc, ◌+◌, ◌-◌, ◌%◌, ◌^◌, ◌≤◌, ◌<◌, min, ◌≡◌, refl, sym, ap, ◌∙◌, Bool, true, false, List,
  [], ◌∷◌, ◌++◌, append_assoc, append-nil, Bytes, length, length-append, is_empty, All, All-append,
  IsByte, arith, ◌==◌, if◌then◌else◌,
}
use flocate.Bytes.Reader.{done, pure, bind-done}
use flocate.Pfor.Blocks.{delta_decode}
use flocate.Pfor.Choice.{encode_pfor_single_block, decode_block}
use flocate.Pfor.Choice.RoundTrip.{decode_block-encode}
use flocate.Pfor.Choice.Encoded.{encode_pfor_single_block-bytes}
use flocate.PostingList.{last_of, decode_blocks}

-- Deltas below 2 ^ 25.
abbrev pub IsSmall : ℕ → Type 0
IsSmall v = v < 2 ^ 25

pub delta_decode-append :
    (prev : ℕ) (xs ys : List ℕ)
    → delta_decode prev (xs ++ ys)
      ≡ delta_decode prev xs ++ delta_decode (last_of prev (delta_decode prev xs)) ys
unfolding delta_decode last_of
delta_decode-append prev [] ys = refl
delta_decode-append prev (x ∷ xs) ys =
    ap (◌∷◌ ((x + prev + 1) % 2 ^ 32)) (delta_decode-append ((x + prev + 1) % 2 ^ 32) xs ys)

pub length-delta_decode : (prev : ℕ) (xs : List ℕ) → length (delta_decode prev xs) ≡ length xs
unfolding delta_decode
length-delta_decode prev [] = refl
length-delta_decode prev (x ∷ xs) = ap suc (length-delta_decode ((x + prev + 1) % 2 ^ 32) xs)

-- Blocks of 128 deltas each.
abbrev pub AreWhole : List (List ℕ) → Type 0
AreWhole [] = Unit {0}
AreWhole (c ∷ cs) = ((length c ≡ 128) × All IsSmall c) × AreWhole cs

unfoldable pub join : List (List ℕ) → List ℕ
join [] = []
join (c ∷ cs) = c ++ join cs

unfoldable pub encode_whole : ℕ → List (List ℕ) → Bytes
encode_whole unset [] = []
encode_whole unset (c ∷ cs) = encode_pfor_single_block true c unset ++ encode_whole unset cs

unfoldable pub encode_last : ℕ → List ℕ → Bytes
encode_last unset tail = if is_empty tail then [] else encode_pfor_single_block false tail unset

pub encode_whole-bytes :
    (unset : ℕ) (cs : List (List ℕ)) → AreWhole cs → All IsByte (encode_whole unset cs)
unfolding encode_whole
encode_whole-bytes unset [] h = tt
encode_whole-bytes unset (c ∷ cs) ((whole, small), h) =
    All-append IsByte (encode_pfor_single_block true c unset) (encode_whole unset cs)
      (encode_pfor_single_block-bytes true c unset (omega arith) small whole)
      (encode_whole-bytes unset cs h)

pub encode_last-bytes :
    (unset : ℕ) (tail : List ℕ)
    → length tail ≤ 128
    → All IsSmall tail
    → All IsByte (encode_last unset tail)
unfolding encode_last
encode_last-bytes unset [] short small = tt
encode_last-bytes unset (x ∷ xs) short small =
    encode_pfor_single_block-bytes false (x ∷ xs) unset (omega arith) small short

-- A round of the loop.
block_step :
    (rounds left n left' prev : ℕ) (flag : Bool) (p q r : Bytes) (vals more : List ℕ)
    → (left == 0) ≡ false
    → min left 128 ≡ n
    → (n == 128) ≡ flag
    → left - 128 ≡ left'
    → decode_block flag n prev p ≡ done vals q
    → decode_blocks rounds true left' (last_of prev vals) q ≡ done more r
    → decode_blocks (suc rounds) true left prev p ≡ done (vals ++ more) r
unfolding decode_blocks pure
block_step rounds left n left' prev flag p q r vals more e size whole less d m =
    rw (e, size, whole, less)
      (bind-done (decode_block flag n prev) _ d
        ∙ bind-done (decode_blocks rounds true left' (last_of prev vals)) _ m)

decode_blocks-zero : (rounds prev : ℕ) (p : Bytes) → decode_blocks rounds true 0 prev p ≡ done [] p
unfolding decode_blocks pure
decode_blocks-zero zero prev p = refl
decode_blocks-zero (suc rounds) prev p = refl

decode-last :
    (unset rounds prev : ℕ) (tail : List ℕ) (rest : Bytes)
    → length tail < 128
    → length tail ≤ rounds
    → All IsSmall tail
    → All IsByte rest
    → 16 ≤ length rest
    → decode_blocks rounds true (length tail) prev (encode_last unset tail ++ rest)
      ≡ done (delta_decode prev tail) rest
unfolding encode_last delta_decode
decode-last unset rounds prev [] rest short enough small byte room =
    decode_blocks-zero rounds prev rest
decode-last unset zero prev (x ∷ xs) rest short enough small byte room = absurd (omega arith)
decode-last unset (suc rounds) prev (x ∷ xs) rest short enough small byte room =
    block_step rounds (suc (length xs)) (suc (length xs)) 0 prev false
      (encode_pfor_single_block false (x ∷ xs) unset ++ rest) rest rest (delta_decode prev (x ∷ xs))
      [] (ground arith) (omega arith) (ground arith) (omega arith)
      (decode_block-encode false prev rest byte room (x ∷ xs) unset (omega arith) small
        (omega arith))
      (decode_blocks-zero rounds _ rest)
    ∙ ap (λ vs. done vs rest) (append-nil (delta_decode prev (x ∷ xs)))

pub decode-whole :
    (unset rounds prev : ℕ) (cs : List (List ℕ)) (tail : List ℕ) (rest : Bytes)
    → AreWhole cs
    → length tail < 128
    → length (join cs ++ tail) ≤ rounds
    → All IsSmall tail
    → All IsByte rest
    → 16 ≤ length rest
    → decode_blocks rounds true
        (length (join cs ++ tail))
        prev
        ((encode_whole unset cs ++ encode_last unset tail) ++ rest)
      ≡ done (delta_decode prev (join cs ++ tail)) rest
unfolding join encode_whole
decode-whole unset rounds prev [] tail rest whole short enough small byte room =
    decode-last unset rounds prev tail rest short enough small byte room
decode-whole unset zero prev (c ∷ cs) tail rest whole short enough small byte room =
    absurd (omega (arith, length-append (c ++ join cs) tail, length-append c (join cs), whole.0.0))
decode-whole unset (suc rounds) prev (c ∷ cs) tail rest ((full, fits), whole) short enough small
      byte room =
    let deltas = join cs ++ tail in
    let behind = (encode_whole unset cs ++ encode_last unset tail) ++ rest in
    let behind_bytes =
      All-append IsByte (encode_whole unset cs ++ encode_last unset tail) rest
        (All-append IsByte (encode_whole unset cs) (encode_last unset tail)
          (encode_whole-bytes unset cs whole) (encode_last-bytes unset tail (omega arith) small))
        byte in
    let behind_room : 16 ≤ length behind =
      omega (arith, length-append (encode_whole unset cs ++ encode_last unset tail) rest, room) in
    let total : length ((c ++ join cs) ++ tail) ≡ 128 + length deltas = omega (
      arith,
      length-append (c ++ join cs) tail,
      length-append c (join cs),
      length-append (join cs) tail,
    ) in
    let block =
      decode_block-encode true prev behind behind_bytes behind_room c unset (omega arith) fits
        full in
    let later =
      decode-whole unset rounds (last_of prev (delta_decode prev c)) cs tail rest whole short
        (omega (arith, total)) small byte room in
    ap (decode_blocks (suc rounds) true (length ((c ++ join cs) ++ tail)) prev) (
      ap (λ b. b ++ rest)
        (append_assoc (encode_pfor_single_block true c unset) (encode_whole unset cs)
          (encode_last unset tail))
      ∙ append_assoc (encode_pfor_single_block true c unset)
          (encode_whole unset cs ++ encode_last unset tail) rest)
    ∙ block_step rounds (length ((c ++ join cs) ++ tail)) 128 (length deltas) prev true
        (encode_pfor_single_block true c unset ++ behind) behind rest (delta_decode prev c)
        (delta_decode (last_of prev (delta_decode prev c)) deltas)
        (not_zero (length ((c ++ join cs) ++ tail)) (omega (arith, total))) (omega (arith, total))
        refl (omega (arith, total))
        (ap (λ (n : ℕ). decode_block true n prev (encode_pfor_single_block true c unset ++ behind))
            (sym full)
          ∙ block)
        later
    ∙ ap (λ vs. done vs rest)
        (sym (delta_decode-append prev c deltas)
          ∙ ap (delta_decode prev) (sym (append_assoc c (join cs) tail)))
  where
    not_zero : (n : ℕ) → 0 < n → (n == 0) ≡ false
    not_zero n h = ground arith
