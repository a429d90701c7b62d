-- ===== src/Hash/Sha256/Padding.antt =====
-- Sha256State::finalize against SHA-256 with its padding written out.
use flocate.Prelude.{
  ℕ, zero, suc, ◌+◌, ◌-◌, ◌*◌, ◌%◌, ◌^◌, ◌≤◌, ◌<◌, ◌≡◌, refl, sym, ap, ◌∙◌, List, Bytes, [], ◌∷◌,
  ◌++◌, length, replicate, length-append, length-replicate, append_assoc, append-nil, ltb,
  Bool-cases, inl, inr, arith,
}
use flocate.Hash.Blocks.{
  absorb_all, absorb_all_block, absorb_all_stop, absorb_all-lt, absorb_all-mod, absorb_all-append,
}
use flocate.Hash.Sha256.{
  Sha256State, initial_h, process_block, big_endian, output, finish, finalize,
}
use flocate.Hash.Sha256.Streaming.{Holds, blocks}

-- The message, a byte 0x80, as few zeros as make it 8 bytes short of whole blocks, and its length
-- in bits.
unfoldable pub pad : Bytes → Bytes
pad bytes =
    bytes
    ++ (0x80
        ∷ (replicate ((119 - length bytes % 64) % 64) 0
            ++ big_endian 8 (length bytes * 8 % 2 ^ 64)))

-- SHA-256 of all bytes at once.
unfoldable pub sha256 : Bytes → Bytes
unfolding pad
sha256 bytes = output (blocks (pad bytes)).0

length-big_endian : (n v : ℕ) → length (big_endian n v) ≡ n
unfolding big_endian
length-big_endian zero v = refl
length-big_endian (suc n) v = ap suc (length-big_endian n v)

-- The padding gives whole blocks.
length-pad : (bytes : Bytes) → length (pad bytes) % 64 ≡ 0
unfolding pad
length-pad bytes =
    let zeros : ℕ = (119 - length bytes % 64) % 64 in
    let bits : Bytes = big_endian 8 (length bytes * 8 % 2 ^ 64) in
    omega (
      arith,
      length-append bytes (0x80 ∷ (replicate zeros 0 ++ bits)),
      length-append (replicate zeros 0) bits,
      length-replicate {A = ℕ} zeros 0,
      length-big_endian 8 (length bytes * 8 % 2 ^ 64),
    )

replicate-add : (n m k x : ℕ) → k ≡ n + m → replicate k x ≡ replicate n x ++ replicate m x
replicate-add zero m k x e = let f : k ≡ m = omega arith in ap (λ (t : ℕ). replicate t x) f
replicate-add (suc n) m zero x e = absurd (omega arith)
replicate-add (suc n) m (suc k) x e = ap (◌∷◌ x) (replicate-add n m k x (omega arith))

last_block :
    (h : List ℕ) (block : Bytes)
    → length block ≡ 64
    → (absorb_all 64 process_block h block).0 ≡ process_block h block
last_block h block e =
    ap (λ t. (absorb_all 64 process_block h t).0) (sym (append-nil block))
    ∙ ap (λ (r : List ℕ × Bytes). r.0)
        (absorb_all_block 64 process_block h block [] (omega arith) e)
    ∙ ap (λ (r : List ℕ × Bytes). r.0) (absorb_all_stop 64 process_block _ [] (omega arith))

-- The two ways through `finalize`, from the byte 0x80 on.
finish_one :
    (h : List ℕ) (bits q : Bytes)
    → length bits ≡ 8
    → length q ≤ 56
    → (absorb_all 64 process_block h (q ++ (replicate ((120 - length q) % 64) 0 ++ bits))).0
      ≡ process_block h ((q ++ replicate (56 - length q) 0) ++ bits)
finish_one h bits q eight few =
    let zeros : ℕ = 56 - length q in
    let count : (120 - length q) % 64 ≡ zeros = omega arith in
    ap (λ (t : ℕ). (absorb_all 64 process_block h (q ++ (replicate t 0 ++ bits))).0) count
    ∙ ap (λ t. (absorb_all 64 process_block h t).0) (sym (append_assoc q (replicate zeros 0) bits))
    ∙ last_block h ((q ++ replicate zeros 0) ++ bits) (
        omega (
          arith,
          length-append (q ++ replicate zeros 0) bits,
          length-append q (replicate zeros 0),
          length-replicate {A = ℕ} zeros 0,
        ))

finish_two :
    (h : List ℕ) (bits q : Bytes)
    → length bits ≡ 8
    → 56 < length q
    → length q ≤ 64
    → (absorb_all 64 process_block h (q ++ (replicate ((120 - length q) % 64) 0 ++ bits))).0
      ≡ process_block (process_block h (q ++ replicate (64 - length q) 0)) (replicate 56 0 ++ bits)
finish_two h bits q eight many le =
    let zeros : ℕ = 64 - length q in
    let split : replicate {A = ℕ} ((120 - length q) % 64) 0 ≡ replicate zeros 0 ++ replicate 56 0 =
      replicate-add zeros 56 _ 0 (omega arith) in
    let first : length (q ++ replicate zeros 0) ≡ 64 =
      omega (arith, length-append q (replicate zeros 0), length-replicate {A = ℕ} zeros 0) in
    ap (λ t. (absorb_all 64 process_block h (q ++ (t ++ bits))).0) split
    ∙ ap (λ t. (absorb_all 64 process_block h (q ++ t)).0)
        (append_assoc (replicate zeros 0) (replicate 56 0) bits)
    ∙ ap (λ t. (absorb_all 64 process_block h t).0)
        (sym (append_assoc q (replicate zeros 0) (replicate 56 0 ++ bits)))
    ∙ ap (λ (r : List ℕ × Bytes). r.0)
        (absorb_all_block 64 process_block h (q ++ replicate zeros 0) (replicate 56 0 ++ bits)
          (omega arith) first)
    ∙ last_block _ (replicate 56 0 ++ bits)
        (omega (arith, length-append (replicate 56 0) bits, length-replicate {A = ℕ} 56 0))

finish_lem :
    (h : List ℕ) (bit_len : ℕ) (q : Bytes)
    → length q ≤ 64
    → (finish h bit_len q).0
      ≡ (absorb_all 64 process_block h
          (q ++ (replicate ((120 - length q) % 64) 0 ++ big_endian 8 bit_len))).0
unfolding finish
finish_lem h bit_len q le = elim (Bool-cases (ltb 56 (length q))) [
  | inl many ↦
      rw many (
        sym (finish_two h (big_endian 8 bit_len) q (length-big_endian 8 bit_len) (ground arith) le))
  | inr few ↦
      rw few
        (sym (finish_one h (big_endian 8 bit_len) q (length-big_endian 8 bit_len) (ground arith)))
]

-- A state that has taken in some bytes gives the SHA-256 of these bytes.
pub finalize-Holds :
    (bytes : Bytes) (s : Sha256State) → Holds bytes s → (finalize s).1 ≡ sha256 bytes
unfolding finalize sha256 pad
finalize-Holds bytes s h =
    let left : Bytes = (blocks bytes).1 in
    let short = absorb_all-lt 64 process_block initial_h bytes (omega arith) in
    let rest : length left ≡ length bytes % 64 =
      absorb_all-mod 64 process_block initial_h bytes (omega arith) in
    let size : length (left ++ (0x80 ∷ [])) ≡ length left + 1 = length-append left (0x80 ∷ []) in
    let bits : s.total_len * 8 % 2 ^ 64 ≡ length bytes * 8 % 2 ^ 64 = omega (arith, h.total) in
    let count : (120 - length (left ++ (0x80 ∷ []))) % 64 ≡ (119 - length bytes % 64) % 64 =
      omega arith in
    ap output (
      ap (λ t. (finish s.h (s.total_len * 8 % 2 ^ 64) (t ++ (0x80 ∷ []))).0) h.pending
      ∙ ap (λ t. (finish t (s.total_len * 8 % 2 ^ 64) (left ++ (0x80 ∷ []))).0) h.words
      ∙ ap (λ (t : ℕ). (finish (blocks bytes).0 t (left ++ (0x80 ∷ []))).0) bits
      ∙ finish_lem (blocks bytes).0 _ (left ++ (0x80 ∷ [])) (omega arith)
      ∙ ap
          (λ (t : ℕ).
            (absorb_all 64 process_block (blocks bytes).0 (
              (left ++ (0x80 ∷ []))
              ++ (replicate t 0 ++ big_endian 8 (length bytes * 8 % 2 ^ 64)))).0)
          count
      ∙ ap (λ t. (absorb_all 64 process_block (blocks bytes).0 t).0)
          (append_assoc left (0x80 ∷ []) _)
      ∙ ap (λ (r : List ℕ × Bytes). r.0)
          (sym (absorb_all-append 64 process_block initial_h bytes _ (omega arith))))
