-- ===== src/Hash/XxHash64/Streaming.antt =====
-- XxHash64State::consume and digest: the hash depends on the bytes alone, not on how they are cut
-- into pieces, nor on what earlier pieces leave behind in the memory.
use flocate.Prelude.{
  ℕ, ◌+◌, ◌-◌, ◌%◌, ◌^◌, ◌≤◌, ◌<◌, ◌≡◌, refl, sym, ap, ◌∙◌, Bytes, [], ◌++◌, length, take, drop,
  length-append, ltb, Bool-cases, inl, inr, ltb→lt, arith, length-replicate,
}
use flocate.Hash.Words.{write_at}
use flocate.Hash.Blocks.{
  absorb_all, absorb_all_step, absorb_all_stop, absorb_all-append, absorb_all-lt,
}
use flocate.Hash.Buffer.{
  length-write_at, take-write_at, write_at_full, take-append_ge, drop-append_ge, length-take_le,
}
use flocate.Hash.XxHash64.{
  XxHash64State, Lanes, rounds, reset, reset_lanes, consume, consume_stripes, digest, digest_of,
}

-- The lanes after the whole blocks of the bytes, and the bytes behind those.
abbrev pub stripes : ℕ → Bytes → Lanes × Bytes
stripes seed bytes = absorb_all 32 rounds (reset_lanes seed) bytes

-- XXH64 of all bytes at once.
unfoldable pub xxh64 : ℕ → Bytes → ℕ
xxh64 seed bytes = digest_of (length bytes % 2 ^ 64) (stripes seed bytes).0 (stripes seed bytes).1

-- The state has taken in exactly these bytes.
pub record Holds (seed : ℕ) (bytes : Bytes) (s : XxHash64State) : Type 0 where
  pub total : s.total_len ≡ length bytes % 2 ^ 64
  pub lanes : s.lanes ≡ (stripes seed bytes).0
  pub size : s.memsize ≡ length (stripes seed bytes).1
  pub pending : take s.memsize s.memory ≡ (stripes seed bytes).1
  pub room : length s.memory ≡ 32

pub reset-Holds : (seed : ℕ) → Holds seed [] (reset seed)
unfolding reset
reset-Holds seed =
    let e : stripes seed [] ≡ (reset_lanes seed, []) =
      absorb_all_stop 32 rounds (reset_lanes seed) [] (omega arith) in
    record {
      total = refl;
      lanes = ap (λ (r : Lanes × Bytes). r.0) (sym e);
      size = ap (λ (r : Lanes × Bytes). length r.1) (sym e);
      pending = ap (λ (r : Lanes × Bytes). r.1) (sym e);
      room = length-replicate {A = ℕ} 32 0;
    }

consume_stripes-Holds :
    (seed : ℕ) (bytes : Bytes) (total : ℕ) (lanes : Lanes) (memory p : Bytes)
    → total ≡ length bytes % 2 ^ 64
    → length memory ≡ 32
    → stripes seed bytes ≡ absorb_all 32 rounds lanes p
    → Holds seed bytes (consume_stripes total lanes memory p)
unfolding consume_stripes
consume_stripes-Holds seed bytes total lanes memory p len room e =
    let left : Bytes = (absorb_all 32 rounds lanes p).1 in
    let short : length left < 32 = absorb_all-lt 32 rounds lanes p (omega arith) in
    record {
      total = len;
      lanes = ap (λ (r : Lanes × Bytes). r.0) (sym e);
      size = ap (λ (r : Lanes × Bytes). length r.1) (sym e);
      pending =
          take-write_at memory left 0 (length left) (omega arith) (omega arith)
          ∙ ap (λ (r : Lanes × Bytes). r.1) (sym e);
      room = length-write_at memory left 0 (omega arith) ∙ room;
    }

-- The total length is counted modulo 2 ^ 64.
total-append :
    (bytes input : Bytes) (total : ℕ)
    → total ≡ length bytes % 2 ^ 64
    → (total + length input) % 2 ^ 64 ≡ length (bytes ++ input) % 2 ^ 64
total-append bytes input total h = omega (arith, length-append bytes input)

-- What is left of the bytes so far goes before the new ones.
stripes-append :
    {seed : ℕ} {bytes : Bytes} {s : XxHash64State} (input : Bytes)
    → Holds seed bytes s
    → stripes seed (bytes ++ input)
      ≡ absorb_all 32 rounds s.lanes (take s.memsize s.memory ++ input)
stripes-append {seed} {bytes} {s} input h =
    absorb_all-append 32 rounds (reset_lanes seed) bytes input (omega arith)
    ∙ ap (λ t. absorb_all 32 rounds t ((stripes seed bytes).1 ++ input)) (sym h.lanes)
    ∙ ap (λ t. absorb_all 32 rounds s.lanes (t ++ input)) (sym h.pending)

memsize-lt : {seed : ℕ} {bytes : Bytes} {s : XxHash64State} → Holds seed bytes s → s.memsize < 32
memsize-lt {seed} {bytes} h =
    let short = absorb_all-lt 32 rounds (reset_lanes seed) bytes (omega arith) in
    omega (arith, h.size)

-- The memory with the missing bytes of a stripe, and the stripes from there on.
fill_stripe :
    (lanes : Lanes) (memsize : ℕ) (memory input : Bytes)
    → memsize < 32
    → length memory ≡ 32
    → 32 ≤ memsize + length input
    → absorb_all 32 rounds lanes (take memsize memory ++ input)
      ≡ absorb_all 32 rounds
          (rounds lanes (write_at memory memsize (take (32 - memsize) input)))
          (drop (32 - memsize) input)
fill_stripe lanes memsize memory input lt room enough =
    let fill : ℕ = 32 - memsize in
    let held : length (take memsize memory) ≡ memsize =
      length-take_le memsize memory (omega arith) in
    let filled : length (take fill input) ≡ fill = length-take_le fill input (omega arith) in
    let stripe : take 32 (take memsize memory ++ input)
        ≡ write_at memory memsize (take fill input) =
      take-append_ge 32 fill (take memsize memory) input (omega arith)
      ∙ sym (write_at_full memory (take fill input) memsize (omega arith)) in
    let rest : drop 32 (take memsize memory ++ input) ≡ drop fill input =
      drop-append_ge 32 fill (take memsize memory) input (omega arith) in
    absorb_all_step 32 rounds lanes (take memsize memory ++ input) (omega arith)
      (omega (arith, length-append (take memsize memory) input))
    ∙ ap (λ t. absorb_all 32 rounds (rounds lanes t) (drop 32 (take memsize memory ++ input)))
        stripe
    ∙ ap (absorb_all 32 rounds (rounds lanes (write_at memory memsize (take fill input)))) rest

module _ (seed : ℕ) (bytes input : Bytes) (s : XxHash64State) (h : Holds seed bytes s) where
  -- Too little for a stripe: the bytes wait in the memory.
  keep-Holds :
      s.memsize + length input < 32
      → Holds seed (bytes ++ input) (record {
        total_len = (s.total_len + length input) % 2 ^ 64;
        lanes = s.lanes;
        memsize = s.memsize + length input;
        memory = write_at s.memory s.memsize input;
      })
  keep-Holds lt =
      let room = h.room in
      let held : length (take s.memsize s.memory) ≡ s.memsize =
        length-take_le s.memsize s.memory (omega arith) in
      let e : stripes seed (bytes ++ input) ≡ (s.lanes, take s.memsize s.memory ++ input) =
        stripes-append input h
        ∙ absorb_all_stop 32 rounds s.lanes (take s.memsize s.memory ++ input)
            (omega (arith, length-append (take s.memsize s.memory) input)) in
      record {
        total = total-append bytes input s.total_len h.total;
        lanes = ap (λ (r : Lanes × Bytes). r.0) (sym e);
        size =
            omega (arith, length-append (take s.memsize s.memory) input)
            ∙ ap (λ (r : Lanes × Bytes). length r.1) (sym e);
        pending =
            take-write_at s.memory input s.memsize (s.memsize + length input) (omega arith) refl
            ∙ ap (λ (r : Lanes × Bytes). r.1) (sym e);
        room = length-write_at s.memory input s.memsize (omega arith) ∙ room;
      }

  fill-Holds :
      32 ≤ s.memsize + length input
      → Holds seed (bytes ++ input) (
          consume_stripes
            ((s.total_len + length input) % 2 ^ 64)
            (rounds s.lanes (write_at s.memory s.memsize (take (32 - s.memsize) input)))
            (write_at s.memory s.memsize (take (32 - s.memsize) input))
            (drop (32 - s.memsize) input))
  fill-Holds enough =
      let room = h.room in
      let lt = memsize-lt h in
      let filled : length (take (32 - s.memsize) input) ≡ 32 - s.memsize =
        length-take_le (32 - s.memsize) input (omega arith) in
      consume_stripes-Holds seed (bytes ++ input) _ _ _ _
        (total-append bytes input s.total_len h.total)
        (length-write_at s.memory (take (32 - s.memsize) input) s.memsize (omega arith) ∙ room)
        (stripes-append input h ∙ fill_stripe s.lanes s.memsize s.memory input lt room enough)

  stream-Holds :
      s.memsize ≡ 0
      → Holds seed
          (bytes ++ input)
          (consume_stripes ((s.total_len + length input) % 2 ^ 64) s.lanes s.memory input)
  stream-Holds empty =
      consume_stripes-Holds seed (bytes ++ input) _ _ _ _
        (total-append bytes input s.total_len h.total) h.room
        (stripes-append input h
          ∙ ap (λ (t : ℕ). absorb_all 32 rounds s.lanes (take t s.memory ++ input)) empty)

  -- If a state stands for some bytes - its lanes for the whole stripes, the front of its memory for
  -- the rest, its length modulo 2 ^ 64 - then after a call of `consume` it stands for them followed
  -- by the new ones.
  pub consume-Holds : Holds seed (bytes ++ input) (consume s input)
  unfolding consume
  consume-Holds = elim (Bool-cases (ltb (s.memsize + length input) 32)) [
    | inl few ↦ rw few (keep-Holds (ltb→lt (s.memsize + length input) 32 few))
    | inr enough ↦ rw enough (elim (Bool-cases (ltb 0 s.memsize)) [
      | inl some_wait ↦ rw some_wait (fill-Holds (ground arith))
      | inr none_waits ↦ rw none_waits (stream-Holds (ground arith))
    ])
  ]

pub digest-Holds :
    (seed : ℕ) (bytes : Bytes) (s : XxHash64State)
    → Holds seed bytes s
    → digest s ≡ xxh64 seed bytes
unfolding digest xxh64
digest-Holds seed bytes s h =
    ap (λ (t : ℕ). digest_of t s.lanes (take s.memsize s.memory)) h.total
    ∙ ap (λ t. digest_of (length bytes % 2 ^ 64) t (take s.memsize s.memory)) h.lanes
    ∙ ap (digest_of (length bytes % 2 ^ 64) (stripes seed bytes).0) h.pending
