-- ===== src/Hash/Sha256/Streaming.antt =====
-- Sha256State::consume: the state depends on the bytes alone, not on how they are cut into pieces.
use flocate.Prelude.{
  ℕ, ◌+◌, ◌-◌, ◌%◌, ◌^◌, ◌≤◌, ◌<◌, ◌≡◌, refl, sym, ap, ◌∙◌, List, Bytes, [], ◌∷◌, ◌++◌, length,
  take, drop, length-append, ltb, ◌==◌, if◌then◌else◌, Bool-cases, inl, inr, arith, true, false,
}
use flocate.Hash.Words.{write_at}
use flocate.Hash.Blocks.{
  absorb_all, absorb_all_block, absorb_all_stop, absorb_all-append, absorb_all-lt,
}
use flocate.Hash.Buffer.{
  length-write_at, take-write_at, write_at_full, length-take_le, take_all, drop_all,
}
use flocate.Hash.Sha256.{Sha256State, initial_h, process_block, reset, consume, consume_blocks}
use flocate.Prelude.{take-append-drop, append_assoc}

-- The hash words after the whole blocks of the bytes, and the bytes behind those.
abbrev pub blocks : Bytes → List ℕ × Bytes
blocks bytes = absorb_all 64 process_block initial_h bytes

-- The state has taken in exactly these bytes.
pub record Holds (bytes : Bytes) (s : Sha256State) : Type 0 where
  pub total : s.total_len ≡ length bytes % 2 ^ 64
  pub words : s.h ≡ (blocks bytes).0
  pub size : s.buffer_len ≡ length (blocks bytes).1
  pub pending : take s.buffer_len s.buffer ≡ (blocks bytes).1
  pub room : length s.buffer ≡ 64

-- The same of a state whose bytes are split in the hash words and those that wait.
held :
    (bytes : Bytes) (total : ℕ) (h : List ℕ) (buffer_len : ℕ) (buffer left : Bytes)
    → total ≡ length bytes % 2 ^ 64
    → blocks bytes ≡ (h, left)
    → buffer_len ≡ length left
    → take buffer_len buffer ≡ left
    → length buffer ≡ 64
    → Holds bytes (record { h = h; total_len = total; buffer_len = buffer_len; buffer = buffer })
held bytes total h buffer_len buffer left len e size pending room = record {
  total = len;
  words = ap (λ (r : List ℕ × Bytes). r.0) (sym e);
  size = size ∙ ap (λ (r : List ℕ × Bytes). length r.1) (sym e);
  pending = pending ∙ ap (λ (r : List ℕ × Bytes). r.1) (sym e);
  room = room;
}

pub reset-Holds : (buffer : Bytes) → length buffer ≡ 64 → Holds [] (reset buffer)
unfolding reset
reset-Holds buffer room =
    held [] 0 initial_h 0 buffer [] refl
      (absorb_all_stop 64 process_block initial_h [] (omega arith)) refl refl room

consume_blocks_left :
    (bytes : Bytes) (total : ℕ) (h : List ℕ) (buffer left : Bytes)
    → total ≡ length bytes % 2 ^ 64
    → length buffer ≡ 64
    → length left < 64
    → blocks bytes ≡ (h, left)
    → Holds bytes (record {
      h = h;
      total_len = total;
      buffer_len = if ltb 0 (length left) then length left else 0;
      buffer = if ltb 0 (length left) then write_at buffer 0 left else buffer;
    })
consume_blocks_left bytes total h buffer [] len room short e =
    held bytes total h 0 buffer [] len e refl refl room
consume_blocks_left bytes total h buffer (c ∷ left) len room short e =
    held bytes total h _ _ (c ∷ left) len e (ground arith)
      (ground
        (arith, take-write_at buffer (c ∷ left) 0 (length (c ∷ left)) (omega arith) (omega arith)))
      (ground (arith, length-write_at buffer (c ∷ left) 0 (omega arith)))

consume_blocks-Holds :
    (bytes : Bytes) (total : ℕ) (h : List ℕ) (buffer p : Bytes)
    → total ≡ length bytes % 2 ^ 64
    → length buffer ≡ 64
    → blocks bytes ≡ absorb_all 64 process_block h p
    → Holds bytes (consume_blocks total h 0 buffer p)
unfolding consume_blocks
consume_blocks-Holds bytes total h buffer p len room e =
    consume_blocks_left bytes total _ buffer _ len room
      (absorb_all-lt 64 process_block h p (omega arith)) e

blocks-append :
    {bytes : Bytes} {s : Sha256State} (input : Bytes)
    → Holds bytes s
    → blocks (bytes ++ input)
      ≡ absorb_all 64 process_block s.h (take s.buffer_len s.buffer ++ input)
blocks-append {bytes} {s} input h =
    absorb_all-append 64 process_block initial_h bytes input (omega arith)
    ∙ ap (λ t. absorb_all 64 process_block t ((blocks bytes).1 ++ input)) (sym h.words)
    ∙ ap (λ t. absorb_all 64 process_block s.h (t ++ input)) (sym h.pending)

buffer_len-lt : {bytes : Bytes} {s : Sha256State} → Holds bytes s → s.buffer_len < 64
buffer_len-lt {bytes} h =
    let short = absorb_all-lt 64 process_block initial_h bytes (omega arith) in
    omega (arith, h.size)

-- No input is left for the loop.
consume_blocks-nil :
    (total buffer_len : ℕ) (h : List ℕ) (buffer : Bytes)
    → consume_blocks total h buffer_len buffer []
      ≡ record { h = h; total_len = total; buffer_len = buffer_len; buffer = buffer }
unfolding consume_blocks
consume_blocks-nil total buffer_len h buffer =
    ap
      (λ (r : List ℕ × Bytes). record {
        h = r.0;
        total_len = total;
        buffer_len = if ltb 0 (length r.1) then length r.1 else buffer_len;
        buffer = if ltb 0 (length r.1) then write_at buffer 0 r.1 else buffer;
      })
      (absorb_all_stop 64 process_block h [] (omega arith))

module _ (bytes input : Bytes) (s : Sha256State) (h : Holds bytes s) where
  total-append : (s.total_len + length input) % 2 ^ 64 ≡ length (bytes ++ input) % 2 ^ 64
  total-append = omega (arith, length-append bytes input, h.total)

  -- The buffer becomes full, and its block is processed first.
  flush-Holds :
      (fill : ℕ)
      → s.buffer_len + fill ≡ 64
      → fill ≤ length input
      → Holds (bytes ++ input) (
          consume_blocks
            ((s.total_len + length input) % 2 ^ 64)
            (process_block s.h (write_at s.buffer s.buffer_len (take fill input)))
            0
            (write_at s.buffer s.buffer_len (take fill input))
            (drop fill input))
  flush-Holds fill full enough =
      let room = h.room in
      let taken : length (take fill input) ≡ fill = length-take_le fill input enough in
      let waiting : length (take s.buffer_len s.buffer) ≡ s.buffer_len =
        length-take_le s.buffer_len s.buffer (omega arith) in
      let filled : write_at s.buffer s.buffer_len (take fill input)
          ≡ take s.buffer_len s.buffer ++ take fill input =
        write_at_full s.buffer (take fill input) s.buffer_len (omega arith) in
      let block : length (take s.buffer_len s.buffer ++ take fill input) ≡ 64 =
        omega (arith, length-append (take s.buffer_len s.buffer) (take fill input)) in
      consume_blocks-Holds (bytes ++ input) _ _ _ _ total-append
        (length-write_at s.buffer (take fill input) s.buffer_len (omega arith) ∙ room)
        (blocks-append input h
          ∙ ap (λ t. absorb_all 64 process_block s.h (take s.buffer_len s.buffer ++ t))
              (sym (take-append-drop fill input))
          ∙ ap (absorb_all 64 process_block s.h)
              (sym (append_assoc (take s.buffer_len s.buffer) (take fill input) (drop fill input)))
          ∙ absorb_all_block 64 process_block s.h _ (drop fill input) (omega arith) block
          ∙ ap (λ t. absorb_all 64 process_block (process_block s.h t) (drop fill input))
              (sym filled))

  -- All bytes go into the buffer, which stays short of a block.
  keep-Holds :
      s.buffer_len + length input < 64
      → Holds (bytes ++ input) (
          consume_blocks
            ((s.total_len + length input) % 2 ^ 64)
            s.h
            (s.buffer_len + length input)
            (write_at s.buffer s.buffer_len (take (length input) input))
            (drop (length input) input))
  keep-Holds few =
      let room = h.room in
      let waiting : length (take s.buffer_len s.buffer) ≡ s.buffer_len =
        length-take_le s.buffer_len s.buffer (omega arith) in
      let joined : length (take s.buffer_len s.buffer ++ input) ≡ s.buffer_len + length input =
        omega (arith, length-append (take s.buffer_len s.buffer) input) in
      rw
        (
          take_all (length input) input (omega arith),
          drop_all (length input) input (omega arith),
          consume_blocks-nil ((s.total_len + length input) % 2 ^ 64) (s.buffer_len + length input)
              s.h (write_at s.buffer s.buffer_len input),
        )
        (held (bytes ++ input) _ _ _ _ (take s.buffer_len s.buffer ++ input) total-append
          (blocks-append input h ∙ absorb_all_stop 64 process_block s.h _ (omega arith))
          (sym joined)
          (take-write_at s.buffer input s.buffer_len (s.buffer_len + length input) (omega arith)
            refl)
          (length-write_at s.buffer input s.buffer_len (omega arith) ∙ room))

  stream-Holds :
      s.buffer_len ≡ 0
      → Holds
          (bytes ++ input)
          (consume_blocks ((s.total_len + length input) % 2 ^ 64) s.h s.buffer_len s.buffer input)
  stream-Holds empty = rw empty (
      consume_blocks-Holds (bytes ++ input) _ _ _ _ total-append h.room (
        blocks-append input h
        ∙ ap (λ (t : ℕ). absorb_all 64 process_block s.h (take t s.buffer ++ input)) empty))

  -- A call of `consume` takes in its bytes behind those taken in before.
  pub consume-Holds : Holds (bytes ++ input) (consume s input)
  unfolding consume
  consume-Holds =
      let lt = buffer_len-lt h in
      elim (Bool-cases (ltb 0 s.buffer_len)) [
        | inr none_waits ↦ rw none_waits (stream-Holds (ground arith))
        | inl some_wait ↦ rw some_wait (elim (Bool-cases (ltb (length input) (64 - s.buffer_len))) [
          | inl few ↦
              let short : (s.buffer_len + length input == 64) ≡ false = ground arith in
              rw (few, short) (keep-Holds (ground arith))
          | inr enough ↦
              let full : (s.buffer_len + (64 - s.buffer_len) == 64) ≡ true = ground arith in
              rw (enough, full) (flush-Holds (64 - s.buffer_len) (ground arith) (ground arith))
        ])
      ]
