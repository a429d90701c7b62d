-- ===== src/Corpus/NameTrigrams.antt =====
-- The inner loop of `flush_block` on one name.
use flocate.Prelude.{
  ℕ, ◌+◌, ◌*◌, ◌%◌, ◌^◌, ◌<◌, ◌≡◌, refl, ap, ◌∙◌, true, false, List, [], ◌∷◌, ◌++◌, append_assoc,
  Bytes, none, some, length, drop, All, arith, ltb, leb, if◌then◌else◌, bit_or, get_or,
}
use flocate.Prelude.Bits.{bit_or-shift, bit_or-zero_left}
use flocate.Bytes.Words.{or_bytes}
use flocate.Trigram.Windows.{trigram, windows}
use flocate.Corpus.{word_at, index_name}

-- A byte of a file name: any but NUL.
abbrev pub IsNameByte : ℕ → Type 0
IsNameByte c = (0 < c) × (c < 256)

or_bytes_four :
    (a b c d : ℕ)
    → a < 256
    → b < 256
    → c < 256
    → or_bytes (a ∷ b ∷ c ∷ d ∷ []) 0 0 ≡ trigram a b c + d * 2 ^ 24
unfolding or_bytes
or_bytes_four a b c d ha hb hc = omega (
  arith,
  bit_or-zero_left (a * 2 ^ 0),
  ap (λ (t : ℕ). bit_or (bit_or (bit_or t (b * 2 ^ 8)) (c * 2 ^ 16)) (d * 2 ^ 24)) first,
  ap (λ (t : ℕ). bit_or (bit_or t (c * 2 ^ 16)) (d * 2 ^ 24)) (bit_or-shift 8 a b (omega arith)),
  ap (λ (t : ℕ). bit_or t (d * 2 ^ 24)) (bit_or-shift 16 (a + b * 2 ^ 8) c (omega arith)),
  bit_or-shift 24 (trigram a b c) d (omega arith),
)
  where
    first : bit_or 0 (a * 2 ^ (8 * 0)) ≡ a
    first = omega (arith, bit_or-zero_left (a * 2 ^ 0))

-- The word at a name of three bytes and more: their trigram, and the byte behind it on top.
word_at-trigram :
    (a b c : ℕ) (p : Bytes)
    → a < 256
    → b < 256
    → c < 256
    → word_at (a ∷ b ∷ c ∷ p) ≡ trigram a b c + get_or p 0 0 * 2 ^ 24
unfolding word_at
word_at-trigram a b c [] ha hb hc = or_bytes_four a b c 0 ha hb hc
word_at-trigram a b c (d ∷ p) ha hb hc = or_bytes_four a b c d ha hb hc

low_trigram :
    (a b c d : ℕ)
    → a < 256
    → b < 256
    → c < 256
    → (trigram a b c + d * 2 ^ 24) % 2 ^ 24 ≡ trigram a b c
low_trigram a b c d ha hb hc = omega arith

index_opened :
    (c : ℕ) (p : Bytes) (trigrams : List ℕ)
    → index_name (c ∷ p) trigrams ≡ (
        if ltb (length (c ∷ p)) 3
        then none
        else if leb (word_at (c ∷ p)) 0xffffff
        then some (trigrams ++ (word_at (c ∷ p) % 2 ^ 24 ∷ []), drop 3 p)
        else index_name p (trigrams ++ (word_at (c ∷ p) % 2 ^ 24 ∷ [])))
unfolding index_name
index_opened c p trigrams = refl

-- A round of the loop, by the word it reads.
index_round :
    (c word : ℕ) (p : Bytes) (trigrams : List ℕ)
    → ltb (length (c ∷ p)) 3 ≡ false
    → word_at (c ∷ p) ≡ word
    → index_name (c ∷ p) trigrams ≡ (
        if leb word 0xffffff
        then some (trigrams ++ (word % 2 ^ 24 ∷ []), drop 3 p)
        else index_name p (trigrams ++ (word % 2 ^ 24 ∷ [])))
index_round c word p trigrams more e = index_opened c p trigrams ∙ rw (more, e) refl

-- The name that starts here goes on, or ends, with its third byte.
index_name_more :
    (a b c d : ℕ) (p : Bytes) (trigrams : List ℕ)
    → a < 256
    → b < 256
    → c < 256
    → 0 < d
    → index_name (a ∷ b ∷ c ∷ d ∷ p) trigrams
      ≡ index_name (b ∷ c ∷ d ∷ p) (trigrams ++ (trigram a b c ∷ []))
index_name_more a b c d p trigrams ha hb hc hd =
    let e = word_at-trigram a b c (d ∷ p) ha hb hc in
    let goes_on : leb (trigram a b c + d * 2 ^ 24) 0xffffff ≡ false = ground arith in
    index_round a _ (b ∷ c ∷ d ∷ p) trigrams (ground arith) e
    ∙ rw (goes_on, low_trigram a b c d ha hb hc) refl

index_name_last :
    (a b c : ℕ) (rest : Bytes) (trigrams : List ℕ)
    → a < 256
    → b < 256
    → c < 256
    → get_or rest 0 0 ≡ 0
    → index_name (a ∷ b ∷ c ∷ rest) trigrams ≡ some (trigrams ++ (trigram a b c ∷ []), drop 1 rest)
index_name_last a b c rest trigrams ha hb hc end =
    let e : word_at (a ∷ b ∷ c ∷ rest) ≡ trigram a b c + 0 * 2 ^ 24 =
      word_at-trigram a b c rest ha hb hc ∙ ap (λ d. trigram a b c + d * 2 ^ 24) end in
    let stops : leb (trigram a b c + 0 * 2 ^ 24) 0xffffff ≡ true = ground arith in
    index_round a _ (b ∷ c ∷ rest) trigrams (ground arith) e
    ∙ rw (stops, low_trigram a b c 0 ha hb hc) refl

-- The inner loop on one name, whose end is a NUL or the block's.
pub index_name-windows :
    (a b c : ℕ) (name rest : Bytes) (trigrams : List ℕ)
    → All IsNameByte (a ∷ b ∷ c ∷ name)
    → get_or rest 0 0 ≡ 0
    → index_name (a ∷ b ∷ c ∷ (name ++ rest)) trigrams
      ≡ some (trigrams ++ windows (a ∷ b ∷ c ∷ name), drop 1 rest)
unfolding windows
index_name-windows a b c [] rest trigrams (ha, (hb, (hc, h))) end =
    index_name_last a b c rest trigrams ha.1 hb.1 hc.1 end
index_name-windows a b c (d ∷ name) rest trigrams (ha, (hb, (hc, (hd, h)))) end =
    index_name_more a b c d (name ++ rest) trigrams ha.1 hb.1 hc.1 hd.0
    ∙ index_name-windows b c d name rest _ (hb, (hc, (hd, h))) end
    ∙ simp append_assoc
