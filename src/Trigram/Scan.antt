-- ===== src/Trigram/Scan.antt =====
-- The readers of unigrams move on, so the loops over a needle end.
use flocate.Prelude.{
  ℕ, zero, suc, ◌+◌, ◌-◌, ◌≤◌, ◌<◌, ◌≡◌, ◌≢◌, inl, inr, List, [], ◌∷◌, ◌++◌, Bytes, some, length,
  drop, length-drop, arith, ltb, Bool-cases, ltb→lt,
}
use flocate.Trigram.{
  read_class, read_class_start, read_negation, read_escaped, unigram_at, read_unigram, parse_from,
  parse_trigrams, TrigramDisjunction, stuck, unescape_from, unescape_glob_to_plain_string,
}

read_class-ge : (s : Bytes) (len : ℕ) → len ≤ (read_class s len).1
unfolding read_class
read_class-ge [] len = omega arith
read_class-ge (c ∷ s) len = ground (arith, read_class-ge s (len + 1))

read_class_start-ge : (s : Bytes) (len : ℕ) → len ≤ (read_class_start s len).1
unfolding read_class_start
read_class_start-ge [] len = omega arith
read_class_start-ge (c ∷ s) len =
    ground (arith, read_class-ge s (len + 1), read_class-ge (c ∷ s) len)

read_negation-ge : (s : Bytes) (len : ℕ) → len ≤ (read_negation s len).1
unfolding read_negation
read_negation-ge [] len = omega arith
read_negation-ge (c ∷ s) len =
    ground (arith, read_class_start-ge s (len + 1), read_class_start-ge (c ∷ s) len)

read_escaped-pos : (s : Bytes) → 1 ≤ (read_escaped s).1
unfolding read_escaped
read_escaped-pos [] = omega arith
read_escaped-pos (c ∷ s) = omega arith

-- A unigram that does not start at the end of the string has at least one byte.
pub unigram_at-pos : (c : ℕ) (s : Bytes) → 1 ≤ (unigram_at (c ∷ s)).1
unfolding unigram_at
unigram_at-pos c s = ground (arith, read_escaped-pos s, read_negation-ge s 1)

pub read_unigram-pos : (s : Bytes) (i : ℕ) → i < length s → 1 ≤ (read_unigram s i).1
unfolding read_unigram
read_unigram-pos s i h = go (drop i s) (omega (arith, length-drop i s))
  where
    go : (p : Bytes) → 0 < length p → 1 ≤ (unigram_at p).1
    go [] l = absurd (omega arith)
    go (c ∷ p) l = unigram_at-pos c p

parse_from_total :
    (fuel : ℕ) (needle : Bytes) (i : ℕ) (groups : List TrigramDisjunction)
    → length needle - i < fuel
    → (r : List TrigramDisjunction) × (parse_from fuel needle i groups ≡ some r)
unfolding parse_from
parse_from_total zero needle i groups h = absurd (omega arith)
parse_from_total (suc fuel) needle i groups h = elim (Bool-cases (ltb i (length needle))) [
  | inl more ↦
      let step = read_unigram-pos needle i (ltb→lt i (length needle) more) in
      rw more (
        parse_from_total fuel needle (i + (read_unigram needle i).1) _
          (omega (arith, ltb→lt i (length needle) more)))
  | inr end ↦ (groups, rw end)
]

-- `parse_trigrams` ends on every needle, well formed or not.
pub parse_trigrams_total :
    (needle : Bytes) → (r : List TrigramDisjunction) × (parse_trigrams needle ≡ some r)
unfolding parse_trigrams
parse_trigrams_total needle = parse_from_total (suc (length needle)) needle 0 [] (omega arith)

unescape_from-ne-stuck :
    (fuel : ℕ) (needle : Bytes) (i : ℕ) (unescaped : Bytes)
    → length needle - i < fuel
    → unescape_from fuel needle i unescaped ≢ stuck
unfolding unescape_from
unescape_from-ne-stuck zero needle i unescaped h = absurd (omega arith)
unescape_from-ne-stuck (suc fuel) needle i unescaped h = ground (
  arith,
  read_unigram-pos needle i,
  unescape_from-ne-stuck fuel needle (i + (read_unigram needle i).1)
      (unescaped ++ ((read_unigram needle i).0 ∷ [])),
)

-- `unescape_glob_to_plain_string` ends on every needle.
pub unescape-ne-stuck : (needle : Bytes) → unescape_glob_to_plain_string needle ≢ stuck
unfolding unescape_glob_to_plain_string
unescape-ne-stuck needle = unescape_from-ne-stuck (suc (length needle)) needle 0 [] (omega arith)
