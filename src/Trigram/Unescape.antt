-- ===== src/Trigram/Unescape.antt =====
-- The plain string of a pattern (src/needle.cpp) against what fnmatch matches.
use flocate.Prelude.{
  ℕ, zero, suc, ◌+◌, ◌≤◌, ◌≡◌, ◌↔◌, refl, sym, ap, subst, drop-drop, ◌∙◌, inl, inr, true, false, [],
  ◌∷◌, ◌++◌, append_assoc, append-nil, Bytes, length, drop, arith, ltb, Bool-cases,
}
use flocate.Trigram.{
  is_invalid, unigram_at, read_unigram, plain, unescape_from, unescape_glob_to_plain_string,
}
use flocate.Trigram.Match.{Matches}
use flocate.Trigram.Match
use flocate.Trigram.Reading.{unigram_at-Matches, unigram_at-bracket}

Matches-nil : {m : Bytes} → Matches [] m → m ≡ []
Matches-nil Match.finish = refl

-- The other way round: what the pattern matches begins with its first unigram, where that is valid.
Matches-unigram_at :
    {p m : Bytes}
    → Matches p m
    → is_invalid (unigram_at p).0 ≡ false
    → (rest : Bytes) × (m ≡ (unigram_at p).0 ∷ rest) × Matches (drop (unigram_at p).1 p) rest
Matches-unigram_at Match.finish h = unfold unigram_at in absurd (ground (arith, h))
Matches-unigram_at (Match.literal {p} {t} {c} usual w) h =
    let e : unigram_at (c ∷ p) ≡ (c, 1) = unfold unigram_at in ground arith in rw e (t, refl, w)
Matches-unigram_at (Match.escaped {p} {t} {x} {c} escape w) h =
    let e : unigram_at (x ∷ c ∷ p) ≡ (c, 2) = unfold unigram_at in ground arith in rw e (t, refl, w)
Matches-unigram_at (Match.star skipped e s w) h = unfold unigram_at in absurd (ground arith)
Matches-unigram_at (Match.question e w) h = unfold unigram_at in absurd (ground arith)
Matches-unigram_at (Match.bracket {p} text e b s w) h =
    absurd (ground (arith, b, unigram_at-bracket text p b))

drop-past : (i : ℕ) (s : Bytes) → length s ≤ i → drop i s ≡ []
drop-past zero [] h = refl
drop-past zero (c ∷ s) h = absurd (omega arith)
drop-past (suc i) [] h = refl
drop-past (suc i) (c ∷ s) h = drop-past i s (omega arith)

-- A round of `unescape_from` that gives a string read a valid unigram.
unescape_round :
    (fuel : ℕ) (needle : Bytes) (i : ℕ) (unescaped : Bytes) {u : Bytes}
    → ltb i (length needle) ≡ true
    → unescape_from (suc fuel) needle i unescaped ≡ plain u
    → (is_invalid (read_unigram needle i).0 ≡ false)
      × (unescape_from fuel needle
            (i + (read_unigram needle i).1)
            (unescaped ++ ((read_unigram needle i).0 ∷ []))
          ≡ plain u)
unfolding unescape_from
unescape_round fuel needle i unescaped more e = ground arith

unescape_end :
    (fuel : ℕ) (needle : Bytes) (i : ℕ) (unescaped : Bytes) {u : Bytes}
    → ltb i (length needle) ≡ false
    → unescape_from (suc fuel) needle i unescaped ≡ plain u
    → u ≡ unescaped
unfolding unescape_from
unescape_end fuel needle i unescaped end e = ground arith

-- What is unescaped from here on is matched.
unescape_from_matched :
    (fuel : ℕ) (needle : Bytes) (i : ℕ) (unescaped : Bytes) {u : Bytes}
    → unescape_from fuel needle i unescaped ≡ plain u
    → (t : Bytes) × (u ≡ unescaped ++ t) × Matches (drop i needle) t
unescape_from_matched zero needle i unescaped e = unfold unescape_from in absurd (cc)
unescape_from_matched (suc fuel) needle i unescaped e = elim (Bool-cases (ltb i (length needle))) [
  | inl more ↦
      let (valid, later) = unescape_round fuel needle i unescaped more e in
      let (t, same, w) = unescape_from_matched fuel needle _ _ later in
      let ch = (read_unigram needle i).0 in
      (ch ∷ t, same ∙ append_assoc unescaped (ch ∷ []) t, unigram_at_matched i needle valid w)
  | inr end ↦ (
    [],
    unescape_end fuel needle i unescaped end e ∙ sym (append-nil unescaped),
    subst (λ (p : Bytes). Matches p []) (sym (drop-past i needle (ground arith))) Match.finish,
  )
]
  where
    unigram_at_matched :
        (i : ℕ) (needle : Bytes) {t : Bytes}
        → is_invalid (read_unigram needle i).0 ≡ false
        → Matches (drop (i + (read_unigram needle i).1) needle) t
        → Matches (drop i needle) ((read_unigram needle i).0 ∷ t)
    unigram_at_matched i needle {t} valid w =
        unfold read_unigram in
        unigram_at-Matches (drop i needle) t valid
          (subst (λ (p : Bytes). Matches p t) (sym (drop-drop i _ needle)) w)

-- Nothing else is matched.
unescape_from_unique :
    (fuel : ℕ) (needle : Bytes) (i : ℕ) (unescaped : Bytes) {m u : Bytes}
    → Matches (drop i needle) m
    → unescape_from fuel needle i unescaped ≡ plain u
    → u ≡ unescaped ++ m
unescape_from_unique zero needle i unescaped w e = unfold unescape_from in cc
unescape_from_unique (suc fuel) needle i unescaped {m} w e =
    elim (Bool-cases (ltb i (length needle))) [
      | inl more ↦
          let (valid, later) = unescape_round fuel needle i unescaped more e in
          let (rest, splits, after) = begins needle i w valid in
          unescape_from_unique fuel needle _ _ after later
          ∙ append_assoc unescaped _ rest
          ∙ ap (λ t. unescaped ++ t) (sym splits)
      | inr end ↦
          let nothing : m ≡ [] =
            Matches-nil
              (subst (λ (p : Bytes). Matches p m) (drop-past i needle (ground arith)) w) in
          unescape_end fuel needle i unescaped end e
          ∙ sym (append-nil unescaped)
          ∙ ap (λ t. unescaped ++ t) (sym nothing)
    ]
  where
    begins :
        (needle : Bytes) (i : ℕ) {m : Bytes}
        → Matches (drop i needle) m
        → is_invalid (read_unigram needle i).0 ≡ false
        → (rest : Bytes) × (m ≡ (read_unigram needle i).0 ∷ rest)
          × Matches (drop (i + (read_unigram needle i).1) needle) rest
    begins needle i w valid =
        unfold read_unigram in
        let (rest, splits, after) = Matches-unigram_at w valid in
        (rest, splits, subst (λ (p : Bytes). Matches p rest) (drop-drop i _ needle) after)

-- A pattern that is unescaped to a plain string matches that string, and nothing else.
pub unescape-Matches :
    (needle u m : Bytes)
    → unescape_glob_to_plain_string needle ≡ plain u
    → Matches needle m ↔ (m ≡ u)
unfolding unescape_glob_to_plain_string
unescape-Matches needle u m e = (
  λ w. sym (unescape_from_unique (suc (length needle)) needle 0 [] w e),
  λ same.
      let (t, eu, w) = unescape_from_matched (suc (length needle)) needle 0 [] e in
      subst (λ (s : Bytes). Matches needle s) (sym (same ∙ eu)) w,
)
