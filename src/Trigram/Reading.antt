-- ===== src/Trigram/Reading.antt =====
-- The unigrams of a needle against what it finds.
use flocate.Prelude.{
  ℕ, zero, suc, ◌+◌, ◌<◌, ◌≡◌, refl, sym, ap, subst, ◌∙◌, true, false, [], ◌∷◌, ◌++◌, Bytes, length,
  drop, take, drop-append_length, take-append-drop, length-drop, All, IsByte, ◌==◌, inl, inr,
  Bool-cases, arith,
}
use flocate.Trigram.{
  wildcard_unigram, is_invalid, read_escaped, read_class, read_class_start, read_negation,
  unigram_at,
}
use flocate.Trigram.Reads.{Reads, finish, literal, skip}
use flocate.Trigram.Scan.{unigram_at-pos}
use flocate.Trigram.Match.{
  Matches, is_special, is_member, closes, is_list, is_bracket, HasNoBackslash,
}
use flocate.Trigram.Match

read_class-closes :
    (text p : Bytes) (len : ℕ)
    → closes text ≡ true
    → read_class (text ++ p) len ≡ (wildcard_unigram, len + length text)
unfolding read_class closes
read_class-closes [] p len h = absurd (cc)
read_class-closes (c ∷ []) p len h = ground arith
read_class-closes (c ∷ d ∷ text) p len h = ground (arith, read_class-closes (d ∷ text) p (len + 1))

read_class_start-list :
    (text p : Bytes) (len : ℕ)
    → is_list text ≡ true
    → read_class_start (text ++ p) len ≡ (wildcard_unigram, len + length text)
unfolding read_class_start read_class is_list
read_class_start-list [] p len h = absurd (cc)
read_class_start-list (c ∷ text) p len h = ground (arith, read_class-closes text p (len + 1))

pub unigram_at-bracket :
    (text p : Bytes)
    → is_bracket text ≡ true
    → unigram_at (b'[' ∷ (text ++ p)) ≡ (wildcard_unigram, suc (length text))
unfolding unigram_at read_negation is_bracket
unigram_at-bracket [] p h = absurd (cc)
unigram_at-bracket (c ∷ text) p h =
    ground (arith, read_class_start-list text p 2, read_class_start-list (c ∷ text) p 1)

All-behind : (text p : Bytes) → All IsByte (text ++ p) → All IsByte p
All-behind [] p h = h
All-behind (c ∷ text) p h = All-behind text p h.1

pub Matches-Reads : {p t : Bytes} → All IsByte p → Matches p t → Reads p t
unfolding unigram_at
Matches-Reads b Match.finish = finish
Matches-Reads b (Match.literal {c = c} plain w) =
    literal c 1 (ground arith) b.0 (Matches-Reads b.1 w)
Matches-Reads b (Match.escaped {c = c} e w) =
    literal c 2 (ground arith) b.1.0 (Matches-Reads b.1.1 w)
Matches-Reads b (Match.star skipped e s w) =
    skip skipped wildcard_unigram 1 (ground arith) refl s (Matches-Reads b.1 w)
Matches-Reads b (Match.question {c = c} e w) =
    skip (c ∷ []) wildcard_unigram 1 (ground arith) refl refl (Matches-Reads b.1 w)
Matches-Reads b (Match.bracket {p} {q} {t} {x} {c} text e h s w) =
    skip (c ∷ []) wildcard_unigram (suc (length text)) (rw (e, s) (unigram_at-bracket text p h))
      refl refl
      (subst (λ (r : Bytes). Reads r t)
        (sym (ap (drop (length text)) s ∙ drop-append_length (length text) text p refl))
        (Matches-Reads (All-behind text p (subst (All IsByte) s b.1)) w))

-- A bracket gives no valid unigram.
read_class-is_invalid : (s : Bytes) (len : ℕ) → is_invalid (read_class s len).0 ≡ true
unfolding read_class
read_class-is_invalid [] len = ground arith
read_class-is_invalid (c ∷ s) len = ground (arith, read_class-is_invalid s (len + 1))

read_class_start-is_invalid : (s : Bytes) (len : ℕ) → is_invalid (read_class_start s len).0 ≡ true
unfolding read_class_start
read_class_start-is_invalid [] len = ground arith
read_class_start-is_invalid (c ∷ s) len =
    ground (arith, read_class-is_invalid s (len + 1), read_class-is_invalid (c ∷ s) len)

read_negation-is_invalid : (s : Bytes) (len : ℕ) → is_invalid (read_negation s len).0 ≡ true
unfolding read_negation
read_negation-is_invalid [] len = ground arith
read_negation-is_invalid (c ∷ s) len =
    ground (arith, read_class_start-is_invalid s (len + 1), read_class_start-is_invalid (c ∷ s) len)

-- A valid unigram that is not escaped is a byte that stands for itself.
valid_literal :
    (c : ℕ) (s : Bytes)
    → (c == b'\\') ≡ false
    → is_invalid (unigram_at (c ∷ s)).0 ≡ false
    → (is_special c ≡ false) × (unigram_at (c ∷ s) ≡ (c, 1))
unfolding unigram_at
valid_literal c s plain h = ground (arith, read_negation-is_invalid s 1)

valid_escaped :
    (c : ℕ) (s : Bytes)
    → (c == b'\\') ≡ true
    → is_invalid (unigram_at (c ∷ s)).0 ≡ false
    → (x : ℕ) × (rest : Bytes) × (s ≡ x ∷ rest) × (unigram_at (c ∷ s) ≡ (x, 2))
unfolding unigram_at read_escaped
valid_escaped c [] escape h = absurd (ground arith)
valid_escaped c (x ∷ rest) escape h = (x, rest, refl, ground arith)

All-drop : (P : ℕ → Type 0) (n : ℕ) (p : Bytes) → All P p → All P (drop n p)
All-drop P zero p h = h
All-drop P (suc n) [] h = h
All-drop P (suc n) (c ∷ p) h = All-drop P n p h.1

-- A plain needle without a backslash stands for itself.
pub plain-Reads :
    (fuel : ℕ) (str : Bytes)
    → length str < fuel
    → All IsByte str
    → All (λ c. (c == b'\\') ≡ false) str
    → Reads str str
plain-Reads zero str enough b h = elim enough [ ]
plain-Reads (suc fuel) [] enough b h = finish
plain-Reads (suc fuel) (c ∷ s) enough b h =
    let len = (unigram_at (c ∷ s)).1 in
    let shorter : length (drop len (c ∷ s)) < fuel =
      omega (arith, length-drop len (c ∷ s), unigram_at-pos c s) in
    elim (Bool-cases (is_invalid (unigram_at (c ∷ s)).0)) [
      | inl invalid ↦
          skip (take len (c ∷ s)) (unigram_at (c ∷ s)).0 len refl invalid
            (sym (take-append-drop len (c ∷ s)))
            (plain-Reads fuel (drop len (c ∷ s)) shorter (All-drop _ len (c ∷ s) b)
              (All-drop _ len (c ∷ s) h))
      | inr valid ↦
          literal c 1 (valid_literal c s h.0 valid).1 b.0 (plain-Reads fuel s (omega arith) b.1 h.1)
    ]

-- A valid unigram begins what the pattern matches.
pub unigram_at-Matches :
    (p t : Bytes)
    → is_invalid (unigram_at p).0 ≡ false
    → Matches (drop (unigram_at p).1 p) t
    → Matches p ((unigram_at p).0 ∷ t)
unigram_at-Matches [] t h w = unfold unigram_at in absurd (ground (arith, h))
unigram_at-Matches (c ∷ s) t h w = elim (Bool-cases (c == b'\\')) [
  | inl escape ↦
      let (x, rest, es, eu) = valid_escaped c s escape h in
      let after : Matches rest t =
        subst (λ (r : Bytes). Matches r t) (ap (drop 1) es)
          (subst (λ (u : ℕ × ℕ). Matches (drop u.1 (c ∷ s)) t) eu w) in
      rw eu (rw es (Match.escaped (ground arith) after))
  | inr plain ↦
      let (usual, eu) = valid_literal c s plain h in
      let after : Matches s t = subst (λ (u : ℕ × ℕ). Matches (drop u.1 (c ∷ s)) t) eu w in
      rw eu (Match.literal usual after)
]
