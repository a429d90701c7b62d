-- ===== src/Trigram/Reads.antt =====
-- What a needle stands for as `read_unigram` reads it, unigram by unigram.
use flocate.Prelude.{
  ℕ, ◌+◌, ◌<◌, ◌≡◌, refl, sym, ap, subst, true, false, [], ◌∷◌, ◌++◌, Bytes, drop, drop-drop, arith,
}
use flocate.Trigram.{is_invalid, unigram_at, read_unigram}

-- A byte stands for itself, and what is no valid unigram for any bytes.
pub data Reads : Bytes → Bytes → Type 0 where
  finish : Reads [] []
  literal :
      {p t : Bytes} (c len : ℕ)
      → unigram_at p ≡ (c, len)
      → c < 256
      → Reads (drop len p) t
      → Reads p (c ∷ t)
  skip :
      {p t m : Bytes} (skipped : Bytes) (u len : ℕ)
      → unigram_at p ≡ (u, len)
      → is_invalid u ≡ true
      → m ≡ skipped ++ t
      → Reads (drop len p) t
      → Reads p m

-- A valid first unigram is the first byte of what it stands for.
pub record Begins (p m : Bytes) : Type 0 where
  pub rest : Bytes
  pub is_byte : (unigram_at p).0 < 256
  pub splits : m ≡ (unigram_at p).0 ∷ rest
  pub follows : Reads (drop (unigram_at p).1 p) rest

Reads-Begins : {p m : Bytes} → Reads p m → is_invalid (unigram_at p).0 ≡ false → Begins p m
Reads-Begins finish h = absurd (unfold unigram_at in cc h)
Reads-Begins (literal {p} {t} c len e b after) h = record {
  rest = t;
  is_byte = omega (arith, ap (λ u. u.0) e);
  splits = ap (λ (u : ℕ × ℕ). u.0 ∷ t) (sym e);
  follows = subst (λ (u : ℕ × ℕ). Reads (drop u.1 p) t) (sym e) after;
}
Reads-Begins (skip skipped u len e v s after) h = absurd (ground (arith, ap (λ u. u.0) e))

-- What stands behind the first unigram.
Reads-tail :
    {p m : Bytes}
    → Reads p m
    → (skipped t : Bytes) × (m ≡ skipped ++ t) × Reads (drop (unigram_at p).1 p) t
unfolding unigram_at
Reads-tail finish = ([], [], refl, finish)
Reads-tail (literal {p} {t} c len e b after) =
    (c ∷ [], t, refl, subst (λ (u : ℕ × ℕ). Reads (drop u.1 p) t) (sym e) after)
Reads-tail (skip {p} {t} skipped u len e v s after) =
    (skipped, t, s, subst (λ (u : ℕ × ℕ). Reads (drop u.1 p) t) (sym e) after)

module _ (s : Bytes) where
  -- `Begins` at a position of the needle.
  pub begins_at :
      (i : ℕ) {m : Bytes}
      → Reads (drop i s) m
      → is_invalid (read_unigram s i).0 ≡ false
      → (rest : Bytes) × ((read_unigram s i).0 < 256)
        × (m ≡ (read_unigram s i).0 ∷ rest)
        × Reads (drop (i + (read_unigram s i).1) s) rest
  unfolding read_unigram
  begins_at i w h =
      let b = Reads-Begins w h in
      (b.rest, b.is_byte, b.splits, subst (λ p. Reads p b.rest) (drop-drop i _ s) b.follows)

  -- `Reads-tail` at a position of the needle.
  pub tail_at :
      (i : ℕ) {m : Bytes}
      → Reads (drop i s) m
      → (skipped t : Bytes) × (m ≡ skipped ++ t) × Reads (drop (i + (read_unigram s i).1) s) t
  unfolding read_unigram
  tail_at i w =
      let (skipped, t, e, after) = Reads-tail w in
      (skipped, t, e, subst (λ p. Reads p t) (drop-drop i _ s) after)
