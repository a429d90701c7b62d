-- ===== src/UpdatedbConf/Words.antt =====
-- What `var_add_values` adds: the words of the value.
use flocate.Prelude.{
  ℕ, zero, suc, ◌≤◌, ◌<◌, ◌≡◌, refl, sym, ap, subst, ◌∙◌, true, false, List, [], ◌∷◌, ◌++◌, Bytes,
  length, All, inl, inr, Bool-cases, arith, append-nil, append_assoc,
}
use flocate.UpdatedbConf.Lexer.{CLibrary}
use flocate.UpdatedbConf.Values.{take_word, add_values, var_add_values}

-- White space, and not white space.
abbrev pub IsSpace : CLibrary → ℕ → Type 0
IsSpace lib c = lib.isspace c ≡ true

abbrev pub IsInWord : CLibrary → ℕ → Type 0
IsInWord lib c = lib.isspace c ≡ false

-- Where a word ends.
abbrev pub IsBehindWord : CLibrary → Bytes → Type 0
IsBehindWord lib [] = Unit
IsBehindWord lib (c ∷ rest) = IsSpace lib c

-- The words of a value, which are as long as they can be.
pub data HasWords (lib : CLibrary) : List Bytes → Bytes → Type 0 where
  finished : HasWords lib [] []
  space :
      {words : List Bytes} {val : Bytes} {c : ℕ}
      → IsSpace lib c
      → HasWords lib words val
      → HasWords lib words (c ∷ val)
  word :
      {words : List Bytes} {c : ℕ} {tail rest : Bytes}
      → All (IsInWord lib) (c ∷ tail)
      → IsBehindWord lib rest
      → HasWords lib words rest
      → HasWords lib ((c ∷ tail) ∷ words) (c ∷ (tail ++ rest))

module _ (lib : CLibrary) where
  -- How a word is taken off.
  abbrev Taken : Bytes → Bytes × Bytes → Type 0
  Taken val (tail, rest) =
      (tail ++ rest ≡ val)
      × All (IsInWord lib) tail
      × IsBehindWord lib rest
      × (length rest ≤ length val)

  take_word-Taken : (val : Bytes) → Taken val (take_word lib val)
  unfolding take_word
  take_word-Taken [] = (refl, tt, tt, omega arith)
  take_word-Taken (c ∷ val) =
      let (joined, all, behind, le) = take_word-Taken val in
      elim (Bool-cases (lib.isspace c)) [
        | inl sp ↦ rw sp (refl, tt, sp, omega arith)
        | inr in_word ↦ rw in_word (ap (λ p. c ∷ p) joined, (in_word, all), behind, omega arith)
      ]

  add_values-HasWords :
      (rounds : ℕ) (list : List Bytes) (val : Bytes)
      → length val < rounds
      → (words : List Bytes) × HasWords lib words val
        × (add_values lib rounds list val ≡ list ++ words)
  unfolding add_values
  add_values-HasWords zero list val enough = elim enough [ ]
  add_values-HasWords (suc rounds) list [] enough = ([], finished, sym (append-nil list))
  add_values-HasWords (suc rounds) list (c ∷ val) enough =
      let (joined, all, behind, le) = take_word-Taken val in
      let (tail, rest) = take_word lib val in
      elim (Bool-cases (lib.isspace c)) [
        | inl sp ↦
            let (words, has, e) = add_values-HasWords rounds list val (omega arith) in
            (words, space sp has, rw sp e)
        | inr in_word ↦
            let (words, has, e) =
              add_values-HasWords rounds (list ++ ((c ∷ tail) ∷ [])) rest (omega arith) in
            (
              (c ∷ tail) ∷ words,
              subst (λ p. HasWords lib ((c ∷ tail) ∷ words) (c ∷ p)) joined
                  (word (in_word, all) behind has),
              rw in_word (e ∙ append_assoc list ((c ∷ tail) ∷ []) words),
            )
      ]

  -- The words of the value are put behind those that were there, in order.
  pub var_add_values-HasWords :
      (list : List Bytes) (val : Bytes)
      → (words : List Bytes) × HasWords lib words val
        × (var_add_values lib list val ≡ list ++ words)
  unfolding var_add_values
  var_add_values-HasWords list val = add_values-HasWords (suc (length val)) list val (omega arith)
