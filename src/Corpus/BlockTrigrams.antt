-- ===== src/Corpus/BlockTrigrams.antt =====
-- The outer loop of `flush_block` on a block of names.
use flocate.Prelude.{
  ℕ, zero, suc, ◌≤◌, ◌<◌, ◌≡◌, refl, sym, ap, ◌∙◌, true, false, List, [], ◌∷◌, ◌++◌, append_assoc,
  append-nil, Bytes, none, some, length, length-append, drop, get_or, All, arith, ◌==◌, ltb,
  if◌then◌else◌, inl, inr, Bool-cases,
}
use flocate.Trigram.Windows.{windows}
use flocate.Corpus.{index_name, index_names, block_trigrams, add_path, add_paths}
use flocate.Corpus.NameTrigrams.{IsNameByte, index_name-windows}

-- A file name: not empty, and without NUL.
abbrev pub IsName : Bytes → Type 0
IsName name = (0 < length name) × All IsNameByte name

-- The names behind the first, each behind its NUL.
unfoldable pub separated : List Bytes → Bytes
separated [] = []
separated (name ∷ names) = 0 ∷ (name ++ separated names)

-- A block: the names with a NUL between any two.
unfoldable pub block : List Bytes → Bytes
block [] = []
block (name ∷ names) = name ++ separated names

separated-ends : (names : List Bytes) → get_or (separated names) 0 0 ≡ 0
unfolding separated
separated-ends [] = refl
separated-ends (name ∷ names) = refl

pub drop-separated : (names : List Bytes) → drop 1 (separated names) ≡ block names
unfolding separated block
drop-separated [] = refl
drop-separated (name ∷ names) = refl

-- What `add_file` builds out of names that are not empty.
add_paths-separated :
    (current : Bytes) (names : List Bytes)
    → 0 < length current
    → add_paths current names ≡ current ++ separated names
unfolding add_paths separated add_path
add_paths-separated current [] h = sym (append-nil current)
add_paths-separated [] (name ∷ names) h = absurd (omega arith)
add_paths-separated (c ∷ current) (name ∷ names) h =
    add_paths-separated _ names (omega arith) ∙ simp append_assoc

pub add_paths-block : (names : List Bytes) → All IsName names → add_paths [] names ≡ block names
unfolding add_paths block add_path
add_paths-block [] h = refl
add_paths-block (name ∷ names) (h, hs) = add_paths-separated name names h.0

-- The trigrams that the loop finds in the names: those of each name, but a last name of three bytes,
-- at which `ptr < end - 3` fails, has none.
unfoldable pub block_windows : List Bytes → List ℕ
block_windows [] = []
block_windows (name ∷ []) = if length name == 3 then [] else windows name
block_windows (name ∷ next ∷ names) = windows name ++ block_windows (next ∷ names)

-- One round of the loop, by what stands at `ptr`.
names_round :
    (fuel : ℕ) (p : Bytes) (trigrams : List ℕ)
    → index_names (suc fuel) p trigrams ≡ (
        if ltb 3 (length p)
        then if get_or p 0 0 == 0
          then index_names fuel (drop 1 p) trigrams
          else if get_or p 1 0 == 0
          then index_names fuel (drop 2 p) trigrams
          else if get_or p 2 0 == 0
          then index_names fuel (drop 3 p) trigrams
          else (elim (index_name p trigrams) [
            | none ↦ none
            | some (trigrams', rest) ↦ index_names fuel rest trigrams'
          ])
        else some trigrams)
unfolding index_names
names_round fuel p trigrams = refl

nonzero : {a : ℕ} → 0 < a → (a == 0) ≡ false
nonzero h = ground arith

module _ (fuel : ℕ) (trigrams : List ℕ) (names : List Bytes) where
  names_one :
      (a : ℕ)
      → 0 < a
      → ltb 3 (length (a ∷ separated names)) ≡ true
      → index_names (suc fuel) (a ∷ separated names) trigrams
        ≡ index_names fuel (block names) trigrams
  names_one a ha more =
      names_round fuel (a ∷ separated names) trigrams
      ∙ rw (more, nonzero ha, separated-ends names, drop-separated names) refl

  names_two :
      (a b : ℕ)
      → 0 < a
      → 0 < b
      → ltb 3 (length (a ∷ b ∷ separated names)) ≡ true
      → index_names (suc fuel) (a ∷ b ∷ separated names) trigrams
        ≡ index_names fuel (block names) trigrams
  names_two a b ha hb more =
      names_round fuel (a ∷ b ∷ separated names) trigrams
      ∙ rw (more, nonzero ha, nonzero hb, separated-ends names, drop-separated names) refl

  names_three :
      (a b c : ℕ) (name : Bytes)
      → All IsNameByte (a ∷ b ∷ c ∷ name)
      → ltb 3 (length (a ∷ b ∷ c ∷ (name ++ separated names))) ≡ true
      → index_names (suc fuel) (a ∷ b ∷ c ∷ (name ++ separated names)) trigrams
        ≡ index_names fuel (block names) (trigrams ++ windows (a ∷ b ∷ c ∷ name))
  names_three a b c name (ha, (hb, (hc, h))) more =
      let e =
        index_name-windows a b c name (separated names) trigrams (ha, (hb, (hc, h)))
          (separated-ends names) in
      names_round fuel (a ∷ b ∷ c ∷ (name ++ separated names)) trigrams
      ∙ rw (more, nonzero ha.0, nonzero hb.0, nonzero hc.0, e, drop-separated names) refl

-- The end of the loop.
names_end :
    (fuel : ℕ) (p : Bytes) (trigrams : List ℕ)
    → ltb 3 (length p) ≡ false
    → index_names (suc fuel) p trigrams ≡ some trigrams
names_end fuel p trigrams end = names_round fuel p trigrams ∙ rw end refl

short_windows : (name : Bytes) → length name < 3 → windows name ≡ []
unfolding windows
short_windows [] h = refl
short_windows (a ∷ []) h = refl
short_windows (a ∷ b ∷ []) h = refl
short_windows (a ∷ b ∷ c ∷ name) h = absurd (omega arith)

-- A block at which the loop does not start has no windows.
short_block :
    (names : List Bytes) → All IsName names → length (block names) < 4 → block_windows names ≡ []
unfolding block block_windows separated
short_block [] h short = refl
short_block (name ∷ []) h short = elim (Bool-cases (length name == 3)) [
  | inl three ↦ rw three refl
  | inr fewer ↦ rw (fewer, short_windows name (ground (arith, length-append name []))) refl
]
short_block (name ∷ next ∷ names) (h, hs) short =
    let longer = length-append name (separated (next ∷ names)) in
    let none_here =
      short_windows name (omega (arith, hs.0.0, length-append next (separated names))) in
    rw (none_here, short_block (next ∷ names) hs (omega arith)) refl

pub block_shorter : (names : List Bytes) → length (block names) ≤ length (separated names)
unfolding block separated
block_shorter [] = omega arith
block_shorter (name ∷ names) = omega arith

-- Where the loop starts, the first name is one that it finds.
block_windows_cons :
    (name : Bytes) (names : List Bytes)
    → ltb 3 (length (block (name ∷ names))) ≡ true
    → block_windows (name ∷ names) ≡ windows name ++ block_windows names
unfolding block block_windows separated
block_windows_cons name [] more =
    let longer : (length name == 3) ≡ false = ground (arith, length-append name []) in
    rw longer (sym (append-nil (windows name)))
block_windows_cons name (next ∷ names) more = refl

-- The loop on a block does what is expected, at a given fuel.
abbrev Finds : ℕ → Type 0
Finds fuel =
    (names : List Bytes) (trigrams : List ℕ)
    → All IsName names
    → length (block names) < fuel
    → index_names fuel (block names) trigrams ≡ some (trigrams ++ block_windows names)

block_round :
    (fuel : ℕ) (a : ℕ) (name : Bytes) (names : List Bytes) (trigrams : List ℕ)
    → Finds fuel
    → All IsName ((a ∷ name) ∷ names)
    → length (block ((a ∷ name) ∷ names)) < suc fuel
    → ltb 3 (length (block ((a ∷ name) ∷ names))) ≡ true
    → index_names (suc fuel) (block ((a ∷ name) ∷ names)) trigrams
      ≡ some (trigrams ++ (windows (a ∷ name) ++ block_windows names))
unfolding block separated windows
block_round fuel a [] names trigrams later ((h, (ha, u)), hs) enough more =
    names_one fuel trigrams names a ha.0 more
    ∙ later names trigrams hs (omega (arith, block_shorter names))
block_round fuel a (b ∷ []) names trigrams later ((h, (ha, (hb, u))), hs) enough more =
    names_two fuel trigrams names a b ha.0 hb.0 more
    ∙ later names trigrams hs (omega (arith, block_shorter names))
block_round fuel a (b ∷ c ∷ name) names trigrams later ((h, hn), hs) enough more =
    names_three fuel trigrams names a b c name hn more
    ∙ later names _ hs (omega (arith, block_shorter names, length-append name (separated names)))
    ∙ ap some (append_assoc trigrams (windows (a ∷ b ∷ c ∷ name)) (block_windows names))

names_none :
    (fuel : ℕ) (trigrams : List ℕ)
    → index_names (suc fuel) (block []) trigrams ≡ some (trigrams ++ block_windows [])
unfolding block block_windows
names_none fuel trigrams = names_end fuel [] trigrams refl ∙ ap some (sym (append-nil trigrams))

index_names-block : (fuel : ℕ) → Finds fuel
index_names-block zero names trigrams h enough = absurd (omega arith)
index_names-block (suc fuel) [] trigrams h enough = names_none fuel trigrams
index_names-block (suc fuel) ([] ∷ names) trigrams (h, hs) enough = absurd (omega (arith, h.0))
index_names-block (suc fuel) ((a ∷ name) ∷ names) trigrams h enough =
    elim (Bool-cases (ltb 3 (length (block ((a ∷ name) ∷ names))))) [
      | inl more ↦
          block_round fuel a name names trigrams (index_names-block fuel) h enough more
          ∙ ap (λ ts. some (trigrams ++ ts)) (sym (block_windows_cons (a ∷ name) names more))
      | inr end ↦
          names_end fuel (block ((a ∷ name) ∷ names)) trigrams end
          ∙ ap some (sym (append-nil trigrams))
          ∙ ap (λ ts. some (trigrams ++ ts))
              (sym (short_block ((a ∷ name) ∷ names) h (ground arith)))
    ]

-- `flush_block` on a block that `add_file` has built: it never reads behind the NUL that ends the
-- block, and finds the windows of the names, all but those of a last name of three bytes.
pub block_trigrams-block :
    (names : List Bytes)
    → All IsName names
    → block_trigrams (add_paths [] names) ≡ some (block_windows names)
unfolding block_trigrams
block_trigrams-block names h =
    rw (add_paths-block names h) (index_names-block _ names [] h (omega arith))
