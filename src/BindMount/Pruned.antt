-- ===== src/BindMount/Pruned.antt =====
-- find_whether_under_pruned: with its cache it answers whether a mount or one of those it hangs on is
-- pruned.
use flocate.Prelude.{
  ℕ, zero, suc, ◌<◌, ◌≡◌, ◌≢◌, ◌⊎◌, inl, inr, refl, sym, ap, ◌∙◌, subst, Bool, true, false, ◌||◌,
  List, [], ◌∷◌, Option, none, some, ◌==◌, ==_iff, Bool-cases, Option-cases, arith,
}
use flocate.BindMount.{Mount, cached, keep, visit, find_whether_under_pruned}

-- The mount or one of those it hangs on is pruned by its type or its path.
pub data IsUnderPruned (mounts : ℕ → Option Mount) : ℕ → Type 0 where
  itself :
      {id : ℕ} {me : Mount}
      → mounts id ≡ some me
      → (me.pruned_due_to_fs_type || me.pruned_due_to_path) ≡ true
      → IsUnderPruned mounts id
  parent :
      {id : ℕ} {me : Mount}
      → mounts id ≡ some me
      → me.parent_id ≢ 0
      → IsUnderPruned mounts me.parent_id
      → IsUnderPruned mounts id

-- The answer is right.
abbrev pub Tells : (ℕ → Option Mount) → ℕ → Bool → Type 0
Tells mounts id true = IsUnderPruned mounts id
Tells mounts id false = IsUnderPruned mounts id → ⊥

-- Every answer in the cache is right.
abbrev pub IsRight : (ℕ → Option Mount) → List (ℕ × Bool) → Type 0
IsRight mounts [] = Unit
IsRight mounts ((key, pruned) ∷ cache) = Tells mounts key pruned × IsRight mounts cache

-- Parents have a lower rank, so that no mount hangs on itself.
abbrev pub IsRanked : (ℕ → Option Mount) → (ℕ → ℕ) → Type 0
IsRanked mounts rank =
    (id : ℕ) (me : Mount) → mounts id ≡ some me → me.parent_id ≢ 0 → rank me.parent_id < rank id

-- The content of an option.
abbrev content {ℓ} : {A : Type ℓ} → A → Option A → A
content a none = a
content a (some b) = b

cached_hit :
    (key id : ℕ) (answer : Bool) (cache : List (ℕ × Bool))
    → (key == id) ≡ true
    → cached ((key, answer) ∷ cache) id ≡ some answer
unfolding cached
cached_hit key id answer cache h = rw h refl

cached_miss :
    (key id : ℕ) (answer : Bool) (cache : List (ℕ × Bool))
    → (key == id) ≡ false
    → cached ((key, answer) ∷ cache) id ≡ cached cache id
unfolding cached
cached_miss key id answer cache h = rw h refl

cached-Tells :
    (mounts : ℕ → Option Mount) (cache : List (ℕ × Bool)) (id : ℕ) (pruned : Bool)
    → IsRight mounts cache
    → cached cache id ≡ some pruned
    → Tells mounts id pruned
unfolding cached
cached-Tells mounts [] id pruned h e = absurd (ground arith)
cached-Tells mounts ((key, answer) ∷ cache) id pruned h e = elim (Bool-cases (key == id)) [
  | inl here ↦
      let same : answer ≡ pruned =
        ap (content pruned) (sym (cached_hit key id answer cache here) ∙ e) in
      subst (Tells mounts id) same
        (subst (λ (k : ℕ). Tells mounts k answer) ((==_iff key id).0 here) h.0)
  | inr other ↦
      cached-Tells mounts cache id pruned h.1 (sym (cached_miss key id answer cache other) ∙ e)
]

-- A result with its cache: the answer is right, and so are all in the cache.
abbrev pub Answers : (ℕ → Option Mount) → ℕ → Option (Bool × List (ℕ × Bool)) → Type 0
Answers mounts id none = ⊥
Answers mounts id (some (result, cache)) = Tells mounts id result × IsRight mounts cache

-- What is said of the parent, kept for the mount itself.
keep-Answers :
    (mounts : ℕ → Option Mount) (id above : ℕ) (r : Option (Bool × List (ℕ × Bool)))
    → ((b : Bool) → Tells mounts above b → Tells mounts id b)
    → Answers mounts above r
    → Answers mounts id (keep id r)
keep-Answers mounts id above none up h = h
keep-Answers mounts id above (some (result, cache)) up h = (up result h.0, (up result h.0, h.1))

-- Why a mount is under a pruned one.
IsUnderPruned-cases :
    (mounts : ℕ → Option Mount) (id : ℕ) (me : Mount)
    → mounts id ≡ some me
    → IsUnderPruned mounts id
    → ((me.pruned_due_to_fs_type || me.pruned_due_to_path) ≡ true)
      ⊎ ((me.parent_id ≢ 0) × IsUnderPruned mounts me.parent_id)
IsUnderPruned-cases mounts id me found (itself e p) = inl (
    subst (λ (m : Mount). (m.pruned_due_to_fs_type || m.pruned_due_to_path) ≡ true)
      (ap (content me) (sym e ∙ found)) p)
IsUnderPruned-cases mounts id me found (parent e nonzero p) = inr (
    subst (λ (m : Mount). (m.parent_id ≢ 0) × IsUnderPruned mounts m.parent_id)
      (ap (content me) (sym e ∙ found)) (nonzero, p))

-- A mount that is not pruned itself is told as its parent is.
up-Tells :
    (mounts : ℕ → Option Mount) (id : ℕ) (me : Mount)
    → mounts id ≡ some me
    → (me.pruned_due_to_fs_type || me.pruned_due_to_path) ≡ false
    → me.parent_id ≢ 0
    → (b : Bool) → Tells mounts me.parent_id b
    → Tells mounts id b
up-Tells mounts id me found not_pruned nonzero true h = parent found nonzero h
up-Tells mounts id me found not_pruned nonzero false h = λ p.
    elim (IsUnderPruned-cases mounts id me found p) [
      | inl pruned ↦ absurd (ground arith)
      | inr (_, above) ↦ h above
    ]

-- A mount that is not there, or at the end of the chain.
missing-Tells :
    (mounts : ℕ → Option Mount) (id : ℕ) → mounts id ≡ none → IsUnderPruned mounts id → ⊥
missing-Tells mounts id missing (itself e p) = absurd (ground arith)
missing-Tells mounts id missing (parent e nonzero p) = absurd (ground arith)

end-Tells :
    (mounts : ℕ → Option Mount) (id : ℕ) (me : Mount)
    → mounts id ≡ some me
    → (me.pruned_due_to_fs_type || me.pruned_due_to_path) ≡ false
    → me.parent_id ≡ 0
    → IsUnderPruned mounts id
    → ⊥
end-Tells mounts id me found not_pruned last p = elim (IsUnderPruned-cases mounts id me found p) [
  | inl pruned ↦ absurd (ground arith)
  | inr (nonzero, _) ↦ nonzero last
]

visit-Answers :
    (mounts : ℕ → Option Mount) (id : ℕ) (cache : List (ℕ × Bool))
    (recurse : ℕ → Option (Bool × List (ℕ × Bool))) (found : Option Mount)
    → mounts id ≡ found
    → IsRight mounts cache
    → ((me : Mount)
        → found ≡ some me
        → me.parent_id ≢ 0
        → Answers mounts me.parent_id (recurse me.parent_id))
    → Answers mounts id (visit id cache recurse found)
visit-Answers mounts id cache recurse none e right rest = (missing-Tells mounts id e, right)
visit-Answers mounts id cache recurse (some me) e right rest =
    elim (Bool-cases (me.pruned_due_to_fs_type || me.pruned_due_to_path)) [
      | inl pruned ↦ rw pruned (itself e pruned, (itself e pruned, right))
      | inr not_pruned ↦ rw not_pruned (elim (Bool-cases (me.parent_id == 0)) [
        | inl last ↦
            let zero_parent : me.parent_id ≡ 0 = ground arith in
            let no : IsUnderPruned mounts id → ⊥ =
              end-Tells mounts id me e not_pruned zero_parent in
            rw last (no, (no, right))
        | inr more ↦
            let nonzero : me.parent_id ≢ 0 = λ z. absurd (ground arith) in
            rw more (
              keep-Answers mounts id me.parent_id (recurse me.parent_id)
                (up-Tells mounts id me e not_pruned nonzero) (rest me refl nonzero))
      ])
    ]

-- If every parent has a lower rank than the mounts that hang on it, and the fuel is above the rank of
-- the mount, then the recursion ends; its answer is whether the mount or one of those it hangs on is
-- pruned, given a cache of right answers, and the cache it leaves holds right answers again.
pub find_whether_under_pruned-Answers :
    (fuel : ℕ) (mounts : ℕ → Option Mount) (rank : ℕ → ℕ) (id : ℕ) (cache : List (ℕ × Bool))
    → IsRanked mounts rank
    → rank id < fuel
    → IsRight mounts cache
    → Answers mounts id (find_whether_under_pruned fuel mounts id cache)
unfolding find_whether_under_pruned
find_whether_under_pruned-Answers zero mounts rank id cache ranked enough right =
    absurd (omega arith)
find_whether_under_pruned-Answers (suc fuel) mounts rank id cache ranked enough right =
    elim (Option-cases (cached cache id)) [
      | inr (pruned, hit) ↦ rw hit (cached-Tells mounts cache id pruned right hit, right)
      | inl miss ↦ rw miss (
          visit-Answers mounts id cache _ (mounts id) refl right (λ me found nonzero.
            find_whether_under_pruned-Answers fuel mounts rank me.parent_id cache ranked
              (omega (arith, ranked id me found nonzero)) right))
    ]
