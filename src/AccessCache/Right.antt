-- ===== src/AccessCache/Right.antt =====
-- The cache changes no answer, and the answers are about the directories above a file.
use flocate.Prelude.{
  ℕ, append_assoc, append-nil, ◌==◌, ==_iff, ◌≡◌, ◌≢◌, ◌↔◌, refl, ◌++◌, sym, ap, ◌∙◌, subst, Bool,
  true, false, List, Bytes, [], ◌∷◌, some, bytes_eq, bytes_eq_iff, if◌then◌else◌, Bool-cases,
  Option-cases, inl, inr, arith,
}
use flocate.AccessCache.{
  find_path, parents_from, parents, check_parent, check_parents, check_access, check_all,
}

-- A directory above a file: what stands before a slash, but not the empty path before the first
-- byte.
abbrev pub IsAbove : Bytes → Bytes → Type 0
IsAbove dir filename = (dir ≢ []) × ((behind : Bytes) × (filename ≡ dir ++ (b'/' ∷ behind)))

module _ (access : Bytes → Bool) where
  -- The cache holds what access says.
  abbrev pub IsRight : List (Bytes × Bool) → Type 0
  IsRight [] = Unit
  IsRight ((path, ok) ∷ cache) = (access path ≡ ok) × IsRight cache

  -- Whether all directories can be read.
  unfoldable pub all_readable : List Bytes → Bool
  all_readable [] = true
  all_readable (path ∷ paths) = if access path then all_readable paths else false

  -- Where the file may be shown: all directories above it can be read.
  abbrev pub IsVisible : Bytes → Type 0
  IsVisible filename = (dir : Bytes) → IsAbove dir filename → access dir ≡ true

  -- The answers for some files in turn.
  abbrev pub Answers : Bool → List Bytes → List Bool → Type 0
  Answers check_visibility [] [] = Unit
  Answers check_visibility [] (ok ∷ oks) = ⊥
  Answers check_visibility (filename ∷ filenames) [] = ⊥
  Answers true (filename ∷ filenames) (ok ∷ oks) =
      ((ok ≡ true) ↔ IsVisible filename) × Answers true filenames oks
  Answers false (filename ∷ filenames) (ok ∷ oks) = (ok ≡ true) × Answers false filenames oks

  -- All directories before a slash of `rest`.
  abbrev ArePassed : Bytes → Bytes → Type 0
  ArePassed front rest =
      (before behind : Bytes) → rest ≡ before ++ (b'/' ∷ behind) → access (front ++ before) ≡ true

  -- A byte further: the directory in front of a slash is asked too.
  abbrev asked_here : ℕ → Bytes → Bool → Bool
  asked_here c front later = if c == b'/' then (if access front then later else false) else later

  all_readable-step :
      (front rest : Bytes) (c : ℕ)
      → all_readable (parents_from front (c ∷ rest))
        ≡ asked_here c front (all_readable (parents_from (front ++ (c ∷ [])) rest))
  unfolding all_readable parents_from
  all_readable-step front rest c = elim (Bool-cases (c == b'/')) [
    | inl slash ↦ rw slash refl
    | inr other ↦ rw other refl
  ]

  asked_here-later : (c : ℕ) (front : Bytes) (b : Bool) → asked_here c front b ≡ true → b ≡ true
  asked_here-later c front b h = ground arith

  readable-ArePassed :
      (front rest : Bytes) → all_readable (parents_from front rest) ≡ true → ArePassed front rest
  readable-ArePassed front [] h [] behind e = absurd (cc)
  readable-ArePassed front [] h (x ∷ before) behind e = absurd (cc)
  readable-ArePassed front (c ∷ rest) h [] behind e =
      let slash : c ≡ b'/' = cc in
      let here : asked_here c front (all_readable (parents_from (front ++ (c ∷ [])) rest)) ≡ true =
        sym (all_readable-step front rest c) ∙ h in
      rw (append-nil front) (ground arith)
  readable-ArePassed front (c ∷ rest) h (x ∷ before) behind e =
      let same : c ≡ x = cc in
      let later : rest ≡ before ++ (b'/' ∷ behind) = cc in
      let ih =
        readable-ArePassed (front ++ (c ∷ [])) rest
          (asked_here-later c front _ (sym (all_readable-step front rest c) ∙ h)) before behind
          later in
      ap access (
        ap (λ (y : ℕ). front ++ (y ∷ before)) (sym same) ∙ sym (append_assoc front (c ∷ []) before))
      ∙ ih

  ArePassed-readable :
      (front rest : Bytes) → ArePassed front rest → all_readable (parents_from front rest) ≡ true
  ArePassed-readable front [] h = unfold all_readable parents_from in refl
  ArePassed-readable front (c ∷ rest) h =
      let ih = ArePassed-readable (front ++ (c ∷ [])) rest (λ before behind e.
        ap access (append_assoc front (c ∷ []) before)
        ∙ h (c ∷ before) behind (ap (λ (t : Bytes). c ∷ t) e)) in
      all_readable-step front rest c ∙ elim (Bool-cases (c == b'/')) [
        | inl slash ↦
            let e : c ≡ b'/' = (==_iff c b'/').0 slash in
            let here : access front ≡ true =
              ap access (sym (append-nil front)) ∙ h [] rest (ap (λ (y : ℕ). y ∷ rest) e) in
            rw (slash, here, ih) refl
        | inr other ↦ rw (other, ih) refl
      ]

  -- The directories that are asked are those above the file.
  all_readable-parents :
      (filename : Bytes) → (all_readable (parents filename) ≡ true) ↔ IsVisible filename
  unfolding parents
  all_readable-parents [] = (
    λ h dir above. absurd (not_above_nothing dir above.0 above.1.0 above.1.1),
    λ h. unfold all_readable in refl,
  )
    where
      not_above_nothing :
          (dir : Bytes)
          → dir ≢ []
          → (behind : Bytes) → ◌≡◌ {A = Bytes} [] (dir ++ (b'/' ∷ behind))
          → ⊥
      not_above_nothing [] ne behind e = ne refl
      not_above_nothing (x ∷ dir) ne behind e = cc
  all_readable-parents (c ∷ filename) = (
    λ h dir above. split h dir above.0 above.1.0 above.1.1,
    λ h.
        ArePassed-readable (c ∷ []) filename
          (λ before behind e. h (c ∷ before) ((λ e'. cc), (behind, ap (λ (t : Bytes). c ∷ t) e))),
  )
    where
      split :
          all_readable (parents_from (c ∷ []) filename) ≡ true
          → (dir : Bytes) → dir ≢ []
          → (behind : Bytes) → c ∷ filename ≡ dir ++ (b'/' ∷ behind)
          → access dir ≡ true
      split h [] ne behind e = absurd (ne refl)
      split h (x ∷ dir) ne behind e =
          let same : c ≡ x = cc in
          let later : filename ≡ dir ++ (b'/' ∷ behind) = cc in
          ap (λ (y : ℕ). access (y ∷ dir)) (sym same)
          ∙ readable-ArePassed (c ∷ []) filename h dir behind later

  find_path-IsRight :
      (cache : List (Bytes × Bool)) (path : Bytes) (ok : Bool)
      → IsRight cache
      → find_path cache path ≡ some ok
      → access path ≡ ok
  unfolding find_path
  find_path-IsRight [] path ok h e = absurd (ground arith)
  find_path-IsRight ((key, answer) ∷ cache) path ok h e = elim (Bool-cases (bytes_eq key path)) [
    | inl same ↦
        let eq : key ≡ path = (bytes_eq_iff key path).0 same in
        let known : access path ≡ answer = ap access (sym eq) ∙ h.0 in ground arith
    | inr other ↦ find_path-IsRight cache path ok h.1 (ground arith)
  ]

  check_parent-IsRight :
      (path : Bytes) (cache : List (Bytes × Bool))
      → IsRight cache
      → ((check_parent access path cache).0 ≡ access path)
        × IsRight (check_parent access path cache).1
  unfolding check_parent
  check_parent-IsRight path cache h = elim (Option-cases (find_path cache path)) [
    | inl missing ↦ rw missing (refl, (refl, h))
    | inr (ok, found) ↦ rw found (sym (find_path-IsRight cache path ok h found), h)
  ]

  check_parents_next :
      (path : Bytes) (paths : List Bytes) (cache : List (Bytes × Bool))
      → (check_parent access path cache).0 ≡ true
      → check_parents access (path ∷ paths) cache
        ≡ check_parents access paths (check_parent access path cache).1
  unfolding check_parents
  check_parents_next path paths cache h = rw h refl

  check_parents_refused :
      (path : Bytes) (paths : List Bytes) (cache : List (Bytes × Bool))
      → (check_parent access path cache).0 ≡ false
      → check_parents access (path ∷ paths) cache ≡ (false, (check_parent access path cache).1)
  unfolding check_parents
  check_parents_refused path paths cache h = rw h refl

  all_readable_next :
      (path : Bytes) (paths : List Bytes) (b : Bool)
      → access path ≡ b
      → all_readable (path ∷ paths) ≡ (if b then all_readable paths else false)
  unfolding all_readable
  all_readable_next path paths b h = rw h refl

  -- The loop says whether all directories can be read, and keeps the cache right.
  abbrev Says : Bool → Bool × List (Bytes × Bool) → Type 0
  Says b r = (r.0 ≡ b) × IsRight r.1

  check_parents-Says :
      (paths : List Bytes) (cache : List (Bytes × Bool))
      → IsRight cache
      → Says (all_readable paths) (check_parents access paths cache)
  unfolding check_parents all_readable
  check_parents-Says [] cache h = (refl, h)
  check_parents-Says (path ∷ paths) cache h =
      let (same, right) = check_parent-IsRight path cache h in
      elim (Bool-cases (access path)) [
        | inl readable ↦
            subst (λ (r : Bool × List (Bytes × Bool)). Says (all_readable (path ∷ paths)) r)
              (sym (check_parents_next path paths cache (same ∙ readable)))
              (subst
                (λ (b : Bool).
                  Says b (check_parents access paths (check_parent access path cache).1))
                (sym (all_readable_next path paths true readable))
                (check_parents-Says paths (check_parent access path cache).1 right))
        | inr hidden ↦
            subst (λ (r : Bool × List (Bytes × Bool)). Says (all_readable (path ∷ paths)) r)
              (sym (check_parents_refused path paths cache (same ∙ hidden)))
              (sym (all_readable_next path paths false hidden), right)
      ]

  check_access-Says :
      (check_visibility : Bool) (filename : Bytes) (cache : List (Bytes × Bool))
      → IsRight cache
      → Says
          (if check_visibility then all_readable (parents filename) else true)
          (check_access access check_visibility filename cache)
  unfolding check_access
  check_access-Says false filename cache h = (refl, h)
  check_access-Says true filename cache h = check_parents-Says (parents filename) cache h

  -- As long as access gives the same answers, calls that share a cache of its answers say of each file
  -- in turn that it is visible exactly when all directories above it can be read, or always where
  -- visibility is not checked. The empty path before a first slash is not asked.
  pub check_all-Answers :
      (check_visibility : Bool) (filenames : List Bytes) (cache : List (Bytes × Bool))
      → IsRight cache
      → Answers check_visibility filenames (check_all access check_visibility filenames cache)
  unfolding check_all
  check_all-Answers true [] cache h = tt
  check_all-Answers false [] cache h = tt
  check_all-Answers true (filename ∷ filenames) cache h =
      let (same, right) = check_access-Says true filename cache h in
      (
        subst (λ (b : Bool). (b ≡ true) ↔ IsVisible filename) (sym same)
            (all_readable-parents filename),
        check_all-Answers true filenames (check_access access true filename cache).1 right,
      )
  check_all-Answers false (filename ∷ filenames) cache h =
      let (same, right) = check_access-Says false filename cache h in
      (same, check_all-Answers false filenames (check_access access false filename cache).1 right)
