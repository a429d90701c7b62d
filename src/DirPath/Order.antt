-- ===== src/DirPath/Order.antt =====
-- `dir_path_cmp` is a total order: '/' comes before every other byte, and a prefix before what
-- extends it.
use flocate.Prelude.{
  ℕ, ◌+◌, ◌≡◌, ◌↔◌, ◌≢◌, inl, inr, refl, sym, ◌∙◌, Bool, true, false, [], ◌∷◌, Bytes, arith, ◌==◌,
  ltb, if◌then◌else◌, Bool-cases,
}
use flocate.Prelude.Int.{ℤ, pos, ltb_ℤ}
use flocate.DirPath.{dir_path_cmp, dir_path_lt}

-- The place of a byte in the order.
abbrev pub rank : ℕ → ℕ
rank c = if c == b'/' then 0 else c + 1

-- The specification: strings ordered by their first difference in rank.
unfoldable pub rank_lt : Bytes → Bytes → Bool
rank_lt a [] = false
rank_lt [] (y ∷ b) = true
rank_lt (x ∷ a) (y ∷ b) = if x == y then rank_lt a b else ltb (rank x) (rank y)

pub dir_path_lt-rank_lt : (a b : Bytes) → dir_path_lt a b ≡ rank_lt a b
unfolding dir_path_cmp rank_lt
dir_path_lt-rank_lt [] [] = refl
dir_path_lt-rank_lt [] (y ∷ b) = refl
dir_path_lt-rank_lt (x ∷ a) [] = refl
dir_path_lt-rank_lt (x ∷ a) (y ∷ b) = elim (Bool-cases (x == y)) [
  | inl same ↦ rw same (dir_path_lt-rank_lt a b)
  | inr differ ↦ rw differ (ground arith)
]

pub dir_path_cmp-zero_iff : (a b : Bytes) → (dir_path_cmp a b ≡ pos 0) ↔ (a ≡ b)
unfolding dir_path_cmp
dir_path_cmp-zero_iff [] [] = ground arith
dir_path_cmp-zero_iff [] (y ∷ b) = ground arith
dir_path_cmp-zero_iff (x ∷ a) [] = ground arith
dir_path_cmp-zero_iff (x ∷ a) (y ∷ b) = elim (Bool-cases (x == y)) [
  | inl same ↦ rw same (ground (arith, dir_path_cmp-zero_iff a b))
  | inr differ ↦ rw differ (ground arith)
]

rank_lt_trans : (a b c : Bytes) → rank_lt a b ≡ true → rank_lt b c ≡ true → rank_lt a c ≡ true
unfolding rank_lt
rank_lt_trans a b [] h k = cc
rank_lt_trans a [] (z ∷ c) h k = cc
rank_lt_trans [] (y ∷ b) (z ∷ c) h k = refl
rank_lt_trans (x ∷ a) (y ∷ b) (z ∷ c) h k = ground (arith, rank_lt_trans a b c)

rank_lt_irrefl : (a : Bytes) → rank_lt a a ≡ false
unfolding rank_lt
rank_lt_irrefl [] = refl
rank_lt_irrefl (x ∷ a) = ground (arith, rank_lt_irrefl a)

rank_lt_total : (a b : Bytes) → rank_lt a b ≡ false → rank_lt b a ≡ false → a ≡ b
unfolding rank_lt
rank_lt_total [] [] h k = refl
rank_lt_total [] (y ∷ b) h k = cc
rank_lt_total (x ∷ a) [] h k = cc
rank_lt_total (x ∷ a) (y ∷ b) h k = ground (arith, rank_lt_total a b)

rank_lt_asymm : (a b : Bytes) → rank_lt a b ≡ true → rank_lt b a ≡ false
rank_lt_asymm a b h = elim (Bool-cases (rank_lt b a)) [
  | inl back ↦ cc (rank_lt_trans a b a h back, rank_lt_irrefl a)
  | inr no_back ↦ no_back
]

pub dir_path_lt_trans :
    (a b c : Bytes) → dir_path_lt a b ≡ true → dir_path_lt b c ≡ true → dir_path_lt a c ≡ true
dir_path_lt_trans a b c h k =
    dir_path_lt-rank_lt a c
    ∙ rank_lt_trans a b c (sym (dir_path_lt-rank_lt a b) ∙ h) (sym (dir_path_lt-rank_lt b c) ∙ k)

pub dir_path_lt_irrefl : (a : Bytes) → dir_path_lt a a ≡ false
dir_path_lt_irrefl a = dir_path_lt-rank_lt a a ∙ rank_lt_irrefl a

-- Swapping the arguments swaps the sign.
dir_path_cmp_swap : (a b : Bytes) → ltb_ℤ (pos 0) (dir_path_cmp a b) ≡ dir_path_lt b a
unfolding dir_path_cmp
dir_path_cmp_swap [] [] = refl
dir_path_cmp_swap [] (y ∷ b) = refl
dir_path_cmp_swap (x ∷ a) [] = refl
dir_path_cmp_swap (x ∷ a) (y ∷ b) = elim (Bool-cases (x == y)) [
  | inl same ↦ ground (arith, dir_path_cmp_swap a b)
  | inr differ ↦ ground arith
]

pub dir_path_lt_total :
    (a b : Bytes) → dir_path_lt a b ≡ false → dir_path_cmp a b ≢ pos 0 → dir_path_lt b a ≡ true
dir_path_lt_total a b h k = ground (arith, dir_path_cmp_swap a b)

-- A three-way comparison that is a total order on byte strings.
pub record IsOrder (cmp : Bytes → Bytes → ℤ) : Type 0 where
  pub zero_iff : (a b : Bytes) → (cmp a b ≡ pos 0) ↔ (a ≡ b)
  pub swap : (a b : Bytes) → ltb_ℤ (pos 0) (cmp a b) ≡ ltb_ℤ (cmp b a) (pos 0)
  pub trans :
      (a b c : Bytes)
      → ltb_ℤ (cmp a b) (pos 0) ≡ true
      → ltb_ℤ (cmp b c) (pos 0) ≡ true
      → ltb_ℤ (cmp a c) (pos 0) ≡ true

-- `dir_path_cmp` returns zero exactly for equal paths, changes its sign when its arguments are
-- swapped, and is transitive.
pub dir_path_cmp-IsOrder : IsOrder dir_path_cmp
dir_path_cmp-IsOrder = record {
  zero_iff = dir_path_cmp-zero_iff;
  swap = dir_path_cmp_swap;
  trans = dir_path_lt_trans;
}
