-- ===== src/DirPath/Subtree.antt =====
-- Why the database sorts by `dir_path_cmp`: what lies below a directory is one run of the list.
use flocate.Prelude.{
  ℕ, ◌≡◌, ◌≢◌, inl, inr, refl, sym, ◌∙◌, true, false, [], ◌∷◌, ◌++◌, Bytes, arith, ◌==◌, Bool-cases,
}
use flocate.DirPath.{dir_path_lt}
use flocate.DirPath.Order.{rank_lt, dir_path_lt-rank_lt}

-- The path of `name` below the directory `dir`.
abbrev pub below : Bytes → Bytes → Bytes
below dir name = dir ++ (b'/' ∷ name)

rank_between :
    (dir x y p : Bytes)
    → rank_lt p (below dir x) ≡ false
    → rank_lt (below dir y) p ≡ false
    → (name : Bytes) × (p ≡ below dir name)
unfolding rank_lt
rank_between [] x y [] h k = cc
rank_between [] x y (c ∷ p) h k = (p, ground arith)
rank_between (d ∷ dir) x y [] h k = cc
rank_between (d ∷ dir) x y (c ∷ p) h k = elim (Bool-cases (c == d)) [
  | inl same ↦
      let (name, e) = rank_between dir x y p (ground arith) (ground arith) in (name, ground arith)
  | inr differ ↦ absurd (ground arith)
]

-- A path that stands between two paths below a directory lies below that directory too.
pub below-contiguous :
    (dir x y p : Bytes)
    → dir_path_lt p (below dir x) ≡ false
    → dir_path_lt (below dir y) p ≡ false
    → (name : Bytes) × (p ≡ below dir name)
below-contiguous dir x y p h k =
    rank_between dir x y p (sym (dir_path_lt-rank_lt p (below dir x)) ∙ h)
      (sym (dir_path_lt-rank_lt (below dir y) p) ∙ k)

rank_below :
    (dir x y : Bytes) (c : ℕ)
    → c ≢ b'/'
    → (rank_lt dir (below dir x) ≡ true) × (rank_lt (below dir x) (dir ++ (c ∷ y)) ≡ true)
unfolding rank_lt
rank_below [] x y c h = (refl, ground arith)
rank_below (d ∷ dir) x y c h = ground (arith, rank_below dir x y c h)

-- A directory comes before what lies below it, and that before each path which goes on from the
-- directory's name with another byte than '/'.
dir-below-sibling :
    (dir x y : Bytes) (c : ℕ)
    → c ≢ b'/'
    → (dir_path_lt dir (below dir x) ≡ true) × (dir_path_lt (below dir x) (dir ++ (c ∷ y)) ≡ true)
dir-below-sibling dir x y c h =
    let (before, after) = rank_below dir x y c h in
    (dir_path_lt-rank_lt dir _ ∙ before, dir_path_lt-rank_lt _ _ ∙ after)
