-- ===== src/AccessCache/Examples.antt =====
-- Two files below a directory that cannot be read.
use flocate.Prelude.{
  ◌≡◌, refl, Bool, true, false, not, List, Bytes, [], ◌∷◌, codes, bytes_eq, length, ◌==◌,
}
use flocate.AccessCache.{
  parents, parents_from, check_all, check_access, check_parents, check_parent, find_path,
}
use flocate.AccessCache.Right.{check_all-Answers, Answers}

-- Only "/a/b" cannot be read, the one directory of four bytes.
abbrev access : Bytes → Bool
access path = not (length path == 4)

two_parents : parents (codes "/a/b/c") ≡ codes "/a" ∷ codes "/a/b" ∷ []
unfolding parents parents_from
two_parents = refl

abbrev files : List Bytes
files = codes "/a/c" ∷ codes "/a/b/c" ∷ codes "/a/b/d" ∷ []

check_all-Answers_example : Answers access true files (check_all access true files [])
check_all-Answers_example = check_all-Answers access true files [] tt

only_the_first : check_all access true files [] ≡ true ∷ false ∷ false ∷ []
unfolding check_all check_access check_parents check_parent find_path parents parents_from bytes_eq
only_the_first = refl
