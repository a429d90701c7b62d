-- ===== src/DirPath/Examples.antt =====
-- Concrete paths.
use flocate.Prelude.{◌≡◌, true, false, refl, List, [], ◌∷◌, Bytes, codes, bytes_eq}
use flocate.Prelude.Int.{pos, negsuc}
use flocate.DirPath.{dir_path_cmp}
use flocate.DirPath.Subtree.{below, below-contiguous}
use flocate.DirPath.Lookup.{member, IsSorted, IsIncreasing, ask_all, ask_all-member}

directory_first : dir_path_cmp (codes "a/z") (codes "a.b") ≡ negsuc 0
unfolding dir_path_cmp
directory_first = refl

prefix_first : dir_path_cmp (codes "a.b") (codes "a") ≡ pos 1
unfolding dir_path_cmp
prefix_first = refl

by_bytes : dir_path_cmp (codes "/b") (codes "/f") ≡ negsuc 3
unfolding dir_path_cmp
by_bytes = refl

abbrev pruned : List Bytes
pruned = codes "/media" ∷ codes "/tmp" ∷ codes "/var/tmp" ∷ []

abbrev scanned : List Bytes
scanned = codes "/home" ∷ codes "/media" ∷ codes "/var" ∷ codes "/var/tmp" ∷ []

pruned-IsSorted : IsSorted pruned
unfolding dir_path_cmp
pruned-IsSorted = ((refl, (refl, tt)), ((refl, tt), (tt, tt)))

scanned-IsIncreasing : IsIncreasing scanned
unfolding dir_path_cmp
scanned-IsIncreasing = ((refl, (refl, (refl, tt))), ((refl, (refl, tt)), ((refl, tt), (tt, tt))))

ask_all-member_example : ask_all pruned 0 scanned ≡ false ∷ true ∷ false ∷ true ∷ []
unfolding member bytes_eq
ask_all-member_example = ask_all-member pruned scanned pruned-IsSorted scanned-IsIncreasing

below-contiguous_example : (name : Bytes) × (codes "/a/m" ≡ below (codes "/a") name)
unfolding dir_path_cmp
below-contiguous_example =
    below-contiguous (codes "/a") (codes "b") (codes "z") (codes "/a/m") refl refl
