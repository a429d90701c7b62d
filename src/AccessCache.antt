-- ===== src/AccessCache.antt =====
-- AccessRXCache::check_access of src/access_rx_cache.cpp without asynchronous calls: whether all
-- directories above a file can be read, with a cache of the answers.
pub mod Right
mod Examples
use flocate.Prelude.{
  ℕ, Bool, true, false, List, Bytes, [], ◌∷◌, ◌++◌, Option, none, some, ◌==◌, bytes_eq,
  if◌then◌else◌,
}

-- `cache`
unfoldable pub find_path : List (Bytes × Bool) → Bytes → Option Bool
unfolding bytes_eq
find_path [] path = none
find_path ((key, ok) ∷ cache) path = if bytes_eq key path then some ok else find_path cache path

-- The `parent_path` of each round: what comes before a slash. `front` is what has been passed.
unfoldable pub parents_from : Bytes → Bytes → List Bytes
parents_from front [] = []
parents_from front (c ∷ rest) =
    let later = parents_from (front ++ (c ∷ [])) rest in if c == 47 then front ∷ later else later

-- The slashes from the second byte of the file name on.
unfoldable pub parents : Bytes → List Bytes
unfolding parents_from
parents [] = []
parents (c ∷ filename) = parents_from (c ∷ []) filename

-- What the cache or, behind it, the call of access says of a directory, and the cache then.
abbrev pub answer_for :
    Bool → Bytes → List (Bytes × Bool) → Option Bool → Bool × List (Bytes × Bool)
answer_for accessible path cache (some ok) = (ok, cache)
answer_for accessible path cache none = (accessible, (path, accessible) ∷ cache)

module _ (access : Bytes → Bool) where
  unfoldable pub check_parent : Bytes → List (Bytes × Bool) → Bool × List (Bytes × Bool)
  unfolding find_path
  check_parent path cache = answer_for (access path) path cache (find_path cache path)

  -- The loop: the argument of `cb`, and the cache.
  unfoldable pub check_parents : List Bytes → List (Bytes × Bool) → Bool × List (Bytes × Bool)
  unfolding check_parent
  check_parents [] cache = (true, cache)
  check_parents (path ∷ paths) cache =
      let (ok, cache') = check_parent path cache in
      let rest = check_parents paths cache' in if ok then rest else (false, cache')

  unfoldable pub check_access : Bool → Bytes → List (Bytes × Bool) → Bool × List (Bytes × Bool)
  unfolding parents check_parents
  check_access check_visibility filename cache =
      if check_visibility then check_parents (parents filename) cache else (true, cache)

  -- A sequence of calls, with the cache that they share.
  unfoldable pub check_all : Bool → List Bytes → List (Bytes × Bool) → List Bool
  unfolding check_access
  check_all check_visibility [] cache = []
  check_all check_visibility (filename ∷ filenames) cache =
      let (ok, cache') = check_access check_visibility filename cache in
      ok ∷ check_all check_visibility filenames cache'
