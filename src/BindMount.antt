-- ===== src/BindMount.antt =====
-- src/bind-mount.cpp: the mounts that are pruned with those they hang on, and the paths of bind
-- mounts.
pub mod Pruned
pub mod Kept
pub mod Covered
pub mod Fields
mod Examples
use flocate.Prelude.{
  ℕ, zero, suc, ◌+◌, ◌-◌, ◌*◌, Bool, true, false, not, ◌&&◌, ◌||◌, List, Bytes, [], ◌∷◌, ◌++◌,
  Option, none, some, length, get_or, drop, take, ltb, leb, ◌==◌, bytes_eq, if◌then◌else◌,
}
use flocate.DirPath.{string_list_contains_dir_path}

-- `struct mount`, without the names of file system and source once they have been looked at.
pub record Mount : Type 0 where
  pub id : ℕ
  pub parent_id : ℕ
  pub dev_major : ℕ
  pub dev_minor : ℕ
  pub root : Bytes
  pub mount_point : Bytes
  pub pruned_due_to_fs_type : Bool
  pub pruned_due_to_path : Bool

-- `id_to_mount`: of entries with one id, the last one.
unfoldable pub id_to_mount : List Mount → ℕ → Option Mount
id_to_mount [] id = none
id_to_mount (me ∷ mounts) id = elim (id_to_mount mounts id) [
  | some later ↦ some later
  | none ↦ if me.id == id then some me else none
]

-- `id_to_pruned_cache`
unfoldable pub cached : List (ℕ × Bool) → ℕ → Option Bool
cached [] id = none
cached ((key, pruned) ∷ cache) id = if key == id then some pruned else cached cache id

-- The result of a mount, given what became of the parent: `emplace` and the return.
abbrev pub keep : ℕ → Option (Bool × List (ℕ × Bool)) → Option (Bool × List (ℕ × Bool))
keep id none = none
keep id (some (result, cache)) = some (result, (id, result) ∷ cache)

-- A mount that is not in the cache, given the recursive call.
abbrev pub visit :
    ℕ
    → List (ℕ × Bool)
    → (ℕ → Option (Bool × List (ℕ × Bool)))
    → Option Mount
    → Option (Bool × List (ℕ × Bool))
visit id cache recurse none = some (false, cache)
visit id cache recurse (some me) =
    if me.pruned_due_to_fs_type || me.pruned_due_to_path
    then keep id (some (true, cache))
    else if me.parent_id == 0
    then keep id (some (false, cache))
    else keep id (recurse me.parent_id)

abbrev pub or_visit :
    List (ℕ × Bool)
    → Option Bool
    → Option (Bool × List (ℕ × Bool))
    → Option (Bool × List (ℕ × Bool))
or_visit cache (some pruned) visited = some (pruned, cache)
or_visit cache none visited = visited

-- `find_whether_under_pruned`: the answer and the cache; `none` is a recursion that goes on.
unfoldable pub find_whether_under_pruned :
    ℕ → (ℕ → Option Mount) → ℕ → List (ℕ × Bool) → Option (Bool × List (ℕ × Bool))
unfolding cached
find_whether_under_pruned zero mounts id cache = none
find_whether_under_pruned (suc fuel) mounts id cache =
    or_visit cache (cached cache id)
      (visit id cache (λ parent. find_whether_under_pruned fuel mounts parent cache) (mounts id))

abbrev pub push_front : Mount → Option (List Mount) → Option (List Mount)
push_front me none = none
push_front me (some mounts) = some (me ∷ mounts)

-- `to_remove` of a mount and what becomes of the mounts behind it.
abbrev pub use_answer :
    Option (Bool × List (ℕ × Bool))
    → (List (ℕ × Bool) → Option (List Mount))
    → Mount
    → Option (List Mount)
use_answer none rest me = none
use_answer (some (to_remove, cache)) rest me =
    if to_remove then rest cache else push_front me (rest cache)

-- The loop that sets `to_remove`, with the cache that its calls share, and the loop that takes the
-- entries out.
unfoldable pub take_out :
    ℕ → (ℕ → Option Mount) → List Mount → List (ℕ × Bool) → Option (List Mount)
unfolding find_whether_under_pruned
take_out fuel mounts [] cache = some []
take_out fuel mounts (me ∷ entries) cache =
    use_answer (find_whether_under_pruned fuel mounts me.id cache)
      (λ cache'. take_out fuel mounts entries cache') me

-- `me.root.find(other.root) == 0`
unfoldable pub starts_with : Bytes → Bytes → Bool
starts_with s [] = true
starts_with [] (c ∷ front) = false
starts_with (b ∷ s) (c ∷ front) = if b == c then starts_with s front else false

-- The tests on another mount: of the same device, with a shorter root that is the front of this one,
-- or with the same root and a lower id.
unfoldable pub is_copy : Mount → Mount → Bool
unfolding starts_with bytes_eq
is_copy me other =
    (other.dev_major == me.dev_major && (other.dev_minor == me.dev_minor))
    && (not (other.id == me.id)
        && ((ltb (length other.root) (length me.root) && starts_with me.root other.root)
            || (bytes_eq me.root other.root && ltb other.id me.id)))

-- The loop over the mounts of one device: whether the mount point is added.
unfoldable pub is_duplicate : Mount → List Mount → Bool
unfolding is_copy
is_duplicate me [] = false
is_duplicate me (other ∷ mounts) =
    let rest = is_duplicate me mounts in if is_copy me other then true else rest

-- The outer loop of `rebuild_bind_mount_paths`, before the sort.
unfoldable pub bind_mounts : List Mount → List Mount → List Bytes
unfolding is_duplicate
bind_mounts all [] = []
bind_mounts all (me ∷ mounts) =
    let rest = bind_mounts all mounts in if is_duplicate me all then me.mount_point ∷ rest else rest
