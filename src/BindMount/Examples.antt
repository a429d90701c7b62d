-- ===== src/BindMount/Examples.antt =====
-- Small sets of mounts.
use flocate.Prelude.{
  subst, ℕ, zero, suc, ◌<◌, ◌≡◌, refl, sym, ap, Bool, true, false, List, Bytes, [], ◌∷◌, Option,
  none, some, codes, bytes_eq, arith, ◌==◌,
}
use flocate.BindMount.{
  Mount, keep, find_whether_under_pruned, take_out, cached, bind_mounts, is_duplicate, is_copy,
  starts_with,
}
use flocate.Prelude.{◌||◌, ◌++◌}
use flocate.BindMount.Fields.{is_end, read_field, parse_mount_string, skip_blanks}
use flocate.BindMount.Fields.RoundTrip.{escape, read_field-escape}
use flocate.BindMount.Pruned.{IsRanked}
use flocate.BindMount.Kept.{Ends, take_out-Ends}
use flocate.BindMount.Covered.{IsReached, here, there, rebuild-IsReached}

abbrev mount : ℕ → ℕ → Bytes → Bytes → Bool → Mount
mount id parent_id root mount_point pruned = record {
  id = id;
  parent_id = parent_id;
  dev_major = 8;
  dev_minor = 1;
  root = root;
  mount_point = mount_point;
  pruned_due_to_fs_type = pruned;
  pruned_due_to_path = false;
}

-- /run is pruned, and so is /run/user below it.
abbrev three : List Mount
three =
    mount 1 0 (codes "/") (codes "/") false
    ∷ mount 2 1 (codes "/") (codes "/run") true
    ∷ mount 3 2 (codes "/") (codes "/run/user") false
    ∷ []

abbrev table : ℕ → Option Mount
table (suc zero) = some (mount 1 0 (codes "/") (codes "/") false)
table (suc (suc zero)) = some (mount 2 1 (codes "/") (codes "/run") true)
table (suc (suc (suc zero))) = some (mount 3 2 (codes "/") (codes "/run/user") false)
table _ = none

abbrev depth : ℕ → ℕ
depth zero = 0
depth (suc zero) = 1
depth (suc (suc zero)) = 2
depth _ = 3

abbrev parent_of : Option Mount → ℕ
parent_of none = 0
parent_of (some me) = me.parent_id

table-IsRanked : IsRanked table depth
table-IsRanked zero me e nonzero = absurd (ground arith)
table-IsRanked (suc zero) me e nonzero = absurd (nonzero (sym (ap parent_of e)))
table-IsRanked (suc (suc zero)) me e nonzero =
    subst (λ (p : ℕ). depth p < 2) (ap parent_of e) (omega arith)
table-IsRanked (suc (suc (suc zero))) me e nonzero =
    subst (λ (p : ℕ). depth p < 3) (ap parent_of e) (omega arith)
table-IsRanked (suc (suc (suc (suc id)))) me e nonzero = absurd (ground arith)

depth-lt : (id : ℕ) → depth id < 4
depth-lt zero = omega arith
depth-lt (suc zero) = omega arith
depth-lt (suc (suc zero)) = omega arith
depth-lt (suc (suc (suc id))) = omega arith

take_out-Ends_example : Ends table three (take_out 4 table three [])
take_out-Ends_example = take_out-Ends 4 table depth three [] table-IsRanked depth-lt tt

only_root : take_out 4 table three [] ≡ some (mount 1 0 (codes "/") (codes "/") false ∷ [])
unfolding take_out find_whether_under_pruned cached
only_root = refl

-- A mount whose parent is itself, as that of the root of a mount namespace may be: no fuel is enough.
abbrev own_parent : ℕ → Option Mount
own_parent id = some (mount 1 1 (codes "/") (codes "/") false)

own_parent_lem : (fuel : ℕ) → find_whether_under_pruned fuel own_parent 1 [] ≡ none
unfolding find_whether_under_pruned cached
own_parent_lem zero = refl
own_parent_lem (suc fuel) = ap (keep 1) (own_parent_lem fuel)

-- Two subvolumes of one device: the root "/@home" begins with the root "/@", but is not below it.
abbrev subvolumes : List Mount
subvolumes =
    mount 1 0 (codes "/@") (codes "/") false ∷ mount 2 1 (codes "/@home") (codes "/home") false ∷ []

home_left_out : bind_mounts subvolumes subvolumes ≡ codes "/home" ∷ []
unfolding bind_mounts is_duplicate is_copy starts_with bytes_eq
home_left_out = refl

rebuild-IsReached_example : IsReached subvolumes (mount 2 1 (codes "/@home") (codes "/home") false)
rebuild-IsReached_example =
    rebuild-IsReached subvolumes (mount 2 1 (codes "/@home") (codes "/home") false) (there here)

abbrev must_escape : ℕ → Bool
must_escape c = is_end c || (c == 92)

must_escape_lem : (c : ℕ) → must_escape c ≡ false → (is_end c ≡ false) × ((c == 92) ≡ false)
must_escape_lem c h = (ground arith, ground arith)

-- The mount point "/a b" in a line with more fields behind it.
read_field-escape_example :
    read_field (escape must_escape (codes "/a b") ++ codes " rw") ≡ (codes "/a b", codes " rw")
read_field-escape_example =
    read_field-escape must_escape (codes "/a b") (codes " rw") must_escape_lem (search arith) refl

parsed : parse_mount_string (codes "  /a\\040b rw") ≡ some (codes "/a b", codes " rw")
unfolding parse_mount_string skip_blanks read_field
parsed = refl
