-- ===== src/BindMount/Covered.antt =====
-- rebuild_bind_mount_paths: what is left out as a bind mount is still reached by another mount.
use flocate.Prelude.{
  ℕ, zero, suc, ◌<◌, ◌≡◌, ◌⊎◌, inl, inr, refl, sym, ap, ◌∙◌, subst, true, false, List, Bytes, [],
  ◌∷◌, length, ==-refl, bytes_eq, bytes_eq_iff, Bool-cases, arith,
}
use flocate.BindMount.{Mount, starts_with, is_copy, is_duplicate}

starts_with_refl : (s : Bytes) → starts_with s s ≡ true
unfolding starts_with
starts_with_refl [] = refl
starts_with_refl (c ∷ s) = rw (==-refl c) (starts_with_refl s)

starts_with_trans :
    (s t u : Bytes) → starts_with s t ≡ true → starts_with t u ≡ true → starts_with s u ≡ true
unfolding starts_with
starts_with_trans s t [] h k = refl
starts_with_trans s [] (c ∷ u) h k = absurd (ground arith)
starts_with_trans [] (b ∷ t) (c ∷ u) h k = absurd (ground arith)
starts_with_trans (a ∷ s) (b ∷ t) (c ∷ u) h k = ground (arith, starts_with_trans s t u)

-- The mount is one of the list.
pub data Among (me : Mount) : List Mount → Type 0 where
  here : {mounts : List Mount} → Among me (me ∷ mounts)
  there : {other : Mount} {mounts : List Mount} → Among me mounts → Among me (other ∷ mounts)

-- Another mount of the device whose root is the front of this one's, and which comes before it: by a
-- shorter root, or the same root and a lower id.
pub record Covers (me other : Mount) : Type 0 where
  pub major : other.dev_major ≡ me.dev_major
  pub minor : other.dev_minor ≡ me.dev_minor
  pub front : starts_with me.root other.root ≡ true
  pub before : (length other.root < length me.root) ⊎ ((other.root ≡ me.root) × (other.id < me.id))

copy-Covers : (me other : Mount) → is_copy me other ≡ true → Covers me other
unfolding is_copy
copy-Covers me other h = record {
  major = ground arith;
  minor = ground arith;
  front = ground (arith, same_front);
  before = ground (arith, bytes_eq_iff me.root other.root);
}
  where
    same_front : bytes_eq me.root other.root ≡ true → starts_with me.root other.root ≡ true
    same_front e =
        subst (λ t. starts_with me.root t ≡ true) ((bytes_eq_iff me.root other.root).0 e)
          (starts_with_refl me.root)

is_duplicate_other :
    (me other : Mount) (mounts : List Mount)
    → is_copy me other ≡ false
    → is_duplicate me (other ∷ mounts) ≡ is_duplicate me mounts
unfolding is_duplicate
is_duplicate_other me other mounts h = rw h refl

duplicate-Covers :
    (me : Mount) (mounts : List Mount)
    → is_duplicate me mounts ≡ true
    → (other : Mount) × Among other mounts × Covers me other
unfolding is_duplicate
duplicate-Covers me [] h = absurd (ground arith)
duplicate-Covers me (other ∷ mounts) h = elim (Bool-cases (is_copy me other)) [
  | inl copy ↦ (other, here, copy-Covers me other copy)
  | inr distinct ↦
      let (later, among, covers) = duplicate-Covers me mounts (rest distinct) in
      (later, there among, covers)
]
  where
    rest : is_copy me other ≡ false → is_duplicate me mounts ≡ true
    rest distinct = sym (is_duplicate_other me other mounts distinct) ∙ h

-- A mount of the list that is not left out itself, and whose root is the front of this one's.
pub record IsReached (all : List Mount) (me : Mount) : Type 0 where
  pub other : Mount
  pub among : Among other all
  pub major : other.dev_major ≡ me.dev_major
  pub minor : other.dev_minor ≡ me.dev_minor
  pub front : starts_with me.root other.root ≡ true
  pub visited : is_duplicate other all ≡ false

through :
    (all : List Mount) (me other : Mount) → Covers me other → IsReached all other → IsReached all me
through all me other c r = record {
  other = r.other;
  among = r.among;
  major = r.major ∙ c.major;
  minor = r.minor ∙ c.minor;
  front = starts_with_trans me.root other.root r.other.root c.front r.front;
  visited = r.visited;
}

-- Given that the mounts that come before are reached.
IsReached-step :
    (all : List Mount) (me : Mount)
    → Among me all
    → ((other : Mount) → Among other all → length other.root < length me.root → IsReached all other)
    → ((other : Mount)
        → Among other all
        → other.root ≡ me.root
        → other.id < me.id
        → IsReached all other)
    → IsReached all me
IsReached-step all me among shorter lower = elim (Bool-cases (is_duplicate me all)) [
  | inr visited ↦ record {
    other = me;
    among = among;
    major = refl;
    minor = refl;
    front = starts_with_refl me.root;
    visited = visited;
  }
  | inl left_out ↦
      let (other, among', c) = duplicate-Covers me all left_out in
      through all me other c (elim c.before [
        | inl less ↦ shorter other among' less
        | inr (same, less) ↦ lower other among' same less
      ])
]

IsReached-below :
    (all : List Mount) (n m : ℕ) (me : Mount)
    → length me.root < n
    → me.id < m
    → Among me all
    → IsReached all me
IsReached-below all zero m me short low among = absurd (omega arith)
IsReached-below all (suc n) zero me short low among = absurd (omega arith)
IsReached-below all (suc n) (suc m) me short low among =
    IsReached-step all me among
      (λ other among' less.
        IsReached-below all n (suc other.id) other (omega arith) (omega arith) among')
      (λ other among' same less.
        IsReached-below all (suc n) m other (omega (arith, ap length same)) (omega arith) among')

-- Whatever mounts there are: each of them, also one that is left out as a bind mount, has its root
-- begin with the root of a mount of the same device that is not left out.
pub rebuild-IsReached : (all : List Mount) (me : Mount) → Among me all → IsReached all me
rebuild-IsReached all me among =
    IsReached-below all (suc (length me.root)) (suc me.id) me (omega arith) (omega arith) among
