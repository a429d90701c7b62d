-- ===== src/BindMount/Kept.antt =====
-- read_mount_entries: the mounts that are left after those under a pruned one are taken out.
use flocate.Prelude.{ℕ, ◌<◌, Bool, true, false, List, [], ◌∷◌, Option, none, some}
use flocate.BindMount.{Mount, find_whether_under_pruned, take_out, use_answer, push_front}
use flocate.BindMount.Pruned.{
  IsUnderPruned, IsRight, IsRanked, Answers, find_whether_under_pruned-Answers,
}

-- The second list is the first without the mounts that are, or hang on, a pruned one.
pub data Leaves (mounts : ℕ → Option Mount) : List Mount → List Mount → Type 0 where
  nil : Leaves mounts [] []
  gone :
      {me : Mount} {entries kept : List Mount}
      → IsUnderPruned mounts me.id
      → Leaves mounts entries kept
      → Leaves mounts (me ∷ entries) kept
  stays :
      {me : Mount} {entries kept : List Mount}
      → (IsUnderPruned mounts me.id → ⊥)
      → Leaves mounts entries kept
      → Leaves mounts (me ∷ entries) (me ∷ kept)

-- The loop ends with such a list.
abbrev pub Ends : (ℕ → Option Mount) → List Mount → Option (List Mount) → Type 0
Ends mounts entries none = ⊥
Ends mounts entries (some kept) = Leaves mounts entries kept

push-Ends :
    (mounts : ℕ → Option Mount) (me : Mount) (entries : List Mount) (r : Option (List Mount))
    → (IsUnderPruned mounts me.id → ⊥)
    → Ends mounts entries r
    → Ends mounts (me ∷ entries) (push_front me r)
push-Ends mounts me entries none not_pruned h = h
push-Ends mounts me entries (some kept) not_pruned h = stays not_pruned h

gone-Ends :
    (mounts : ℕ → Option Mount) (me : Mount) (entries : List Mount) (r : Option (List Mount))
    → IsUnderPruned mounts me.id
    → Ends mounts entries r
    → Ends mounts (me ∷ entries) r
gone-Ends mounts me entries none pruned h = h
gone-Ends mounts me entries (some kept) pruned h = gone pruned h

use_answer-Ends :
    (mounts : ℕ → Option Mount) (me : Mount) (entries : List Mount)
    (answer : Option (Bool × List (ℕ × Bool))) (rest : List (ℕ × Bool) → Option (List Mount))
    → Answers mounts me.id answer
    → ((cache : List (ℕ × Bool)) → IsRight mounts cache → Ends mounts entries (rest cache))
    → Ends mounts (me ∷ entries) (use_answer answer rest me)
use_answer-Ends mounts me entries none rest h next = h
use_answer-Ends mounts me entries (some (true, cache)) rest h next =
    gone-Ends mounts me entries (rest cache) h.0 (next cache h.1)
use_answer-Ends mounts me entries (some (false, cache)) rest h next =
    push-Ends mounts me entries (rest cache) h.0 (next cache h.1)

-- If every parent has a lower rank than the mounts that hang on it, and the fuel is above all ranks,
-- then the loops over the mounts end, from a cache of right answers that all the calls share, and
-- leave exactly the mounts that are not pruned and hang on none that is.
pub take_out-Ends :
    (fuel : ℕ) (mounts : ℕ → Option Mount) (rank : ℕ → ℕ) (entries : List Mount)
    (cache : List (ℕ × Bool))
    → IsRanked mounts rank
    → ((id : ℕ) → rank id < fuel)
    → IsRight mounts cache
    → Ends mounts entries (take_out fuel mounts entries cache)
unfolding take_out
take_out-Ends fuel mounts rank [] cache ranked enough right = nil
take_out-Ends fuel mounts rank (me ∷ entries) cache ranked enough right =
    use_answer-Ends mounts me entries (find_whether_under_pruned fuel mounts me.id cache) _
      (find_whether_under_pruned-Answers fuel mounts rank me.id cache ranked (enough me.id) right)
      (λ cache' right'. take_out-Ends fuel mounts rank entries cache' ranked enough right')
