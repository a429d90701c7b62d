-- ===== src/Serializer/Merges.antt =====
-- The delayed elements and those still to come, in the order of their sequence numbers.
use flocate.Prelude.{ℕ, ◌+◌, ◌≤◌, ◌<◌, ◌≡◌, refl, List, [], ◌∷◌, arith}
use flocate.Serializer.{Element, push, push}

-- The elements follow one another without a gap, from one sequence number to another.
abbrev pub Tiles : ℕ → ℕ → List Element → Type 0
Tiles first end [] = first ≡ end
Tiles first end (e ∷ elements) =
    (e.seq ≡ first) × (1 ≤ e.skip) × Tiles (first + e.skip) end elements

-- The second list is the first without one occurrence of the element.
pub data Removed (e : Element) : List Element → List Element → Type 0 where
  here : {elements : List Element} → Removed e (e ∷ elements) elements
  there :
      {x : Element} {elements left : List Element}
      → Removed e elements left
      → Removed e (x ∷ elements) (x ∷ left)

-- The calls come in any order, each element once.
pub data Reorders : List Element → List Element → Type 0 where
  nil : Reorders [] []
  call :
      {e : Element} {calls elements left : List Element}
      → Removed e elements left
      → Reorders calls left
      → Reorders (e ∷ calls) elements

-- The third list interleaves the first two.
pub data Merges : List Element → List Element → List Element → Type 0 where
  nil : Merges [] [] []
  left :
      {x : Element} {pending waiting both : List Element}
      → Merges pending waiting both
      → Merges (x ∷ pending) waiting (x ∷ both)
  right :
      {x : Element} {pending waiting both : List Element}
      → Merges pending waiting both
      → Merges pending (x ∷ waiting) (x ∷ both)

-- No element of a tiling lies before its start.
Removed-ge :
    {e : Element} {pending waiting waiting' both : List Element} (first end : ℕ)
    → Merges pending waiting both
    → Removed e waiting waiting'
    → Tiles first end both
    → first ≤ e.seq
Removed-ge first end nil r t = elim r [ ]
Removed-ge first end (left {x} m) r t = omega (arith, Removed-ge (first + x.skip) end m r t.2)
Removed-ge first end (right m) here t = omega (arith, t.0)
Removed-ge first end (right {x} m) (there r) t =
    omega (arith, Removed-ge (first + x.skip) end m r t.2)

top-ge :
    {top : Element} {pending waiting both : List Element} (first end : ℕ)
    → Merges (top ∷ pending) waiting both
    → Tiles first end both
    → first ≤ top.seq
top-ge first end (left m) t = omega (arith, t.0)
top-ge first end (right {x} m) t = omega (arith, top-ge (first + x.skip) end m t.2)

-- The element at the start of the tiling comes first.
pub Removed-front :
    {e : Element} {pending waiting waiting' both : List Element} (first end : ℕ)
    → Merges pending waiting both
    → Removed e waiting waiting'
    → Tiles first end both
    → e.seq ≡ first
    → (both' : List Element) × (both ≡ e ∷ both') × Merges pending waiting' both'
Removed-front first end nil r t eq = elim r [ ]
Removed-front first end (left {x} m) r t eq =
    absurd (omega (arith, t.1, Removed-ge (first + x.skip) end m r t.2))
Removed-front first end (right {both} m) here t eq = (both, refl, m)
Removed-front first end (right {x} m) (there r) t eq =
    absurd (omega (arith, t.1, Removed-ge (first + x.skip) end m r t.2))

pub top-front :
    {top : Element} {pending waiting both : List Element} (first end : ℕ)
    → Merges (top ∷ pending) waiting both
    → Tiles first end both
    → top.seq ≡ first
    → (both' : List Element) × (both ≡ top ∷ both') × Merges pending waiting both'
top-front first end (left {both} m) t eq = (both, refl, m)
top-front first end (right {x} m) t eq =
    absurd (omega (arith, t.1, top-ge (first + x.skip) end m t.2))

push_first :
    {e : Element} {waiting both : List Element} (pending : List Element) (first end : ℕ)
    → Merges pending waiting both
    → Tiles first end both
    → e.seq < first
    → push e pending ≡ e ∷ pending
unfolding push
push_first [] first end m t lt = refl
push_first {e} (x ∷ pending) first end m t lt = ground (arith, top-ge first end m t)

push-cons :
    (e x : Element) (pending : List Element)
    → x.seq < e.seq
    → push e (x ∷ pending) ≡ x ∷ push e pending
unfolding push
push-cons e x pending lt = ground arith

-- The queue stays in order.
pub push-Merges :
    {e : Element} {pending waiting waiting' both : List Element} (first end : ℕ)
    → Merges pending waiting both
    → Removed e waiting waiting'
    → Tiles first end both
    → Merges (push e pending) waiting' both
push-Merges first end nil r t = elim r [ ]
push-Merges {e} first end (left {x} {pending} m) r t =
    rw (push-cons e x pending (omega (arith, t.0, t.1, Removed-ge (first + x.skip) end m r t.2)))
      (left (push-Merges (first + x.skip) end m r t.2))
push-Merges {e} {pending} first end (right m) here t =
    rw (push_first {e = e} pending (first + e.skip) end m t.2 (omega (arith, t.0, t.1))) (left m)
push-Merges first end (right {x} m) (there r) t = right (push-Merges (first + x.skip) end m r t.2)

pub Tiles-le : (first end : ℕ) (elements : List Element) → Tiles first end elements → first ≤ end
Tiles-le first end [] t = omega arith
Tiles-le first end (e ∷ elements) t = omega (arith, Tiles-le (first + e.skip) end elements t.2)
