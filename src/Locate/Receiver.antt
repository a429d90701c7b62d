-- ===== src/Locate/Receiver.antt =====
-- WorkerThreadReceiver::print: what a worker keeps back of empty results changes nothing.
use flocate.Prelude.{
  ℕ, ◌+◌, ◌%◌, ◌^◌, ◌<◌, ◌≡◌, refl, sym, ap, ◌∙◌, subst, true, ◌⊎◌, append-nil, List, [], ◌∷◌, ◌++◌,
  is_empty, ◌==◌, Bool-cases, inl, inr, arith, append_assoc,
}
use flocate.Serializer.{Element}
use flocate.Serializer.Merges.{Tiles}
use flocate.Serializer.Limit.{messages}
use flocate.Serializer.Merges.{Tiles-le}
use flocate.Locate.{receive}
use flocate.Locate.Tiling.{messages-append, Tiles-append}

-- The calls of `print` on a receiver.
abbrev pub receive_all : List Element → List Element → List Element
receive_all results [] = results
receive_all results (e ∷ calls) = receive_all (receive results e) calls

-- The result that stands for two.
joined : Element → Element → Element
joined x e = record { seq = x.seq; skip = (x.skip + e.skip) % 2 ^ 64; msg = x.msg }

receive_two :
    (x e : Element)
    → (receive (x ∷ []) e ≡ x ∷ e ∷ [])
      ⊎ ((is_empty e.msg ≡ true) × (receive (x ∷ []) e ≡ joined x e ∷ []))
unfolding receive joined
receive_two x e = elim (Bool-cases (is_empty e.msg)) [
  | inr message ↦ inl (rw message refl)
  | inl empty ↦ elim (Bool-cases ((x.seq + x.skip) % 2 ^ 64 == e.seq)) [
    | inr apart ↦ inl (rw (empty, apart) refl)
    | inl next ↦ inr (empty, rw (empty, next) refl)
  ]
]

joined-Tiles :
    (x e : Element) (first end : ℕ)
    → end < 2 ^ 64
    → Tiles first end (x ∷ e ∷ [])
    → Tiles first end (joined x e ∷ [])
unfolding joined
joined-Tiles x e first end bound t =
    let t2 = t.2 in (t.0, omega (arith, t.1, t2.1, t2.2), omega (arith, t.1, t2.1, t2.2))

joined-messages :
    (x e : Element) → is_empty e.msg ≡ true → messages (joined x e ∷ []) ≡ messages (x ∷ e ∷ [])
unfolding joined messages
joined-messages x e empty = rw empty refl

receive-Tiles :
    (results : List Element) (e : Element) (first end : ℕ)
    → end < 2 ^ 64
    → Tiles first end (results ++ (e ∷ []))
    → Tiles first end (receive results e)
unfolding receive
receive-Tiles [] e first end bound t = t
receive-Tiles (x ∷ []) e first end bound t = elim (receive_two x e) [
  | inl both ↦ subst (Tiles first end) (sym both) t
  | inr (empty, one) ↦ subst (Tiles first end) (sym one) (joined-Tiles x e first end bound t)
]
receive-Tiles (x ∷ y ∷ results) e first end bound t =
    (t.0, t.1, receive-Tiles (y ∷ results) e (first + x.skip) end bound t.2)

receive-messages :
    (results : List Element) (e : Element)
    → messages (receive results e) ≡ messages (results ++ (e ∷ []))
unfolding receive
receive-messages [] e = refl
receive-messages (x ∷ []) e = elim (receive_two x e) [
  | inl both ↦ ap messages both
  | inr (empty, one) ↦ ap messages one ∙ joined-messages x e empty
]
receive-messages (x ∷ y ∷ results) e =
    messages-append (x ∷ []) (receive (y ∷ results) e)
    ∙ ap (◌++◌ (messages (x ∷ []))) (receive-messages (y ∷ results) e)
    ∙ sym (messages-append (x ∷ []) ((y ∷ results) ++ (e ∷ [])))

Tiles-split :
    (first end : ℕ) (xs ys : List Element)
    → Tiles first end (xs ++ ys)
    → (middle : ℕ) × Tiles first middle xs × Tiles middle end ys
Tiles-split first end [] ys t = (first, refl, t)
Tiles-split first end (x ∷ xs) ys t =
    let (middle, front, back) = Tiles-split (first + x.skip) end xs ys t.2 in
    (middle, (t.0, t.1, front), back)

receive_between :
    (results calls : List Element) (e : Element) (first end : ℕ)
    → end < 2 ^ 64
    → Tiles first end (results ++ (e ∷ calls))
    → Tiles first end (receive results e ++ calls)
receive_between results calls e first end bound t =
    let regrouped : Tiles first end ((results ++ (e ∷ [])) ++ calls) =
      subst (Tiles first end) (sym (append_assoc results (e ∷ []) calls)) t in
    let (middle, front, back) = Tiles-split first end (results ++ (e ∷ [])) calls regrouped in
    let le = Tiles-le middle end calls back in
    Tiles-append first middle end (receive results e) calls
      (receive-Tiles results e first middle (omega arith) front) back

receive_all-messages :
    (results calls : List Element)
    → messages (receive_all results calls) ≡ messages (results ++ calls)
receive_all-messages results [] = ap messages (sym (append-nil results))
receive_all-messages results (e ∷ calls) =
    receive_all-messages (receive results e) calls
    ∙ messages-append (receive results e) calls
    ∙ ap (λ t. t ++ messages calls) (receive-messages results e)
    ∙ sym (messages-append (results ++ (e ∷ [])) calls)
    ∙ ap messages (append_assoc results (e ∷ []) calls)

-- Results that a worker has, followed by the calls it makes: if they tile sequence numbers up to an
-- end below 2 ^ 64, then so do the results that the receiver keeps, with the same messages in the
-- same order.
pub receive_all-Tiles :
    (results calls : List Element) (first end : ℕ)
    → end < 2 ^ 64
    → Tiles first end (results ++ calls)
    → Tiles first end (receive_all results calls)
      × (messages (receive_all results calls) ≡ messages (results ++ calls))
receive_all-Tiles results [] first end bound t =
    (subst (Tiles first end) (append-nil results) t, receive_all-messages results [])
receive_all-Tiles results (e ∷ calls) first end bound t = (
  (receive_all-Tiles (receive results e) calls first end bound
      (receive_between results calls e first end bound t)).0,
  receive_all-messages results (e ∷ calls),
)
