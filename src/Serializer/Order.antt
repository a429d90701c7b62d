-- ===== src/Serializer/Order.antt =====
-- The serializer prints in the order of the sequence numbers, whatever the order of the calls.
use flocate.Prelude.{
  ℕ, ◌+◌, ◌%◌, ◌^◌, ◌<◌, ◌≡◌, ◌≢◌, refl, sym, ap, ◌∙◌, subst, false, List, [], ◌∷◌, ltb, ◌==◌,
  Bool-cases, inl, inr, arith,
}
use flocate.Serializer.{
  Element, Output, Serializer, emit, push, drain, print, print_all, new_serializer,
}
use flocate.Serializer.Merges.{
  Tiles, Removed, Reorders, nil, call, Merges, left, right, top-front, Removed-front, push-Merges,
  Tiles-le,
}

-- The messages of the elements in order.
abbrev pub emit_all : Output → List Element → Output
emit_all out [] = out
emit_all out (e ∷ elements) = emit_all (emit out e.msg) elements

-- The top of the queue is not what is printed next.
abbrev pub Settled : ℕ → List Element → Type 0
Settled next_seq [] = Unit
Settled next_seq (top ∷ pending) = top.seq ≢ next_seq

-- The delayed elements and those still to come tile what is left, and with their messages the output
-- becomes `total`.
pub record Serves (total : Output) (end : ℕ) (waiting : List Element) (s : Serializer)
    : Type 0 where
  pub both : List Element
  pub merges : Merges s.pending waiting both
  pub tiles : Tiles s.next_seq end both
  pub rest : emit_all s.out both ≡ total
  pub settled : Settled s.next_seq s.pending

drain-Serves :
    (total : Output) (end next_seq : ℕ) (pending waiting both : List Element) (out : Output)
    → end < 2 ^ 64
    → Merges pending waiting both
    → Tiles next_seq end both
    → emit_all out both ≡ total
    → Serves total end waiting (drain next_seq pending out)
unfolding drain
drain-Serves total end next_seq [] waiting both out lt m t rest = record {
  both = both;
  merges = m;
  tiles = t;
  rest = rest;
  settled = tt;
}
drain-Serves total end next_seq (top ∷ pending) waiting both out lt m t rest =
    elim (Bool-cases (top.seq == next_seq)) [
      | inr later ↦ rw later (record {
        both = both;
        merges = m;
        tiles = t;
        rest = rest;
        settled = λ e. absurd (ground arith);
      })
      | inl now ↦
          let (both', e, m') = top-front next_seq end m t (ground arith) in
          let t' : Tiles next_seq end (top ∷ both') = subst (Tiles next_seq end) e t in
          let le = Tiles-le (next_seq + top.skip) end both' t'.2 in
          let wrap : (next_seq + top.skip) % 2 ^ 64 ≡ next_seq + top.skip = omega arith in
          rw (now, wrap)
            (drain-Serves total end (next_seq + top.skip) pending waiting both' (emit out top.msg)
              lt m' t'.2 (ap (emit_all out) (sym e) ∙ rest))
    ]

push-Settled :
    (e : Element) (next_seq : ℕ) (pending : List Element)
    → e.seq ≢ next_seq
    → Settled next_seq pending
    → Settled next_seq (push e pending)
unfolding push
push-Settled e next_seq [] ne h = ne
push-Settled e next_seq (x ∷ pending) ne h = elim (Bool-cases (ltb x.seq e.seq)) [
  | inl after ↦ rw after h
  | inr before ↦ rw before ne
]

print-Serves :
    (total : Output) (end : ℕ) (e : Element) (waiting waiting' : List Element) (s : Serializer)
    → end < 2 ^ 64
    → Removed e waiting waiting'
    → Serves total end waiting s
    → Serves total end waiting' (print false s e)
unfolding print
print-Serves total end e waiting waiting' s lt r h = elim (Bool-cases (s.next_seq == e.seq)) [
  | inr later ↦ simp later (record {
    both = h.both;
    merges = push-Merges s.next_seq end h.merges r h.tiles;
    tiles = h.tiles;
    rest = h.rest;
    settled = push-Settled e s.next_seq s.pending (λ eq. absurd (ground arith)) h.settled;
  })
  | inl now ↦
      let (both', eq, m) = Removed-front s.next_seq end h.merges r h.tiles (ground arith) in
      let t : Tiles s.next_seq end (e ∷ both') = subst (Tiles s.next_seq end) eq h.tiles in
      let le = Tiles-le (s.next_seq + e.skip) end both' t.2 in
      let wrap : (s.next_seq + e.skip) % 2 ^ 64 ≡ s.next_seq + e.skip = omega arith in
      simp (now, wrap)
        (drain-Serves total end (s.next_seq + e.skip) s.pending waiting' both' (emit s.out e.msg) lt
          m t.2 (ap (emit_all s.out) (sym eq) ∙ h.rest))
]

print_all-Serves :
    {calls waiting : List Element} (total : Output) (end : ℕ) (s : Serializer)
    → end < 2 ^ 64
    → Reorders calls waiting
    → Serves total end waiting s
    → Serves total end [] (print_all false s calls)
unfolding print_all
print_all-Serves total end s lt nil h = h
print_all-Serves {calls = e ∷ calls} total end s lt (call r p) h =
    print_all-Serves total end (print false s e) lt p (print-Serves total end e _ _ s lt r h)

-- Nothing is left when every element has come.
Serves_end :
    {both : List Element} (pending : List Element) (next_seq end : ℕ)
    → Merges pending [] both
    → Tiles next_seq end both
    → Settled next_seq pending
    → (both ≡ []) × (pending ≡ [])
Serves_end [] next_seq end nil t h = (refl, refl)
Serves_end (x ∷ pending) next_seq end (left m) t h = absurd (h t.0)

all_wait : (elements : List Element) → Merges [] elements elements
all_wait [] = nil
all_wait (e ∷ elements) = right (all_wait elements)

finished :
    (s : Serializer) (end : ℕ) (out : Output)
    → s.next_seq ≡ end
    → s.pending ≡ []
    → s.out ≡ out
    → s ≡ record { next_seq = end; pending = []; out = out }
finished s end out a b c =
    ap (λ (t : ℕ). record { next_seq = t; pending = s.pending; out = s.out }) a
    ∙ ap (λ t. record { next_seq = end; pending = t; out = s.out }) b
    ∙ ap (λ t. record { next_seq = end; pending = []; out = t }) c

-- If the elements tile the sequence numbers from 0 to an end below 2 ^ 64, then in whatever order
-- they come, the serializer does to the output what their messages do in the order of the sequence
-- numbers, stops at the end, and keeps nothing back.
pub print_all-emit_all :
    (calls elements : List Element) (end : ℕ) (out : Output)
    → end < 2 ^ 64
    → Tiles 0 end elements
    → Reorders calls elements
    → print_all false (new_serializer out) calls
      ≡ record { next_seq = end; pending = []; out = emit_all out elements }
print_all-emit_all calls elements end out lt t p =
    let h : Serves (emit_all out elements) end elements (new_serializer out) = record {
      both = elements;
      merges = all_wait elements;
      tiles = t;
      rest = refl;
      settled = tt;
    } in
    let done : Serves (emit_all out elements) end [] (print_all false (new_serializer out) calls) =
      print_all-Serves (emit_all out elements) end (new_serializer out) lt p h in
    let (none_left, nothing) = Serves_end _ _ end done.merges done.tiles done.settled in
    finished (print_all false (new_serializer out) calls) end (emit_all out elements)
      (subst (Tiles _ end) none_left done.tiles) nothing
      (ap (emit_all (print_all false (new_serializer out) calls).out) (sym none_left) ∙ done.rest)
