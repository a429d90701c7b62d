-- ===== src/Serializer/Limit.antt =====
-- What the output is in the end: the messages in order, up to the limit.
use flocate.Prelude.{
  ℕ, zero, suc, ◌-◌, ◌^◌, ◌≤◌, ◌<◌, ◌≡◌, refl, sym, ap, ◌∙◌, true, false, List, Bytes, [], ◌∷◌,
  ◌++◌, take, is_empty, ltb, if◌then◌else◌, Bool-cases, inl, inr, arith, append_assoc, append-nil,
}
use flocate.Serializer.{Element, Output, emit, apply_limit, print_all, new_serializer}
use flocate.Serializer.Merges.{Tiles, Reorders}
use flocate.Serializer.Order.{emit_all, print_all-emit_all}

-- The messages that are not empty.
unfoldable pub messages : List Element → List Bytes
messages [] = []
messages (e ∷ elements) = if is_empty e.msg then messages elements else e.msg ∷ messages elements

abbrev pub new_output : ℕ → Output
new_output limit = record { printed = []; limit_left = limit; exited = false }

emit_all-exited :
    (elements : List Element) (out : Output) → out.exited ≡ true → emit_all out elements ≡ out
unfolding emit
emit_all-exited [] out h = refl
emit_all-exited (e ∷ elements) out h = simp h (emit_all-exited elements out h)

-- The last message that the limit allows.
apply_limit_last :
    (printed : List Bytes)
    → (apply_limit (record { printed = printed; limit_left = 1; exited = false }))
      ≡ record { printed = printed; limit_left = 0; exited = true }
unfolding apply_limit
apply_limit_last printed = refl

apply_limit_more :
    (printed : List Bytes) (limit : ℕ)
    → (apply_limit (record { printed = printed; limit_left = suc (suc limit); exited = false }))
      ≡ record { printed = printed; limit_left = suc limit; exited = false }
unfolding apply_limit
apply_limit_more printed limit =
    let more : ltb 1 (suc (suc limit)) ≡ true = ground arith in
    let less : suc (suc limit) - 1 ≡ suc limit = omega arith in rw (more, less) refl

emit-empty :
    (msg : Bytes) (printed : List Bytes) (limit : ℕ)
    → is_empty msg ≡ true
    → emit (record { printed = printed; limit_left = limit; exited = false }) msg
      ≡ record { printed = printed; limit_left = limit; exited = false }
unfolding emit
emit-empty msg printed limit h = rw h refl

emit-message :
    (msg : Bytes) (printed : List Bytes) (limit : ℕ)
    → is_empty msg ≡ false
    → emit (record { printed = printed; limit_left = limit; exited = false }) msg
      ≡ apply_limit (record { printed = printed ++ (msg ∷ []); limit_left = limit; exited = false })
unfolding emit
emit-message msg printed limit h = rw h refl

pub messages-empty :
    (e : Element) (elements : List Element)
    → is_empty e.msg ≡ true
    → messages (e ∷ elements) ≡ messages elements
unfolding messages
messages-empty e elements h = rw h refl

pub messages-message :
    (e : Element) (elements : List Element)
    → is_empty e.msg ≡ false
    → messages (e ∷ elements) ≡ e.msg ∷ messages elements
unfolding messages
messages-message e elements h = rw h refl

-- The output after these elements, from a limit that is left and what is printed.
abbrev Counts : List Element → ℕ → List Bytes → Type 0
Counts elements limit printed =
    (emit_all (record { printed = printed; limit_left = suc limit; exited = false })
      elements).printed
    ≡ printed ++ take (suc limit) (messages elements)

-- A message is printed and counted, and the others follow.
counted :
    (elements : List Element) (msg : Bytes)
    → ((limit : ℕ) (printed : List Bytes) → Counts elements limit printed)
    → (limit : ℕ) (printed : List Bytes)
    → (emit_all
        (apply_limit
          (record { printed = printed ++ (msg ∷ []); limit_left = suc limit; exited = false }))
        elements).printed
      ≡ printed ++ (msg ∷ take limit (messages elements))
counted elements msg rest zero printed =
    ap (λ t. (emit_all t elements).printed) (apply_limit_last (printed ++ (msg ∷ [])))
    ∙ ap (λ (t : Output). t.printed) (emit_all-exited elements _ refl)
counted elements msg rest (suc limit) printed =
    ap (λ t. (emit_all t elements).printed) (apply_limit_more (printed ++ (msg ∷ [])) limit)
    ∙ rest limit (printed ++ (msg ∷ []))
    ∙ append_assoc printed (msg ∷ []) _

emit_all-messages :
    (elements : List Element) (limit : ℕ) (printed : List Bytes) → Counts elements limit printed
unfolding messages
emit_all-messages [] limit printed = sym (append-nil printed)
emit_all-messages (e ∷ elements) limit printed = elim (Bool-cases (is_empty e.msg)) [
  | inl empty ↦
      ap (λ t. (emit_all t elements).printed) (emit-empty e.msg printed (suc limit) empty)
      ∙ emit_all-messages elements limit printed
      ∙ ap (λ t. printed ++ take (suc limit) t) (sym (messages-empty e elements empty))
  | inr message ↦
      ap (λ t. (emit_all t elements).printed) (emit-message e.msg printed (suc limit) message)
      ∙ counted elements e.msg (emit_all-messages elements) limit printed
      ∙ ap (λ t. printed ++ take (suc limit) t) (sym (messages-message e elements message))
]

-- If the elements tile the sequence numbers from 0 to an end below 2 ^ 64, then in whatever order
-- they come, the messages that are not empty are printed in the order of the sequence numbers, up to
-- the limit of at least one.
pub print_all-messages :
    (calls elements : List Element) (end limit : ℕ)
    → end < 2 ^ 64
    → 1 ≤ limit
    → Tiles 0 end elements
    → Reorders calls elements
    → (print_all false (new_serializer (new_output limit)) calls).out.printed
      ≡ take limit (messages elements)
print_all-messages calls elements end zero lt pos t p = absurd (omega arith)
print_all-messages calls elements end (suc limit) lt pos t p =
    ap (λ s. s.out.printed) (print_all-emit_all calls elements end (new_output (suc limit)) lt t p)
    ∙ emit_all-messages elements limit []
