-- ===== src/Serializer.antt =====
-- src/serializer.cpp and include/serializer.h: results that complete in any order are printed in
-- the order of their sequence numbers.
pub mod Merges
pub mod Order
pub mod Limit
use flocate.Prelude.{
  ℕ, ◌+◌, ◌-◌, ◌%◌, ◌^◌, Bool, true, false, List, Bytes, [], ◌∷◌, ◌++◌, is_empty, ltb, ◌==◌,
  if◌then◌else◌,
}

-- `Serializer::Element`
pub record Element : Type 0 where
  pub seq : ℕ
  pub skip : ℕ
  pub msg : Bytes

-- What is printed, `limit_left`, and whether the process has left by exit(0); the calls that the
-- model makes behind that have no effect here.
pub record Output : Type 0 where
  pub printed : List Bytes
  pub limit_left : ℕ
  pub exited : Bool

unfoldable pub apply_limit : Output → Output
apply_limit out =
    if ltb 1 out.limit_left
    then record { printed = out.printed; limit_left = out.limit_left - 1; exited = out.exited }
    else record { printed = out.printed; limit_left = 0; exited = true }

-- A message, unless it is empty.
unfoldable pub emit : Output → Bytes → Output
unfolding apply_limit
emit out msg =
    if out.exited
    then out
    else if is_empty msg
    then out
    else apply_limit (record {
      printed = out.printed ++ (msg ∷ []);
      limit_left = out.limit_left;
      exited = out.exited;
    })

-- Under `only_count` the message itself is not printed.
unfoldable pub count : Output → Bytes → Output
unfolding apply_limit
count out msg = if out.exited then out else if is_empty msg then out else apply_limit out

-- `pending` is the priority queue, from its top on.
pub record Serializer : Type 0 where
  pub next_seq : ℕ
  pub pending : List Element
  pub out : Output

unfoldable pub push : Element → List Element → List Element
push e [] = e ∷ []
push e (x ∷ pending) = if ltb x.seq e.seq then x ∷ push e pending else e ∷ x ∷ pending

-- The loop over the delayed prints.
unfoldable pub drain : ℕ → List Element → Output → Serializer
unfolding emit
drain next_seq [] out = record { next_seq = next_seq; pending = []; out = out }
drain next_seq (top ∷ pending) out =
    let rest = drain ((next_seq + top.skip) % 2 ^ 64) pending (emit out top.msg) in
    if top.seq == next_seq
    then rest
    else record { next_seq = next_seq; pending = top ∷ pending; out = out }

unfoldable pub print : Bool → Serializer → Element → Serializer
unfolding count push drain emit
print only_count s e =
    if only_count
    then record { next_seq = s.next_seq; pending = s.pending; out = count s.out e.msg }
    else if s.next_seq == e.seq
    then drain ((s.next_seq + e.skip) % 2 ^ 64) s.pending (emit s.out e.msg)
    else record { next_seq = s.next_seq; pending = push e s.pending; out = s.out }

-- The calls of `print` for these elements.
unfoldable pub print_all : Bool → Serializer → List Element → Serializer
unfolding print
print_all only_count s [] = s
print_all only_count s (e ∷ calls) = print_all only_count (print only_count s e) calls

abbrev pub new_serializer : Output → Serializer
new_serializer out = record { next_seq = 0; pending = []; out = out }
