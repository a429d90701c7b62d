-- ===== src/Locate/Candidates/Step.antt =====
-- One list: what new_posting_list_read keeps of a block that is in a posting list of each
-- disjunction.
use flocate.Prelude.{
  ℕ, suc, ◌≡◌, ◌≢◌, ◌⊎◌, inl, inr, refl, sym, subst, Bool, true, false, ◌&&◌, ◌||◌, List, [], ◌∷◌,
  is_empty, ltb, ◌==◌, if◌then◌else◌, arith, Bool-cases,
}
use flocate.Trigram.{TrigramDisjunction}
use flocate.Trigram.Windows.{mem}
use flocate.Locate.Candidates.{
  decrement, set_intersection, with_docids, join_docids, new_posting_list_read,
}
use flocate.Locate.Candidates.Sorted.{
  IsAscending, set_union-IsAscending, mem-set_union_left, mem-set_union_right, mem-set_intersection,
  set_intersection-IsAscending,
}

-- How many of the lists are for the disjunction.
unfoldable pub reads_of : ℕ → List (ℕ × List ℕ) → ℕ
reads_of g [] = 0
reads_of g ((h, decoded) ∷ reads) = if h == g then suc (reads_of g reads) else reads_of g reads

-- Whether a list for the disjunction holds the block.
unfoldable pub is_listed : ℕ → ℕ → List (ℕ × List ℕ) → Bool
unfolding mem
is_listed d g [] = false
is_listed d g ((h, decoded) ∷ reads) =
    if h == g then mem d decoded || is_listed d g reads else is_listed d g reads

-- A disjunction with the lists that it waits for: it knows their number, and the block is in what it
-- has read or in one that is still to come, unless it is done.
pub record Awaits (d g : ℕ) (reads : List (ℕ × List ℕ)) (td : TrigramDisjunction) : Type 0 where
  pub number : td.remaining_trigrams_to_read ≡ reads_of g reads
  pub ascending : IsAscending 0 td.docids
  pub holds : (reads_of g reads ≡ 0) ⊎ ((mem d td.docids || is_listed d g reads) ≡ true)

join_docids-IsAscending :
    (td : TrigramDisjunction) (decoded : List ℕ)
    → IsAscending 0 td.docids
    → IsAscending 0 decoded
    → IsAscending 0 (join_docids td decoded)
unfolding join_docids
join_docids-IsAscending td decoded ht hd = elim (Bool-cases (is_empty td.docids)) [
  | inl empty ↦ rw empty hd
  | inr some_read ↦ rw some_read (set_union-IsAscending 0 decoded td.docids hd ht)
]

mem-empty : (d : ℕ) (xs : List ℕ) → is_empty xs ≡ true → mem d xs ≡ false
unfolding mem
mem-empty d [] h = refl
mem-empty d (x ∷ xs) h = absurd (ground arith)

mem-join_docids :
    (d : ℕ) (td : TrigramDisjunction) (decoded : List ℕ)
    → (mem d td.docids || mem d decoded) ≡ true
    → mem d (join_docids td decoded) ≡ true
unfolding join_docids
mem-join_docids d td decoded h = elim (Bool-cases (is_empty td.docids)) [
  | inl empty ↦ rw empty (ground (arith, mem-empty d td.docids empty))
  | inr some_read ↦ rw some_read (
      ground
        (arith, mem-set_union_left d decoded td.docids, mem-set_union_right d decoded td.docids))
]

is_listed-none :
    (d g : ℕ) (reads : List (ℕ × List ℕ)) → reads_of g reads ≡ 0 → is_listed d g reads ≡ false
unfolding reads_of is_listed
is_listed-none d g [] h = refl
is_listed-none d g ((k, decoded) ∷ reads) h = ground (arith, is_listed-none d g reads)

-- What is known when the list of a disjunction has been taken in: its own state, the candidates, and
-- that the search goes on.
pub record Takes (d g : ℕ) (reads : List (ℕ × List ℕ)) (td : TrigramDisjunction)
    (cur_candidates : List ℕ) (done : Bool) : Type 0 where
  pub awaits : Awaits d g reads td
  pub ascending : IsAscending 0 cur_candidates
  pub candidate :
      (mem d cur_candidates ≡ true) ⊎ ((is_empty cur_candidates ≡ true) × (reads_of g reads ≢ 0))
  pub going : done ≡ false

abbrev pub TakesAll : ℕ → ℕ → List (ℕ × List ℕ) → TrigramDisjunction × List ℕ × Bool → Type 0
TakesAll d g reads r = Takes d g reads r.0 r.1 r.2

-- The three ways through `new_posting_list_read`.
module _ (ignore_case : Bool) (td : TrigramDisjunction) (decoded cur : List ℕ) where
  read_waits :
      ltb 0 (decrement td.remaining_trigrams_to_read) ≡ true
      → new_posting_list_read ignore_case td decoded cur ≡ (
        with_docids td (join_docids td decoded) (decrement td.remaining_trigrams_to_read),
        cur,
        false,
      )
  unfolding new_posting_list_read
  read_waits more = rw more refl

  read_first :
      ltb 0 (decrement td.remaining_trigrams_to_read) ≡ false
      → is_empty cur ≡ true
      → new_posting_list_read ignore_case td decoded cur ≡ (
        with_docids td [] (decrement td.remaining_trigrams_to_read),
        join_docids td decoded,
        false,
      )
  unfolding new_posting_list_read
  read_first last empty = rw (last, empty) refl

  read_meets :
      ltb 0 (decrement td.remaining_trigrams_to_read) ≡ false
      → is_empty cur ≡ false
      → new_posting_list_read ignore_case td decoded cur ≡ (
        with_docids td (join_docids td decoded) (decrement td.remaining_trigrams_to_read),
        set_intersection cur (join_docids td decoded),
        ignore_case && is_empty (set_intersection cur (join_docids td decoded)),
      )
  unfolding new_posting_list_read
  read_meets last some_left = rw (last, some_left) refl

module _ (ignore_case : Bool) (d g : ℕ) (reads : List (ℕ × List ℕ)) (td : TrigramDisjunction)
    (decoded cur_candidates : List ℕ)
    (number : td.remaining_trigrams_to_read ≡ suc (reads_of g reads))
    (read_ascending : IsAscending 0 td.docids) (list_ascending : IsAscending 0 decoded)
    (ascending : IsAscending 0 cur_candidates)
    (known : (mem d td.docids || (mem d decoded || is_listed d g reads)) ≡ true)
    (candidate : (mem d cur_candidates ≡ true) ⊎ (is_empty cur_candidates ≡ true)) where
  one_less : decrement td.remaining_trigrams_to_read ≡ reads_of g reads
  one_less = rw number refl

  joined-IsAscending : IsAscending 0 (join_docids td decoded)
  joined-IsAscending = join_docids-IsAscending td decoded read_ascending list_ascending

  -- The last list of the disjunction.
  last-mem : reads_of g reads ≡ 0 → mem d (join_docids td decoded) ≡ true
  last-mem none_left =
      mem-join_docids d td decoded (ground (arith, is_listed-none d g reads none_left))

  wait-Takes :
      reads_of g reads ≢ 0
      → Takes d g reads
          (with_docids td (join_docids td decoded) (decrement td.remaining_trigrams_to_read))
          cur_candidates
          false
  wait-Takes more = record {
    awaits = record {
      number = one_less;
      ascending = joined-IsAscending;
      holds = inr (ground (arith, mem-join_docids d td decoded));
    };
    ascending = ascending;
    candidate = elim candidate [ inl h ↦ inl h | inr e ↦ inr (e, more) ];
    going = refl;
  }

  first-Takes :
      reads_of g reads ≡ 0
      → Takes d g reads
          (with_docids td [] (decrement td.remaining_trigrams_to_read))
          (join_docids td decoded)
          false
  first-Takes none_left = record {
    awaits = record { number = one_less; ascending = tt; holds = inl none_left };
    ascending = joined-IsAscending;
    candidate = inl (last-mem none_left);
    going = refl;
  }

  meet-Takes :
      reads_of g reads ≡ 0
      → is_empty cur_candidates ≡ false
      → Takes d g reads
          (with_docids td (join_docids td decoded) (decrement td.remaining_trigrams_to_read))
          (set_intersection cur_candidates (join_docids td decoded))
          (ignore_case && is_empty (set_intersection cur_candidates (join_docids td decoded)))
  meet-Takes none_left some_left =
      let inside : mem d cur_candidates ≡ true = elim candidate [
        | inl h ↦ h
        | inr e ↦ absurd (ground arith)
      ] in
      let common : mem d (set_intersection cur_candidates (join_docids td decoded)) ≡ true =
        mem-set_intersection d 0 cur_candidates (join_docids td decoded) ascending
          joined-IsAscending inside (last-mem none_left) in
      record {
        awaits = record {
          number = one_less;
          ascending = joined-IsAscending;
          holds = inl none_left;
        };
        ascending =
            set_intersection-IsAscending 0 cur_candidates (join_docids td decoded) ascending
              joined-IsAscending;
        candidate = inl common;
        going = never ignore_case (set_intersection cur_candidates (join_docids td decoded)) common;
      }
    where
      never : (b : Bool) (xs : List ℕ) → mem d xs ≡ true → (b && is_empty xs) ≡ false
      never false xs h = refl
      never true [] h = absurd (ground (arith, mem-empty d [] refl))
      never true (x ∷ xs) h = refl

  pub new_posting_list_read-Takes :
      TakesAll d g reads (new_posting_list_read ignore_case td decoded cur_candidates)
  new_posting_list_read-Takes =
      elim (Bool-cases (ltb 0 (decrement td.remaining_trigrams_to_read))) [
        | inl more ↦
            subst (TakesAll d g reads) (sym (read_waits ignore_case td decoded cur_candidates more))
              (wait-Takes (λ e. absurd (ground (arith, one_less))))
        | inr last ↦
            let none_left : reads_of g reads ≡ 0 = ground (arith, one_less) in
            elim (Bool-cases (is_empty cur_candidates)) [
              | inl empty ↦
                  subst (TakesAll d g reads)
                    (sym (read_first ignore_case td decoded cur_candidates last empty))
                    (first-Takes none_left)
              | inr some_left ↦
                  subst (TakesAll d g reads)
                    (sym (read_meets ignore_case td decoded cur_candidates last some_left))
                    (meet-Takes none_left some_left)
            ]
      ]
