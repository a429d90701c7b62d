-- ===== src/Locate/Candidates/Kept.antt =====
-- The candidates keep every block that is in a posting list of each disjunction, whatever the order
-- in which the lists come.
use flocate.Prelude.{
  ℕ, zero, suc, ◌≡◌, ◌≢◌, ◌⊎◌, inl, inr, refl, sym, ap, ◌∙◌, subst, Bool, true, false, ◌||◌, List,
  [], ◌∷◌, is_empty, ◌==◌, ==_iff, ==-refl, get_or, arith, Bool-cases, All,
}
use flocate.Trigram.{TrigramDisjunction}
use flocate.Trigram.Windows.{mem}
use flocate.Locate.Candidates.{new_posting_list_read, set_group, no_group, read_lists}
use flocate.Locate.Candidates.Sorted.{IsAscending}
use flocate.Locate.Candidates.Step.{
  reads_of, is_listed, Awaits, TakesAll, new_posting_list_read-Takes,
}

get_or-set_group :
    (groups : List TrigramDisjunction) (g : ℕ) (td : TrigramDisjunction)
    → (get_or (set_group groups g td) g no_group ≡ td) ⊎ (get_or groups g no_group ≡ no_group)
get_or-set_group [] g td = inr refl
get_or-set_group (x ∷ groups) zero td = inl refl
get_or-set_group (x ∷ groups) (suc g) td = get_or-set_group groups g td

get_or-set_group_other :
    (groups : List TrigramDisjunction) (g h : ℕ) (td : TrigramDisjunction)
    → g ≢ h
    → get_or (set_group groups g td) h no_group ≡ get_or groups h no_group
get_or-set_group_other [] g h td ne = refl
get_or-set_group_other (x ∷ groups) zero zero td ne = absurd (ne refl)
get_or-set_group_other (x ∷ groups) zero (suc h) td ne = refl
get_or-set_group_other (x ∷ groups) (suc g) zero td ne = refl
get_or-set_group_other (x ∷ groups) (suc g) (suc h) td ne =
    get_or-set_group_other groups g h td (λ e. ne (ap suc e))

reads_of-same :
    (g : ℕ) (decoded : List ℕ) (reads : List (ℕ × List ℕ))
    → reads_of g ((g, decoded) ∷ reads) ≡ suc (reads_of g reads)
unfolding reads_of
reads_of-same g decoded reads = rw (==-refl g) refl

is_listed-same :
    (d g : ℕ) (decoded : List ℕ) (reads : List (ℕ × List ℕ))
    → is_listed d g ((g, decoded) ∷ reads) ≡ mem d decoded || is_listed d g reads
unfolding is_listed
is_listed-same d g decoded reads = rw (==-refl g) refl

reads_of-other :
    (g h : ℕ) (decoded : List ℕ) (reads : List (ℕ × List ℕ))
    → (g == h) ≡ false
    → reads_of h ((g, decoded) ∷ reads) ≡ reads_of h reads
unfolding reads_of
reads_of-other g h decoded reads other = rw other refl

is_listed-other :
    (d g h : ℕ) (decoded : List ℕ) (reads : List (ℕ × List ℕ))
    → (g == h) ≡ false
    → is_listed d h ((g, decoded) ∷ reads) ≡ is_listed d h reads
unfolding is_listed
is_listed-other d g h decoded reads other = rw other refl

-- A list for another disjunction changes nothing for this one.
Awaits-other :
    (d g h : ℕ) (decoded : List ℕ) (reads : List (ℕ × List ℕ)) (td : TrigramDisjunction)
    → (g == h) ≡ false
    → Awaits d h ((g, decoded) ∷ reads) td
    → Awaits d h reads td
Awaits-other d g h decoded reads td other a = record {
  number = a.number ∙ fewer_reads;
  ascending = a.ascending;
  holds = elim a.holds [
    | inl none_left ↦ inl (sym fewer_reads ∙ none_left)
    | inr known ↦ inr (ap (λ t. mem d td.docids || t) (sym fewer_lists) ∙ known)
  ];
}
  where
    fewer_reads : reads_of h ((g, decoded) ∷ reads) ≡ reads_of h reads
    fewer_reads = reads_of-other g h decoded reads other

    fewer_lists : is_listed d h ((g, decoded) ∷ reads) ≡ is_listed d h reads
    fewer_lists = is_listed-other d g h decoded reads other

-- The block is a candidate, or no disjunction is complete yet and one waits for a list.
abbrev pub IsKept : ℕ → List (ℕ × List ℕ) → List ℕ → Type 0
IsKept d reads cur_candidates =
    (mem d cur_candidates ≡ true)
    ⊎ ((is_empty cur_candidates ≡ true) × (g : ℕ) × (reads_of g reads ≢ 0))

step-Takes :
    (ignore_case : Bool) (d g : ℕ) (decoded : List ℕ) (reads : List (ℕ × List ℕ))
    (td : TrigramDisjunction) (cur : List ℕ)
    → Awaits d g ((g, decoded) ∷ reads) td
    → IsAscending 0 decoded
    → IsAscending 0 cur
    → IsKept d ((g, decoded) ∷ reads) cur
    → TakesAll d g reads (new_posting_list_read ignore_case td decoded cur)
step-Takes ignore_case d g decoded reads td cur a list_ascending ascending kept =
    new_posting_list_read-Takes ignore_case d g reads td decoded cur
      (a.number ∙ reads_of-same g decoded reads) a.ascending list_ascending ascending
      (elim a.holds [
        | inl none_left ↦ absurd (omega (arith, reads_of-same g decoded reads))
        | inr known ↦
            ap (λ t. mem d td.docids || t) (sym (is_listed-same d g decoded reads)) ∙ known
      ])
      (elim kept [ inl h ↦ inl h | inr (empty, _, _) ↦ inr empty ])

-- The states of all disjunctions after the list.
next_groups :
    (d g : ℕ) (decoded : List ℕ) (reads : List (ℕ × List ℕ)) (groups : List TrigramDisjunction)
    (td : TrigramDisjunction)
    → ((h : ℕ) → Awaits d h ((g, decoded) ∷ reads) (get_or groups h no_group))
    → Awaits d g reads td
    → (h : ℕ) → Awaits d h reads (get_or (set_group groups g td) h no_group)
next_groups d g decoded reads groups td all new h = elim (Bool-cases (g == h)) [
  | inr other ↦
      subst (Awaits d h reads)
        (sym (get_or-set_group_other groups g h td (λ e. absurd (ground arith))))
        (Awaits-other d g h decoded reads _ other (all h))
  | inl same ↦
      subst (λ (k : ℕ). Awaits d k reads (get_or (set_group groups g td) k no_group))
        ((==_iff g h).0 same)
        (elim (get_or-set_group groups g td) [
          | inl set ↦ subst (Awaits d g reads) (sym set) new
          | inr missing ↦ absurd (
              omega (
                arith,
                (all g).number,
                reads_of-same g decoded reads,
                ap (λ (td : TrigramDisjunction). td.remaining_trigrams_to_read) missing,
              ))
        ])
]

next-IsKept :
    (d g : ℕ) (reads : List (ℕ × List ℕ)) (cur : List ℕ)
    → (mem d cur ≡ true) ⊎ ((is_empty cur ≡ true) × (reads_of g reads ≢ 0))
    → IsKept d reads cur
next-IsKept d g reads cur (inl h) = inl h
next-IsKept d g reads cur (inr (empty, more)) = inr (empty, g, more)

read_lists_step :
    (ignore_case : Bool) (g : ℕ) (decoded : List ℕ) (reads : List (ℕ × List ℕ))
    (groups : List TrigramDisjunction) (cur : List ℕ)
    → let r = new_posting_list_read ignore_case (get_or groups g no_group) decoded cur in
      r.2 ≡ false
      → read_lists ignore_case ((g, decoded) ∷ reads) groups cur
        ≡ read_lists ignore_case reads (set_group groups g r.0) r.1
unfolding read_lists
read_lists_step ignore_case g decoded reads groups cur going = rw going refl

-- Ascending posting lists come for disjunctions that each know how many they wait for, in whatever
-- order: if a block is in one of the lists of each disjunction that is not complete, and is already a
-- candidate, or there is no candidate and a list is still to come, then the search is not ended early
-- and the block is one of the candidates.
pub read_lists-mem :
    (ignore_case : Bool) (d : ℕ) (reads : List (ℕ × List ℕ)) (groups : List TrigramDisjunction)
    (cur_candidates : List ℕ)
    → ((h : ℕ) → Awaits d h reads (get_or groups h no_group))
    → All (λ (r : ℕ × List ℕ). IsAscending 0 r.1) reads
    → IsAscending 0 cur_candidates
    → IsKept d reads cur_candidates
    → let r = read_lists ignore_case reads groups cur_candidates in
      (mem d r.0 ≡ true) × (r.1 ≡ false)
unfolding read_lists reads_of
read_lists-mem ignore_case d [] groups cur all lists ascending kept =
    (elim kept [ inl h ↦ h | inr (_, g, more) ↦ absurd (more refl) ], refl)
read_lists-mem ignore_case d ((g, decoded) ∷ reads) groups cur all lists ascending kept =
    let td : TrigramDisjunction = get_or groups g no_group in
    let step : TakesAll d g reads (new_posting_list_read ignore_case td decoded cur) =
      step-Takes ignore_case d g decoded reads td cur (all g) lists.0 ascending kept in
    subst (λ (r : List ℕ × Bool). (mem d r.0 ≡ true) × (r.1 ≡ false))
      (sym (read_lists_step ignore_case g decoded reads groups cur step.going))
      (read_lists-mem ignore_case d reads _ _
        (next_groups d g decoded reads groups _ all step.awaits) lists.1 step.ascending
        (next-IsKept d g reads _ step.candidate))
