-- ===== src/Locate/Examples.antt =====
-- Small searches.
use flocate.Prelude.{
  ℕ, ◌≡◌, refl, ◌^◌, Bool, true, false, List, Bytes, [], ◌∷◌, ◌++◌, codes, take, arith, leb, length,
  ◌≤◌,
}
use flocate.Serializer.{Element, print_all, new_serializer}
use flocate.Serializer.Merges.{Tiles, Reorders, call, nil, here, there}
use flocate.Serializer.Limit.{new_output, messages}
use flocate.Locate.{
  block_names, scan_file_block, scan_docids, scan_names, test_candidate, receive, haystack,
  behind_last_slash,
}
use flocate.Prelude.{zero, suc, ◌≢◌, sym, inl, inr, get_or}
use flocate.Trigram.{TrigramDisjunction}
use flocate.Trigram.Windows.{mem}
use flocate.Locate.Candidates.{
  read_lists, new_posting_list_read, join_docids, set_intersection, no_group,
}
use flocate.Locate.Candidates.Step.{Awaits, reads_of, is_listed}
use flocate.Locate.Candidates.Kept.{read_lists-mem}
use flocate.Locate.Tiling.{select, shown}
use flocate.Serializer.Order.{emit_all, print_all-emit_all}
use flocate.Locate.Receiver.{receive_all, receive_all-Tiles}
use flocate.Locate.Printed.{scan_docids-printed, results}

abbrev block : Bytes
block = codes "/a" ++ (0 ∷ (codes "/ab" ++ (0 ∷ (codes "/b" ++ (0 ∷ [])))))

abbrev all_ok : Bytes → Bool
all_ok name = true

abbrev is_short : Bytes → Bool
is_short name = leb (length name) 2

abbrev block_of : ℕ → Bytes
block_of docid = block

abbrev result : ℕ → ℕ → Bytes → Element
result seq skip msg = record { seq = seq; skip = skip; msg = msg }

-- The last file of the second block is tested first, and the second of the first block then.
abbrev calls : List Element
calls =
    result 4294967297 4294967295 (codes "/b")
    ∷ result 1 4294967295 (codes "/b")
    ∷ result 0 1 (codes "/a")
    ∷ result 4294967296 1 (codes "/a")
    ∷ []

calls_reorder : Reorders calls (scan_docids all_ok is_short block_of (7 ∷ 8 ∷ []) 0)
unfolding scan_docids scan_file_block scan_names test_candidate block_names
calls_reorder = call (there (there (there here))) (call (there here) (call here (call here nil)))

room : length (select is_short (block_names [] block)) ≤ 2 ^ 32
unfolding select block_names
room = omega arith

scan_docids-printed_example :
    (print_all false (new_serializer (new_output 3)) calls).out.printed
    ≡ take 3 (results all_ok is_short block_of (7 ∷ 8 ∷ []))
scan_docids-printed_example =
    scan_docids-printed all_ok is_short block_of (7 ∷ 8 ∷ []) calls 3 (omega arith) (omega arith)
      (room, (room, tt)) calls_reorder

three_results :
    take 3 (results all_ok is_short block_of (7 ∷ 8 ∷ []))
    ≡ codes "/a" ∷ codes "/b" ∷ codes "/a" ∷ []
unfolding results shown select block_names
three_results = refl

basename : haystack true (codes "/a/b/cd") ≡ codes "cd"
unfolding haystack behind_last_slash
basename = refl

-- Two empty results are kept as one.
one_kept :
    receive_all (result 0 1 (codes "/a") ∷ []) (result 1 3 [] ∷ result 4 1 [] ∷ [])
    ≡ result 0 5 (codes "/a") ∷ []
unfolding receive
one_kept = refl

receive_all-Tiles_example :
    Tiles 0 5 (receive_all (result 0 1 (codes "/a") ∷ []) (result 1 3 [] ∷ result 4 1 [] ∷ []))
    × (messages (receive_all (result 0 1 (codes "/a") ∷ []) (result 1 3 [] ∷ result 4 1 [] ∷ []))
        ≡ messages (result 0 1 (codes "/a") ∷ result 1 3 [] ∷ result 4 1 [] ∷ []))
receive_all-Tiles_example =
    receive_all-Tiles (result 0 1 (codes "/a") ∷ []) (result 1 3 [] ∷ result 4 1 [] ∷ []) 0 5
      (omega arith) (refl, omega arith, (refl, omega arith, (refl, omega arith, refl)))

print_all-emit_all_example :
    print_all false
      (new_serializer (new_output 3))
      (result 1 1 (codes "b") ∷ result 0 1 (codes "a") ∷ [])
    ≡ record {
      next_seq = 2;
      pending = [];
      out = emit_all (new_output 3) (result 0 1 (codes "a") ∷ result 1 1 (codes "b") ∷ []);
    }
print_all-emit_all_example =
    print_all-emit_all (result 1 1 (codes "b") ∷ result 0 1 (codes "a") ∷ [])
      (result 0 1 (codes "a") ∷ result 1 1 (codes "b") ∷ []) 2 (new_output 3) (omega arith)
      (refl, omega arith, (refl, omega arith, refl)) (call (there here) (call here nil))

-- A disjunction that waits for one list.
abbrev waiting : TrigramDisjunction
waiting = record no_group { remaining_trigrams_to_read = 1 }

-- The list of the second disjunction comes first.
abbrev two_lists : List (ℕ × List ℕ)
two_lists = (1, 3 ∷ 5 ∷ []) ∷ (0, 2 ∷ 5 ∷ []) ∷ []

two_wait : (h : ℕ) → Awaits 5 h two_lists (get_or (waiting ∷ waiting ∷ []) h no_group)
unfolding reads_of is_listed mem
two_wait zero = record { number = refl; ascending = tt; holds = inr refl }
two_wait (suc zero) = record { number = refl; ascending = tt; holds = inr refl }
two_wait (suc (suc h)) =
    let none_left : reads_of (suc (suc h)) two_lists ≡ 0 = ground arith in
    record { number = sym none_left; ascending = tt; holds = inl none_left }

first_waits : reads_of 0 two_lists ≢ 0
unfolding reads_of
first_waits e = absurd (omega arith)

read_lists-mem_example :
    let r = read_lists false two_lists (waiting ∷ waiting ∷ []) [] in
    (mem 5 r.0 ≡ true) × (r.1 ≡ false)
read_lists-mem_example =
    read_lists-mem false 5 two_lists (waiting ∷ waiting ∷ []) [] two_wait
      ((omega arith, (omega arith, tt)), ((omega arith, (omega arith, tt)), tt)) tt
      (inr (refl, 0, first_waits))

-- Without `ignore_case` the search goes on after the candidates have run out, and takes the next
-- list for the first.
starts_again :
    read_lists false
      ((0, 1 ∷ []) ∷ (1, 2 ∷ []) ∷ (2, 3 ∷ []) ∷ [])
      (waiting ∷ waiting ∷ waiting ∷ [])
      []
    ≡ (3 ∷ [], false)
unfolding read_lists new_posting_list_read join_docids set_intersection
starts_again = refl

done_with_ignore_case :
    read_lists true
      ((0, 1 ∷ []) ∷ (1, 2 ∷ []) ∷ (2, 3 ∷ []) ∷ [])
      (waiting ∷ waiting ∷ waiting ∷ [])
      []
    ≡ ([], true)
unfolding read_lists new_posting_list_read join_docids set_intersection
done_with_ignore_case = refl
