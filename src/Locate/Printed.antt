-- ===== src/Locate/Printed.antt =====
-- A search through the index, from the blocks to what is printed.
use flocate.Prelude.{
  ℕ, suc, ◌+◌, ◌*◌, ◌^◌, ◌≤◌, ◌<◌, ◌≡◌, refl, sym, ap, ◌∙◌, subst, Bool, false, List, Bytes, [],
  ◌∷◌, ◌++◌, All, length, take, arith,
}
use flocate.Serializer.{Element, print_all, new_serializer}
use flocate.Serializer.Merges.{Tiles, Reorders}
use flocate.Serializer.Limit.{messages, new_output, print_all-messages}
use flocate.Locate.{block_names, scan_file_block, scan_docids}
use flocate.Locate.Tiling.{
  select, shown, Tiles-append, messages-append, scan_file_block-Tiles, scan_file_block-messages,
}

module _ (is_ok found : Bytes → Bool) (block_of : ℕ → Bytes) where
  -- The names to print, block by block.
  unfoldable pub results : List ℕ → List Bytes
  results [] = []
  results (docid ∷ docids) =
      shown is_ok (select found (block_names [] (block_of docid))) ++ results docids

  -- A block does not hold more matches than it has sequence numbers.
  abbrev pub HasRoom : ℕ → Type 0
  HasRoom docid = length (select found (block_names [] (block_of docid))) ≤ 2 ^ 32

  scan_docids-Tiles :
      (docids : List ℕ) (i first end : ℕ)
      → first ≡ i * 2 ^ 32
      → end ≡ (i + length docids) * 2 ^ 32
      → i + length docids < 2 ^ 32
      → All HasRoom docids
      → Tiles first end (scan_docids is_ok found block_of docids i)
  unfolding scan_docids
  scan_docids-Tiles [] i first end f e bound room = omega arith
  scan_docids-Tiles (docid ∷ docids) i first end f e bound (fits, room) =
      Tiles-append first (suc i * 2 ^ 32) end _ _
        (subst
          (λ (t : ℕ). Tiles t (suc i * 2 ^ 32) (scan_file_block is_ok found (block_of docid) i))
          (sym f) (scan_file_block-Tiles is_ok found (block_of docid) i (omega arith) fits))
        (scan_docids-Tiles docids (i + 1) (suc i * 2 ^ 32) end (omega arith) (omega arith)
          (omega arith) room)

  scan_docids-messages :
      (docids : List ℕ) (i : ℕ)
      → messages (scan_docids is_ok found block_of docids i) ≡ results docids
  unfolding scan_docids results messages
  scan_docids-messages [] i = refl
  scan_docids-messages (docid ∷ docids) i =
      messages-append (scan_file_block is_ok found (block_of docid) i) _
      ∙ ap (λ t. t ++ messages (scan_docids is_ok found block_of docids (i + 1)))
          (scan_file_block-messages is_ok found (block_of docid) i)
      ∙ ap (◌++◌ (shown is_ok (select found (block_names [] (block_of docid)))))
          (scan_docids-messages docids (i + 1))

  -- For fewer than 2 ^ 32 blocks with at most 2 ^ 32 matches each and a limit of at least one: in
  -- whatever order the blocks are read and the files are tested, the search prints the names that
  -- match and can be seen in the order of the blocks and of the names in each, up to the limit.
  pub scan_docids-printed :
      (docids : List ℕ) (calls : List Element) (limit : ℕ)
      → length docids < 2 ^ 32
      → 1 ≤ limit
      → All HasRoom docids
      → Reorders calls (scan_docids is_ok found block_of docids 0)
      → (print_all false (new_serializer (new_output limit)) calls).out.printed
        ≡ take limit (results docids)
  scan_docids-printed docids calls limit bound pos room p =
      print_all-messages calls (scan_docids is_ok found block_of docids 0) (length docids * 2 ^ 32)
        limit (omega arith) pos
        (scan_docids-Tiles docids 0 0 (length docids * 2 ^ 32) refl (omega arith) (omega arith)
          room)
        p
      ∙ ap (take limit) (scan_docids-messages docids 0)
