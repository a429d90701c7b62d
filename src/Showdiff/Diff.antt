-- ===== src/Showdiff/Diff.antt =====
-- `diff_snapshots` and the event filter of src/showdiff.cpp.
use flocate.Prelude.{
  ℕ, zero, suc, ◌+◌, Bool, true, false, List, [], ◌∷◌, ◌++◌, Bytes, bytes_eq, Option, none, some,
  length, ◌==◌, ltb, if◌then◌else◌, not,
}
use flocate.Metadata.{
  FileMetadata, no_metadata, HistoryEventKind, added, removed, modified, HistoryEvent,
  unknown_dir_time, metadata_equals,
}

-- `a.compare(b) < 0`
unfoldable pub bytes_lt : Bytes → Bytes → Bool
bytes_lt a [] = false
bytes_lt [] (y ∷ b) = true
bytes_lt (x ∷ a) (y ∷ b) = if x == y then bytes_lt a b else ltb x y

-- paths[i] with metadata[i]; `load_snapshot` gives both vectors the same length.
pub record Row : Type 0 where
  pub path : Bytes
  pub metadata : FileMetadata

unfoldable pub make_event : HistoryEventKind → Bytes → FileMetadata → FileMetadata → HistoryEvent
make_event kind path old_meta new_meta = record {
  kind = kind;
  path = path;
  event_time = unknown_dir_time;
  old_metadata = old_meta;
  new_metadata = new_meta;
}

unfoldable pub modified_event : Bool → Row → Row → List HistoryEvent
modified_event compare_atime old new =
    if not (metadata_equals old.metadata new.metadata compare_atime)
    then make_event modified new.path old.metadata new.metadata ∷ []
    else []

abbrev pub removed_event : Row → HistoryEvent
removed_event old = make_event removed old.path old.metadata no_metadata

abbrev pub added_event : Row → HistoryEvent
added_event new = make_event added new.path no_metadata new.metadata

-- The loop on the rows from `i` and from `j` on, and the events so far.
unfoldable pub diff_rows :
    Bool → ℕ → List Row → List Row → List HistoryEvent → Option (List HistoryEvent)
diff_rows compare_atime zero olds news events = none
diff_rows compare_atime (suc fuel) [] [] events = some events
diff_rows compare_atime (suc fuel) [] (new ∷ news) events =
    diff_rows compare_atime fuel [] news (events ++ (added_event new ∷ []))
diff_rows compare_atime (suc fuel) (old ∷ olds) [] events =
    diff_rows compare_atime fuel olds [] (events ++ (removed_event old ∷ []))
diff_rows compare_atime (suc fuel) (old ∷ olds) (new ∷ news) events =
    let both =
      diff_rows compare_atime fuel olds news (events ++ modified_event compare_atime old new) in
    let only_old =
      diff_rows compare_atime fuel olds (new ∷ news) (events ++ (removed_event old ∷ [])) in
    let only_new =
      diff_rows compare_atime fuel (old ∷ olds) news (events ++ (added_event new ∷ [])) in
    if bytes_eq old.path new.path
    then both
    else if bytes_lt old.path new.path
    then only_old
    else only_new

-- Each round consumes a row; `none` would mean that the fuel ran out.
unfoldable pub diff_snapshots : Bool → List Row → List Row → Option (List HistoryEvent)
diff_snapshots compare_atime old_snap new_snap =
    diff_rows compare_atime (suc (length old_snap + length new_snap)) old_snap new_snap []
