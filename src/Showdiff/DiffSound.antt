-- ===== src/Showdiff/DiffSound.antt =====
-- The events of `diff_snapshots` against the two snapshots as maps from paths to metadata.
use flocate.Prelude.{
  ℕ, ◌≡◌, Bool, true, List, [], ◌∷◌, ◌++◌, Bytes, bytes_eq, Option, none, some, All, if◌then◌else◌,
}
use flocate.Metadata.{
  FileMetadata, no_metadata, added, removed, modified, HistoryEvent, metadata_equals,
}
use flocate.Showdiff.Diff.{bytes_lt, Row, make_event, diff_rows}

-- The metadata of a path in a snapshot, and its first event in a list.
unfoldable pub lookup : Bytes → List Row → Option FileMetadata
lookup p [] = none
lookup p (row ∷ rows) = if bytes_eq p row.path then some row.metadata else lookup p rows

unfoldable pub event_of : Bytes → List HistoryEvent → Option HistoryEvent
event_of p [] = none
event_of p (event ∷ events) = if bytes_eq p event.path then some event else event_of p events

-- What is to be reported for a path.
unfoldable pub expected :
    Bool → Bytes → Option FileMetadata → Option FileMetadata → Option HistoryEvent
expected compare_atime p none none = none
expected compare_atime p none (some new) = some (make_event added p no_metadata new)
expected compare_atime p (some old) none = some (make_event removed p old no_metadata)
expected compare_atime p (some old) (some new) =
    if metadata_equals old new compare_atime then none else some (make_event modified p old new)

-- Paths in strictly increasing order.
abbrev pub Above : Bytes → List Row → Type 0
Above p rows = All (λ row. bytes_lt p row.path ≡ true) rows

abbrev pub IsIncreasing : List Row → Type 0
IsIncreasing [] = Unit
IsIncreasing (row ∷ rows) = Above row.path rows × IsIncreasing rows

-- The rest of the events, whatever was collected before.
record Reports (compare_atime : Bool) (olds news : List Row) (fuel : ℕ) (events : List HistoryEvent)
    : Type 0 where
  later : List HistoryEvent
  returned : diff_rows compare_atime fuel olds news events ≡ some (events ++ later)
  right : (p : Bytes) → event_of p later ≡ expected compare_atime p (lookup p olds) (lookup p news)
