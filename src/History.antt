-- ===== src/History.antt =====
-- src/updatedb.cpp: the trimming of the change history to a number of runs.
pub mod Runs
mod Examples
use flocate.Prelude.{
  ℕ, zero, suc, ◌+◌, ◌-◌, ◌%◌, ◌^◌, Bool, true, false, not, ◌||◌, List, [], ◌∷◌, ◌++◌, length, drop,
  get_or, is_empty, ◌==◌, if◌then◌else◌,
}
use flocate.Prelude.Int.{ℤ, pos, negsuc, ltb_ℤ, of_word, half32}
use flocate.Metadata.{HistoryEvent, is_run_marker}

-- The loop that collects the positions of the run markers, from position `i` on.
unfoldable pub run_markers_from : ℕ → List HistoryEvent → List ℕ
run_markers_from i [] = []
run_markers_from i (event ∷ events) =
    let rest = run_markers_from (i + 1) events in
    if is_run_marker event.kind then i ∷ rest else rest

-- Events in front of the first marker are a run of their own.
unfoldable pub run_starts : List HistoryEvent → List ℕ
run_starts [] = []
run_starts (event ∷ events) =
    if not (is_run_marker event.kind)
    then 0 ∷ run_markers_from 0 (event ∷ events)
    else run_markers_from 0 (event ∷ events)

-- `static_cast<int>(size)`
abbrev pub as_int : ℕ → ℤ
as_int size = of_word half32 (size % 2 ^ 32)

-- The index `run_starts.size() - max_runs`, for a limit that is positive.
abbrev pub kept_run : ℕ → ℤ → ℕ
kept_run size (pos max_runs) = size - max_runs
kept_run size (negsuc n) = size

unfoldable pub trim_history_runs : List HistoryEvent → ℤ → List HistoryEvent
trim_history_runs events max_runs =
    let starts = run_starts events in
    if not (ltb_ℤ (pos 0) max_runs)
    then []
    else if is_empty events
    then events
    else if is_empty starts
    then events
    else if not (ltb_ℤ max_runs (as_int (length starts)))
    then events
    else drop (get_or starts (kept_run (length starts) max_runs) 0) events
