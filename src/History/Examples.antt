-- ===== src/History/Examples.antt =====
-- A history of three runs.
use flocate.Prelude.{ℕ, ◌^◌, ◌≡◌, ◌<◌, refl, List, [], ◌∷◌, codes, drop, min, arith}
use flocate.Prelude.Int.{pos, negsuc}
use flocate.Metadata.{
  HistoryEvent, HistoryEventKind, run_marker, added, no_metadata, unknown_dir_time, is_run_marker,
}
use flocate.History.{trim_history_runs}
use flocate.History.Runs.{runs, markers, trim_history_runs-runs}

abbrev event : HistoryEventKind → HistoryEvent
event kind = record {
  kind = kind;
  path = codes "/a";
  event_time = unknown_dir_time;
  old_metadata = no_metadata;
  new_metadata = no_metadata;
}

abbrev three_runs : List HistoryEvent
three_runs = event added ∷ event run_marker ∷ event added ∷ event run_marker ∷ []

no_limit : trim_history_runs three_runs (negsuc 0) ≡ []
unfolding trim_history_runs
no_limit = refl

few_runs : runs three_runs < 2 ^ 31
unfolding runs markers is_run_marker
few_runs = omega arith

trim_history_runs-runs_example :
    (at : ℕ) × (trim_history_runs three_runs (pos 2) ≡ drop at three_runs)
    × (runs (drop at three_runs) ≡ min 2 (runs three_runs))
trim_history_runs-runs_example = trim_history_runs-runs three_runs 2 (omega arith) few_runs
