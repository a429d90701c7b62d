-- ===== src/History/Runs.antt =====
-- What the trimmed history keeps.
use flocate.Prelude.{
  ℕ, zero, suc, ◌+◌, ◌-◌, ◌^◌, ◌<◌, min, ◌≡◌, refl, ap, ◌∙◌, Bool, true, false, List, [], ◌∷◌,
  length, drop, get_or, is_empty, arith, ltb, if◌then◌else◌, inl, inr, Bool-cases,
}
use flocate.Prelude.Int.{pos, ltb_ℤ, of_word}
use native.Mathlib.Nat.{zero-add}
use flocate.Metadata.{HistoryEvent, is_run_marker}
use flocate.History.{run_markers_from, run_starts, as_int, trim_history_runs}

-- The number of run markers, and the number of runs, of which the first may lack its marker.
unfoldable pub markers : List HistoryEvent → ℕ
markers [] = 0
markers (event ∷ events) = if is_run_marker event.kind then suc (markers events) else markers events

unfoldable pub runs : List HistoryEvent → ℕ
runs [] = 0
runs (event ∷ events) = suc (markers events)

abbrev pub starts_run : List HistoryEvent → Bool
starts_run [] = false
starts_run (event ∷ events) = is_run_marker event.kind

length-run_markers :
    (i : ℕ) (events : List HistoryEvent) → length (run_markers_from i events) ≡ markers events
unfolding run_markers_from markers
length-run_markers i [] = refl
length-run_markers i (event ∷ events) = ground (arith, length-run_markers (i + 1) events)

length-run_starts : (events : List HistoryEvent) → length (run_starts events) ≡ runs events
unfolding run_starts runs run_markers_from
length-run_starts [] = refl
length-run_starts (event ∷ events) = ground (arith, length-run_markers 1 events)

-- Where marker number `j` stands, and what follows it.
record Marker (i : ℕ) (events : List HistoryEvent) (j : ℕ) : Type 0 where
  at : ℕ
  found : get_or (run_markers_from i events) j 0 ≡ i + at
  left : markers (drop at events) + j ≡ markers events
  here : starts_run (drop at events) ≡ true

run_markers-Marker :
    (i : ℕ) (events : List HistoryEvent) (j : ℕ) → j < markers events → Marker i events j
unfolding run_markers_from markers
run_markers-Marker i [] j h = absurd (omega arith)
run_markers-Marker i (event ∷ events) zero h = elim (Bool-cases (is_run_marker event.kind)) [
  | inr other ↦
      let m = run_markers-Marker (i + 1) events zero (ground arith) in
      record {
        at = suc m.at;
        found = rw other (omega (arith, m.found));
        left = ground (arith, m.left);
        here = m.here;
      }
  | inl marker ↦ record {
    at = 0;
    found = rw marker (omega arith);
    left = omega arith;
    here = marker;
  }
]
run_markers-Marker i (event ∷ events) (suc j) h = elim (Bool-cases (is_run_marker event.kind)) [
  | inr other ↦
      let m = run_markers-Marker (i + 1) events (suc j) (ground arith) in
      record {
        at = suc m.at;
        found = rw other (omega (arith, m.found));
        left = ground (arith, m.left);
        here = m.here;
      }
  | inl marker ↦
      let m = run_markers-Marker (i + 1) events j (ground arith) in
      record {
        at = suc m.at;
        found = rw marker (omega (arith, m.found));
        left = ground (arith, m.left);
        here = m.here;
      }
]

runs-marker : (events : List HistoryEvent) → starts_run events ≡ true → runs events ≡ markers events
unfolding runs markers
runs-marker [] h = refl
runs-marker (event ∷ events) h = ground arith

starts-marker :
    (event : HistoryEvent) (events : List HistoryEvent)
    → is_run_marker event.kind ≡ true
    → run_starts (event ∷ events) ≡ run_markers_from 0 (event ∷ events)
unfolding run_starts
starts-marker event events h = rw h refl

starts-other :
    (event : HistoryEvent) (events : List HistoryEvent)
    → is_run_marker event.kind ≡ false
    → run_starts (event ∷ events) ≡ 0 ∷ run_markers_from 0 (event ∷ events)
unfolding run_starts
starts-other event events h = rw h refl

-- The run that the trimmed history starts with, where something is dropped.
start_of_run :
    (events : List HistoryEvent) (j : ℕ)
    → 0 < j
    → j < runs events
    → (at : ℕ) × (get_or (run_starts events) j 0 ≡ at) × (runs (drop at events) + j ≡ runs events)
unfolding runs markers
start_of_run [] j some_left h = absurd (omega arith)
start_of_run (event ∷ events) zero some_left h = absurd (omega arith)
start_of_run (event ∷ events) (suc j) some_left h = elim (Bool-cases (is_run_marker event.kind)) [
  | inl marker ↦
      let m = run_markers-Marker 0 (event ∷ events) (suc j) (ground arith) in
      let at_marker = runs-marker (drop m.at (event ∷ events)) m.here in
      (
        m.at,
        ap (λ l. get_or l (suc j) 0) (starts-marker event events marker) ∙ m.found ∙ zero-add m.at,
        ground (arith, at_marker, m.left),
      )
  | inr other ↦
      let m = run_markers-Marker 0 (event ∷ events) j (ground arith) in
      let at_marker = runs-marker (drop m.at (event ∷ events)) m.here in
      (
        m.at,
        ap (λ l. get_or l (suc j) 0) (starts-other event events other) ∙ m.found ∙ zero-add m.at,
        ground (arith, at_marker, m.left),
      )
]

as_int-pos : (n : ℕ) → n < 2 ^ 31 → as_int n ≡ pos n
unfolding of_word
as_int-pos n h = ground arith

-- A history of fewer than 2 ^ 31 runs is trimmed, for a positive limit, to its last runs: the result
-- is the end of the history, with as many runs as the limit allows.
pub trim_history_runs-runs :
    (events : List HistoryEvent) (max_runs : ℕ)
    → 0 < max_runs
    → runs events < 2 ^ 31
    → (at : ℕ) × (trim_history_runs events (pos max_runs) ≡ drop at events)
      × (runs (drop at events) ≡ min max_runs (runs events))
unfolding trim_history_runs
trim_history_runs-runs [] max_runs h few = (0, ground arith, unfold runs in omega arith)
trim_history_runs-runs (event ∷ events) max_runs h few =
    let all = event ∷ events in
    let size = length-run_starts all in
    let positive : ltb 0 max_runs ≡ true = ground arith in
    let some_run : is_empty (run_starts all) ≡ false =
      not_empty (run_starts all) (omega (arith, size, runs_pos)) in
    let limit = ap (ltb_ℤ (pos max_runs)) (ap as_int size ∙ as_int-pos (runs all) few) in
    elim (Bool-cases (ltb max_runs (runs all))) [
      | inl more ↦
          let (at, e, kept) =
            start_of_run all (runs all - max_runs) (ground arith) (ground arith) in
          (at, rw (positive, some_run, limit, more, size, e) refl, ground (arith, kept))
      | inr enough ↦ (0, rw (positive, some_run, limit, enough) refl, ground arith)
    ]
  where
    runs_pos : 0 < runs (event ∷ events)
    runs_pos = unfold runs in omega arith

    not_empty : (l : List ℕ) → 0 < length l → is_empty l ≡ false
    not_empty [] k = absurd (omega arith)
    not_empty (x ∷ l) k = refl
