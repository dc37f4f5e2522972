-- ===== src/Cycles/Visits.antt =====
-- Visits to a zone (src/minemonitor/cycles/statemachine.py). Times are whole microseconds.
pub mod Laws
pub mod Timed
use mathlib.Core.List.{reverse}
use mine_intelligence.Prelude.{
  Bool, List, Option, String, [], drop, false, get_elem?, if◌then◌else◌, ltb, none, some, str_eq,
  take, true, ℕ, ◌+◌, ◌-◌, ◌∷◌,
}

-- The fixes from `start` up to, and without, `end`.
pub record Visit : Type 0 where
  pub enter_ts : ℕ
  pub exit_ts : ℕ
  pub start : ℕ
  pub end : ℕ

-- A run inside joins the visit before it if the time outside was shorter than `min_exit`. The
-- visits are the newest first here.
unfoldable pub add_run : ℕ → Visit → List Visit → List Visit
add_run min_exit run [] = run ∷ []
add_run min_exit run (prev ∷ out) =
    if ltb run.enter_ts (prev.exit_ts + min_exit)
    then record prev { exit_ts = run.exit_ts; end = run.end } ∷ out
    else run ∷ prev ∷ out

-- The scan at fix `i`: the start and the time of the run that is open, if any, and the time of the
-- fix before.
unfoldable pub scan : ℕ → ℕ → Option (ℕ × ℕ) → ℕ → List (Bool × ℕ) → List Visit → List Visit
scan min_exit i none last [] out = out
scan min_exit i (some (start, enter)) last [] out =
    add_run min_exit (record { enter_ts = enter; exit_ts = last; start = start; end = i }) out
scan min_exit i none last ((true, t) ∷ rest) out = scan min_exit (i + 1) (some (i, t)) t rest out
scan min_exit i none last ((false, t) ∷ rest) out = scan min_exit (i + 1) none t rest out
scan min_exit i (some run) last ((true, t) ∷ rest) out = scan min_exit (i + 1) (some run) t rest out
scan min_exit i (some (start, enter)) last ((false, t) ∷ rest) out =
    scan min_exit (i + 1) none t rest
      (add_run min_exit (record { enter_ts = enter; exit_ts = t; start = start; end = i }) out)

-- _visits
unfoldable pub visits : List (Bool × ℕ) → ℕ → List Visit
unfolding scan add_run
visits flags min_exit = reverse (scan min_exit 0 none 0 flags [])

-- times[k]
unfoldable pub time_at : List ℕ → ℕ → ℕ
time_at times k = elim (get_elem? times k) [ none ↦ 0 | some t ↦ t ]

-- A dictionary of counts, in the order of its keys' first occurrences.
count_one : String → List (String × ℕ) → List (String × ℕ)
count_one z [] = (z, 1) ∷ []
count_one z ((y, n) ∷ counts) =
    let rest = count_one z counts in if str_eq y z then (y, n + 1) ∷ counts else (y, n) ∷ rest

count_labels : List (Option String) → List (String × ℕ) → List (String × ℕ)
count_labels [] counts = counts
count_labels (none ∷ labels) counts = count_labels labels counts
count_labels (some z ∷ labels) counts = count_labels labels (count_one z counts)

-- most_common(1): of the most frequent, the first
most_common : List (String × ℕ) → Option (String × ℕ)
most_common [] = none
most_common ((z, n) ∷ counts) = elim (most_common counts) [
  | none ↦ some (z, n)
  | some (y, m) ↦ if ltb n m then some (y, m) else some (z, n)
]

-- _credited_zone
unfoldable pub credited_zone : Visit → List (Option String) → Option String
unfolding count_one count_labels most_common
credited_zone visit labels =
    elim (most_common
      (count_labels (take (visit.end - visit.start) (drop visit.start labels)) [])) [
        | none ↦ none
        | some (z, n) ↦ some z
      ]
