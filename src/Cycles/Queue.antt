-- ===== src/Cycles/Queue.antt =====
-- The queue in front of the loader in a load visit (src/minemonitor/cycles/statemachine.py).
use mine_intelligence.Prelude.{
  Bool, List, Option, String, [], get_elem?, if◌then◌else◌, leb, length, ltb, min, none, some, suc,
  zero, ℕ, ◌+◌, ◌-◌, ◌∷◌,
}
use mine_intelligence.Cycles.Visits.{Visit, time_at}
use mine_intelligence.Cycles.Stops.{
  Fix, Geometry, LoaderFix, Stop, beside, loader_match, min_load, stops,
}

unfoldable pub stop_length : List ℕ → Stop → ℕ
stop_length times stop = time_at times (min stop.end (length times - 1)) - time_at times stop.start

-- The first stop, with its place in the list, that is long enough and has a loader beside it.
unfoldable pub paired :
    Geometry → List ℕ → List (String × List LoaderFix) → ℕ → ℕ → List Stop → Option (ℕ × String)
paired geometry times ls pairing_m k [] = none
paired geometry times ls pairing_m k (stop ∷ rest) =
    let later = paired geometry times ls pairing_m (k + 1) rest in
    if ltb (stop_length times stop) min_load
    then later
    else elim (beside geometry ls stop.place (time_at times stop.start - loader_match)
        (time_at times (stop.end - 1) + loader_match) pairing_m) [
          | none ↦ later
          | some id ↦ some (k, id)
        ]

-- The place of the last stop that is long enough.
unfoldable pub last_long : List ℕ → ℕ → List Stop → Option ℕ
last_long times k [] = none
last_long times k (stop ∷ rest) = elim (last_long times (k + 1) rest) [
  | some j ↦ some j
  | none ↦ if leb min_load (stop_length times stop) then some k else none
]

-- The time waited before the stop at `loading`.
unfoldable pub waited : List ℕ → List Stop → ℕ → ℕ
waited times [] loading = 0
waited times (first ∷ rest) zero = 0
waited times (first ∷ rest) (suc k) = elim (get_elem? (first ∷ rest) k) [
  | none ↦ 0
  | some before ↦ time_at times before.end - time_at times first.start
]

-- the place of the loading stop in the list
unfoldable pub loading_stop : List ℕ → List Stop → Option (ℕ × String) → ℕ
loading_stop times found (some (k, id)) = k
loading_stop times found none = elim (last_long times 0 found) [
  | none ↦ length found - 1
  | some k ↦ k
]

-- _queue_seconds, in microseconds; `fixes` has whether each fix moves
unfoldable pub queue_seconds :
    Geometry
    → List ℕ
    → List (Bool × Fix)
    → Visit
    → List (String × List LoaderFix)
    → ℕ
    → ℕ × Option String
queue_seconds geometry times fixes visit ls pairing_m =
    let found = stops geometry fixes visit in
    let pair = paired geometry times ls pairing_m 0 found in
    (
      waited times found (loading_stop times found pair),
      elim pair [ none ↦ none | some (k, id) ↦ some id ],
    )
