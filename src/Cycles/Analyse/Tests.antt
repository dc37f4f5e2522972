-- ===== src/Cycles/Analyse/Tests.antt =====
-- Two trips of a truck, and the theorems at it.
use mine_intelligence.Prelude.{
  All, Bool, List, [], false, if◌then◌else◌, leb, length, none, refl, some, str_eq, true, ℕ, ◌*◌,
  ◌-◌, ◌∷◌, ◌≡◌,
}
use mine_intelligence.Cycles.Visits.{visits}
use mine_intelligence.Cycles.Visits.Laws.{InOrder, visits-InOrder}
use mine_intelligence.Cycles.Stops.{Fix, Geometry, seconds}
use mine_intelligence.Cycles.Analyse.{
  Parameters, analyse_cycles, by_ts, can_open, compute_cycles, cycle_of, cycles_of, load_runs,
  long_enough, stream_of, zone_at,
}
use mine_intelligence.Cycles.Analyse.Laws.{AddsUp}
use mine_intelligence.Cycles.Analyse.Sums.{compute_cycles-AddsUp}
use mine_intelligence.Cycles.Analyse.Order.{Follow, compute_cycles-Follow}

-- A map of one dimension.
abbrev line : Geometry
line = record {
  haversine_m = λ a b. b.lat_sum * a.n - a.lat_sum * b.n;
  point_in_polygon = λ lat lon polygon. if str_eq polygon "pit" then leb lat 10 else leb 100 lat;
}

abbrev fix_at : ℕ → ℕ → Fix
fix_at t lat = record { ts = seconds t; lat = lat; lon = 0; speed_kph = some 0 }

-- The second and the third report come in the wrong order.
abbrev track : List Fix
track =
    fix_at 0 50
    ∷ fix_at 160 5
    ∷ fix_at 60 5
    ∷ fix_at 300 50
    ∷ fix_at 600 120
    ∷ fix_at 700 120
    ∷ fix_at 900 50
    ∷ fix_at 1200 5
    ∷ fix_at 1300 5
    ∷ fix_at 1500 50
    ∷ []

abbrev parameters : Parameters
parameters = record {
  load_zones = ("west", "pit") ∷ [];
  dump_zones = ("crusher", "tip") ∷ [];
  move_threshold_kph = 3;
  min_visit = seconds 30;
  min_exit = seconds 60;
  max_cycle = some (seconds 7200);
  leading_entry_known = false;
  opens_from = none;
  loaders = [];
  pairing_m = 0;
}

abbrev flags : List (Bool × ℕ)
flags = (false, 0) ∷ (true, 10) ∷ (true, 20) ∷ (false, 30) ∷ (true, 90) ∷ (false, 100) ∷ []

one_cycle : length (compute_cycles line parameters "T1" track) ≡ 1
unfolding compute_cycles analyse_cycles cycles_of load_runs visits stream_of by_ts zone_at
    long_enough cycle_of can_open
one_cycle = refl

visits-InOrder_example : InOrder 60 (visits flags 60)
visits-InOrder_example = visits-InOrder flags 60

compute_cycles-AddsUp_example : All AddsUp (compute_cycles line parameters "T1" track)
compute_cycles-AddsUp_example = compute_cycles-AddsUp line parameters "T1" track

compute_cycles-Follow_example :
    Follow (some (seconds 7200)) 0 0 (compute_cycles line parameters "T1" track)
compute_cycles-Follow_example = compute_cycles-Follow line parameters "T1" track
