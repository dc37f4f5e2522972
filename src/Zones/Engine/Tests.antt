-- ===== src/Zones/Engine/Tests.antt =====
-- A visit with a fix in the buffer, and the theorems at it.
use mine_intelligence.Prelude.{List, [], arith, false, none, refl, some, true, ℕ, ◌∷◌, ◌≡◌}
use mine_intelligence.Rules.Config.{RuleConfig}
use mine_intelligence.Zones.Engine.{breaks_run, entry, step}
use mine_intelligence.Zones.Engine.History.{
  Reading, after, edge, fresh, inside-after, inside-after_band, is_inside, newest, run_length,
  run_start, transition-after,
}

abbrev cfg : RuleConfig
cfg = record {
  debounce_in = 2;
  exit_debounce = 2;
  hysteresis_m = 15000;
  min_entry_dwell_s = 0;
  authorized_classes = none;
  speed_limit_kph = none;
  overspeed_consecutive = 3;
  dwell_s = none;
  breach_severity = "critical";
  overspeed_severity = "warning";
  dwell_severity = "warning";
}

abbrev in_at : ℕ → Reading
in_at ts = record { inside_raw = true; dist_outside_m = 0; ts = ts }

abbrev out_at : ℕ → ℕ → Reading
out_at dist ts = record { inside_raw = false; dist_outside_m = dist; ts = ts }

abbrev two_fixes : List Reading
two_fixes = in_at 2000000 ∷ in_at 1000000 ∷ []

inside-after_example : (after cfg (some 600000000) (fresh "ran" "t1" "pit") two_fixes).inside ≡ true
unfolding is_inside run_length run_start newest breaks_run
inside-after_example =
    inside-after cfg (some 600000000) (omega arith) (omega arith) "ran" "t1" "pit" two_fixes

transition-after_example :
    (step
      (after cfg (some 600000000) (fresh "ran" "t1" "pit") (in_at 1000000 ∷ []))
      true
      0
      2000000
      cfg
      (some 600000000)).1
    ≡ some entry
unfolding is_inside run_length run_start newest breaks_run edge
transition-after_example =
    transition-after cfg (some 600000000) (omega arith) (omega arith) "ran" "t1" "pit"
      (in_at 2000000) (in_at 1000000 ∷ [])

inside-after_band_example :
    ((after cfg none
        (fresh "ran" "t1" "pit")
        (out_at 9000 9000000 ∷ out_at 14000 3000000 ∷ two_fixes)).inside
      ≡ true)
    × ((step
          (after cfg none (fresh "ran" "t1" "pit") (out_at 14000 3000000 ∷ two_fixes))
          false
          9000
          9000000
          cfg
          none).1
        ≡ none)
unfolding after step breaks_run
inside-after_band_example =
    inside-after_band cfg none (omega arith) (omega arith) "ran" "t1" "pit" (out_at 9000 9000000)
      (out_at 14000 3000000 ∷ []) two_fixes ((refl, omega arith), ((refl, omega arith), tt)) refl
