-- ===== src/Rules/Evaluate/Tests.antt =====
-- A visit over the limit and standing, and the theorems at it.
use mine_intelligence.Prelude.{Option, [], none, refl, some, true, ℕ, ◌∷◌, ◌≡◌}
use mine_intelligence.Rules.Config.{RuleConfig, parse_rules}
use mine_intelligence.Zones.Engine.History.{fresh}
use mine_intelligence.Rules.Evaluate.{Position, Zone, on_inzone_fix}
use mine_intelligence.Rules.Evaluate.Laws.{
  alarmed, dwell-visit, dwelt, fast_run, overspeed-visit, raises, stands_since, visit,
}

abbrev pit : Zone
pit = record {
  zone_id = "pit";
  site_id = "ran";
  name = "Pit";
  kind = "speed_limited";
  rules = record {
    debounce_in = none;
    exit_debounce = none;
    hysteresis_m = none;
    min_entry_dwell_s = none;
    authorized_classes = none;
    speed_limit_kph = some 30000;
    overspeed_consecutive = some 2;
    dwell_s = some 60000000;
    severity = none;
  };
}

abbrev cfg : RuleConfig
cfg = record {
  debounce_in = 2;
  exit_debounce = 2;
  hysteresis_m = 15000;
  min_entry_dwell_s = 0;
  authorized_classes = none;
  speed_limit_kph = some 30000;
  overspeed_consecutive = 2;
  dwell_s = some 60000000;
  breach_severity = "critical";
  overspeed_severity = "warning";
  dwell_severity = "warning";
}

pit_cfg : parse_rules pit.rules ≡ cfg
unfolding parse_rules
pit_cfg = refl

abbrev at : ℕ → Option ℕ → Position
at ts speed = record {
  site_id = "ran";
  asset_id = "t1";
  ts = ts;
  received_at = ts;
  lat = 0;
  lon = 0;
  speed_kph = speed;
}

overspeed-visit_example :
    raises "overspeed"
      (on_inzone_fix
        (at 3 (some 40000))
        pit
        cfg
        (visit pit cfg 0 (fresh "ran" "t1" "pit") (at 2 (some 40000) ∷ at 1 none ∷ []))
        0).1
    ≡ true
unfolding fast_run alarmed
overspeed-visit_example =
    overspeed-visit pit cfg 0 30000 (fresh "ran" "t1" "pit") (at 3 (some 40000))
      (at 2 (some 40000) ∷ at 1 none ∷ []) refl refl refl

dwell-visit_example :
    raises "zone_dwell"
      (on_inzone_fix
        (at 60000001 (some 0))
        pit
        cfg
        (visit pit cfg 0 (fresh "ran" "t1" "pit") (at 2 none ∷ at 1 (some 1000) ∷ []))
        0).1
    ≡ true
unfolding stands_since dwelt
dwell-visit_example =
    dwell-visit pit cfg 0 60000000 (fresh "ran" "t1" "pit") (at 60000001 (some 0))
      (at 2 none ∷ at 1 (some 1000) ∷ []) refl refl refl
