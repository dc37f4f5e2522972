-- ===== src/Pipeline/Tests.antt =====
-- A truck enters a restricted zone, and the theorems at it.
use mine_intelligence.Prelude.{[], arith, none, refl, some, true, ◌∷◌, ◌≡◌}
use mine_intelligence.Prelude.Table.{lookup}
use mine_intelligence.Rules.Config.{parse_rules}
use mine_intelligence.Storage.{Session}
use mine_intelligence.Zones.Engine.{AssetZoneState, breaks_run, step}
use mine_intelligence.Zones.Engine.History.{fresh}
use mine_intelligence.Rules.Evaluate.{Position, Zone, authorized, on_inzone_fix}
use mine_intelligence.Rules.Evaluate.Laws.{raises}
use mine_intelligence.Notifications.Outbox.{Settings}
use mine_intelligence.Pipeline.{Geometry, LiveSettings, evaluate, heal, process_position, skips}
use mine_intelligence.Pipeline.Laws.{
  last-process_position, last_of, process_position_again, process_position_late,
}
use mine_intelligence.Pipeline.Breach.{breach-evaluate}

abbrev gate : Zone
gate = record {
  zone_id = "gate";
  site_id = "ran";
  name = "Gate";
  kind = "restricted";
  rules = record {
    debounce_in = some 1;
    exit_debounce = none;
    hysteresis_m = none;
    min_entry_dwell_s = none;
    authorized_classes = some ("excavator" ∷ []);
    speed_limit_kph = none;
    overspeed_consecutive = none;
    dwell_s = none;
    severity = none;
  };
}

abbrev everywhere : Geometry
everywhere = record { point_in_polygon = λ p z. true; distance_to_polygon_m = λ p z. 0 }

abbrev live : LiveSettings
live = record { max_skew = 120000000; max_gap_s = 600000000 }

abbrev silent : Settings
silent = record {
  notify_min_severity = "";
  notify_webhook_url = "";
  notify_smtp_host = "";
  notify_email_to = "";
  notify_whatsapp_url = "";
  notify_whatsapp_to = "";
}

abbrev fix : Position
fix = record {
  site_id = "ran";
  asset_id = "t1";
  ts = 100;
  received_at = 150;
  lat = 0;
  lon = 0;
  speed_kph = none;
}

abbrev start : Session
start = record {
  events = [];
  added_events = [];
  notifications = [];
  added_notifications = [];
  drawn = 0;
}

breach-evaluate_example :
    raises "zone_breach" (evaluate everywhere live fix "truck" gate (fresh "ran" "t1" "gate") 0).1
    ≡ true
unfolding evaluate heal step on_inzone_fix authorized parse_rules breaks_run
breach-evaluate_example =
    breach-evaluate everywhere live fix "truck" gate (fresh "ran" "t1" "gate") 0

abbrev seen : AssetZoneState
seen = record (fresh "ran" "t1" "gate") { last_ts = some 100 }

process_position_late_example :
    process_position everywhere live silent 5 start
      (gate ∷ [])
      (("gate", seen) ∷ [])
      "truck"
      fix
      true
    ≡ (start, ("gate", seen) ∷ [], [])
unfolding skips lookup
process_position_late_example =
    process_position_late everywhere live fix "truck" silent 5 start (gate ∷ [])
      (("gate", seen) ∷ []) (refl, tt)

process_position_again_example :
    let (session', states', alarms) =
      process_position everywhere live silent 5 start (gate ∷ []) [] "truck" fix true in
    process_position everywhere live silent 9 session' (gate ∷ []) states' "truck" fix true
    ≡ (session', states', [])
process_position_again_example =
    process_position_again everywhere live fix "truck" silent 5 9 start (gate ∷ []) [] (omega arith)

last-process_position_example :
    last_of (
      lookup
        (process_position everywhere live silent 5 start
          (gate ∷ [])
          (("gate", seen) ∷ [])
          "truck"
          (record fix { ts = 101 })
          true).1
        "gate")
    ≡ some 101
unfolding lookup
last-process_position_example =
    last-process_position everywhere live (record fix { ts = 101 }) "truck" silent 5 start
      (gate ∷ []) (("gate", seen) ∷ []) "gate" refl
