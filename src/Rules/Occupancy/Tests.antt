-- ===== src/Rules/Occupancy/Tests.antt =====
-- A zone for one asset that two enter and leave, and the theorems at it.
use mine_intelligence.Events.{new_event_id, persist_event}
use mine_intelligence.Rules.Occupancy.Latest.{under_way}
use mine_intelligence.Prelude.{
  Option, String, [], any, false, if◌then◌else◌, none, pos, refl, some, str_eq, true, ℤ, ◌∷◌, ◌≡◌,
}
use mine_intelligence.Storage.{Event, Session, commit, distinct, same_id, ulid}
use mine_intelligence.Storage.Laws.{IsClean}
use mine_intelligence.Notifications.Outbox.{Settings, enqueue_for_event, qualifies}
use mine_intelligence.Zones.Engine.{AssetZoneState}
use mine_intelligence.Rules.Occupancy.{
  CappedZone, current_breach, current_occupancy, detect_zone_occupancy, is_alarm_of, is_named,
  latest, mark_cleared, occupancy_alarm, parse_cap,
}
use mine_intelligence.Rules.Occupancy.Episodes.{episode}
use mine_intelligence.Rules.Occupancy.Refinement.{episode-detect_zone_occupancy}

abbrev int_of : String → Option ℤ
int_of s = if str_eq s "1" then some (pos 1) else none

abbrev silent : Settings
silent = record {
  notify_min_severity = "";
  notify_webhook_url = "";
  notify_smtp_host = "";
  notify_email_to = "";
  notify_whatsapp_url = "";
  notify_whatsapp_to = "";
}

abbrev inside_of : String → AssetZoneState
inside_of asset_id = record {
  site_id = "ran";
  asset_id = asset_id;
  zone_id = "vault";
  inside = true;
  consec_in = 2;
  consec_out = 0;
  entered_at = some 10;
  overspeed_consec = 0;
  overspeed_fired = false;
  stationary_since = none;
  dwell_fired = false;
  last_ts = some 20;
}

abbrev vault : CappedZone
vault = record {
  zone_id = "vault";
  site_id = "ran";
  max_occupancy = some "1";
  severity = some "loud";
}

abbrev no_alarms : Session
no_alarms = record {
  events = [];
  added_events = [];
  notifications = [];
  added_notifications = [];
  drawn = 7;
}

abbrev vault_alarm : Event
vault_alarm = occupancy_alarm "ran" 100 vault (ulid 7)

abbrev alarmed : Session
alarmed = record no_alarms { events = vault_alarm ∷ []; drawn = 8 }

too_many :
    detect_zone_occupancy int_of silent
      (vault ∷ [])
      (inside_of "a" ∷ inside_of "b" ∷ [])
      no_alarms
      "ran"
      100
      100
    ≡ some (alarmed, vault_alarm ∷ [])
unfolding detect_zone_occupancy commit parse_cap current_occupancy current_breach latest
    persist_event enqueue_for_event qualifies new_event_id
too_many = refl

-- When the zone is back at its cap, the alarm is marked and none is raised.
back_at_cap :
    detect_zone_occupancy int_of silent (vault ∷ []) (inside_of "a" ∷ []) alarmed "ran" 160 160
    ≡ some (record alarmed { events = record vault_alarm { cleared_at = some 160 } ∷ [] }, [])
unfolding detect_zone_occupancy commit parse_cap current_occupancy current_breach latest is_alarm_of
    occupancy_alarm is_named mark_cleared same_id
back_at_cap = refl

no_alarms-IsClean : IsClean no_alarms
unfolding distinct
no_alarms-IsClean = record {
  no_events = refl;
  no_notifications = refl;
  events_distinct = refl;
  notifications_distinct = refl;
}

episode-detect_zone_occupancy_example :
    (episode (vault_alarm ∷ []) "ran" "vault" ≡ true)
    × (any (is_alarm_of "ran" "vault") (vault_alarm ∷ []) ≡ true)
unfolding distinct parse_cap current_occupancy under_way latest
episode-detect_zone_occupancy_example =
    episode-detect_zone_occupancy int_of (inside_of "a" ∷ inside_of "b" ∷ []) "ran" 100 "vault"
      silent (vault ∷ []) no_alarms alarmed 100 (vault_alarm ∷ []) refl no_alarms-IsClean tt
      too_many
