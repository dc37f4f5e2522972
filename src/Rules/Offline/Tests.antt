-- ===== src/Rules/Offline/Tests.antt =====
-- A truck that goes silent beside one that is parked, and the theorems at it.
use mine_intelligence.Events.{alarmed_since, new_event_id, persist_event}
use mine_intelligence.Rules.Occupancy.{persist_each}
use mine_intelligence.Prelude.{List, [], any, arith, false, refl, some, true, ◌∷◌, ◌≡◌}
use mine_intelligence.Storage.{Event, Session, commit, ulid}
use mine_intelligence.Notifications.Outbox.{Settings, enqueue_for_event, qualifies}
use mine_intelligence.Rules.Offline.{
  LastFix, collect, detect_offline, is_offline, is_parked, offline_alarm,
}
use mine_intelligence.Rules.Offline.Outages.{detect_offline_once, is_for}

abbrev silent : Settings
silent = record {
  notify_min_severity = "";
  notify_webhook_url = "";
  notify_smtp_host = "";
  notify_email_to = "";
  notify_whatsapp_url = "";
  notify_whatsapp_to = "";
}

abbrev no_alarms : Session
no_alarms = record {
  events = [];
  added_events = [];
  notifications = [];
  added_notifications = [];
  drawn = 3;
}

abbrev truck : LastFix
truck = record { asset_id = "T1"; ts = 1000; ignition = some true }

abbrev parked : LastFix
parked = record { asset_id = "T2"; ts = 900; ignition = some false }

abbrev fixes : List LastFix
fixes = truck ∷ parked ∷ []

abbrev alarm : Event
alarm = offline_alarm "ran" 1700 truck (ulid 3)

abbrev alarmed : Session
alarmed = record no_alarms { events = alarm ∷ []; drawn = 4 }

first_check : detect_offline silent fixes no_alarms "ran" 1700 600 1700 ≡ some (alarmed, alarm ∷ [])
unfolding detect_offline commit persist_each collect is_offline is_parked alarmed_since
    persist_event enqueue_for_event qualifies new_event_id
first_check = refl

later_check : detect_offline silent fixes alarmed "ran" 2400 600 2400 ≡ some (alarmed, [])
unfolding detect_offline commit persist_each collect is_offline is_parked alarmed_since
    offline_alarm
later_check = refl

-- A new fix, and a new silence after it, is a new outage.
new_outage :
    any (is_for "T1") (collect "ran" 2400 600 (record truck { ts = 1750 } ∷ []) alarmed).1 ≡ true
unfolding collect is_offline is_parked alarmed_since offline_alarm
new_outage = refl

detect_offline_once_example : any (is_for "T1") [] ≡ false
unfolding offline_alarm
detect_offline_once_example =
    detect_offline_once silent fixes no_alarms alarmed alarmed "ran" "T1" 1700 2400 600 1700 2400
      (alarm ∷ []) [] refl (omega arith, (omega arith, tt)) first_check later_check refl
