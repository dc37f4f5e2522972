-- ===== src/Rules/Offline.antt =====
-- src/minemonitor/rules/offline.py: alarms for assets that went silent while they were active.
pub mod Outages
mod Tests
use mine_intelligence.Prelude.{
  Bool, List, Option, String, [], false, if◌then◌else◌, ltb, none, not, some, ℕ, ◌&&◌, ◌+◌, ◌∷◌,
}
use mine_intelligence.Storage.{Event, EventId, Session, commit}
use mine_intelligence.Notifications.Outbox.{Settings}
use mine_intelligence.Events.{alarmed_since, new_event_id}
use mine_intelligence.Rules.Occupancy.{persist_each}

-- The newest fix of an asset, as `latest_positions` returns it.
pub record LastFix : Type 0 where
  pub asset_id : String
  pub ts : ℕ
  pub ignition : Option Bool

unfoldable pub is_parked : Option Bool → Bool
is_parked none = false
is_parked (some on) = not on

-- The age is over the threshold, the asset is not parked, and no alarm is for this outage.
unfoldable pub is_offline : Session → String → ℕ → ℕ → LastFix → Bool
is_offline session site_id now threshold row =
    ltb (row.ts + threshold) now
    && (not (is_parked row.ignition)
        && not (alarmed_since session site_id "asset_offline" row.ts (some row.asset_id) none))

unfoldable pub offline_alarm : String → ℕ → LastFix → EventId → Event
offline_alarm site_id now row event_id = record {
  event_id = event_id;
  site_id = site_id;
  ts = now;
  type = "asset_offline";
  severity = "warning";
  asset_id = some row.asset_id;
  zone_id = none;
  source = "gnss_offline";
  state = "open";
  acknowledged_by = none;
  acknowledged_at = none;
  cleared_at = none;
}

-- The loop over the assets, which draws an id for each alarm.
unfoldable pub collect : String → ℕ → ℕ → List LastFix → Session → Session × List Event
collect site_id now threshold [] session = (session, [])
collect site_id now threshold (row ∷ rows) session =
    let (event_id, drawn) = new_event_id session in
    let (later, alarms) = collect site_id now threshold rows drawn in
    let (others, more) = collect site_id now threshold rows session in
    if is_offline session site_id now threshold row
    then (later, offline_alarm site_id now row event_id ∷ alarms)
    else (others, more)

-- detect_offline; `none` where the commit fails.
unfoldable pub detect_offline :
    Settings → List LastFix → Session → String → ℕ → ℕ → ℕ → Option (Session × List Event)
detect_offline settings rows session site_id now threshold clock =
    let (session', alarms) = collect site_id now threshold rows session in
    elim (commit (persist_each settings clock alarms session')) [
      | none ↦ none
      | some session'' ↦ some (session'', alarms)
    ]
