-- ===== src/Rules/Occupancy.antt =====
-- src/minemonitor/rules/occupancy.py and src/minemonitor/zones/occupancy.py: alarms for zones with
-- more assets inside than their cap.
pub mod Latest
pub mod Marks
pub mod Episodes
pub mod Refinement
mod Tests
use mine_intelligence.Prelude.{
  Bool, List, Option, String, [], false, if◌then◌else◌, is_some, leb, length, ltb, negsuc, none,
  pos, select, some, str_eq, ℕ, ℤ, ◌&&◌, ◌++◌, ◌||◌, ◌∷◌,
}
use mine_intelligence.Storage.{Event, EventId, Session, commit, same_id}
use mine_intelligence.Notifications.Outbox.{Settings}
use mine_intelligence.Events.{new_event_id, persist_event}
use mine_intelligence.Zones.Engine.{AssetZoneState}

-- The row of a zone, with the two keys of its rules that the check reads: `max_occupancy` is the
-- text of its JSON value.
pub record CappedZone : Type 0 where
  pub zone_id : String
  pub site_id : String
  pub max_occupancy : Option String
  pub severity : Option String

-- parse_cap; `int_of` is Python's `int` on the value, `none` where it raises a TypeError or a
-- ValueError.
unfoldable pub parse_cap : (String → Option ℤ) → CappedZone → Option ℕ
parse_cap int_of zone = elim zone.max_occupancy [
  | none ↦ none
  | some raw ↦ elim (int_of raw) [
    | none ↦ none
    | some (pos cap) ↦ some cap
    | some (negsuc n) ↦ none
  ]
]

unfoldable pub cap_severity : CappedZone → String
cap_severity zone =
    let sev : String = elim zone.severity [ none ↦ "warning" | some s ↦ s ] in
    if str_eq sev "info" || (str_eq sev "warning" || str_eq sev "critical") then sev else "warning"

-- The rows of `asset_zone_state` that are inside the zone.
unfoldable pub current_occupancy : List AssetZoneState → String → String → ℕ
current_occupancy states site_id zone_id = length (
    select
      (λ (s : AssetZoneState). str_eq s.site_id site_id && (str_eq s.zone_id zone_id && s.inside))
      states)

unfoldable pub is_named : Option String → String → Bool
is_named none zone_id = false
is_named (some z) zone_id = str_eq z zone_id

-- A `zone_occupancy` alarm of that zone.
unfoldable pub is_alarm_of : String → String → Event → Bool
is_alarm_of site_id zone_id e =
    str_eq e.site_id site_id && (is_named e.zone_id zone_id && str_eq e.type "zone_occupancy")

-- ORDER BY ts DESC LIMIT 1, the first in the table if several are the latest.
unfoldable pub latest : (Event → Bool) → List Event → Option Event
latest p [] = none
latest p (e ∷ es) =
    let rest = latest p es in
    if p e
    then elim rest [ none ↦ some e | some f ↦ if ltb e.ts f.ts then some f else some e ]
    else rest

unfoldable pub uncleared : Option Event → Option Event
uncleared none = none
uncleared (some e) = if is_some e.cleared_at then none else some e

unfoldable pub current_breach : List Event → String → String → Option Event
unfolding uncleared
current_breach events site_id zone_id = uncleared (latest (is_alarm_of site_id zone_id) events)

-- The row with that id is marked `cleared_at`.
unfoldable pub mark_cleared : EventId → ℕ → List Event → List Event
mark_cleared event_id now [] = []
mark_cleared event_id now (e ∷ es) =
    (if same_id e.event_id event_id then record e { cleared_at = some now } else e)
    ∷ mark_cleared event_id now es

unfoldable pub occupancy_alarm : String → ℕ → CappedZone → EventId → Event
occupancy_alarm site_id now zone event_id = record {
  event_id = event_id;
  site_id = site_id;
  ts = now;
  type = "zone_occupancy";
  severity = cap_severity zone;
  asset_id = none;
  zone_id = some zone.zone_id;
  source = "gnss_occupancy";
  state = "open";
  acknowledged_by = none;
  acknowledged_at = none;
  cleared_at = none;
}

-- One turn of the loop over the zones.
unfoldable pub check_zone :
    (String → Option ℤ)
    → List AssetZoneState
    → String
    → ℕ
    → CappedZone
    → Session
    → Session × List Event
check_zone int_of states site_id now zone session =
    let breach = current_breach session.events site_id zone.zone_id in
    let (event_id, drawn) = new_event_id session in
    elim (parse_cap int_of zone) [
      | none ↦ (session, [])
      | some cap ↦
          if leb (current_occupancy states site_id zone.zone_id) cap
          then elim breach [
            | none ↦ (session, [])
            | some e ↦ (record session { events = mark_cleared e.event_id now session.events }, [])
          ]
          else if is_some breach
          then (session, [])
          else (drawn, occupancy_alarm site_id now zone event_id ∷ [])
    ]

unfoldable pub check_zones :
    (String → Option ℤ)
    → List AssetZoneState
    → String
    → ℕ
    → List CappedZone
    → Session
    → Session × List Event
unfolding check_zone
check_zones int_of states site_id now [] session = (session, [])
check_zones int_of states site_id now (zone ∷ zones) session =
    let (session', alarms) = check_zone int_of states site_id now zone session in
    let (session'', more) = check_zones int_of states site_id now zones session' in
    (session'', alarms ++ more)

unfoldable pub persist_each : Settings → ℕ → List Event → Session → Session
persist_each settings clock [] session = session
persist_each settings clock (e ∷ es) session =
    persist_each settings clock es (persist_event session e settings clock)

-- detect_zone_occupancy; `none` where the commit fails.
unfoldable pub detect_zone_occupancy :
    (String → Option ℤ)
    → Settings
    → List CappedZone
    → List AssetZoneState
    → Session
    → String
    → ℕ
    → ℕ
    → Option (Session × List Event)
unfolding check_zones persist_each
detect_zone_occupancy int_of settings zones states session site_id now clock =
    let mine = select (λ (z : CappedZone). str_eq z.site_id site_id) zones in
    let (session', alarms) = check_zones int_of states site_id now mine session in
    elim (commit (persist_each settings clock alarms session')) [
      | none ↦ none
      | some session'' ↦ some (session'', alarms)
    ]
