-- ===== src/Rules/Evaluate.antt =====
-- src/minemonitor/rules/evaluate.py: confirmed transitions and in-zone fixes become alarms. Each
-- function takes the number of ULIDs drawn so far, for the ids of the alarms that it builds.
pub mod Laws
mod Tests
use mine_intelligence.Prelude.{
  Bool, List, Option, String, [], any, false, if◌then◌else◌, leb, length, ltb, none, not, some,
  str_eq, true, ℕ, ◌&&◌, ◌++◌, ◌+◌, ◌∷◌,
}
use mine_intelligence.Rules.Config.{RuleConfig, RulesPayload, stationary_kph}
use mine_intelligence.Storage.{Event, ulid}
use mine_intelligence.Zones.Engine.{AssetZoneState}

pub record Position : Type 0 where
  pub site_id : String
  pub asset_id : String
  pub ts : ℕ
  pub received_at : ℕ
  pub lat : ℕ
  pub lon : ℕ
  pub speed_kph : Option ℕ

pub record Zone : Type 0 where
  pub zone_id : String
  pub site_id : String
  pub name : String
  pub kind : String
  pub rules : RulesPayload

unfoldable pub zone_event : Position → String → String → Zone → ℕ → Event
zone_event pos type severity zone drawn = record {
  event_id = ulid drawn;
  site_id = pos.site_id;
  ts = pos.ts;
  type = type;
  severity = severity;
  asset_id = some pos.asset_id;
  zone_id = some zone.zone_id;
  source = "gnss_geofence";
  state = "open";
  acknowledged_by = none;
  acknowledged_at = none;
  cleared_at = none;
}

-- `asset_class in (cfg.authorized_classes or ())`
unfoldable pub authorized : String → Option (List String) → Bool
authorized asset_class none = false
authorized asset_class (some classes) = any (λ (c : String). str_eq c asset_class) classes

unfoldable pub on_entry : Position → Zone → RuleConfig → String → ℕ → Option Event
unfolding authorized
on_entry pos zone cfg asset_class drawn =
    if str_eq zone.kind "restricted"
    then (if authorized asset_class cfg.authorized_classes
        then none
        else some (zone_event pos "zone_breach" cfg.breach_severity zone drawn))
    else none

-- the overspeed rule at a known speed and limit
overspeed : Position → Zone → RuleConfig → ℕ → ℕ → ℕ → AssetZoneState → AssetZoneState × List Event
overspeed pos zone cfg drawn speed limit state =
    if ltb limit speed
    then (let count = state.overspeed_consec + 1 in
        if leb cfg.overspeed_consecutive count && not state.overspeed_fired
        then (
          record state { overspeed_consec = count; overspeed_fired = true },
          zone_event pos "overspeed" cfg.overspeed_severity zone drawn ∷ [],
        )
        else (record state { overspeed_consec = count }, []))
    else (record state { overspeed_consec = 0; overspeed_fired = false }, [])

overspeed_rule :
    Position → Zone → RuleConfig → ℕ → ℕ → Option ℕ → AssetZoneState → AssetZoneState × List Event
unfolding overspeed
overspeed_rule pos zone cfg drawn speed none state = (state, [])
overspeed_rule pos zone cfg drawn speed (some limit) state =
    overspeed pos zone cfg drawn speed limit state

-- the dwell rule at a standing asset
standing :
    Position → Zone → RuleConfig → ℕ → ℕ → Option ℕ → AssetZoneState → AssetZoneState × List Event
standing pos zone cfg drawn dwell_s none state =
    (record state { stationary_since = some pos.ts }, [])
standing pos zone cfg drawn dwell_s (some since) state =
    if not state.dwell_fired && leb (since + dwell_s) pos.ts
    then (
      record state { dwell_fired = true },
      zone_event pos "zone_dwell" cfg.dwell_severity zone drawn ∷ [],
    )
    else (state, [])

dwell_rule :
    Position → Zone → RuleConfig → ℕ → ℕ → Option ℕ → AssetZoneState → AssetZoneState × List Event
unfolding standing
dwell_rule pos zone cfg drawn speed none state = (state, [])
dwell_rule pos zone cfg drawn speed (some dwell_s) state =
    if ltb speed stationary_kph
    then standing pos zone cfg drawn dwell_s state.stationary_since state
    else (record state { stationary_since = none; dwell_fired = false }, [])

at_speed :
    Position → Zone → RuleConfig → ℕ → Option ℕ → AssetZoneState → AssetZoneState × List Event
unfolding overspeed_rule dwell_rule
at_speed pos zone cfg drawn none state = (record state { overspeed_consec = 0 }, [])
at_speed pos zone cfg drawn (some speed) state =
    let (s1, fast) = overspeed_rule pos zone cfg drawn speed cfg.speed_limit_kph state in
    let (s2, slow) = dwell_rule pos zone cfg (drawn + length fast) speed cfg.dwell_s s1 in
    (s2, fast ++ slow)

unfoldable pub on_inzone_fix :
    Position → Zone → RuleConfig → AssetZoneState → ℕ → AssetZoneState × List Event
unfolding at_speed
on_inzone_fix pos zone cfg state drawn = at_speed pos zone cfg drawn pos.speed_kph state
