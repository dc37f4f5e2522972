-- ===== src/Pipeline.antt =====
-- src/minemonitor/pipeline.py: zones, debounce, rules and alarms for each stored position. The
-- polygon tests of src/minemonitor/zones/geometry.py work on floats and are arguments here.
pub mod Laws
pub mod Breach
mod Tests
use mine_intelligence.Prelude.{
  Bool, List, Option, String, [], false, if◌then◌else◌, leb, length, ltb, none, some, ℕ, ◌&&◌, ◌++◌,
  ◌+◌, ◌∷◌,
}
use mine_intelligence.Prelude.Table.{Table, insert, lookup}
use mine_intelligence.Rules.Config.{RuleConfig, parse_rules}
use mine_intelligence.Storage.{Event, Session}
use mine_intelligence.Zones.Engine.{AssetZoneState, Transition, entry, step}
use mine_intelligence.Rules.Evaluate.{Position, Zone, on_entry, on_inzone_fix}
use mine_intelligence.Notifications.Outbox.{Settings}
use mine_intelligence.Events.{persist_event}

pub record Geometry : Type 0 where
  pub point_in_polygon : Position → Zone → Bool
  pub distance_to_polygon_m : Position → Zone → ℕ

-- `max_future_skew_s` and `offline_threshold_s`, in microseconds
pub record LiveSettings : Type 0 where
  pub max_skew : ℕ
  pub max_gap_s : ℕ

-- A watermark later than the fix's arrival can be: set by a clock that ran ahead.
unfoldable pub is_future : LiveSettings → Position → ℕ → Bool
is_future settings pos last_ts = ltb (pos.received_at + settings.max_skew) last_ts

-- The fix is not evaluated live in this zone.
unfoldable pub skips : LiveSettings → Position → Option ℕ → Bool
unfolding is_future
skips settings pos none = false
skips settings pos (some last_ts) =
    if is_future settings pos last_ts
    then ltb (pos.ts + settings.max_skew) pos.received_at
    else leb pos.ts last_ts

opened_later : Option ℕ → ℕ → Bool
opened_later none ts = false
opened_later (some since) ts = ltb ts since

-- Behind a watermark in the future, a dwell episode that opens after this fix starts afresh.
unfoldable pub heal : LiveSettings → Position → Option ℕ → AssetZoneState → AssetZoneState
unfolding is_future opened_later
heal settings pos none state = state
heal settings pos (some last_ts) state =
    if is_future settings pos last_ts && opened_later state.stationary_since pos.ts
    then record state { stationary_since = none; dwell_fired = false }
    else state

entered : Option Transition → Position → Zone → RuleConfig → String → ℕ → List Event
entered (some entry) pos zone cfg asset_class drawn =
    elim (on_entry pos zone cfg asset_class drawn) [ none ↦ [] | some ev ↦ ev ∷ [] ]
entered _ pos zone cfg asset_class drawn = []

-- One zone, for a fix that is not skipped.
unfoldable pub evaluate :
    Geometry
    → LiveSettings
    → Position
    → String
    → Zone
    → AssetZoneState
    → ℕ
    → AssetZoneState × List Event
unfolding entered
evaluate geometry settings pos asset_class zone state drawn =
    let cfg = parse_rules zone.rules in
    let inside_raw = geometry.point_in_polygon pos zone in
    let dist_out = if inside_raw then 0 else geometry.distance_to_polygon_m pos zone in
    let (s1, transition) =
      step (heal settings pos state.last_ts state) inside_raw dist_out pos.ts cfg
        (some settings.max_gap_s) in
    let breach = entered transition pos zone cfg asset_class drawn in
    let (s2, more) =
      if s1.inside then on_inzone_fix pos zone cfg s1 (drawn + length breach) else (s1, []) in
    (record s2 { last_ts = some pos.ts }, breach ++ more)

-- `states.get(zone_id) or get_or_create_state(...)`
unfoldable pub state_or_new : Option AssetZoneState → Position → Zone → AssetZoneState
state_or_new none pos zone = record {
  site_id = pos.site_id;
  asset_id = pos.asset_id;
  zone_id = zone.zone_id;
  inside = false;
  consec_in = 0;
  consec_out = 0;
  entered_at = none;
  overspeed_consec = 0;
  overspeed_fired = false;
  stationary_since = none;
  dwell_fired = false;
  last_ts = none;
}
state_or_new (some state) pos zone = state

-- What the loop over the zones carries: the asset's rows by zone, the alarms so far, and how many
-- ULIDs are drawn.
pub record Live : Type 0 where
  pub states : Table AssetZoneState
  pub alarms : List Event
  pub drawn : ℕ

unfoldable pub one_zone : Geometry → LiveSettings → Position → String → Zone → Live → Live
one_zone geometry settings pos asset_class zone live =
    let state = state_or_new (lookup live.states zone.zone_id) pos zone in
    if skips settings pos state.last_ts
    then live
    else (let (state', es) = evaluate geometry settings pos asset_class zone state live.drawn in
        record live {
          states = insert live.states zone.zone_id state';
          alarms = live.alarms ++ es;
          drawn = live.drawn + length es;
        })

unfoldable pub all_zones : Geometry → LiveSettings → Position → String → List Zone → Live → Live
all_zones geometry settings pos asset_class [] live = live
all_zones geometry settings pos asset_class (zone ∷ zones) live =
    all_zones geometry settings pos asset_class zones
      (one_zone geometry settings pos asset_class zone live)

persist_all : Session → List Event → Settings → ℕ → Session
persist_all session [] outbox now = session
persist_all session (ev ∷ evs) outbox now =
    persist_all (persist_event session ev outbox now) evs outbox now

-- `zones` are the site's zones, `states` the asset's rows and `asset_class` its class; `now` is the
-- time at which notifications are queued.
unfoldable pub process_position :
    Geometry
    → LiveSettings
    → Settings
    → ℕ
    → Session
    → List Zone
    → Table AssetZoneState
    → String
    → Position
    → Bool
    → Session × Table AssetZoneState × List Event
unfolding persist_all
process_position geometry settings outbox now session zones states asset_class pos created =
    if created
    then (let live =
          all_zones geometry settings pos asset_class zones
            (record { states = states; alarms = []; drawn = session.drawn }) in
        (
          persist_all (record session { drawn = live.drawn }) live.alarms outbox now,
          live.states,
          live.alarms,
        ))
    else (session, states, [])
