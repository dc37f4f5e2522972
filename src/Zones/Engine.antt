-- ===== src/Zones/Engine.antt =====
-- src/minemonitor/zones/engine.py: the debounce and hysteresis machine of one asset in one zone.
pub mod History
mod Tests
use mine_intelligence.Prelude.{
  Bool, Option, String, false, if◌then◌else◌, is_some, leb, ltb, none, not, some, true, ℕ, ◌&&◌,
  ◌+◌, ◌-◌, ◌==◌, ◌||◌,
}
use mine_intelligence.Rules.Config.{RuleConfig}

-- the row `asset_zone_state`
pub record AssetZoneState : Type 0 where
  pub site_id : String
  pub asset_id : String
  pub zone_id : String
  pub inside : Bool
  pub consec_in : ℕ
  pub consec_out : ℕ
  pub entered_at : Option ℕ
  pub overspeed_consec : ℕ
  pub overspeed_fired : Bool
  pub stationary_since : Option ℕ
  pub dwell_fired : Bool
  pub last_ts : Option ℕ

pub data Transition : Type 0 where
  entry exit : Transition

-- A fix at `ts` does not follow on the one at `last`: it is dated before it, or comes after a
-- silence longer than `max_gap_s`.
unfoldable pub breaks_run : Option ℕ → ℕ → Option ℕ → Bool
breaks_run none ts max_gap_s = false
breaks_run (some last) ts none = ltb ts last
breaks_run (some last) ts (some gap) = ltb ts last || ltb gap (ts - last)

restart : AssetZoneState → ℕ → Option ℕ → AssetZoneState
restart state ts max_gap_s =
    if breaks_run state.last_ts ts max_gap_s
    then record state { consec_in = 0; consec_out = 0 }
    else state

-- the counters after one fix
count_fix : AssetZoneState → Bool → ℕ → ℕ → RuleConfig → AssetZoneState
count_fix state true dist_outside_m ts cfg = record state {
  entered_at =
      if not state.inside && (state.consec_in == 0 || not (is_some state.entered_at))
      then some ts
      else state.entered_at;
  consec_in = state.consec_in + 1;
  consec_out = 0;
}
count_fix state false dist_outside_m ts cfg = record state {
  consec_in = 0;
  consec_out =
      if ltb cfg.hysteresis_m dist_outside_m then state.consec_out + 1 else state.consec_out;
}

-- `since is not None and (ts - since) >= min_entry_dwell_s`
dwelt : Option ℕ → ℕ → ℕ → Bool
dwelt none ts min_entry_dwell_s = false
dwelt (some since) ts min_entry_dwell_s = leb (since + min_entry_dwell_s) ts

conclude : AssetZoneState → ℕ → RuleConfig → AssetZoneState × Option Transition
unfolding dwelt
conclude state ts cfg =
    if not state.inside
    then (if leb cfg.debounce_in state.consec_in && dwelt state.entered_at ts cfg.min_entry_dwell_s
        then (record state { inside = true; consec_out = 0 }, some entry)
        else (state, none))
    else (if leb cfg.exit_debounce state.consec_out
        then (
          record state {
            inside = false;
            entered_at = none;
            consec_in = 0;
            overspeed_consec = 0;
            overspeed_fired = false;
            stationary_since = none;
            dwell_fired = false;
          },
          some exit,
        )
        else (state, none))

unfoldable pub step :
    AssetZoneState → Bool → ℕ → ℕ → RuleConfig → Option ℕ → AssetZoneState × Option Transition
unfolding restart count_fix conclude
step state inside_raw dist_outside_m ts cfg max_gap_s =
    conclude (count_fix (restart state ts max_gap_s) inside_raw dist_outside_m ts cfg) ts cfg
