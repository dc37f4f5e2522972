-- ===== src/Vision/TemporalEngine/Step.antt =====
-- A step of the engine, and the streaks that expire (src/minemonitor/vision/temporal.py).
use mine_intelligence.Prelude.{
  Bool, List, Option, String, [], false, if◌then◌else◌, is_some, ltb, max, none, some, str_eq, ℕ,
  ◌+◌, ◌∷◌,
}
use mine_intelligence.Vision.Temporal.{Streak, millis}
use mine_intelligence.Vision.TemporalEngine.{
  Engine, Key, Observation, OperationalEvent, Rule, presence,
}
use mine_intelligence.Vision.TemporalEngine.Apply.{all_rules}

-- The window of the last rule with this id, in microseconds.
unfoldable pub window_of : List Rule → String → Option ℕ
window_of [] rule_id = none
window_of (r ∷ rs) rule_id =
    let later = window_of rs rule_id in
    if is_some later
    then later
    else (if str_eq r.rule_id rule_id then some (millis (max r.parameters.window_ms 1)) else none)

outlived : Option ℕ → Option ℕ → ℕ → Bool
outlived none seen now = false
outlived (some window) none now = false
outlived (some window) (some last) now = ltb (last + window) now

unfoldable pub expired : List Rule → ℕ → Key → Streak → Bool
unfolding outlived
expired rules now (presence r t z) st = outlived (window_of rules r) st.last_seen now
expired rules now other st = false

-- _expire
unfoldable pub expire : List Rule → ℕ → List (Key × Streak) → List (Key × Streak)
unfolding expired outlived
expire rules now [] = []
expire rules now ((k, st) ∷ m) =
    let rest = expire rules now m in if expired rules now k st then rest else (k, st) ∷ rest

-- step; `none` is the ValueError for another camera's observation
unfoldable pub step : Engine → Observation → Option String → Option (Engine × List OperationalEvent)
unfolding all_rules
step e obs camera_state =
    if str_eq obs.camera_id e.camera_id
    then (let (e', events) = all_rules e obs camera_state e.rules in
        some (record e' { state = expire e.rules obs.ts e'.state }, events))
    else none
