-- ===== src/Vision/TemporalEngine/Apply.antt =====
-- The three kinds of rules at one frame (src/minemonitor/vision/temporal.py).
use mine_intelligence.Prelude.{
  Bool, List, Option, String, [], false, if◌then◌else◌, leb, length, ltb, max, none, not, select,
  some, str_eq, true, ℕ, ◌&&◌, ◌++◌, ◌||◌, ◌∷◌,
}
use mine_intelligence.Prelude.Table.{Table, insert, lookup}
use mine_intelligence.Vision.Temporal.{Streak, advance, full_confidence}
use mine_intelligence.Vision.TemporalEngine.{
  Detected, Engine, Key, Observation, OperationalEvent, Rule, ZoneSpec, camera, contains, fire,
  note, occupancy, presence, put, streak_at, zone_ok,
}

-- The relevant objects of a frame, by track: their qualifying zones and confidence.
pub zones_of : Engine → Rule → List String → List String
zones_of e rule [] = []
zones_of e rule (z ∷ zs) =
    let rest = zones_of e rule zs in
    if zone_ok e rule z && not (contains rest z) then z ∷ rest else rest

unfoldable pub in_frame :
    Engine → Rule → List Detected → Table (List String × ℕ) → Table (List String × ℕ)
in_frame e rule [] seen = seen
in_frame e rule (o ∷ os) seen =
    let wanted =
      contains rule.parameters.classes o.cls
      && leb rule.parameters.confidence_threshold o.confidence in
    in_frame e rule os
      (if wanted then insert seen o.track_id (zones_of e rule o.zone_ids, o.confidence) else seen)

unfoldable pub presence_hit :
    Engine → Rule → Observation → String → ℕ → String → Engine × List OperationalEvent
presence_hit e rule obs track_id confidence zone_id =
    let key = presence rule.rule_id track_id zone_id in
    let (st, fires) = advance (streak_at e key) true obs.ts rule.parameters in
    let st' = note st obs.frame_id (some track_id) confidence in
    let e' = record e { state = put e.state key st' } in
    if fires then fire e' rule st' obs key (some zone_id) (some track_id) none else (e', [])

unfoldable pub zone_hits :
    Engine → Rule → Observation → String → ℕ → List String → Engine × List OperationalEvent
zone_hits e rule obs track_id confidence [] = (e, [])
zone_hits e rule obs track_id confidence (z ∷ zs) =
    let (e1, first) = presence_hit e rule obs track_id confidence z in
    let (e2, rest) = zone_hits e1 rule obs track_id confidence zs in (e2, first ++ rest)

unfoldable pub track_hits :
    Engine → Rule → Observation → Table (List String × ℕ) → Engine × List OperationalEvent
track_hits e rule obs [] = (e, [])
track_hits e rule obs ((track_id, (zs, confidence)) ∷ seen) =
    let (e1, first) = zone_hits e rule obs track_id confidence zs in
    let (e2, rest) = track_hits e1 rule obs seen in (e2, first ++ rest)

-- A track that was seen this frame, and not in the zone of this key.
unfoldable pub missed : Table (List String × ℕ) → String → String → Bool
missed seen track_id zone_id = elim (lookup seen track_id) [
  | none ↦ false
  | some (zs, c) ↦ not (contains zs zone_id)
]

unfoldable pub miss_one : Rule → Observation → Table (List String × ℕ) → Key → Streak → Streak
miss_one rule obs seen (presence r track_id zone_id) st =
    if str_eq r rule.rule_id && missed seen track_id zone_id
    then (advance st false obs.ts rule.parameters).0
    else st
miss_one rule obs seen other st = st

unfoldable pub miss_all :
    Rule → Observation → Table (List String × ℕ) → List (Key × Streak) → List (Key × Streak)
miss_all rule obs seen [] = []
miss_all rule obs seen ((k, st) ∷ m) = (k, miss_one rule obs seen k st) ∷ miss_all rule obs seen m

-- _presence
unfoldable pub presence_rule : Engine → Rule → Observation → Engine × List OperationalEvent
unfolding in_frame zones_of contains track_hits zone_hits presence_hit streak_at miss_all miss_one
    missed
presence_rule e rule obs =
    let seen = in_frame e rule obs.objects [] in
    let (e', events) = track_hits e rule obs seen in
    (record e' { state = miss_all rule obs seen e'.state }, events)

pub note_all : Streak → Observation → List Detected → Streak
note_all st obs [] = st
note_all st obs (o ∷ os) = note_all (note st obs.frame_id (some o.track_id) o.confidence) obs os

pub is_member : Rule → String → Detected → Bool
is_member rule zone_id o =
    contains rule.parameters.classes o.cls
    && (leb rule.parameters.confidence_threshold o.confidence && contains o.zone_ids zone_id)

-- one zone of _occupancy
unfoldable pub occupied : Engine → Rule → Observation → String → ℕ → Engine × List OperationalEvent
occupied e rule obs zone_id limit =
    let members = select (is_member rule zone_id) obs.objects in
    let key = occupancy rule.rule_id zone_id in
    let over = ltb limit (length members) in
    let (st, fires) = advance (streak_at e key) over obs.ts rule.parameters in
    let st' =
      if over
      then note_all (record st { peak = max st.peak (length members) }) obs members
      else st in
    let e' = record e { state = put e.state key st' } in
    if fires
    then fire e' rule st' obs key (some zone_id) none (some (st'.peak, limit))
    else (e', [])

unfoldable pub capped_zone :
    Engine → Rule → Observation → String → Option ℕ → Engine × List OperationalEvent
capped_zone e rule obs zone_id none = (e, [])
capped_zone e rule obs zone_id (some limit) =
    if zone_ok e rule zone_id then occupied e rule obs zone_id limit else (e, [])

unfoldable pub occupied_zones :
    Engine → Rule → Observation → Table ZoneSpec → Engine × List OperationalEvent
occupied_zones e rule obs [] = (e, [])
occupied_zones e rule obs ((zone_id, zone) ∷ zs) =
    let (e1, first) = capped_zone e rule obs zone_id zone.max_occupancy in
    let (e2, rest) = occupied_zones e1 rule obs zs in (e2, first ++ rest)

-- _occupancy
unfoldable pub occupancy_rule : Engine → Rule → Observation → Engine × List OperationalEvent
unfolding occupied_zones capped_zone occupied is_member note_all contains streak_at
occupancy_rule e rule obs = occupied_zones e rule obs e.zones

-- `camera_state in BAD_CAMERA_STATES`
is_bad : String → Bool
is_bad s =
    str_eq s "obstructed" || (str_eq s "dark" || (str_eq s "defocused" || str_eq s "no_signal"))

-- _camera
unfoldable pub camera_rule : Engine → Rule → Observation → String → Engine × List OperationalEvent
unfolding is_bad streak_at
camera_rule e rule obs camera_state =
    let key = camera rule.rule_id in
    let bad = is_bad camera_state in
    let (st, fires) = advance (streak_at e key) bad obs.ts rule.parameters in
    let st' = if bad then note st obs.frame_id none full_confidence else st in
    let e' = record e { state = put e.state key st' } in
    if fires then fire e' rule st' obs key none none none else (e', [])

pub is_presence_type : String → Bool
is_presence_type t =
    str_eq t "person_in_restricted_zone"
    || (str_eq t "vehicle_in_restricted_zone" || str_eq t "person_dwell")

unfoldable pub one_rule :
    Engine → Observation → Option String → Rule → Engine × List OperationalEvent
one_rule e obs camera_state rule =
    if is_presence_type rule.event_type
    then presence_rule e rule obs
    else if str_eq rule.event_type "zone_occupancy_exceeded"
    then occupancy_rule e rule obs
    else if str_eq rule.event_type "camera_obstructed"
    then elim camera_state [ none ↦ (e, []) | some s ↦ camera_rule e rule obs s ]
    else (e, [])

unfoldable pub all_rules :
    Engine → Observation → Option String → List Rule → Engine × List OperationalEvent
unfolding one_rule is_presence_type
all_rules e obs camera_state [] = (e, [])
all_rules e obs camera_state (rule ∷ rules) =
    let (e1, first) = one_rule e obs camera_state rule in
    let (e2, rest) = all_rules e1 obs camera_state rules in (e2, first ++ rest)
