-- ===== src/Vision/TemporalEngine.antt =====
-- src/minemonitor/vision/temporal.py: the per-camera engine over its streaks.
pub mod Apply
pub mod Step
pub mod Laws
pub mod Occlusion
pub mod Unseen
mod Tests
use mine_intelligence.Prelude.{
  Bool, List, Option, String, [], any, drop, false, if◌then◌else◌, length, ltb, min, none, some,
  str_eq, true, ℕ, ◌&&◌, ◌++◌, ◌+◌, ◌-◌, ◌/◌, ◌||◌, ◌∷◌,
}
use mine_intelligence.Prelude.Table.{Table, lookup}
use mine_intelligence.Vision.Temporal.{Parameters, Streak, full_confidence, millis, new_streak}

-- A key of the engine's dictionaries.
pub data Key : Type 0 where
  presence : String → String → String → Key
  occupancy : String → String → Key
  camera : String → Key

unfoldable pub same_key : Key → Key → Bool
same_key (presence r t z) (presence r' t' z') = str_eq r r' && (str_eq t t' && str_eq z z')
same_key (occupancy r z) (occupancy r' z') = str_eq r r' && str_eq z z'
same_key (camera r) (camera r') = str_eq r r'
same_key _ _ = false

-- key[1]
unfoldable pub rule_of : Key → String
rule_of (presence r t z) = r
rule_of (occupancy r z) = r
rule_of (camera r) = r

pub record Rule : Type 0 where
  pub rule_id : String
  pub rule_version : String
  pub event_type : String
  pub parameters : Parameters

-- A zone's `kind`, and its `max_occupancy` where that is a whole number from 0 on.
pub record ZoneSpec : Type 0 where
  pub kind : Option String
  pub max_occupancy : Option ℕ

pub record Detected : Type 0 where
  pub track_id : String
  pub cls : String
  pub confidence : ℕ
  pub zone_ids : List String

pub record Observation : Type 0 where
  pub site_id : String
  pub node_id : String
  pub camera_id : String
  pub frame_id : String
  pub ts : ℕ
  pub objects : List Detected

-- The operational event. Its id is built from the camera, the rule and its version, the subject
-- and `since`, which are fields here; `extra` signals are the count and capacity of an occupancy.
pub record OperationalEvent : Type 0 where
  pub site_id : String
  pub node_id : String
  pub camera_id : String
  pub ts : ℕ
  pub type : String
  pub confidence : ℕ
  pub rule_id : String
  pub rule_version : String
  pub track_id : Option String
  pub zone_id : Option String
  pub zone_version : Option String
  pub since : ℕ
  pub frame_ids : List String
  pub track_ids : List String
  pub dwell_ms : ℕ
  pub observations : ℕ
  pub count : Option (ℕ × ℕ)

pub record Engine : Type 0 where
  pub site_id : String
  pub node_id : String
  pub camera_id : String
  pub rules : List Rule
  pub zones : Table ZoneSpec
  pub zone_versions : Table String
  pub state : List (Key × Streak)
  pub last_fired : List (Key × ℕ)

-- Dictionaries by key.
unfoldable pub get {ℓ} : {V : Type ℓ} → List (Key × V) → Key → Option V
get [] k = none
get ((j, v) ∷ m) k = if same_key j k then some v else get m k

unfoldable pub put {ℓ} : {V : Type ℓ} → List (Key × V) → Key → V → List (Key × V)
put [] k v = (k, v) ∷ []
put ((j, w) ∷ m) k v = if same_key j k then (k, v) ∷ m else (j, w) ∷ put m k v

-- setdefault(key, _Streak())
pub streak_at : Engine → Key → Streak
streak_at e k = elim (get e.state k) [ none ↦ new_streak | some st ↦ st ]

pub contains : List String → String → Bool
contains xs x = any (λ (y : String). str_eq y x) xs

add_to_set : List String → String → List String
add_to_set xs x = if contains xs x then xs else xs ++ x ∷ []

-- A list of at most twenty frames, from which the oldest falls out.
append_frame : List String → String → List String
append_frame frames f =
    let longer = frames ++ f ∷ [] in if ltb 20 (length longer) then drop 1 longer else longer

last_is : List String → String → Bool
last_is [] f = false
last_is (g ∷ []) f = str_eq g f
last_is (g ∷ h ∷ gs) f = last_is (h ∷ gs) f

with_track : List String → Option String → List String
with_track tracks none = tracks
with_track tracks (some t) = add_to_set tracks t

-- _note
unfoldable pub note : Streak → String → Option String → ℕ → Streak
unfolding append_frame last_is with_track add_to_set contains
note st frame_id track_id confidence =
    if st.confirmed || ltb 0 st.streak_in
    then record st {
      frames = if last_is st.frames frame_id then st.frames else append_frame st.frames frame_id;
      tracks = with_track st.tracks track_id;
      min_conf = min st.min_conf confidence;
    }
    else st

-- _zone_ok
unfoldable pub zone_ok : Engine → Rule → String → Bool
unfolding contains
zone_ok e rule zone_id = elim (lookup e.zones zone_id) [
  | none ↦ false
  | some zone ↦ elim rule.parameters.zone_kinds [
    | [] ↦ true
    | k ∷ ks ↦ elim zone.kind [ none ↦ false | some kind ↦ contains (k ∷ ks) kind ]
  ]
]

-- The cooldown since the last event of the key has not passed.
unfoldable pub cooling : Option ℕ → ℕ → ℕ → Bool
cooling none ts cooldown_ms = false
cooling (some last) ts cooldown_ms = ltb ts (last + millis cooldown_ms)

begun : Option ℕ → ℕ
begun none = 0
begun (some since) = since

-- _fire: the streak `st` has been stored and is marked; the event is dropped while cooling.
unfoldable pub fire :
    Engine
    → Rule
    → Streak
    → Observation
    → Key
    → Option String
    → Option String
    → Option (ℕ × ℕ)
    → Engine × List OperationalEvent
unfolding begun with_track add_to_set contains
fire e rule st obs key zone_id track_id count =
    let marked = record e { state = put e.state key (record st { fired = true }) } in
    if cooling (get e.last_fired key) obs.ts rule.parameters.cooldown_ms then (marked, []) else (
      record marked { last_fired = put e.last_fired key obs.ts },
      record {
        site_id = e.site_id;
        node_id = e.node_id;
        camera_id = e.camera_id;
        ts = obs.ts;
        type = rule.event_type;
        confidence = min full_confidence st.min_conf;
        rule_id = rule.rule_id;
        rule_version = rule.rule_version;
        track_id = track_id;
        zone_id = zone_id;
        zone_version = elim zone_id [ none ↦ none | some z ↦ lookup e.zone_versions z ];
        since = begun st.since;
        frame_ids = st.frames;
        track_ids = with_track st.tracks track_id;
        dwell_ms = (obs.ts - begun st.since) / 1000;
        observations = st.hits;
        count = count;
      }
          ∷ [],
    )
