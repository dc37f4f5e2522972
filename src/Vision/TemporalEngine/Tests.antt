-- ===== src/Vision/TemporalEngine/Tests.antt =====
-- A person in a no-go zone, and the theorems there.
use mine_intelligence.Vision.TemporalEngine.Unseen.{step-unseen}
use mine_intelligence.Vision.TemporalEngine.Laws.{IsFresh, step-IsFresh}
use mine_intelligence.Vision.TemporalEngine.Apply.{all_rules}
use mine_intelligence.Vision.TemporalEngine.Step.{expire, step, window_of}
use mine_intelligence.Vision.TemporalEngine.{
  Engine, Key, Observation, OperationalEvent, Rule, cooling, fire, get, presence, put, same_key,
}
use mine_intelligence.Vision.Temporal.{Parameters, Streak, new_streak}
use mine_intelligence.Prelude.{
  All, List, [], arith, eq_iff, inl, none, refl, some, ℕ, ◌∷◌, ◌≡◌, ◌≢◌,
}

abbrev cfg : Parameters
cfg = record {
  classes = "person" ∷ [];
  confidence_threshold = 5000;
  zone_kinds = [];
  min_observations = 1;
  min_dwell_ms = 0;
  hysteresis_observations = 2;
  cooldown_ms = 60000;
  window_ms = 10000;
}

abbrev rule : Rule
rule = record {
  rule_id = "nogo";
  rule_version = "1";
  event_type = "person_in_restricted_zone";
  parameters = cfg;
}

abbrev gone : Streak
gone = record new_streak { last_seen = some 1000000; streak_in = 1; start = some 1000000; hits = 1 }

abbrev engine : Engine
engine = record {
  site_id = "ran";
  node_id = "n1";
  camera_id = "c1";
  rules = rule ∷ [];
  zones = ("pit", record { kind = none; max_occupancy = none }) ∷ [];
  zone_versions = [];
  state = (presence "nogo" "t9" "pit", gone) ∷ [];
  last_fired = [];
}

abbrev frame : ℕ → Observation
frame ts = record {
  site_id = "ran";
  node_id = "n1";
  camera_id = "c1";
  frame_id = "f1";
  ts = ts;
  objects =
      record { track_id = "t1"; cls = "person"; confidence = 9000; zone_ids = "pit" ∷ [] } ∷ [];
}

abbrev pit_key : Key
pit_key = presence "nogo" "t1" "pit"

abbrev fired_once : Engine
fired_once = (fire engine rule gone (frame 20000000) pit_key (some "pit") (some "t1") none).0

some_event : (fire engine rule gone (frame 20000000) pit_key (some "pit") (some "t1") none).1 ≢ []
unfolding fire cooling get put same_key
some_event = ground arith

abbrev after_frame : Engine × List OperationalEvent
after_frame =
    let (e', events) = all_rules engine (frame 20000000) none engine.rules in
    (record e' { state = expire engine.rules 20000000 e'.state }, events)

step-IsFresh_example :
    All
      (λ (entry : Key × Streak). IsFresh engine.rules 20000000 entry.0 entry.1)
      after_frame.0.state
unfolding step
step-IsFresh_example = step-IsFresh engine after_frame.0 (frame 20000000) none after_frame.1 refl

abbrev stepped : Engine × List OperationalEvent
stepped =
    let (e', events) = all_rules engine (frame 9000000) none engine.rules in
    (record e' { state = expire engine.rules 9000000 e'.state }, events)

step-unseen_example : get stepped.0.state (presence "nogo" "t9" "pit") ≡ some gone
unfolding step get same_key window_of
step-unseen_example =
    step-unseen (frame 9000000) "nogo" "t9" "pit" engine stepped.0 none stepped.1 gone refl
      ((inl (λ e. cc ((eq_iff "t1" "t9").1 e)), tt), tt) refl (λ window last e f. ground arith)
