-- ===== src/Vision/Temporal.antt =====
-- src/minemonitor/vision/temporal.py: the streak of one subject under one rule.
pub mod Streaks
mod Tests
use mine_intelligence.Prelude.{
  Bool, List, Option, String, [], false, if◌then◌else◌, leb, max, none, not, some, true, ℕ, ◌&&◌,
  ◌*◌, ◌+◌, ◌==◌,
}

-- The parameters of src/minemonitor/contracts/vision.py that the engine reads. Confidences are whole
-- numbers of ten-thousandths.
pub record Parameters : Type 0 where
  pub classes : List String
  pub confidence_threshold : ℕ
  pub zone_kinds : List String
  pub min_observations : ℕ
  pub min_dwell_ms : ℕ
  pub hysteresis_observations : ℕ
  pub cooldown_ms : ℕ
  pub window_ms : ℕ

pub record Streak : Type 0 where
  pub streak_in : ℕ
  pub start : Option ℕ
  pub confirmed : Bool
  pub since : Option ℕ
  pub streak_out : ℕ
  pub fired : Bool
  pub last_seen : Option ℕ
  pub hits : ℕ
  pub min_conf : ℕ
  pub frames : List String
  pub tracks : List String
  pub peak : ℕ

-- `timedelta(milliseconds=n)` in microseconds
abbrev pub millis : ℕ → ℕ
millis n = n * 1000

abbrev pub full_confidence : ℕ
full_confidence = 10000

-- _Streak(); also what `reset` leaves, but for `last_seen`
unfoldable pub new_streak : Streak
new_streak = record {
  streak_in = 0;
  start = none;
  confirmed = false;
  since = none;
  streak_out = 0;
  fired = false;
  last_seen = none;
  hits = 0;
  min_conf = full_confidence;
  frames = [];
  tracks = [];
  peak = 0;
}

-- `st.reset(); st.last_seen = ts`
unfoldable pub reset_at : ℕ → Streak
unfolding new_streak
reset_at ts = record new_streak { last_seen = some ts }

count_hit : Streak → ℕ → Parameters → Streak
count_hit st ts p =
    if st.confirmed
    then record st { streak_out = 0; hits = st.hits + 1; last_seen = some ts }
    else (let start = if st.streak_in == 0 then some ts else st.start in
        let confirms = leb p.min_observations (st.streak_in + 1) in
        record st {
          streak_out = 0;
          start = start;
          streak_in = st.streak_in + 1;
          confirmed = confirms;
          since = if confirms then start else st.since;
          hits = st.hits + 1;
          last_seen = some ts;
        })

due : Option ℕ → ℕ → ℕ → Bool
due none ts min_dwell_ms = false
due (some since) ts min_dwell_ms = leb (since + millis min_dwell_ms) ts

count_miss : Streak → ℕ → Parameters → Streak
count_miss st ts p =
    if st.confirmed
    then (if leb (max 1 p.hysteresis_observations) (st.streak_out + 1)
        then reset_at ts
        else record st { streak_out = st.streak_out + 1; last_seen = some ts })
    else reset_at ts

-- The streak after an observation, and whether the event should fire now.
unfoldable pub advance : Streak → Bool → ℕ → Parameters → Streak × Bool
unfolding count_hit due count_miss reset_at
advance st true ts p =
    let st' = count_hit st ts p in
    (st', st'.confirmed && (not st'.fired && due st'.since ts p.min_dwell_ms))
advance st false ts p = (count_miss st ts p, false)
