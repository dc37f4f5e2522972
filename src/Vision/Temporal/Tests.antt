-- ===== src/Vision/Temporal/Tests.antt =====
-- A presence confirmed by two hits, and the theorems at it.
use mine_intelligence.Vision.Temporal.Streaks.{Sight, confirmed-seen, holds, misses, run, seen}
use mine_intelligence.Vision.Temporal.{Parameters}
use mine_intelligence.Prelude.{List, [], false, true, ℕ, ◌∷◌, ◌≡◌}

abbrev cfg : Parameters
cfg = record {
  classes = "person" ∷ [];
  confidence_threshold = 5000;
  zone_kinds = [];
  min_observations = 2;
  min_dwell_ms = 1000;
  hysteresis_observations = 2;
  cooldown_ms = 60000;
  window_ms = 10000;
}

abbrev hit_at : ℕ → Sight
hit_at ts = record { hit = true; ts = ts }

abbrev miss_at : ℕ → Sight
miss_at ts = record { hit = false; ts = ts }

abbrev two_hits : List Sight
two_hits = hit_at 1500000 ∷ hit_at 1000000 ∷ []

confirmed-seen_example : (seen cfg (miss_at 1700000 ∷ two_hits)).confirmed ≡ true
unfolding holds run misses
confirmed-seen_example = confirmed-seen cfg (miss_at 1700000 ∷ two_hits)
