-- ===== src/Vision/TemporalEngine/Laws.antt =====
-- Occlusion, expiry, cooldown and evidence (src/minemonitor/vision/temporal.py).
use mathlib.Core.Path.{subst}
use mine_intelligence.Prelude.{
  All, Bool-cases, List, Option, String, [], arith, eq_iff, eq_refl, false, inl, inr, is_empty,
  length, length-append, length-drop, ltb, some, true, ℕ, ◌++◌, ◌+◌, ◌∷◌, ◌≡◌, ◌≢◌, ◌≤◌,
}
use mine_intelligence.Vision.Temporal.{Streak, millis}
use mine_intelligence.Vision.TemporalEngine.Apply.{all_rules}
use mine_intelligence.Vision.TemporalEngine.Step.{expire, expired, step, window_of}
use mine_intelligence.Vision.TemporalEngine.{
  Engine, Key, Observation, OperationalEvent, Rule, camera, cooling, fire, get, note, occupancy,
  presence, put, same_key,
}

pub same_key_iff : (j k : Key) → same_key j k ≡ true → j ≡ k
unfolding same_key
same_key_iff (presence r t z) (presence r' t' z') h =
    ground (arith, eq_iff r r', eq_iff t t', eq_iff z z')
same_key_iff (occupancy r z) (occupancy r' z') h = ground (arith, eq_iff r r', eq_iff z z')
same_key_iff (camera r) (camera r') h = ground (arith, eq_iff r r')
same_key_iff (presence r t z) (occupancy r' z') h = cc
same_key_iff (presence r t z) (camera r') h = cc
same_key_iff (occupancy r z) (presence r' t' z') h = cc
same_key_iff (occupancy r z) (camera r') h = cc
same_key_iff (camera r) (presence r' t' z') h = cc
same_key_iff (camera r) (occupancy r' z') h = cc

pub same_key_refl : (k : Key) → same_key k k ≡ true
unfolding same_key
same_key_refl (presence r t z) = ground (arith, eq_refl r, eq_refl t, eq_refl z)
same_key_refl (occupancy r z) = ground (arith, eq_refl r, eq_refl z)
same_key_refl (camera r) = eq_refl r

get-put_self {ℓ} : {V : Type ℓ} (m : List (Key × V)) (k : Key) (v : V) → get (put m k v) k ≡ some v
unfolding get put
get-put_self [] k v = rw (same_key_refl k)
get-put_self ((j, w) ∷ m) k v = ground (arith, same_key_refl k, get-put_self m k v)

pub get-put_ne {ℓ} :
    {V : Type ℓ} (m : List (Key × V)) (j k : Key) (v : V)
    → same_key j k ≡ false
    → get (put m j v) k ≡ get m k
unfolding get put
get-put_ne [] j k v h = rw h
get-put_ne ((i, w) ∷ m) j k v h = ground (arith, same_key_iff i j, get-put_ne m j k v h)

-- An event of a key leaves the key's streak marked, and another event of the key follows exactly
-- when the cooldown since the first has passed, if nothing else fired for the key in between.
pub fire_cooldown :
    (e f : Engine) (rule : Rule) (st st' : Streak) (obs obs' : Observation) (key : Key)
    (zone_id track_id : Option String) (count : Option (ℕ × ℕ))
    → let (e', events) = fire e rule st obs key zone_id track_id count in
      events ≢ []
      → get f.last_fired key ≡ get e'.last_fired key
      → (get e'.state key ≡ some (record st { fired = true }))
        × (is_empty (fire f rule st' obs' key zone_id track_id count).1
            ≡ ltb obs'.ts (obs.ts + millis rule.parameters.cooldown_ms))
unfolding fire cooling
fire_cooldown e f rule st st' obs obs' key zone_id track_id count some_event same = ground (
  arith,
  get-put_self e.last_fired key obs.ts,
  get-put_self e.state key (record st { fired = true }),
)

-- A frame's evidence never holds more than twenty frames.
pub length-note :
    (st : Streak) (frame_id : String) (track_id : Option String) (confidence : ℕ)
    → length st.frames ≤ 20
    → length (note st frame_id track_id confidence).frames ≤ 20
unfolding note
length-note st frame_id track_id confidence h =
    ground
      (arith, length-append st.frames (frame_id ∷ []), length-drop 1 (st.frames ++ frame_id ∷ []))

-- A presence seen within its rule's window.
abbrev pub IsFresh : List Rule → ℕ → Key → Streak → Type 0
IsFresh rules now (presence r t z) st =
    (window last : ℕ)
    → window_of rules r ≡ some window
    → st.last_seen ≡ some last
    → now ≤ last + window
IsFresh rules now other st = Unit

expired-IsFresh :
    (rules : List Rule) (now : ℕ) (k : Key) (st : Streak)
    → expired rules now k st ≡ false
    → IsFresh rules now k st
unfolding expired
expired-IsFresh rules now (presence r t z) st h = λ window last e f. ground arith
expired-IsFresh rules now (occupancy r z) st h = tt
expired-IsFresh rules now (camera r) st h = tt

expire-IsFresh :
    (rules : List Rule) (now : ℕ) (m : List (Key × Streak))
    → All (λ (entry : Key × Streak). IsFresh rules now entry.0 entry.1) (expire rules now m)
unfolding expire
expire-IsFresh rules now [] = tt
expire-IsFresh rules now ((k, st) ∷ m) = elim (Bool-cases (expired rules now k st)) [
  | inl e ↦ rw e (expire-IsFresh rules now m)
  | inr e ↦ rw e (expired-IsFresh rules now k st e, expire-IsFresh rules now m)
]

pub step_state :
    (e e' : Engine) (obs : Observation) (camera_state : Option String)
    (events : List OperationalEvent)
    → step e obs camera_state ≡ some (e', events)
    → expire e.rules obs.ts (all_rules e obs camera_state e.rules).0.state ≡ e'.state
unfolding step
step_state e e' obs camera_state events h = ground arith

-- After each step no presence is left that has gone unseen for longer than its rule's window.
pub step-IsFresh :
    (e e' : Engine) (obs : Observation) (camera_state : Option String)
    (events : List OperationalEvent)
    → step e obs camera_state ≡ some (e', events)
    → All (λ (entry : Key × Streak). IsFresh e.rules obs.ts entry.0 entry.1) e'.state
step-IsFresh e e' obs camera_state events h =
    subst (All (λ (entry : Key × Streak). IsFresh e.rules obs.ts entry.0 entry.1))
      (step_state e e' obs camera_state events h)
      (expire-IsFresh e.rules obs.ts (all_rules e obs camera_state e.rules).0.state)
