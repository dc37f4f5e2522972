-- ===== src/Vision/TemporalEngine/Unseen.antt =====
-- A whole step, for a track that is not seen (src/minemonitor/vision/temporal.py).
use mine_intelligence.Vision.TemporalEngine.Step.{expire, expired, step, window_of}
use mine_intelligence.Vision.Temporal.{Streak}
use mine_intelligence.Vision.TemporalEngine.Laws.{
  IsFresh, get-put_ne, same_key_iff, same_key_refl, step_state,
}
use mine_intelligence.Vision.TemporalEngine.Occlusion.{IsUnseen, presence_rule-unseen}
use mine_intelligence.Prelude.{
  All, Bool-cases, List, Option, Option-cases, String, [], arith, false, inl, inr, none, refl, some,
  true, ℕ, ◌∙◌, ◌∷◌, ◌≡◌,
}
use mine_intelligence.Prelude.Table.{Table}
use mine_intelligence.Vision.TemporalEngine.Apply.{
  all_rules, camera_rule, capped_zone, occupancy_rule, occupied, occupied_zones, one_rule,
}
use mine_intelligence.Vision.TemporalEngine.{
  Engine, Key, Observation, OperationalEvent, Rule, ZoneSpec, fire, get, presence, same_key,
}
use mathlib.Core.Path.{subst}

module _ (obs : Observation) (r t z : String) where
  fire-other :
      (e : Engine) (rule : Rule) (st : Streak) (key : Key) (zone_id track_id : Option String)
      (count : Option (ℕ × ℕ))
      → same_key key (presence r t z) ≡ false
      → get (fire e rule st obs key zone_id track_id count).0.state (presence r t z)
        ≡ get e.state (presence r t z)
  unfolding fire
  fire-other e rule st key zone_id track_id count h =
      ground (arith, get-put_ne e.state key (presence r t z) (record st { fired = true }) h)

  occupied-other :
      (e : Engine) (rule : Rule) (zone_id : String) (limit : ℕ)
      → get (occupied e rule obs zone_id limit).0.state (presence r t z)
        ≡ get e.state (presence r t z)
  unfolding occupied same_key
  occupied-other e rule zone_id limit = grind (arith, fire-other, get-put_ne)

  capped_zone-other :
      (e : Engine) (rule : Rule) (zone_id : String) (limit : Option ℕ)
      → get (capped_zone e rule obs zone_id limit).0.state (presence r t z)
        ≡ get e.state (presence r t z)
  unfolding capped_zone
  capped_zone-other e rule zone_id none = refl
  capped_zone-other e rule zone_id (some limit) =
      ground (arith, occupied-other e rule zone_id limit)

  occupied_zones-other :
      (e : Engine) (rule : Rule) (zones : Table ZoneSpec)
      → get (occupied_zones e rule obs zones).0.state (presence r t z)
        ≡ get e.state (presence r t z)
  unfolding occupied_zones
  occupied_zones-other e rule [] = refl
  occupied_zones-other e rule ((zone_id, zone) ∷ zs) =
      occupied_zones-other (capped_zone e rule obs zone_id zone.max_occupancy).0 rule zs
      ∙ capped_zone-other e rule zone_id zone.max_occupancy

  camera_rule-other :
      (e : Engine) (rule : Rule) (camera_state : String)
      → get (camera_rule e rule obs camera_state).0.state (presence r t z)
        ≡ get e.state (presence r t z)
  unfolding camera_rule same_key
  camera_rule-other e rule camera_state = grind (arith, fire-other, get-put_ne)

  one_rule-unseen :
      (e : Engine) (camera_state : Option String) (rule : Rule)
      → IsUnseen rule t obs.objects
      → get (one_rule e obs camera_state rule).0.state (presence r t z)
        ≡ get e.state (presence r t z)
  unfolding one_rule occupancy_rule
  one_rule-unseen e none rule u =
      ground (arith, presence_rule-unseen rule obs t e r z u, occupied_zones-other e rule e.zones)
  one_rule-unseen e (some camera_state) rule u = ground (
    arith,
    presence_rule-unseen rule obs t e r z u,
    occupied_zones-other e rule e.zones,
    camera_rule-other e rule camera_state,
  )

  all_rules-unseen :
      (e : Engine) (camera_state : Option String) (rules : List Rule)
      → All (λ (rule : Rule). IsUnseen rule t obs.objects) rules
      → get (all_rules e obs camera_state rules).0.state (presence r t z)
        ≡ get e.state (presence r t z)
  unfolding all_rules
  all_rules-unseen e camera_state [] u = refl
  all_rules-unseen e camera_state (rule ∷ rules) u =
      all_rules-unseen (one_rule e obs camera_state rule).0 camera_state rules u.1
      ∙ one_rule-unseen e camera_state rule u.0

  kept :
      (rules : List Rule) (now : ℕ) (st : Streak)
      → IsFresh rules now (presence r t z) st
      → expired rules now (presence r t z) st ≡ false
  unfolding expired
  kept rules now st fresh = elim (Option-cases (window_of rules r)) [
    | inl e ↦ rw e refl
    | inr (window, e) ↦ elim (Option-cases st.last_seen) [
      | inl e' ↦ rw (e, e') refl
      | inr (last, e') ↦ let bound = fresh window last e e' in rw (e, e') (ground arith)
    ]
  ]

  expire-get :
      (rules : List Rule) (now : ℕ) (m : List (Key × Streak)) (st : Streak)
      → get m (presence r t z) ≡ some st
      → expired rules now (presence r t z) st ≡ false
      → get (expire rules now m) (presence r t z) ≡ some st
  unfolding expire get
  expire-get rules now [] st h x = cc
  expire-get rules now ((k, st') ∷ m) st h x = elim (Bool-cases (same_key k (presence r t z))) [
    | inl same ↦
        let is_key : k ≡ presence r t z = same_key_iff k (presence r t z) same in
        let is_streak : st' ≡ st = ground arith in
        rw (is_key, is_streak, x, same_key_refl (presence r t z)) refl
    | inr other ↦ let ih = expire-get rules now m st (ground arith) x in ground (arith, ih)
  ]

  -- A step keeps the presence of a track that it does not see as it was, occlusion resetting
  -- nothing, if no rule has a relevant object of the track in the frame and the rule's window
  -- since the presence was last seen has not passed.
  pub step-unseen :
      (e e' : Engine) (camera_state : Option String) (events : List OperationalEvent) (st : Streak)
      → step e obs camera_state ≡ some (e', events)
      → All (λ (rule : Rule). IsUnseen rule t obs.objects) e.rules
      → get e.state (presence r t z) ≡ some st
      → IsFresh e.rules obs.ts (presence r t z) st
      → get e'.state (presence r t z) ≡ some st
  step-unseen e e' camera_state events st h u found fresh =
      subst (λ m. get m (presence r t z) ≡ some st) (step_state e e' obs camera_state events h)
        (expire-get e.rules obs.ts (all_rules e obs camera_state e.rules).0.state st
          (all_rules-unseen e camera_state e.rules u ∙ found) (kept e.rules obs.ts st fresh))
