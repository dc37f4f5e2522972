-- ===== src/Pipeline/Breach.antt =====
-- The breach alarm of a restricted zone (src/minemonitor/pipeline.py).
use mine_intelligence.Prelude.{
  Bool, Option, String, [], arith, false, if◌then◌else◌, length, none, not, refl, some, str_eq, ℕ,
  ◌&&◌, ◌+◌, ◌≡◌,
}
use mine_intelligence.Rules.Config.{RuleConfig, parse_rules}
use mine_intelligence.Storage.{Event}
use mine_intelligence.Storage.Laws.{any-append}
use mine_intelligence.Zones.Engine.{AssetZoneState, Transition, entry, exit, step}
use mine_intelligence.Rules.Evaluate.{
  Position, Zone, authorized, on_entry, on_inzone_fix, zone_event,
}
use mine_intelligence.Rules.Evaluate.Laws.{raises}
use mine_intelligence.Pipeline.{Geometry, LiveSettings, entered, evaluate, heal}

step_edge :
    (s : AssetZoneState) (raw : Bool) (dist ts : ℕ) (cfg : RuleConfig) (gap : Option ℕ)
    → (step s raw dist ts cfg gap).1 ≡ (
        if s.inside
        then (if (step s raw dist ts cfg gap).0.inside then none else some exit)
        else (if (step s raw dist ts cfg gap).0.inside then some entry else none))
unfolding step
step_edge s raw dist ts cfg gap = ground arith

inside-on_inzone_fix :
    (pos : Position) (zone : Zone) (cfg : RuleConfig) (s : AssetZoneState) (drawn : ℕ)
    → (on_inzone_fix pos zone cfg s drawn).0.inside ≡ s.inside
unfolding on_inzone_fix
inside-on_inzone_fix pos zone cfg s drawn = ground arith

raises-on_inzone_fix :
    (pos : Position) (zone : Zone) (cfg : RuleConfig) (s : AssetZoneState) (drawn : ℕ)
    → raises "zone_breach" (on_inzone_fix pos zone cfg s drawn).1 ≡ false
unfolding on_inzone_fix zone_event
raises-on_inzone_fix pos zone cfg s drawn = ground arith

raises-entered :
    (tr : Option Transition) (pos : Position) (zone : Zone) (cfg : RuleConfig)
    (asset_class : String) (drawn : ℕ)
    → raises "zone_breach" (entered tr pos zone cfg asset_class drawn) ≡ (elim tr [
      | none ↦ false
      | some exit ↦ false
      | some entry ↦
          str_eq zone.kind "restricted" && not (authorized asset_class cfg.authorized_classes)
    ])
unfolding entered on_entry zone_event
raises-entered none pos zone cfg asset_class drawn = refl
raises-entered (some exit) pos zone cfg asset_class drawn = refl
raises-entered (some entry) pos zone cfg asset_class drawn = ground arith

module _ (geometry : Geometry) (settings : LiveSettings) (pos : Position)
    (asset_class : String) where
  inside-heal :
      (last : Option ℕ) (state : AssetZoneState)
      → (heal settings pos last state).inside ≡ state.inside
  unfolding heal
  inside-heal none state = refl
  inside-heal (some l) state = ground arith

  -- Evaluating a fix in a zone raises a breach alarm exactly when the asset's membership rises from
  -- outside to inside, the zone is restricted, and the asset's class is not one that its rules
  -- authorise.
  pub breach-evaluate :
      (zone : Zone) (state : AssetZoneState) (drawn : ℕ)
      → let (state', es) = evaluate geometry settings pos asset_class zone state drawn in
        raises "zone_breach" es ≡ (
          not state.inside
          && (state'.inside
              && (str_eq zone.kind "restricted"
                  && not (authorized asset_class (parse_rules zone.rules).authorized_classes))))
  unfolding evaluate
  breach-evaluate zone state drawn =
      let cfg = parse_rules zone.rules in
      let raw = geometry.point_in_polygon pos zone in
      let dist = if raw then 0 else geometry.distance_to_polygon_m pos zone in
      let healed = heal settings pos state.last_ts state in
      let s1 = (step healed raw dist pos.ts cfg (some settings.max_gap_s)).0 in
      let tr = (step healed raw dist pos.ts cfg (some settings.max_gap_s)).1 in
      let breach = entered tr pos zone cfg asset_class drawn in
      let d = drawn + length breach in
      ground (
        arith,
        step_edge healed raw dist pos.ts cfg (some settings.max_gap_s),
        inside-heal state.last_ts state,
        raises-entered tr pos zone cfg asset_class drawn,
        any-append (λ (e : Event). str_eq e.type "zone_breach") breach
            (on_inzone_fix pos zone cfg s1 d).1,
        any-append (λ (e : Event). str_eq e.type "zone_breach") breach [],
        raises-on_inzone_fix pos zone cfg s1 d,
        inside-on_inzone_fix pos zone cfg s1 d,
      )
