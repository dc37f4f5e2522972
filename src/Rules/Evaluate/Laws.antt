-- ===== src/Rules/Evaluate/Laws.antt =====
-- One alarm for each spell (src/minemonitor/rules/evaluate.py).
use mine_intelligence.Prelude.{
  Bool, List, Option, String, [], any, arith, false, if◌then◌else◌, is_some, leb, ltb, none, not,
  some, str_eq, ℕ, ◌&&◌, ◌+◌, ◌||◌, ◌∷◌, ◌≡◌,
}
use mine_intelligence.Rules.Config.{RuleConfig, stationary_kph}
use mine_intelligence.Storage.{Event}
use mine_intelligence.Zones.Engine.{AssetZoneState}
use mine_intelligence.Rules.Evaluate.{Position, Zone, on_inzone_fix, zone_event}

abbrev pub raises : String → List Event → Bool
raises type es = any (λ (e : Event). str_eq e.type type) es

module _ (zone : Zone) (cfg : RuleConfig) (drawn : ℕ) where
  -- The row after the in-zone fixes of a visit, the newest first.
  unfoldable pub visit : AssetZoneState → List Position → AssetZoneState
  visit s [] = s
  visit s (p ∷ ps) = (on_inzone_fix p zone cfg (visit s ps) drawn).0

  module _ (limit : ℕ) where
    -- How many fixes up to the newest are over the limit; one with no speed ends the run.
    unfoldable pub fast_run : List Position → ℕ
    fast_run [] = 0
    fast_run (p ∷ ps) =
        let run = fast_run ps in
        elim p.speed_kph [ none ↦ 0 | some v ↦ if ltb limit v then run + 1 else 0 ]

    -- Since the last fix at or under the limit, a run has reached the count.
    unfoldable pub alarmed : List Position → Bool
    alarmed [] = false
    alarmed (p ∷ ps) =
        let before = alarmed ps in
        elim p.speed_kph [
          | none ↦ before
          | some v ↦
              if ltb limit v
              then before || leb cfg.overspeed_consecutive (fast_run (p ∷ ps))
              else false
        ]

    record Agrees (s : AssetZoneState) (ps : List Position) : Type 0 where
      run : s.overspeed_consec ≡ fast_run ps
      fired : s.overspeed_fired ≡ alarmed ps

    fix-Agrees :
        (s : AssetZoneState) (p : Position) (ps : List Position)
        → cfg.speed_limit_kph ≡ some limit
        → Agrees s ps
        → Agrees (on_inzone_fix p zone cfg s drawn).0 (p ∷ ps)
    unfolding on_inzone_fix fast_run alarmed
    fix-Agrees s p ps e h = ground arith

    visit-Agrees :
        (s : AssetZoneState) (ps : List Position)
        → cfg.speed_limit_kph ≡ some limit
        → s.overspeed_consec ≡ 0
        → s.overspeed_fired ≡ false
        → Agrees (visit s ps) ps
    unfolding visit fast_run alarmed
    visit-Agrees s [] e c f = record { run = c; fired = f }
    visit-Agrees s (p ∷ ps) e c f = fix-Agrees (visit s ps) p ps e (visit-Agrees s ps e c f)

    -- In a zone with a speed limit, at each fix of a visit that began with no overspeed run or
    -- alarm, an overspeed alarm is raised exactly when a run of over-limit fixes first reaches the
    -- configured count since the last fix at or under the limit: one alarm for each spell.
    pub overspeed-visit :
        (s : AssetZoneState) (p : Position) (ps : List Position)
        → cfg.speed_limit_kph ≡ some limit
        → s.overspeed_consec ≡ 0
        → s.overspeed_fired ≡ false
        → raises "overspeed" (on_inzone_fix p zone cfg (visit s ps) drawn).1
          ≡ (alarmed (p ∷ ps) && not (alarmed ps))
    unfolding on_inzone_fix fast_run alarmed zone_event
    overspeed-visit s p ps e c f = let h = visit-Agrees s ps e c f in ground (arith, h)

  module _ (dwell_s : ℕ) where
    -- Since when the asset stands; a fix with no speed says nothing.
    unfoldable pub stands_since : List Position → Option ℕ
    stands_since [] = none
    stands_since (p ∷ ps) =
        let before = stands_since ps in
        elim p.speed_kph [
          | none ↦ before
          | some v ↦
              if ltb v stationary_kph then (if is_some before then before else some p.ts) else none
        ]

    -- The stay that the newest fix belongs to has reached the threshold at some fix of it.
    unfoldable pub dwelt : List Position → Bool
    dwelt [] = false
    dwelt (p ∷ ps) =
        let before = dwelt ps in
        elim p.speed_kph [
          | none ↦ before
          | some v ↦
              if ltb v stationary_kph
              then before
                || elim (stands_since ps) [ none ↦ false | some since ↦ leb (since + dwell_s) p.ts ]
              else false
        ]

    record AgreesDwell (s : AssetZoneState) (ps : List Position) : Type 0 where
      since : s.stationary_since ≡ stands_since ps
      fired : s.dwell_fired ≡ dwelt ps

    fix-AgreesDwell :
        (s : AssetZoneState) (p : Position) (ps : List Position)
        → cfg.dwell_s ≡ some dwell_s
        → AgreesDwell s ps
        → AgreesDwell (on_inzone_fix p zone cfg s drawn).0 (p ∷ ps)
    unfolding on_inzone_fix stands_since dwelt
    fix-AgreesDwell s p ps e h = ground arith

    visit-AgreesDwell :
        (s : AssetZoneState) (ps : List Position)
        → cfg.dwell_s ≡ some dwell_s
        → s.stationary_since ≡ none
        → s.dwell_fired ≡ false
        → AgreesDwell (visit s ps) ps
    unfolding visit stands_since dwelt
    visit-AgreesDwell s [] e c f = record { since = c; fired = f }
    visit-AgreesDwell s (p ∷ ps) e c f =
        fix-AgreesDwell (visit s ps) p ps e (visit-AgreesDwell s ps e c f)

    -- In a zone with a dwell rule, at each fix of a visit that began with no stay, a dwell alarm is
    -- raised exactly when the stay in progress first reaches the threshold, measured from its first
    -- standing fix; fixes with no speed neither start nor end a stay.
    pub dwell-visit :
        (s : AssetZoneState) (p : Position) (ps : List Position)
        → cfg.dwell_s ≡ some dwell_s
        → s.stationary_since ≡ none
        → s.dwell_fired ≡ false
        → raises "zone_dwell" (on_inzone_fix p zone cfg (visit s ps) drawn).1
          ≡ (dwelt (p ∷ ps) && not (dwelt ps))
    unfolding on_inzone_fix stands_since dwelt zone_event
    dwell-visit s p ps e c f = let h = visit-AgreesDwell s ps e c f in ground (arith, h)
