-- ===== src/Zones/Engine/History.antt =====
-- The machine computes a function of the fixes it has seen (src/minemonitor/zones/engine.py).
use mine_intelligence.Prelude.{
  All, Bool, List, Option, String, [], arith, false, if◌then◌else◌, leb, ltb, none, not, refl, some,
  sym, true, ℕ, ◌&&◌, ◌++◌, ◌+◌, ◌<◌, ◌==◌, ◌||◌, ◌∙◌, ◌∷◌, ◌≡◌, ◌≤◌,
}
use mine_intelligence.Rules.Config.{RuleConfig}
use mine_intelligence.Zones.Engine.{AssetZoneState, Transition, breaks_run, entry, exit, step}

-- What the machine is told of one fix.
pub record Reading : Type 0 where
  pub inside_raw : Bool
  pub dist_outside_m : ℕ
  pub ts : ℕ

-- A row as `get_or_create_state` makes it.
abbrev pub fresh : String → String → String → AssetZoneState
fresh site asset zone = record {
  site_id = site;
  asset_id = asset;
  zone_id = zone;
  inside = false;
  consec_in = 0;
  consec_out = 0;
  entered_at = none;
  overspeed_consec = 0;
  overspeed_fired = false;
  stationary_since = none;
  dwell_fired = false;
  last_ts = none;
}

-- A change of membership.
unfoldable pub edge : Bool → Bool → Option Transition
edge false true = some entry
edge true false = some exit
edge _ _ = none

module _ (cfg : RuleConfig) (max_gap_s : Option ℕ) where
  -- The row after some fixes, the newest first; the caller sets `last_ts` behind each step.
  unfoldable pub after : AssetZoneState → List Reading → AssetZoneState
  after s [] = s
  after s (r ∷ rs) = record (step (after s rs) r.inside_raw r.dist_outside_m r.ts cfg max_gap_s).0 {
    last_ts = some r.ts;
  }

  unfoldable pub newest : List Reading → Option ℕ
  newest [] = none
  newest (r ∷ rs) = some r.ts

  -- How many fixes up to the newest are inside, none of them after a break.
  unfoldable pub run_length : List Reading → ℕ
  run_length [] = 0
  run_length (r ∷ rs) =
      let run = run_length rs in
      if r.inside_raw then (if breaks_run (newest rs) r.ts max_gap_s then 1 else run + 1) else 0

  -- When that run began.
  unfoldable pub run_start : List Reading → ℕ
  run_start [] = 0
  run_start (r ∷ rs) =
      let start = run_start rs in
      if breaks_run (newest rs) r.ts max_gap_s || run_length rs == 0 then r.ts else start

  -- How many fixes lie beyond the buffer since the last fix inside or the last break.
  unfoldable pub out_count : List Reading → ℕ
  out_count [] = 0
  out_count (r ∷ rs) =
      let out = out_count rs in
      if r.inside_raw
      then 0
      else (if breaks_run (newest rs) r.ts max_gap_s then 0 else out)
        + (if ltb cfg.hysteresis_m r.dist_outside_m then 1 else 0)

  -- Membership, from the history alone.
  unfoldable pub is_inside : List Reading → Bool
  is_inside [] = false
  is_inside (r ∷ rs) =
      let was = is_inside rs in
      if was
      then not (leb cfg.exit_debounce (out_count (r ∷ rs)))
      else r.inside_raw
        && (leb cfg.debounce_in (run_length (r ∷ rs))
            && leb (run_start (r ∷ rs) + cfg.min_entry_dwell_s) r.ts)

  -- The row agrees with the history.
  record Agrees (s : AssetZoneState) (rs : List Reading) : Type 0 where
    last : s.last_ts ≡ newest rs
    run : s.consec_in ≡ run_length rs
    out : s.consec_out ≡ out_count rs
    membership : s.inside ≡ is_inside rs
    start : s.inside ≡ false → 0 < s.consec_in → s.entered_at ≡ some (run_start rs)

  module _ (in_pos : 0 < cfg.debounce_in) (out_pos : 0 < cfg.exit_debounce) where
    step-Agrees :
        (s : AssetZoneState) (r : Reading) (rs : List Reading)
        → Agrees s rs
        → Agrees
            (record (step s r.inside_raw r.dist_outside_m r.ts cfg max_gap_s).0 {
              last_ts = some r.ts;
            })
            (r ∷ rs)
    unfolding step newest run_length out_count is_inside run_start
    step-Agrees s r rs h = ground arith

    after-Agrees :
        (site asset zone : String) (rs : List Reading)
        → Agrees (after (fresh site asset zone) rs) rs
    unfolding after newest run_length out_count is_inside
    after-Agrees site asset zone [] = record {
      last = refl;
      run = refl;
      out = refl;
      membership = refl;
      start = λ e h. absurd (omega arith);
    }
    after-Agrees site asset zone (r ∷ rs) =
        step-Agrees (after (fresh site asset zone) rs) r rs (after-Agrees site asset zone rs)

    -- Where both debounce counts are positive, a new row's membership after any fixes is the one
    -- that the history defines: entered once the unbroken run of inside fixes has `debounce_in`
    -- of them over the entry dwell, left once `exit_debounce` fixes since the last inside fix or
    -- break lie beyond the buffer.
    pub inside-after :
        (site asset zone : String) (rs : List Reading)
        → (after (fresh site asset zone) rs).inside ≡ is_inside rs
    inside-after site asset zone rs = (after-Agrees site asset zone rs).membership

    -- The transition reported at a fix is the edge of that membership: an entry where it rises,
    -- an exit where it falls, and nothing where it stays.
    pub transition-after :
        (site asset zone : String) (r : Reading) (rs : List Reading)
        → (step
            (after (fresh site asset zone) rs)
            r.inside_raw
            r.dist_outside_m
            r.ts
            cfg
            max_gap_s).1
          ≡ edge (is_inside rs) (is_inside (r ∷ rs))
    unfolding step newest run_length out_count is_inside run_start edge
    transition-after site asset zone r rs =
        let h = after-Agrees site asset zone rs in ground (arith, h)

    out_below : (rs : List Reading) → is_inside rs ≡ true → out_count rs < cfg.exit_debounce
    unfolding is_inside out_count
    out_below [] h = cc
    out_below (r ∷ rs) h = ground arith

    band-is_inside :
        (bs rs : List Reading)
        → All (λ b. (b.inside_raw ≡ false) × (b.dist_outside_m ≤ cfg.hysteresis_m)) bs
        → is_inside rs ≡ true
        → is_inside (bs ++ rs) ≡ true
    unfolding is_inside out_count
    band-is_inside [] rs h e = e
    band-is_inside (b ∷ bs) rs h e =
        let ih = band-is_inside bs rs h.1 e in ground (arith, ih, out_below (bs ++ rs) ih, h.0)

    -- Where both debounce counts are positive, fixes outside the polygon and within the buffer, as
    -- many as they are and however long the silences between them, leave a row inside that was
    -- inside, and the machine reports no transition at the last of them.
    pub inside-after_band :
        (site asset zone : String) (b : Reading) (bs rs : List Reading)
        → All (λ c. (c.inside_raw ≡ false) × (c.dist_outside_m ≤ cfg.hysteresis_m)) (b ∷ bs)
        → (after (fresh site asset zone) rs).inside ≡ true
        → ((after (fresh site asset zone) (b ∷ (bs ++ rs))).inside ≡ true)
          × ((step
                (after (fresh site asset zone) (bs ++ rs))
                b.inside_raw
                b.dist_outside_m
                b.ts
                cfg
                max_gap_s).1
              ≡ none)
    unfolding edge
    inside-after_band site asset zone b bs rs h e =
        let was = sym (inside-after site asset zone rs) ∙ e in
        let before = band-is_inside bs rs h.1 was in
        let now = band-is_inside (b ∷ bs) rs h was in
        (
          inside-after site asset zone (b ∷ (bs ++ rs)) ∙ now,
          transition-after site asset zone b (bs ++ rs) ∙ rw (before, now) refl,
        )
