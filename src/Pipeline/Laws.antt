-- ===== src/Pipeline/Laws.antt =====
-- Late and repeated fixes, and the breach alarm (src/minemonitor/pipeline.py).
use mine_intelligence.Storage.{Session}
use mine_intelligence.Zones.Engine.{AssetZoneState}
use mine_intelligence.Notifications.Outbox.{Settings}
use mine_intelligence.Prelude.{
  All, All-weaken, Bool, Bool-cases, List, Option, String, [], any, arith, eq_iff, eq_refl, false,
  if◌then◌else◌, inl, inr, leb, ltb, none, refl, some, str_eq, true, ℕ, ◌&&◌, ◌+◌, ◌||◌, ◌∙◌, ◌∷◌,
  ◌≡◌, ◌≤◌,
}
use mine_intelligence.Prelude.Table.{Table, lookup, lookup-insert}
use mine_intelligence.Rules.Evaluate.{Position, Zone}
use mine_intelligence.Pipeline.{
  Geometry, Live, LiveSettings, all_zones, evaluate, is_future, one_zone, process_position, skips,
  state_or_new,
}

abbrev pub last_of : Option AssetZoneState → Option ℕ
last_of none = none
last_of (some state) = state.last_ts

-- A fix is late for a watermark that is not in the future when it is not newer than it, and for one
-- in the future when it arrived later than the skew allows.
abbrev pub is_late : LiveSettings → Position → Option ℕ → Bool
is_late settings fix none = false
is_late settings fix (some last_ts) =
    (leb last_ts (fix.received_at + settings.max_skew) && leb fix.ts last_ts)
    || (ltb (fix.received_at + settings.max_skew) last_ts
        && ltb (fix.ts + settings.max_skew) fix.received_at)

-- The asset's row for a zone makes the loop go on to the next zone.
abbrev IsSkipped : LiveSettings → Position → Table AssetZoneState → String → Type 0
IsSkipped settings fix states zone_id = skips settings fix (last_of (lookup states zone_id)) ≡ true

module _ (geometry : Geometry) (settings : LiveSettings) (pos : Position)
    (asset_class : String) where
  last-evaluate :
      (zone : Zone) (state : AssetZoneState) (drawn : ℕ)
      → (evaluate geometry settings pos asset_class zone state drawn).0.last_ts ≡ some pos.ts
  unfolding evaluate
  last-evaluate zone state drawn = refl

  skips_self :
      pos.ts ≤ pos.received_at + settings.max_skew → skips settings pos (some pos.ts) ≡ true
  unfolding skips
  skips_self h = ground arith

  late_of_skips :
      (found : Option AssetZoneState) (zone : Zone)
      → skips settings pos (state_or_new found pos zone).last_ts ≡ true
      → skips settings pos (last_of found) ≡ true
  unfolding state_or_new skips
  late_of_skips none zone h = h
  late_of_skips (some state) zone h = h

  skips_of_late :
      (found : Option AssetZoneState) (zone : Zone)
      → skips settings pos (last_of found) ≡ true
      → skips settings pos (state_or_new found pos zone).last_ts ≡ true
  unfolding state_or_new skips
  skips_of_late none zone h = h
  skips_of_late (some state) zone h = h

  one_zone-IsSkipped_self :
      (zone : Zone) (live : Live)
      → pos.ts ≤ pos.received_at + settings.max_skew
      → IsSkipped settings pos
          (one_zone geometry settings pos asset_class zone live).states
          zone.zone_id
  unfolding one_zone
  one_zone-IsSkipped_self zone live h =
      let state = state_or_new (lookup live.states zone.zone_id) pos zone in
      elim (Bool-cases (skips settings pos state.last_ts)) [
        | inl e ↦ rw (e, one_zone) (late_of_skips (lookup live.states zone.zone_id) zone e)
        | inr e ↦
            rw (e, one_zone)
              (rw lookup-insert (rw (eq_refl zone.zone_id) (rw last-evaluate (skips_self h))))
      ]

  one_zone-IsSkipped :
      (zone : Zone) (live : Live) (j : String)
      → pos.ts ≤ pos.received_at + settings.max_skew
      → IsSkipped settings pos live.states j
      → IsSkipped settings pos (one_zone geometry settings pos asset_class zone live).states j
  unfolding one_zone
  one_zone-IsSkipped zone live j h late =
      let state = state_or_new (lookup live.states zone.zone_id) pos zone in
      elim (Bool-cases (skips settings pos state.last_ts)) [
        | inl e ↦ rw (e, one_zone) late
        | inr e ↦
            rw (e, one_zone)
              (rw lookup-insert (elim (Bool-cases (str_eq zone.zone_id j)) [
                | inl same ↦ rw same (rw last-evaluate (skips_self h))
                | inr other ↦ rw other late
              ]))
      ]

  all_zones-IsSkipped :
      (zones : List Zone) (live : Live) (j : String)
      → pos.ts ≤ pos.received_at + settings.max_skew
      → IsSkipped settings pos live.states j
      → IsSkipped settings pos (all_zones geometry settings pos asset_class zones live).states j
  unfolding all_zones
  all_zones-IsSkipped [] live j h late = late
  all_zones-IsSkipped (z ∷ zs) live j h late =
      all_zones-IsSkipped zs (one_zone geometry settings pos asset_class z live) j h
        (one_zone-IsSkipped z live j h late)

  all_zones-IsSkipped_each :
      (zones : List Zone) (live : Live)
      → pos.ts ≤ pos.received_at + settings.max_skew
      → All
          (λ (z : Zone).
            IsSkipped settings pos
              (all_zones geometry settings pos asset_class zones live).states
              z.zone_id)
          zones
  unfolding all_zones
  all_zones-IsSkipped_each [] live h = tt
  all_zones-IsSkipped_each (z ∷ zs) live h =
      let live' = one_zone geometry settings pos asset_class z live in
      (
        all_zones-IsSkipped zs live' z.zone_id h (one_zone-IsSkipped_self z live h),
        all_zones-IsSkipped_each zs live' h,
      )

  one_zone_idle :
      (zone : Zone) (live : Live)
      → IsSkipped settings pos live.states zone.zone_id
      → one_zone geometry settings pos asset_class zone live ≡ live
  unfolding one_zone
  one_zone_idle zone live late =
      rw (skips_of_late (lookup live.states zone.zone_id) zone late, one_zone)

  all_zones_idle :
      (zones : List Zone) (live : Live)
      → All (λ (z : Zone). IsSkipped settings pos live.states z.zone_id) zones
      → all_zones geometry settings pos asset_class zones live ≡ live
  unfolding all_zones
  all_zones_idle [] live h = refl
  all_zones_idle (z ∷ zs) live h = rw (one_zone_idle z live h.0) (all_zones_idle zs live h.1)

  process_position_idle :
      (outbox : Settings) (now : ℕ) (session : Session) (zones : List Zone)
      (states : Table AssetZoneState)
      → All (λ (z : Zone). IsSkipped settings pos states z.zone_id) zones
      → process_position geometry settings outbox now session zones states asset_class pos true
        ≡ (session, states, [])
  unfolding process_position
  process_position_idle outbox now session zones states late =
      rw
        (all_zones_idle zones (record { states = states; alarms = []; drawn = session.drawn }) late)

  skips-is_late : (last_ts : Option ℕ) → skips settings pos last_ts ≡ is_late settings pos last_ts
  unfolding skips is_future
  skips-is_late none = refl
  skips-is_late (some last_ts) = ground arith

  -- A fix that is late in every zone raises nothing and changes no row: in each zone the asset has
  -- a watermark, which either is no later than the fix's arrival can be and not before the fix, or
  -- is later than that while the fix took longer to arrive than the skew allowed.
  pub process_position_late :
      (outbox : Settings) (now : ℕ) (session : Session) (zones : List Zone)
      (states : Table AssetZoneState)
      → All (λ (z : Zone). is_late settings pos (last_of (lookup states z.zone_id)) ≡ true) zones
      → process_position geometry settings outbox now session zones states asset_class pos true
        ≡ (session, states, [])
  process_position_late outbox now session zones states late =
      process_position_idle outbox now session zones states (
        All-weaken (λ (z : Zone). is_late settings pos (last_of (lookup states z.zone_id)) ≡ true)
          (λ (z : Zone). skips settings pos (last_of (lookup states z.zone_id)) ≡ true) zones
          (λ z h. skips-is_late (last_of (lookup states z.zone_id)) ∙ h) late)

  -- What a zone's watermark becomes.
  mark : Option ℕ → Option ℕ
  mark last_ts = if is_late settings pos last_ts then last_ts else some pos.ts

  mark_again : (last_ts : Option ℕ) → mark (mark last_ts) ≡ mark last_ts
  unfolding mark
  mark_again none = ground arith
  mark_again (some last_ts) = ground arith

  is_late_new :
      (found : Option AssetZoneState) (zone : Zone)
      → is_late settings pos (state_or_new found pos zone).last_ts
        ≡ is_late settings pos (last_of found)
  unfolding state_or_new
  is_late_new none zone = refl
  is_late_new (some state) zone = refl

  one_zone-mark :
      (zone : Zone) (live : Live) (j : String)
      → last_of (lookup (one_zone geometry settings pos asset_class zone live).states j) ≡ (
          if str_eq zone.zone_id j
          then mark (last_of (lookup live.states j))
          else last_of (lookup live.states j))
  unfolding one_zone mark
  one_zone-mark zone live j =
      let found = lookup live.states zone.zone_id in
      let state = state_or_new found pos zone in
      grind (
        arith,
        is_late_new found zone,
        skips-is_late state.last_ts,
        eq_iff zone.zone_id j,
        lookup-insert,
        last-evaluate zone state live.drawn,
      )

  all_zones-mark :
      (zones : List Zone) (live : Live) (j : String)
      → last_of (lookup (all_zones geometry settings pos asset_class zones live).states j) ≡ (
          if any (λ (z : Zone). str_eq z.zone_id j) zones
          then mark (last_of (lookup live.states j))
          else last_of (lookup live.states j))
  unfolding all_zones
  all_zones-mark [] live j = refl
  all_zones-mark (z ∷ zs) live j = ground (
    arith,
    all_zones-mark zs (one_zone geometry settings pos asset_class z live) j,
    one_zone-mark z live j,
    mark_again (last_of (lookup live.states j)),
  )

  -- In each of the site's zones, the asset's watermark stays where the fix is late for it, and
  -- becomes the time of the fix where it is not. A fix is late for a watermark that is no later
  -- than its arrival can be and not before it, and for a later one if it took longer to arrive than
  -- the skew allowed.
  pub last-process_position :
      (outbox : Settings) (now : ℕ) (session : Session) (zones : List Zone)
      (states : Table AssetZoneState) (j : String)
      → any (λ (z : Zone). str_eq z.zone_id j) zones ≡ true
      → let (session', states', alarms) =
          process_position geometry settings outbox now session zones states asset_class pos true in
        last_of (lookup states' j) ≡ (
          if is_late settings pos (last_of (lookup states j))
          then last_of (lookup states j)
          else some pos.ts)
  unfolding process_position mark
  last-process_position outbox now session zones states j h =
      let start : Live = record { states = states; alarms = []; drawn = session.drawn } in
      ground (arith, all_zones-mark zones start j)

  -- Processing a stored fix a second time, at any later time, raises nothing and changes no row,
  -- if the fix is not dated further ahead of its arrival than the skew allowed.
  pub process_position_again :
      (outbox : Settings) (now later : ℕ) (session : Session) (zones : List Zone)
      (states : Table AssetZoneState)
      → pos.ts ≤ pos.received_at + settings.max_skew
      → let (session', states', alarms) =
          process_position geometry settings outbox now session zones states asset_class pos true in
        process_position geometry settings outbox later session' zones states' asset_class pos true
        ≡ (session', states', [])
  unfolding process_position
  process_position_again outbox now later session zones states h =
      let start : Live = record { states = states; alarms = []; drawn = session.drawn } in
      let live = all_zones geometry settings pos asset_class zones start in
      process_position_idle outbox later
        (process_position geometry settings outbox now session zones states asset_class pos true).0
        zones live.states (all_zones-IsSkipped_each zones start h)
