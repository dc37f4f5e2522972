-- ===== src/Rules/Offline/Outages.antt =====
-- One alarm for each outage of an asset (src/minemonitor/rules/offline.py).
use mine_intelligence.Rules.Occupancy.{persist_each}
use mine_intelligence.Storage.Laws.{any-append, commit-append}
use mine_intelligence.Rules.Occupancy.Refinement.{persist_each_adds}
use mine_intelligence.Prelude.{
  All, Bool, Bool-cases, List, String, [], any, ap, arith, eq_iff, eq_refl, false, inl, inr, leb,
  none, refl, some, str_eq, sym, true, ℕ, ◌&&◌, ◌++◌, ◌∙◌, ◌∷◌, ◌≡◌, ◌≤◌,
}
use mine_intelligence.Storage.{Event, Session, commit}
use mine_intelligence.Notifications.Outbox.{Settings}
use mine_intelligence.Events.{alarmed_since, matches, new_event_id}
use mine_intelligence.Rules.Offline.{LastFix, collect, detect_offline, is_offline, offline_alarm}

-- An alarm is for the asset.
abbrev pub is_for : String → Event → Bool
is_for asset e = elim e.asset_id [ none ↦ false | some a ↦ str_eq a asset ]

module _ (site_id : String) (now threshold : ℕ) where
  collect_keeps :
      (rows : List LastFix) (s : Session)
      → ((collect site_id now threshold rows s).0.events ≡ s.events)
        × ((collect site_id now threshold rows s).0.added_events ≡ s.added_events)
  unfolding collect new_event_id
  collect_keeps [] s = (refl, refl)
  collect_keeps (row ∷ rows) s =
      ground (arith, collect_keeps rows s, collect_keeps rows (new_event_id s).1)

  -- Which assets are alarmed does not depend on the ids that are drawn.
  is_offline-new_event_id :
      (at limit : ℕ) (s : Session) (row : LastFix)
      → is_offline (new_event_id s).1 site_id at limit row ≡ is_offline s site_id at limit row
  unfolding is_offline new_event_id alarmed_since
  is_offline-new_event_id at limit s row = refl

  any_offline-new_event_id :
      (asset : String) (s : Session) (rows : List LastFix)
      → any
          (λ (r : LastFix).
            str_eq r.asset_id asset && is_offline (new_event_id s).1 site_id now threshold r)
          rows
        ≡ any
            (λ (r : LastFix). str_eq r.asset_id asset && is_offline s site_id now threshold r)
            rows
  any_offline-new_event_id asset s [] = refl
  any_offline-new_event_id asset s (r ∷ rows) =
      ground
        (arith, is_offline-new_event_id now threshold s r, any_offline-new_event_id asset s rows)

  -- An asset is alarmed exactly if a row of its is offline.
  pub is_for-collect :
      (asset : String) (rows : List LastFix) (s : Session)
      → any (is_for asset) (collect site_id now threshold rows s).1
        ≡ any
            (λ (r : LastFix). str_eq r.asset_id asset && is_offline s site_id now threshold r)
            rows
  unfolding collect offline_alarm
  is_for-collect asset [] s = refl
  is_for-collect asset (row ∷ rows) s = ground (
    arith,
    is_for-collect asset rows s,
    is_for-collect asset rows (new_event_id s).1,
    any_offline-new_event_id asset s rows,
  )

  -- What a search for an alarm of an asset since a time looks for.
  abbrev sought : String → ℕ → Event → Bool
  sought asset since e =
      str_eq e.site_id site_id
      && (str_eq e.type "asset_offline"
          && (leb since e.ts && (matches (some asset) e.asset_id && matches none (some e.source))))

  sought-collect :
      (asset : String) (since : ℕ) (rows : List LastFix) (s : Session)
      → since ≤ now
      → any (sought asset since) (collect site_id now threshold rows s).1
        ≡ any (is_for asset) (collect site_id now threshold rows s).1
  unfolding collect offline_alarm matches
  sought-collect asset since [] s le = refl
  sought-collect asset since (row ∷ rows) s le = ground (
    arith,
    eq_refl site_id,
    le,
    sought-collect asset since rows s le,
    sought-collect asset since rows (new_event_id s).1 le,
  )

  -- Such an alarm is found by a search for one since an earlier time.
  pub alarmed-collect :
      (asset : String) (since : ℕ) (rows : List LastFix) (s t : Session)
      → since ≤ now
      → t.events ≡ s.events ++ (collect site_id now threshold rows s).1
      → any (is_for asset) (collect site_id now threshold rows s).1 ≡ true
      → alarmed_since t site_id "asset_offline" since (some asset) none ≡ true
  unfolding alarmed_since
  alarmed-collect asset since rows s t le e h =
      ap (any (sought asset since)) e
      ∙ (any-append (sought asset since) s.events _
          ∙ ground (arith, h, sought-collect asset since rows s le))

  pub events-detect_offline :
      (settings : Settings) (rows : List LastFix) (s t : Session) (clock : ℕ) (alarms : List Event)
      → s.added_events ≡ []
      → detect_offline settings rows s site_id now threshold clock ≡ some (t, alarms)
      → (t.events ≡ s.events ++ (collect site_id now threshold rows s).1)
        × ((collect site_id now threshold rows s).1 ≡ alarms)
  unfolding detect_offline
  events-detect_offline settings rows s t clock alarms nothing h =
      let (s', found) = collect site_id now threshold rows s in
      let (a, b) = collect_keeps rows s in
      let (c, d) = persist_each_adds settings clock found s' in
      let e : (commit (persist_each settings clock found s') ≡ some t) × (found ≡ alarms) =
        ground (arith, h) in
      let (events, _) = commit-append (persist_each settings clock found s') t (e.0) in
      let stored = c ∙ a in
      let added : (persist_each settings clock found s').added_events ≡ found =
        d ∙ ap (λ es. es ++ found) (b ∙ nothing) in
      (
        events
            ∙ (ap (λ es. es ++ (persist_each settings clock found s').added_events) stored
                ∙ ap (λ es. s.events ++ es) added),
        e.1,
      )

-- With an alarm since each of an asset's fixes, none of them is offline.
none_offline :
    (site_id : String) (now later threshold : ℕ) (asset : String) (rows : List LastFix)
    (t : Session)
    → All (λ (r : LastFix). r.ts ≤ now) rows
    → ((since : ℕ)
        → since ≤ now
        → alarmed_since t site_id "asset_offline" since (some asset) none ≡ true)
    → any (λ (r : LastFix). str_eq r.asset_id asset && is_offline t site_id later threshold r) rows
      ≡ false
unfolding is_offline
none_offline site_id now later threshold asset [] t past alarmed = refl
none_offline site_id now later threshold asset (r ∷ rows) t past alarmed =
    let rest = none_offline site_id now later threshold asset rows t past.1 alarmed in
    elim (Bool-cases (str_eq r.asset_id asset)) [
      | inl m ↦
          let same = (eq_iff r.asset_id asset).0 m in
          let found : alarmed_since t site_id "asset_offline" r.ts (some r.asset_id) none ≡ true =
            rw same (alarmed r.ts past.0) in
          ground (arith, m, found, rest)
      | inr m ↦ ground (arith, m, rest)
    ]

-- One alarm for each outage: an asset that a check alarms is not alarmed by a later check that finds
-- the same newest fixes, none of them dated after the first check.
pub detect_offline_once :
    (settings : Settings) (rows : List LastFix) (s t u : Session) (site_id asset : String)
    (now later threshold clock clock' : ℕ) (alarms more : List Event)
    → s.added_events ≡ []
    → All (λ (r : LastFix). r.ts ≤ now) rows
    → detect_offline settings rows s site_id now threshold clock ≡ some (t, alarms)
    → detect_offline settings rows t site_id later threshold clock' ≡ some (u, more)
    → any (is_for asset) alarms ≡ true
    → any (is_for asset) more ≡ false
unfolding detect_offline
detect_offline_once settings rows s t u site_id asset now later threshold clock clock' alarms more
      nothing past h k a =
    let (es, found) =
      events-detect_offline site_id now threshold settings rows s t clock alarms nothing h in
    let again : (collect site_id later threshold rows t).1 ≡ more = ground (arith, k) in
    let first = ap (any (is_for asset)) found ∙ a in
    ap (any (is_for asset)) (sym again)
    ∙ (is_for-collect site_id later threshold asset rows t
        ∙ none_offline site_id now later threshold asset rows t past
            (λ since le. alarmed-collect site_id now threshold asset since rows s t le es first))
