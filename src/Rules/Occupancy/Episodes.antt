-- ===== src/Rules/Occupancy/Episodes.antt =====
-- The check of the occupancy as one two-state machine per zone (src/minemonitor/rules/occupancy.py).
use mathlib.Core.Path.{subst}
use mine_intelligence.Prelude.{
  Bool, Bool-cases, List, Option, Option-cases, String, [], any, ap, arith, eq_iff, eq_refl, false,
  if◌then◌else◌, inl, inr, leb, none, not, refl, some, str_eq, sym, true, ℕ, ℤ, ◌&&◌, ◌∙◌, ◌∷◌, ◌≡◌,
  ◌⊎◌,
}
use mine_intelligence.Storage.{Event, EventId, Session, distinct, same_event, same_id}
use mine_intelligence.Events.{new_event_id}
use mine_intelligence.Zones.Engine.{AssetZoneState}
use mine_intelligence.Rules.Occupancy.{
  CappedZone, check_zone, current_breach, current_occupancy, is_alarm_of, is_named, latest,
  mark_cleared, occupancy_alarm, parse_cap, uncleared,
}
use mine_intelligence.Rules.Occupancy.Marks.{ends-mark_cleared, keeps-mark_cleared}
use mine_intelligence.Rules.Occupancy.Latest.{AreNew, AreOlder, under_way, under_way-uncleared}

-- The machine: its state says whether an episode is under way, and its input whether the zone is
-- over its cap, `none` where it has no cap.
abbrev pub next : Option Bool → Bool → Bool
next none current = current
next (some over) current = over

abbrev pub fires : Option Bool → Bool → Bool
fires none current = false
fires (some over) current = over && not current

-- The state of a zone's machine that a table of alarms stands for.
abbrev pub episode : List Event → String → String → Bool
episode es site_id zone_id = under_way (latest (is_alarm_of site_id zone_id) es)

-- Before the new alarms are stored.
abbrev pub so_far : Option Bool → Bool → Bool
so_far none current = current
so_far (some over) current = over && current

unfoldable pub same_zone : CappedZone → CappedZone → Bool
same_zone y z = str_eq y.zone_id z.zone_id

uncleared-some : (o : Option Event) (e : Event) → uncleared o ≡ some e → o ≡ some e
unfolding uncleared
uncleared-some none e h = cc
uncleared-some (some f) e h = ground (arith, h)

any-mark_cleared :
    (x : Event) (i : EventId) (now : ℕ) (es : List Event)
    → any (same_event x) (mark_cleared i now es) ≡ any (same_event x) es
unfolding mark_cleared same_event
any-mark_cleared x i now [] = refl
any-mark_cleared x i now (e ∷ es) = ground (arith, any-mark_cleared x i now es)

distinct-mark_cleared :
    (i : EventId) (now : ℕ) (es : List Event)
    → distinct same_event (mark_cleared i now es) ≡ distinct same_event es
unfolding distinct mark_cleared same_event
distinct-mark_cleared i now [] = refl
distinct-mark_cleared i now (e ∷ es) =
    ground (arith, distinct-mark_cleared i now es, any-mark_cleared e i now es)

older-mark_cleared :
    (site_id zone_id : String) (i : EventId) (at now : ℕ) (es : List Event)
    → AreOlder now (is_alarm_of site_id zone_id) es
    → AreOlder now (is_alarm_of site_id zone_id) (mark_cleared i at es)
unfolding mark_cleared is_alarm_of
older-mark_cleared site_id zone_id i at now [] a = tt
older-mark_cleared site_id zone_id i at now (e ∷ es) a = elim (Bool-cases (same_id e.event_id i)) [
  | inl k ↦ rw k (a.0, older-mark_cleared site_id zone_id i at now es a.1)
  | inr k ↦ rw k (a.0, older-mark_cleared site_id zone_id i at now es a.1)
]

module _ (int_of : String → Option ℤ) (states : List AssetZoneState) (site_id : String)
    (now : ℕ) where
  abbrev pub is_over : CappedZone → Option Bool
  is_over zone = elim (parse_cap int_of zone) [
    | none ↦ none
    | some cap ↦ some (not (leb (current_occupancy states site_id zone.zone_id) cap))
  ]

  pub check_zone-fires :
      (zone : CappedZone) (k : String) (s : Session)
      → any (is_alarm_of site_id k) (check_zone int_of states site_id now zone s).1
        ≡ (str_eq zone.zone_id k && fires (is_over zone) (episode s.events site_id zone.zone_id))
  unfolding check_zone current_breach is_alarm_of is_named occupancy_alarm
  check_zone-fires zone k s = elim (Option-cases (parse_cap int_of zone)) [
    | inl e ↦ ground (arith, e)
    | inr (most, e) ↦
        let o = latest (is_alarm_of site_id zone.zone_id) s.events in
        ground (arith, e, under_way-uncleared o, eq_refl site_id)
  ]

  -- What a turn does to the stored alarms.
  check_zone_events :
      (zone : CappedZone) (s : Session)
      → let s' = (check_zone int_of states site_id now zone s).0 in
        let mine = is_alarm_of site_id zone.zone_id in
        ((s'.events ≡ s.events)
          × (so_far (is_over zone) (under_way (latest mine s.events))
              ≡ under_way (latest mine s.events)))
        ⊎ ((e : Event) × (latest mine s.events ≡ some e)
            × (s'.events ≡ mark_cleared e.event_id now s.events)
            × (is_over zone ≡ some false))
  unfolding check_zone current_breach new_event_id
  check_zone_events zone s =
      let o = latest (is_alarm_of site_id zone.zone_id) s.events in
      elim (Option-cases (parse_cap int_of zone)) [
        | inl e ↦ inl (ground (arith, e))
        | inr (most, e) ↦
            elim (Bool-cases (leb (current_occupancy states site_id zone.zone_id) most)) [
              | inr l ↦ inl (ground (arith, e, l))
              | inl l ↦ elim (Option-cases (uncleared o)) [
                | inl u ↦ inl (ground (arith, e, l, u, under_way-uncleared o))
                | inr (b, u) ↦
                    inr (b, uncleared-some o b u, ground (arith, e, l, u), ground (arith, e, l))
              ]
            ]
      ]

  pub episode-check_zone :
      (zone : CappedZone) (k : String) (s : Session)
      → distinct same_event s.events ≡ true
      → episode (check_zone int_of states site_id now zone s).0.events site_id k ≡ (
          if str_eq zone.zone_id k
          then so_far (is_over zone) (episode s.events site_id k)
          else episode s.events site_id k)
  episode-check_zone zone k s d = elim (Bool-cases (str_eq zone.zone_id k)) [
    | inl m ↦
        subst
          (λ (j : String).
            episode (check_zone int_of states site_id now zone s).0.events site_id j ≡ (
              if str_eq zone.zone_id j
              then so_far (is_over zone) (episode s.events site_id j)
              else episode s.events site_id j))
          ((eq_iff zone.zone_id k).0 m)
          (elim (check_zone_events zone s) [
            | inl (same, still) ↦
                ap (λ es. episode es site_id zone.zone_id) same
                ∙ ground (arith, still, eq_refl zone.zone_id)
            | inr (e, l, same, over) ↦
                ap (λ es. episode es site_id zone.zone_id) same
                ∙ ground (
                  arith,
                  ends-mark_cleared site_id zone.zone_id now s.events e l,
                  over,
                  eq_refl zone.zone_id,
                )
          ])
    | inr m ↦ elim (check_zone_events zone s) [
      | inl (same, _) ↦ ap (λ es. episode es site_id k) same ∙ ground (arith, m)
      | inr (e, l, same, _) ↦
          ap (λ es. episode es site_id k) same
          ∙ ground (arith, m, keeps-mark_cleared site_id zone.zone_id k now s.events e d l m)
    ]
  ]

  pub new_alarms :
      (zone : CappedZone) (s : Session)
      → let (s', alarms) = check_zone int_of states site_id now zone s in
        (s'.added_events ≡ s.added_events) × AreNew now alarms
  unfolding check_zone current_breach new_event_id occupancy_alarm
  new_alarms zone s =
      let o = latest (is_alarm_of site_id zone.zone_id) s.events in
      elim (Option-cases (parse_cap int_of zone)) [
        | inl e ↦ rw (check_zone, e) (refl, tt)
        | inr (most, e) ↦
            elim (Bool-cases (leb (current_occupancy states site_id zone.zone_id) most)) [
              | inl l ↦ elim (Option-cases (uncleared o)) [
                | inl u ↦ rw (check_zone, current_breach, e, l, u) (refl, tt)
                | inr (b, u) ↦ rw (check_zone, current_breach, e, l, u) (refl, tt)
              ]
              | inr l ↦ elim (Option-cases (uncleared o)) [
                | inl u ↦ rw (check_zone, current_breach, e, l, u) (refl, ((refl, refl), tt))
                | inr (b, u) ↦ rw (check_zone, current_breach, e, l, u) (refl, tt)
              ]
            ]
      ]

  -- What else a turn keeps.
  pub check_zone_keeps :
      (zone : CappedZone) (k : String) (s : Session)
      → let s' = (check_zone int_of states site_id now zone s).0 in
        (distinct same_event s'.events ≡ distinct same_event s.events)
        × (AreOlder now (is_alarm_of site_id k) s.events
            → AreOlder now (is_alarm_of site_id k) s'.events)
  check_zone_keeps zone k s = elim (check_zone_events zone s) [
    | inl (same, _) ↦ (
      ap (distinct same_event) same,
      (λ a. subst (AreOlder now (is_alarm_of site_id k)) (sym same) a),
    )
    | inr (e, _, same, _) ↦ (
      ap (distinct same_event) same ∙ distinct-mark_cleared e.event_id now s.events,
      (λ a.
          subst (AreOlder now (is_alarm_of site_id k)) (sym same)
            (older-mark_cleared site_id k e.event_id now now s.events a)),
    )
  ]
