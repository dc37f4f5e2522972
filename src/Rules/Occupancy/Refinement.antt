-- ===== src/Rules/Occupancy/Refinement.antt =====
-- A check of the occupancy moves each zone's machine (src/minemonitor/rules/occupancy.py).
use mine_intelligence.Notifications.Outbox.{Settings}
use mine_intelligence.Prelude.{
  All, Bool, Bool-cases, List, Option, String, [], any, any-weaken, ap, append-nil, append_assoc,
  arith, eq_iff, false, find, find_of_any, inl, inr, none, refl, select, some, str_eq, sym, true, ℕ,
  ℤ, ◌++◌, ◌∙◌, ◌∷◌, ◌≡◌,
}
use mine_intelligence.Storage.{Event, Session, commit, distinct, same_event}
use mine_intelligence.Storage.Laws.{IsClean, any-append, commit-append}
use mine_intelligence.Events.{persist_event}
use mine_intelligence.Events.Laws.{persist_event_adds}
use mine_intelligence.Zones.Engine.{AssetZoneState}
use mine_intelligence.Rules.Occupancy.{
  CappedZone, check_zone, check_zones, detect_zone_occupancy, is_alarm_of, persist_each,
}
use mine_intelligence.Rules.Occupancy.Latest.{
  AreNew, AreOlder, latest-append, latest-append_new, under_way,
}
use mine_intelligence.Rules.Occupancy.Episodes.{
  check_zone-fires, check_zone_keeps, episode, episode-check_zone, fires, is_over, new_alarms, next,
  same_zone, so_far,
}

-- The zone with that id, of those that are checked.
abbrev find_zone : String → List CappedZone → Option CappedZone
find_zone k zones = find (λ (z : CappedZone). str_eq z.zone_id k) zones

-- The site's zones, which a check goes through.
abbrev pub checked : String → List CappedZone → List CappedZone
checked site_id zones = select (λ (z : CappedZone). str_eq z.site_id site_id) zones

All-append {ℓ κ} :
    {A : Type ℓ} (P : A → Type κ) (xs ys : List A) → All P xs → All P ys → All P (xs ++ ys)
All-append P [] ys a b = b
All-append P (x ∷ xs) ys a b = (a.0, All-append P xs ys a.1 b)

next_fired : (i : Option Bool) (c : Bool) → fires i c ≡ true → next i c ≡ true
next_fired none c h = cc
next_fired (some over) c h = ground (arith, h)

next_quiet : (i : Option Bool) (c : Bool) → fires i c ≡ false → so_far i c ≡ next i c
next_quiet none c h = refl
next_quiet (some over) c h = ground (arith, h)

find_zone-distinct :
    (k : String) (zone : CappedZone) (zones : List CappedZone)
    → str_eq zone.zone_id k ≡ true
    → any (same_zone zone) zones ≡ false
    → find_zone k zones ≡ none
unfolding same_zone
find_zone-distinct k zone zones m d =
    find_of_any (λ (z : CappedZone). str_eq z.zone_id k) zones
      (any-weaken (λ (z : CappedZone). str_eq z.zone_id k) (same_zone zone) zones
        (λ z e.
          (eq_iff zone.zone_id z.zone_id).1
            ((eq_iff zone.zone_id k).0 m ∙ sym ((eq_iff z.zone_id k).0 e)))
        d)

pub persist_each_adds :
    (settings : Settings) (clock : ℕ) (es : List Event) (s : Session)
    → ((persist_each settings clock es s).events ≡ s.events)
      × ((persist_each settings clock es s).added_events ≡ s.added_events ++ es)
unfolding persist_each
persist_each_adds settings clock [] s = (refl, sym (append-nil s.added_events))
persist_each_adds settings clock (e ∷ es) s =
    let (a, b) = persist_event_adds s e settings clock in
    let (c, d) = persist_each_adds settings clock es (persist_event s e settings clock) in
    (c ∙ a, d ∙ (ap (λ xs. xs ++ es) b ∙ append_assoc s.added_events (e ∷ []) es))

module _ (int_of : String → Option ℤ) (states : List AssetZoneState) (site_id : String) (now : ℕ)
    (k : String) where
  -- What the zone `k` puts into its machine.
  abbrev pub input : List CappedZone → Option Bool
  input zones = elim (find_zone k zones) [
    | none ↦ none
    | some z ↦ is_over int_of states site_id now z
  ]

  record Run (zones : List CappedZone) (s : Session) : Type 0 where
    fired :
        any (is_alarm_of site_id k) (check_zones int_of states site_id now zones s).1
        ≡ fires (input zones) (episode s.events site_id k)
    settled :
        episode (check_zones int_of states site_id now zones s).0.events site_id k
        ≡ so_far (input zones) (episode s.events site_id k)
    no_more : (check_zones int_of states site_id now zones s).0.added_events ≡ s.added_events
    new : AreNew now (check_zones int_of states site_id now zones s).1
    older :
        AreOlder now (is_alarm_of site_id k) s.events
        → AreOlder now
            (is_alarm_of site_id k)
            (check_zones int_of states site_id now zones s).0.events

  check_zones-Run :
      (zones : List CappedZone) (s : Session)
      → distinct same_zone zones ≡ true
      → distinct same_event s.events ≡ true
      → Run zones s
  unfolding check_zones distinct
  check_zones-Run [] s d e = record {
    fired = refl;
    settled = refl;
    no_more = refl;
    new = tt;
    older = λ a. a;
  }
  check_zones-Run (zone ∷ zones) s d e =
      let (s', alarms) = check_zone int_of states site_id now zone s in
      let (kept, older') = check_zone_keeps int_of states site_id now zone k s in
      let (added, new') = new_alarms int_of states site_id now zone s in
      let rest = check_zones-Run zones s' (ground (arith, d)) (kept ∙ e) in
      let f = check_zone-fires int_of states site_id now zone k s in
      let g = episode-check_zone int_of states site_id now zone k s e in
      let over = is_over int_of states site_id now zone in
      let all_of = λ (m : str_eq zone.zone_id k ≡ true).
        find_zone-distinct k zone zones m (ground (arith, d)) in
      record {
        fired =
            any-append (is_alarm_of site_id k) alarms _
            ∙ elim (Bool-cases (str_eq zone.zone_id k)) [
              | inl m ↦
                  let same = ap (episode s.events site_id) ((eq_iff zone.zone_id k).0 m) in
                  ground (arith, m, f, g, same, rest.fired, all_of m)
              | inr m ↦ ground (arith, m, f, g, rest.fired)
            ];
        settled = rest.settled ∙ elim (Bool-cases (str_eq zone.zone_id k)) [
          | inl m ↦ ground (arith, m, g, all_of m)
          | inr m ↦ ground (arith, m, g)
        ];
        no_more = rest.no_more ∙ added;
        new = All-append _ alarms _ new' rest.new;
        older = λ a. rest.older (older' a);
      }

  -- A check that commits implements the zone's machine: after it an episode is under way exactly if
  -- the machine says so, and it raises an alarm for the zone exactly if the machine fires. The
  -- alarms of the zone before it are dated earlier, the ids of the site's zones and those of the
  -- stored alarms are distinct, and nothing else waits in the session.
  pub episode-detect_zone_occupancy :
      (settings : Settings) (zones : List CappedZone) (s t : Session) (clock : ℕ)
      (alarms : List Event)
      → distinct same_zone (checked site_id zones) ≡ true
      → IsClean s
      → AreOlder now (is_alarm_of site_id k) s.events
      → detect_zone_occupancy int_of settings zones states s site_id now clock ≡ some (t, alarms)
      → (episode t.events site_id k
          ≡ next (input (checked site_id zones)) (episode s.events site_id k))
        × (any (is_alarm_of site_id k) alarms
            ≡ fires (input (checked site_id zones)) (episode s.events site_id k))
  unfolding detect_zone_occupancy under_way
  episode-detect_zone_occupancy settings zones s t clock alarms d clean old h =
      let mine = checked site_id zones in
      let (s', found) = check_zones int_of states site_id now mine s in
      let run = check_zones-Run mine s d clean.events_distinct in
      let e : (commit (persist_each settings clock found s') ≡ some t) × (found ≡ alarms) =
        ground (arith, h) in
      let (a, b) = persist_each_adds settings clock found s' in
      let (events, _) = commit-append (persist_each settings clock found s') t e.0 in
      let added : (persist_each settings clock found s').added_events ≡ found =
        b ∙ ap (λ es. es ++ found) (run.no_more ∙ clean.no_events) in
      let all_events : t.events ≡ s'.events ++ found =
        events
        ∙ (ap (λ es. es ++ (persist_each settings clock found s').added_events) a
            ∙ ap (λ es. s'.events ++ es) added) in
      let moved = ap (λ es. episode es site_id k) all_events in
      (
        moved ∙ elim (Bool-cases (any (is_alarm_of site_id k) found)) [
          | inl m ↦
              let (x, l, _, c) =
                latest-append_new (is_alarm_of site_id k) now s'.events found (run.older old)
                  run.new m in
              ap under_way l ∙ (ground (arith, c) ∙ sym (next_fired _ _ (sym run.fired ∙ m)))
          | inr m ↦
              ap under_way (latest-append (is_alarm_of site_id k) s'.events found m)
              ∙ (run.settled ∙ next_quiet _ _ (sym run.fired ∙ m))
        ],
        ap (any (is_alarm_of site_id k)) (sym (e.1)) ∙ run.fired,
      )
