-- ===== src/Access/Search/Laws.antt =====
-- Missed searches are raised once, and a positive search raises its alarm
-- (src/minemonitor/access/service.py).
use mine_intelligence.Notifications.Outbox.Laws.{same_target}
use mine_intelligence.Storage.Laws.{
  IsClean, all_events, commit-IsClean, commit-append, commit_again,
}
use mine_intelligence.Prelude.{
  All, Bool, Bool-cases, List, Option, Option-cases, String, [], any, ap, append-nil, append_assoc,
  arith, eq_iff, false, find, find_of_any, from_option, holds-find, if◌then◌else◌, inl, inr,
  is_some, is_some-find, leb, map, none, not, refl, select, some, str_eq, sym, true, ℕ, ◌&&◌, ◌++ₛ◌,
  ◌++◌, ◌+◌, ◌∙◌, ◌∷◌, ◌≡◌,
}
use mine_intelligence.Storage.{Event, EventId, Session, commit, distinct, get_event, named, same_id}
use mine_intelligence.Events.{persist_event}
use mine_intelligence.Events.Laws.{
  IsNew, commit-persist_event, get_event-persist_event, persist_event_adds,
}
use mine_intelligence.Notifications.Outbox.{channel_targets, qualifies}
use mine_intelligence.Access.Model.{AccessEvent, Site, Store, find_passage, gate_alarm}
use mine_intelligence.Access.Search.{
  complete_search, detect_missed_searches, escalate, is_missed, is_positive, missed_alarm,
  missed_id, raise_metal, set_searched, update_passage,
}
use mathlib.Core.Option
use mathlib.Core.Path.{subst}

module _ (site : Site) (site_id : String) (now grace clock : ℕ) where
  -- Missed, and not yet in the alarm queue.
  abbrev is_raised : Session → AccessEvent → Bool
  is_raised session row =
      is_missed site_id now grace row && not (is_some (get_event session (missed_id row)))

  is_raised-persist_event :
      (s : Session) (event : Event) (rows : List AccessEvent)
      → select (is_raised (persist_event s event site.outbox clock)) rows
        ≡ select (is_raised s) rows
  is_raised-persist_event s event [] = refl
  is_raised-persist_event s event (row ∷ rows) =
      rw
        (
          get_event-persist_event s event site.outbox clock (missed_id row),
          is_raised-persist_event s event rows,
        )
        refl

  escalate-select :
      (rows : List AccessEvent) (s : Session)
      → (escalate site site_id now grace clock rows s).2
        ≡ map (missed_alarm site_id now) (select (is_raised s) rows)
  unfolding escalate
  escalate-select [] s = refl
  escalate-select (row ∷ rows) s =
      let alarm = missed_alarm site_id now row in
      ground (
        arith,
        escalate-select rows s,
        escalate-select rows (persist_event s alarm site.outbox clock),
        is_raised-persist_event s alarm rows,
      )

  marked : AccessEvent → AccessEvent
  marked row =
      if is_missed site_id now grace row then record row { search_escalated_at = some now } else row

  marked_lem : (row : AccessEvent) → is_missed site_id now grace (marked row) ≡ false
  unfolding is_missed marked
  marked_lem row = ground arith

  escalate_quiet :
      (rows : List AccessEvent) (s t : Session)
      → let rows' = (escalate site site_id now grace clock rows s).0 in
        escalate site site_id now grace clock rows' t ≡ (rows', t, [])
  unfolding escalate marked
  escalate_quiet [] s t = refl
  escalate_quiet (row ∷ rows) s t =
      let s' =
        if is_raised s row
        then persist_event s (missed_alarm site_id now row) site.outbox clock
        else s in
      rw (marked_lem row, escalate_quiet rows s' t) refl

  -- Selected for a search that nobody has made, not escalated before, and past its grace.
  abbrev pub is_overdue : AccessEvent → Bool
  is_overdue row =
      str_eq row.site_id site_id
      && (row.search_selected
          && (elim row.search_completed [ none ↦ true | some done ↦ not done ]
              && (elim row.search_escalated_at [ none ↦ true | some at ↦ false ]
                  && leb (row.ts + grace) now)))

  -- Overdue, and without an alarm in the queue.
  abbrev pub is_due : Session → AccessEvent → Bool
  is_due session row =
      is_overdue row
      && not (
          any (λ (e : Event). same_id e.event_id (named ("search-missed-" ++ₛ row.id)))
            session.events)

  -- The alarm of a missed search.
  abbrev pub overdue_alarm : AccessEvent → Event
  overdue_alarm row = record {
    event_id = named ("search-missed-" ++ₛ row.id);
    site_id = site_id;
    ts = now;
    type = "search_missed";
    severity = "warning";
    asset_id = none;
    zone_id = none;
    source = "access_gate:" ++ₛ row.gate_id;
    state = "open";
    acknowledged_by = none;
    acknowledged_at = none;
    cleared_at = none;
  }

  abbrev pub escalated : AccessEvent → AccessEvent
  escalated row = if is_overdue row then record row { search_escalated_at = some now } else row

  overdue_lem : (row : AccessEvent) → is_missed site_id now grace row ≡ is_overdue row
  unfolding is_missed is_positive
  overdue_lem row = ground arith

  due_lem : (s : Session) (row : AccessEvent) → is_raised s row ≡ is_due s row
  unfolding get_event missed_id
  due_lem s row = ground (
    arith,
    overdue_lem row,
    is_some-find (λ (e : Event). same_id e.event_id (named ("search-missed-" ++ₛ row.id))) s.events,
  )

  overdue_alarm_lem : (row : AccessEvent) → missed_alarm site_id now row ≡ overdue_alarm row
  unfolding missed_alarm missed_id gate_alarm
  overdue_alarm_lem row = refl

  escalate-alarms :
      (rows : List AccessEvent) (s : Session)
      → map (missed_alarm site_id now) (select (is_raised s) rows)
        ≡ map overdue_alarm (select (is_due s) rows)
  escalate-alarms [] s = refl
  escalate-alarms (row ∷ rows) s = rw (due_lem s row) (elim (Bool-cases (is_due s row)) [
    | inl e ↦ rw (e, overdue_alarm_lem row, escalate-alarms rows s) refl
    | inr e ↦ rw e (escalate-alarms rows s)
  ])

  escalate-rows :
      (rows : List AccessEvent) (s : Session)
      → (escalate site site_id now grace clock rows s).0 ≡ map escalated rows
  unfolding escalate
  escalate-rows [] s = refl
  escalate-rows (row ∷ rows) s =
      let s' =
        if is_raised s row
        then persist_event s (missed_alarm site_id now row) site.outbox clock
        else s in
      let first : (if is_missed site_id now grace row
            then record row { search_escalated_at = some now }
            else row)
          ≡ escalated row =
        rw (overdue_lem row) refl in
      ap (λ r. r ∷ (escalate site site_id now grace clock rows s').0) first
      ∙ ap (λ rs. escalated row ∷ rs) (escalate-rows rows s')

  escalate-events :
      (rows : List AccessEvent) (s : Session)
      → let (rows', s', alarms) = escalate site site_id now grace clock rows s in
        (s'.events ≡ s.events) × (s'.added_events ≡ s.added_events ++ alarms)
  unfolding escalate
  escalate-events [] s = (refl, sym (append-nil s.added_events))
  escalate-events (row ∷ rows) s =
      let alarm = missed_alarm site_id now row in
      let s1 = persist_event s alarm site.outbox clock in
      let (same, added) = persist_event_adds s alarm site.outbox clock in
      elim (Bool-cases (is_raised s row)) [
        | inl e ↦
            let (events, waiting) = escalate-events rows s1 in
            rw e (
              events ∙ same,
              waiting
                  ∙ (ap (λ es. es ++ (escalate site site_id now grace clock rows s1).2) added
                      ∙ append_assoc s.added_events (alarm ∷ [])
                          (escalate site site_id now grace clock rows s1).2),
            )
        | inr e ↦ rw e (escalate-events rows s)
      ]

  -- A check that commits raises an alarm for each of the site's passages that was selected, is
  -- neither searched nor escalated, is past its grace, and has no alarm in the queue, in the
  -- order of the rows, and for no other passage. The alarms are stored behind the queue's rows
  -- and nothing waits. Each such passage, with an alarm in the queue before or not, is marked as
  -- escalated now, and no other passage changes.
  pub alarms-detect_missed_searches :
      (store store' : Store) (alarms : List Event)
      → detect_missed_searches site store site_id now grace clock ≡ some (store', alarms)
      → (alarms ≡ map overdue_alarm (select (is_due store.session) store.passages))
        × (store'.session.events ≡ all_events store.session ++ alarms)
        × (store'.session.added_events ≡ [])
        × (store'.passages ≡ map escalated store.passages)
  unfolding detect_missed_searches
  alarms-detect_missed_searches store store' alarms h =
      let (rows, s, raised) = escalate site site_id now grace clock store.passages store.session in
      let (same, waiting) = escalate-events store.passages store.session in
      let c : commit s ≡ some store'.session = ground arith in
      let raised_lem : raised ≡ alarms = ground arith in
      let rows_lem : rows ≡ store'.passages = ground arith in
      let (stored, none_left) = commit-append s store'.session c in
      (
        sym raised_lem
            ∙ (escalate-select store.passages store.session
                ∙ escalate-alarms store.passages store.session),
        stored
            ∙ rw (same, waiting, raised_lem)
                (sym (append_assoc store.session.events store.session.added_events alarms)),
        none_left,
        sym rows_lem ∙ escalate-rows store.passages store.session,
      )

  -- A second check at the same time finds nothing to raise and changes nothing.
  pub detect_missed_searches_again :
      (store store' : Store) (alarms : List Event)
      → detect_missed_searches site store site_id now grace clock ≡ some (store', alarms)
      → detect_missed_searches site store' site_id now grace clock ≡ some (store', [])
  unfolding detect_missed_searches
  detect_missed_searches_again store store' alarms h =
      let s = (escalate site site_id now grace clock store.passages store.session).1 in
      ground (
        arith,
        escalate_quiet store.passages store.session store'.session,
        commit-IsClean s store'.session,
        commit_again store'.session,
      )

-- The alarm of a positive search.
abbrev pub metal_id : String → EventId
metal_id id = named ("metal-" ++ₛ id)

find-update_passage :
    (metal : Option Bool) (id : String) (rows : List AccessEvent)
    → find (λ (row : AccessEvent). str_eq row.id id) (update_passage id metal rows)
      ≡ Option.map (set_searched metal) (find (λ (row : AccessEvent). str_eq row.id id) rows)
unfolding update_passage set_searched
find-update_passage metal id [] = refl
find-update_passage metal id (row ∷ rows) = ground (arith, find-update_passage metal id rows)

raise_metal_lem :
    (site : Site) (s : Session) (site_id : String) (row : AccessEvent) (now clock : ℕ)
    → IsClean s
    → IsNew s (metal_id row.id)
    → is_some (raise_metal site site_id row now clock s).1 ≡ (
        if qualifies "critical" site.outbox.notify_min_severity
        then distinct same_target (channel_targets site.outbox)
        else true)
unfolding raise_metal get_event gate_alarm
raise_metal_lem site s site_id row now clock clean new =
    let alarm = gate_alarm (metal_id row.id) site_id now "metal_detected" "critical" row.gate_id in
    let absent =
      find_of_any (λ (e : Event). same_id e.event_id (metal_id row.id)) s.events new.no_event in
    ground (arith, absent, commit-persist_event s alarm site.outbox clock clean new)

-- The alarm of a positive search of a passage.
abbrev pub IsMetal : String → String → ℕ → Event → Type 0
IsMetal id site_id now e =
    (e.event_id ≡ named ("metal-" ++ₛ id))
    × (e.type ≡ "metal_detected")
    × (e.severity ≡ "critical")
    × (e.site_id ≡ site_id)
    × (e.ts ≡ now)

raise_metal-stored :
    (site : Site) (s : Session) (site_id : String) (row : AccessEvent) (now clock : ℕ)
    → s.added_events ≡ []
    → let (s', alarm) = raise_metal site site_id row now clock s in
      (s'.events ≡ s.events ++ from_option alarm)
      × All (IsMetal row.id site_id now) (from_option alarm)
unfolding raise_metal gate_alarm
raise_metal-stored site s site_id row now clock nothing =
    let alarm = gate_alarm (metal_id row.id) site_id now "metal_detected" "critical" row.gate_id in
    let (same, added) = persist_event_adds s alarm site.outbox clock in
    elim (Option-cases (get_event s (metal_id row.id))) [
      | inl e ↦ elim (Option-cases (commit (persist_event s alarm site.outbox clock))) [
        | inl e' ↦ rw (e, raise_metal, e') (sym (append-nil s.events), tt)
        | inr (s', e') ↦
            let (stored, _) = commit-append _ s' e' in
            rw (e, raise_metal, e')
              (stored ∙ rw (same, added, nothing) refl, ((refl, refl, refl, refl, refl), tt))
      ]
      | inr (found, e) ↦ rw (raise_metal, e) (sym (append-nil s.events), tt)
    ]

-- While nothing waits for a flush, a positive search of a passage on record at the site, for whose
-- alarm the tables have no row and no notification, raises the alarm exactly when critical alarms
-- are not notified or no configured destination is listed twice. The alarm is then the queue's last
-- row, critical and at the site, and without it the queue is as it was; the search is marked as
-- completed either way.
pub alarm-complete_search :
    (site : Site) (store : Store) (site_id id : String) (row : AccessEvent) (now clock : ℕ)
    → IsClean store.session
    → IsNew store.session (metal_id id)
    → find_passage store id ≡ some row
    → row.site_id ≡ site_id
    → let (store', found, alarm) = complete_search site store site_id id (some true) now clock in
      (Option.map (λ (r : AccessEvent). r.search_completed) (find_passage store' id)
        ≡ some (some true))
      × (is_some alarm ≡ (
          if qualifies "critical" site.outbox.notify_min_severity
          then distinct same_target (channel_targets site.outbox)
          else true))
      × (store'.session.events ≡ store.session.events ++ from_option alarm)
      × All (IsMetal id site_id now) (from_option alarm)
unfolding complete_search find_passage set_searched
alarm-complete_search site store site_id id row now clock clean new f s =
    let same : row.id ≡ id =
      (eq_iff row.id id).0
        (holds-find (λ (r : AccessEvent). str_eq r.id id) store.passages row f) in
    let (stored, kind) =
      raise_metal-stored site store.session site_id row now clock clean.no_events in
    let new' = subst (λ (i : String). IsNew store.session (metal_id i)) (sym same) new in
    rw (complete_search, f, (eq_iff row.site_id site_id).1 s)
      (
        ap (Option.map (λ (r : AccessEvent). r.search_completed))
              (find-update_passage (some true) id store.passages)
            ∙ rw f refl,
        raise_metal_lem site store.session site_id row now clock clean new',
        stored,
        subst
            (λ (i : String).
              All (IsMetal i site_id now)
                (from_option (raise_metal site site_id row now clock store.session).1))
            same kind,
      )
