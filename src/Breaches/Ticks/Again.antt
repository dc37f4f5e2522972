-- ===== src/Breaches/Ticks/Again.antt =====
-- A second check of the deadlines (src/minemonitor/breaches/service.py).
use mathlib.Core.Path.{subst}
use mine_intelligence.Prelude.{
  All, All-weaken, Bool, List, Option, Option-cases, String, [], ap, append-nil, append_assoc,
  arith, inl, inr, is_some-find, none, refl, select, some, sym, true, ℕ, ◌++◌, ◌∙◌, ◌∷◌, ◌≡◌,
}
use mine_intelligence.Storage.{Event, Session, commit, get_event, same_id}
use mine_intelligence.Storage.Laws.{
  IsClean, any-append, commit-IsClean, commit-append, commit_again, same_id_refl,
}
use mine_intelligence.Events.Laws.{persist_event_adds}
use mine_intelligence.Breaches.{BreachRecord, BreachSettings, Notice, Register}
use mine_intelligence.Breaches.Service.{alarm_id, notice_status}
use mine_intelligence.Breaches.Ticks.{
  both_notices, by_discovery, check_breach_deadlines, check_notice, check_rows, is_open_at,
  notice_alarm, stage_of,
}
use mine_intelligence.Breaches.Ticks.Laws.{has_id}

module _ (settings : BreachSettings) (site_id : String) (now clock : ℕ) where
  -- The alarm that the notice calls for, if any, is among those.
  abbrev covered : List Event → BreachRecord × Notice → Bool
  covered es (row, m) = elim (stage_of (notice_status row m now settings.breach_warn_before)) [
    | none ↦ true
    | some st ↦ has_id (alarm_id row.breach_id m st) es
  ]

  covered-insert :
      (es mid more : List Event) (x : BreachRecord × Notice)
      → covered (es ++ more) x ≡ true
      → covered (es ++ (mid ++ more)) x ≡ true
  covered-insert es mid more (row, m) c =
      elim (Option-cases (stage_of (notice_status row m now settings.breach_warn_before))) [
        | inl e ↦ ground (arith, e)
        | inr (st, e) ↦
            let q : Event → Bool = λ x. same_id x.event_id (alarm_id row.breach_id m st) in
            ground (
              arith,
              e,
              c,
              any-append q es more,
              any-append q es (mid ++ more),
              any-append q mid more,
            )
      ]

  covered-check_notice :
      (row : BreachRecord) (m : Notice) (session : Session) (more : List Event)
      → covered
          (session.events ++ ((check_notice settings site_id now clock row m session).1 ++ more))
          (row, m)
        ≡ true
  unfolding check_notice get_event notice_alarm
  covered-check_notice row m session more =
      elim (Option-cases (stage_of (notice_status row m now settings.breach_warn_before))) [
        | inl e ↦ ground (arith, e)
        | inr (st, e) ↦
            let i = alarm_id row.breach_id m st in
            let q : Event → Bool = λ x. same_id x.event_id i in
            ground (
              arith,
              e,
              is_some-find q session.events,
              any-append q session.events
                  ((check_notice settings site_id now clock row m session).1 ++ more),
              same_id_refl i,
            )
      ]

  check_notice_adds :
      (row : BreachRecord) (m : Notice) (session : Session)
      → let (session', alarms) = check_notice settings site_id now clock row m session in
        (session'.events ≡ session.events)
        × (session'.added_events ≡ session.added_events ++ alarms)
  unfolding check_notice
  check_notice_adds row m session =
      elim (Option-cases (stage_of (notice_status row m now settings.breach_warn_before))) [
        | inl e ↦ ground (arith, e, append-nil session.added_events)
        | inr (st, e) ↦ ground (
          arith,
          e,
          append-nil session.added_events,
          persist_event_adds session (notice_alarm site_id now row m st) settings.outbox clock,
        )
      ]

  pub check_rows_adds :
      (rows : List (BreachRecord × Notice)) (session : Session)
      → let (session', alarms) = check_rows settings site_id now clock rows session in
        (session'.events ≡ session.events)
        × (session'.added_events ≡ session.added_events ++ alarms)
  unfolding check_rows
  check_rows_adds [] session = (refl, sym (append-nil session.added_events))
  check_rows_adds ((row, m) ∷ rows) session =
      let (session', alarms) = check_notice settings site_id now clock row m session in
      let (a, b) = check_notice_adds row m session in
      let (c, d) = check_rows_adds rows session' in
      (
        c ∙ a,
        d
            ∙ (ap (λ es. es ++ (check_rows settings site_id now clock rows session').1) b
                ∙ append_assoc session.added_events alarms _),
      )

  -- A check that commits stores its alarms behind those that are there.
  pub events-check_breach_deadlines :
      (s t : Register) (alarms : List Event)
      → s.session.added_events ≡ []
      → check_breach_deadlines settings s site_id now clock ≡ some (t, alarms)
      → (t.breaches ≡ s.breaches)
        × (t.session.events ≡ s.session.events ++ alarms)
        × (t.session.added_events ≡ [])
  unfolding check_breach_deadlines
  events-check_breach_deadlines s t alarms nothing h =
      let rows = both_notices (by_discovery (select (is_open_at site_id) s.breaches)) in
      let (m, found) = check_rows settings site_id now clock rows s.session in
      let (a, c) = check_rows_adds rows s.session in
      let e : (commit m ≡ some t.session) × (t.breaches ≡ s.breaches) × (found ≡ alarms) =
        ground (arith, h) in
      let (events, added) = commit-append m t.session e.0 in
      let fresh : m.added_events ≡ alarms = c ∙ (ap (λ es. es ++ found) nothing ∙ e.2) in
      (
        e.1,
        events ∙ (ap (λ es. es ++ m.added_events) a ∙ ap (λ es. s.session.events ++ es) fresh),
        added,
      )

  covered-check_rows :
      (rows : List (BreachRecord × Notice)) (session : Session)
      → All
          (λ (x : BreachRecord × Notice).
            covered (session.events ++ (check_rows settings site_id now clock rows session).1) x
            ≡ true)
          rows
  unfolding check_rows
  covered-check_rows [] session = tt
  covered-check_rows ((row, m) ∷ rows) session =
      let (session', alarms) = check_notice settings site_id now clock row m session in
      let more = (check_rows settings site_id now clock rows session').1 in
      let same = (check_notice_adds row m session).0 in
      (
        covered-check_notice row m session more,
        All-weaken _ _ rows (λ x c. covered-insert session.events alarms more x (rw same at c))
            (covered-check_rows rows session'),
      )

  check_rows_quiet :
      (rows : List (BreachRecord × Notice)) (t : Session)
      → All (λ (x : BreachRecord × Notice). covered t.events x ≡ true) rows
      → check_rows settings site_id now clock rows t ≡ (t, [])
  unfolding check_rows check_notice get_event notice_alarm
  check_rows_quiet [] t a = refl
  check_rows_quiet ((row, m) ∷ rows) t a =
      elim (Option-cases (stage_of (notice_status row m now settings.breach_warn_before))) [
        | inl e ↦ ground (arith, e, check_rows_quiet rows t a.1)
        | inr (st, e) ↦
            let i = alarm_id row.breach_id m st in
            ground (
              arith,
              e,
              a.0,
              is_some-find (λ (x : Event). same_id x.event_id i) t.events,
              check_rows_quiet rows t a.1,
            )
      ]

  -- A second check at the same time, after one that commits, raises nothing and changes nothing.
  pub check_breach_deadlines_again :
      (store store' : Register) (alarms : List Event)
      → IsClean store.session
      → check_breach_deadlines settings store site_id now clock ≡ some (store', alarms)
      → check_breach_deadlines settings store' site_id now clock ≡ some (store', [])
  unfolding check_breach_deadlines
  check_breach_deadlines_again store store' alarms clean h =
      let rows = both_notices (by_discovery (select (is_open_at site_id) store.breaches)) in
      let (s, found) = check_rows settings site_id now clock rows store.session in
      let (a, b) = check_rows_adds rows store.session in
      let c : commit s ≡ some store'.session = ground (arith, h) in
      let same : store'.breaches ≡ store.breaches = ground (arith, h) in
      let (events, _) = commit-append s store'.session c in
      let all_events : store'.session.events ≡ store.session.events ++ found =
        events ∙ rw (a, b, clean.no_events) refl in
      let quiet =
        check_rows_quiet rows store'.session
          (rw (sym all_events) at (covered-check_rows rows store.session)) in
      let still =
        subst
          (λ (bs : List BreachRecord).
            check_rows settings site_id now clock
              (both_notices (by_discovery (select (is_open_at site_id) bs))) store'.session
            ≡ (store'.session, []))
          (sym same) quiet in
      ap
        (λ (r : Session × List Event). elim (commit r.0) as (λ _. Option (Register × List Event)) [
          | none ↦ none
          | some session' ↦ some (record store' { session = session' }, r.1)
        ])
        still
      ∙ rw (commit_again store'.session (commit-IsClean s store'.session c)) refl
