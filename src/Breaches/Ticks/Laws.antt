-- ===== src/Breaches/Ticks/Laws.antt =====
-- What the check of the deadlines raises (src/minemonitor/breaches/service.py).
use mine_intelligence.Storage.Laws.{any-append}
use mine_intelligence.Events.Laws.{get_event-persist_event}
use mine_intelligence.Prelude.{
  Bool, List, Option, Option-cases, String, [], any, ap, arith, false, inl, inr, is_some, none, not,
  refl, select, some, str_eq, ℕ, ◌&&◌, ◌||◌, ◌∙◌, ◌∷◌, ◌≡◌,
}
use mine_intelligence.Storage.{Event, EventId, Session, get_event, same_id}
use mine_intelligence.Breaches.{
  BreachRecord, BreachSettings, Notice, Register, individuals, regulator,
}
use mine_intelligence.Breaches.Service.{Stage, alarm_id, due_stage, notice_status, overdue_stage}
use mine_intelligence.Breaches.Ids.{same_id-alarm_id, same_notice, same_stage}
use mine_intelligence.Breaches.Ticks.{
  both_notices, by_discovery, check_breach_deadlines, check_notice, check_rows, insert_row,
  is_open_at, notice_alarm, stage_of,
}

-- An alarm with that id is among those.
abbrev pub has_id : EventId → List Event → Bool
has_id i es = any (λ (e : Event). same_id e.event_id i) es

abbrev pub is_stage : Option Stage → Stage → Bool
is_stage none s = false
is_stage (some t) s = same_stage t s

-- The notice is due, or overdue, and no alarm tells so yet.
abbrev pub is_unraised : BreachSettings → ℕ → Session → BreachRecord → Notice → Stage → Bool
is_unraised settings now session row notice stage =
    is_stage (stage_of (notice_status row notice now settings.breach_warn_before)) stage
    && not (is_some (get_event session (alarm_id row.breach_id notice stage)))

any-insert_row :
    (p : BreachRecord → Bool) (b : BreachRecord) (bs : List BreachRecord)
    → any p (insert_row b bs) ≡ (p b || any p bs)
unfolding insert_row
any-insert_row p b [] = ground arith
any-insert_row p b (c ∷ cs) = ground (arith, any-insert_row p b cs)

any-by_discovery :
    (p : BreachRecord → Bool) (bs : List BreachRecord) → any p (by_discovery bs) ≡ any p bs
unfolding by_discovery
any-by_discovery p [] = refl
any-by_discovery p (b ∷ bs) =
    ground (arith, any-insert_row p b (by_discovery bs), any-by_discovery p bs)

any-select {ℓ} :
    {A : Type ℓ} (p q : A → Bool) (xs : List A)
    → any p (select q xs) ≡ any (λ (x : A). q x && p x) xs
any-select p q [] = refl
any-select p q (x ∷ xs) = ground (arith, any-select p q xs)

at_stage :
    (g : Stage → Bool) (s t : Stage) → (same_stage s t && not (g s)) ≡ (same_stage s t && not (g t))
unfolding same_stage
at_stage g due_stage due_stage = refl
at_stage g overdue_stage overdue_stage = refl
at_stage g due_stage overdue_stage = refl
at_stage g overdue_stage due_stage = refl

module _ (settings : BreachSettings) (site_id : String) (now clock : ℕ) where
  is_of : String → Notice → Stage → Session → BreachRecord × Notice → Bool
  is_of b n s session (row, m) =
      str_eq row.breach_id b && (same_notice m n && is_unraised settings now session row m s)

  has_id-check_notice :
      (b : String) (n : Notice) (s : Stage) (row : BreachRecord) (m : Notice) (session : Session)
      → has_id (alarm_id b n s) (check_notice settings site_id now clock row m session).1
        ≡ is_of b n s session (row, m)
  unfolding check_notice is_of notice_alarm
  has_id-check_notice b n s row m session =
      elim (Option-cases (stage_of (notice_status row m now settings.breach_warn_before))) [
        | inl e ↦ ground (arith, e)
        | inr (st, e) ↦ ground (
          arith,
          e,
          same_id-alarm_id row.breach_id b m n st s,
          at_stage (λ k. is_some (get_event session (alarm_id row.breach_id m k))) st s,
        )
      ]

  get_event-check_notice :
      (i : EventId) (row : BreachRecord) (m : Notice) (session : Session)
      → get_event (check_notice settings site_id now clock row m session).0 i ≡ get_event session i
  unfolding check_notice
  get_event-check_notice i row m session =
      elim (Option-cases (stage_of (notice_status row m now settings.breach_warn_before))) [
        | inl e ↦ ground (arith, e)
        | inr (st, e) ↦ ground (
          arith,
          e,
          get_event-persist_event session (notice_alarm site_id now row m st) settings.outbox clock
              i,
        )
      ]

  is_of-check_notice :
      (b : String) (n : Notice) (s : Stage) (row : BreachRecord) (m : Notice) (session : Session)
      (rows : List (BreachRecord × Notice))
      → any (is_of b n s (check_notice settings site_id now clock row m session).0) rows
        ≡ any (is_of b n s session) rows
  unfolding is_of
  is_of-check_notice b n s row m session [] = refl
  is_of-check_notice b n s row m session ((r, k) ∷ rows) =
      rw
        (
          get_event-check_notice (alarm_id r.breach_id k s) row m session,
          is_of-check_notice b n s row m session rows,
        )
        refl

  has_id-check_rows :
      (b : String) (n : Notice) (s : Stage) (rows : List (BreachRecord × Notice))
      (session : Session)
      → has_id (alarm_id b n s) (check_rows settings site_id now clock rows session).1
        ≡ any (is_of b n s session) rows
  unfolding check_rows
  has_id-check_rows b n s [] session = refl
  has_id-check_rows b n s ((row, m) ∷ rows) session =
      let (session', alarms) = check_notice settings site_id now clock row m session in
      any-append (λ (e : Event). same_id e.event_id (alarm_id b n s)) alarms _
      ∙ ground (
        arith,
        has_id-check_notice b n s row m session,
        has_id-check_rows b n s rows session',
        is_of-check_notice b n s row m session rows,
      )

  any-both_notices :
      (b : String) (n : Notice) (s : Stage) (rows : List BreachRecord) (session : Session)
      → any (is_of b n s session) (both_notices rows)
        ≡ any
            (λ (r : BreachRecord). str_eq r.breach_id b && is_unraised settings now session r n s)
            rows
  unfolding both_notices is_of same_notice
  any-both_notices b n s [] session = refl
  any-both_notices b regulator s (row ∷ rows) session =
      ground (arith, any-both_notices b regulator s rows session)
  any-both_notices b individuals s (row ∷ rows) session =
      ground (arith, any-both_notices b individuals s rows session)

  pub raises-check_breach_deadlines :
      (store store' : Register) (alarms : List Event) (b : String) (n : Notice) (s : Stage)
      → check_breach_deadlines settings store site_id now clock ≡ some (store', alarms)
      → has_id (alarm_id b n s) alarms
        ≡ any
            (λ (r : BreachRecord).
              is_open_at site_id r
              && (str_eq r.breach_id b && is_unraised settings now store.session r n s))
            store.breaches
  unfolding check_breach_deadlines
  raises-check_breach_deadlines store store' alarms b n s h =
      let rows = by_discovery (select (is_open_at site_id) store.breaches) in
      let p : BreachRecord → Bool =
        λ r. str_eq r.breach_id b && is_unraised settings now store.session r n s in
      let e : alarms ≡ (check_rows settings site_id now clock (both_notices rows) store.session).1 =
        ground (arith, h) in
      ap (has_id (alarm_id b n s)) e
      ∙ (has_id-check_rows b n s (both_notices rows) store.session
          ∙ (any-both_notices b n s rows store.session
              ∙ (any-by_discovery p (select (is_open_at site_id) store.breaches)
                  ∙ any-select p (is_open_at site_id) store.breaches)))
