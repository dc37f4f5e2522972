-- ===== src/Breaches/Overdue.antt =====
-- An overdue notice has its critical alarm (src/minemonitor/breaches/service.py).
use mathlib.Core.Path.{subst}
use mine_intelligence.Prelude.{
  Bool, Bool-cases, List, Option-cases, String, [], any, ap, arith, eq_iff, eq_refl, find,
  holds-find, inl, inr, is_some-find, none, refl, select, some, str_eq, sym, true, ℕ, ◌&&◌, ◌==◌,
  ◌||◌, ◌∙◌, ◌∷◌, ◌≡◌, ◌≤◌,
}
use mine_intelligence.Storage.{Event, Session, get_event, same_id}
use mine_intelligence.Storage.Laws.{any-append}
use mine_intelligence.Breaches.{BreachRecord, BreachSettings, Notice, Register}
use mine_intelligence.Breaches.Service.{
  Stage, alarm_id, due_at, due_stage, notice_status, overdue_stage, sent_at,
}
use mine_intelligence.Breaches.Ids.{same_id-alarm_id, same_stage}
use mine_intelligence.Breaches.Ticks.{
  both_notices, by_discovery, check_breach_deadlines, check_notice, check_rows, is_open_at,
  notice_alarm, severity_of, stage_of,
}
use mine_intelligence.Breaches.Ticks.Laws.{has_id, is_unraised, raises-check_breach_deadlines}
use mine_intelligence.Breaches.Ticks.Again.{events-check_breach_deadlines}
use mine_intelligence.Breaches.History.{find_breach}

any-found {ℓ} :
    {A : Type ℓ} (p q : A → Bool) (xs : List A) (x : A)
    → find q xs ≡ some x
    → p x ≡ true
    → any p xs ≡ true
any-found p q [] x f h = cc
any-found p q (y ∷ ys) x f h = elim (Bool-cases (q y)) [
  | inl e ↦
      let same : x ≡ y = sym (ground (arith, e, f)) in
      ground (arith, subst (λ z. p z ≡ true) same h)
  | inr e ↦ ground (arith, any-found p q ys x (ground (arith, e, f)) h)
]

-- The open critical alarm of an overdue notice, raised at this time.
abbrev pub is_critical : String → ℕ → String → Notice → Event → Bool
is_critical site_id now b n e =
    same_id e.event_id (alarm_id b n overdue_stage)
    && (str_eq e.severity "critical"
        && (str_eq e.type "breach_notice_due"
            && (str_eq e.state "open" && (str_eq e.site_id site_id && e.ts == now))))

module _ (settings : BreachSettings) (site_id : String) (now clock : ℕ) (b : String)
    (n : Notice) where
  critical-notice_alarm :
      (row : BreachRecord) (m : Notice) (st : Stage)
      → same_id (notice_alarm site_id now row m st).event_id (alarm_id b n overdue_stage)
        ≡ is_critical site_id now b n (notice_alarm site_id now row m st)
  unfolding notice_alarm severity_of same_stage
  critical-notice_alarm row m due_stage =
      ground (arith, same_id-alarm_id row.breach_id b m n due_stage overdue_stage)
  critical-notice_alarm row m overdue_stage = ground (arith, eq_refl site_id)

  critical-check_notice :
      (row : BreachRecord) (m : Notice) (session : Session)
      → let alarms = (check_notice settings site_id now clock row m session).1 in
        has_id (alarm_id b n overdue_stage) alarms ≡ any (is_critical site_id now b n) alarms
  unfolding check_notice
  critical-check_notice row m session =
      elim (Option-cases (stage_of (notice_status row m now settings.breach_warn_before))) [
        | inl e ↦ ground (arith, e)
        | inr (st, e) ↦ ground (arith, e, critical-notice_alarm row m st)
      ]

  critical-check_rows :
      (rows : List (BreachRecord × Notice)) (session : Session)
      → let alarms = (check_rows settings site_id now clock rows session).1 in
        has_id (alarm_id b n overdue_stage) alarms ≡ any (is_critical site_id now b n) alarms
  unfolding check_rows
  critical-check_rows [] session = refl
  critical-check_rows ((row, m) ∷ rows) session =
      let (session', alarms) = check_notice settings site_id now clock row m session in
      let more = (check_rows settings site_id now clock rows session').1 in
      ground (
        arith,
        any-append (λ (x : Event). same_id x.event_id (alarm_id b n overdue_stage)) alarms more,
        any-append (is_critical site_id now b n) alarms more,
        critical-check_notice row m session,
        critical-check_rows rows session',
      )

  -- An alarm of the overdue notice that a check raises is open and critical.
  critical-check_breach_deadlines :
      (s t : Register) (alarms : List Event)
      → check_breach_deadlines settings s site_id now clock ≡ some (t, alarms)
      → has_id (alarm_id b n overdue_stage) alarms ≡ any (is_critical site_id now b n) alarms
  unfolding check_breach_deadlines
  critical-check_breach_deadlines s t alarms h =
      let rows = both_notices (by_discovery (select (is_open_at site_id) s.breaches)) in
      ground (arith, h, critical-check_rows rows s.session)

-- After a check of its site that commits, with nothing waiting before, an open breach whose notice
-- is overdue and not recorded has an alarm with the id of that stage stored: one that was stored
-- before, or an open critical alarm of the site that this check raised at its time.
pub check_breach_deadlines_overdue :
    (settings : BreachSettings) (s t : Register) (site_id : String) (now clock : ℕ)
    (alarms : List Event) (b : String) (row : BreachRecord) (n : Notice) (due : ℕ)
    → s.session.added_events ≡ []
    → find_breach s b ≡ some row
    → (row.site_id ≡ site_id) × (row.closed_at ≡ none)
    → (sent_at row n ≡ none) × (due_at row n ≡ some due)
    → due ≤ now
    → check_breach_deadlines settings s site_id now clock ≡ some (t, alarms)
    → (has_id (alarm_id b n overdue_stage) t.session.events ≡ true)
      × ((has_id (alarm_id b n overdue_stage) s.session.events
            || any (is_critical site_id now b n) t.session.events)
          ≡ true)
unfolding find_breach notice_status stage_of same_stage get_event is_open_at
check_breach_deadlines_overdue settings s t site_id now clock alarms b row n due nothing f
      (here, op) (unsent, e) late h =
    let i = alarm_id b n overdue_stage in
    let is_i : Event → Bool = λ x. same_id x.event_id i in
    let raised =
      raises-check_breach_deadlines settings site_id now clock s t alarms b n overdue_stage h in
    let (_, es, _) =
      events-check_breach_deadlines settings site_id now clock s t alarms nothing h in
    let whole = ap (has_id i) es ∙ any-append is_i s.session.events alarms in
    let critical =
      ap (any (is_critical site_id now b n)) es
      ∙ any-append (is_critical site_id now b n) s.session.events alarms in
    let raised_so = critical-check_breach_deadlines settings site_id now clock b n s t alarms h in
    elim (Bool-cases (has_id i s.session.events)) [
      | inl k ↦ ground (arith, k, whole)
      | inr k ↦
          let unraised =
            any-found
              (λ (r : BreachRecord).
                is_open_at site_id r
                && (str_eq r.breach_id b && is_unraised settings now s.session r n overdue_stage))
              (λ (r : BreachRecord). str_eq r.breach_id b) s.breaches row f
              (let same = (eq_iff row.breach_id b).0 (holds-find _ s.breaches row f) in
                ground (
                  arith,
                  (eq_iff row.site_id site_id).1 here,
                  eq_refl b,
                  op,
                  unsent,
                  e,
                  late,
                  k,
                  same,
                  is_some-find is_i s.session.events,
                )) in
          ground (arith, k, raised, unraised, whole, critical, raised_so)
    ]
