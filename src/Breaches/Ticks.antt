-- ===== src/Breaches/Ticks.antt =====
-- The check of the deadlines on the maintenance tick (src/minemonitor/breaches/service.py).
pub mod Laws
pub mod Again
use mine_intelligence.Prelude.{
  Bool, List, Option, String, [], if◌then◌else◌, is_some, ltb, none, not, select, some, str_eq, ℕ,
  ◌&&◌, ◌++◌, ◌∷◌,
}
use mine_intelligence.Storage.{Event, Session, commit, get_event}
use mine_intelligence.Events.{persist_event}
use mine_intelligence.Breaches.{
  BreachRecord, BreachSettings, Notice, NoticeStatus, Register, due_soon, individuals, overdue,
  regulator,
}
use mine_intelligence.Breaches.Service.{Stage, alarm_id, due_stage, notice_status, overdue_stage}

-- ORDER BY discovered_at
unfoldable pub insert_row : BreachRecord → List BreachRecord → List BreachRecord
insert_row b [] = b ∷ []
insert_row b (c ∷ cs) =
    let rest = insert_row b cs in
    if ltb c.discovered_at b.discovered_at then c ∷ rest else b ∷ c ∷ cs

unfoldable pub by_discovery : List BreachRecord → List BreachRecord
unfolding insert_row
by_discovery [] = []
by_discovery (b ∷ bs) = insert_row b (by_discovery bs)

unfoldable pub stage_of : NoticeStatus → Option Stage
stage_of due_soon = some due_stage
stage_of overdue = some overdue_stage
stage_of _ = none

unfoldable pub severity_of : Stage → String
severity_of due_stage = "warning"
severity_of overdue_stage = "critical"

unfoldable pub notice_alarm : String → ℕ → BreachRecord → Notice → Stage → Event
notice_alarm site_id now row notice stage = record {
  event_id = alarm_id row.breach_id notice stage;
  site_id = site_id;
  ts = now;
  type = "breach_notice_due";
  severity = severity_of stage;
  asset_id = none;
  zone_id = none;
  source = "breach_register";
  state = "open";
  acknowledged_by = none;
  acknowledged_at = none;
  cleared_at = none;
}

-- One turn of the loop over the notices.
unfoldable pub check_notice :
    BreachSettings → String → ℕ → ℕ → BreachRecord → Notice → Session → Session × List Event
unfolding stage_of
check_notice settings site_id now clock row notice session =
    elim (stage_of (notice_status row notice now settings.breach_warn_before)) [
      | none ↦ (session, [])
      | some stage ↦
          let alarm = notice_alarm site_id now row notice stage in
          if is_some (get_event session alarm.event_id)
          then (session, [])
          else (persist_event session alarm settings.outbox clock, alarm ∷ [])
    ]

unfoldable pub check_rows :
    BreachSettings → String → ℕ → ℕ → List (BreachRecord × Notice) → Session → Session × List Event
unfolding check_notice
check_rows settings site_id now clock [] session = (session, [])
check_rows settings site_id now clock ((row, notice) ∷ rows) session =
    let (session', alarms) = check_notice settings site_id now clock row notice session in
    let (session'', more) = check_rows settings site_id now clock rows session' in
    (session'', alarms ++ more)

unfoldable pub both_notices : List BreachRecord → List (BreachRecord × Notice)
both_notices [] = []
both_notices (row ∷ rows) = (row, regulator) ∷ (row, individuals) ∷ both_notices rows

unfoldable pub is_open_at : String → BreachRecord → Bool
is_open_at site_id b = str_eq b.site_id site_id && not (is_some b.closed_at)

-- check_breach_deadlines; `clock` is the time at which the notifications are queued. `none` where
-- the commit fails.
unfoldable pub check_breach_deadlines :
    BreachSettings → Register → String → ℕ → ℕ → Option (Register × List Event)
unfolding check_rows both_notices
check_breach_deadlines settings store site_id now clock =
    let rows = by_discovery (select (is_open_at site_id) store.breaches) in
    let (session, alarms) =
      check_rows settings site_id now clock (both_notices rows) store.session in
    elim (commit session) [
      | none ↦ none
      | some session' ↦ some (record store { session = session' }, alarms)
    ]
