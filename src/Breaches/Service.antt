-- ===== src/Breaches/Service.antt =====
-- The notices of a breach and its closing (src/minemonitor/breaches/service.py).
use mine_intelligence.Prelude.{
  Bool, List, Option, String, [], false, if◌then◌else◌, inl, inr, is_some, leb, ltb, none, not,
  select, some, str_eq, true, ℕ, ◌&&◌, ◌++ₛ◌, ◌+◌, ◌∷◌, ◌⊎◌,
}
use mine_intelligence.Storage.{Event, EventId, named, same_id}
use mine_intelligence.Breaches.Recording.{audited}
use mine_intelligence.Breaches.{
  BreachError, BreachRecord, BreachSettings, Notice, NoticeStatus, Register, already_closed, closed,
  due_soon, individuals, no_individual_notice, not_required, not_sent, notified, notified_in_future,
  overdue, pending, regulator, sent,
}

unfoldable pub sent_at : BreachRecord → Notice → Option ℕ
sent_at breach regulator = breach.regulator_notified_at
sent_at breach individuals = breach.individuals_notified_at

unfoldable pub due_at : BreachRecord → Notice → Option ℕ
due_at breach regulator = some breach.regulator_due_at
due_at breach individuals = breach.individuals_due_at

-- `now >= due - warn` is written with a sum.
unfoldable pub notice_status : BreachRecord → Notice → ℕ → ℕ → NoticeStatus
notice_status breach notice now warn =
    if is_some (sent_at breach notice) then sent else elim (due_at breach notice) [
      | none ↦ not_required
      | some due ↦
          if is_some breach.closed_at
          then not_sent
          else if leb due now
          then overdue
          else if ltb 0 warn && leb due (now + warn)
          then due_soon
          else pending
    ]

-- The two alarms of a notice.
pub data Stage : Type 0 where
  due_stage overdue_stage : Stage

unfoldable pub notice_name : Notice → String
notice_name regulator = "regulator"
notice_name individuals = "individuals"

unfoldable pub stage_name : Stage → String
stage_name due_stage = "due"
stage_name overdue_stage = "overdue"

unfoldable pub alarm_id : String → Notice → Stage → EventId
alarm_id breach_id notice stage =
    named
      ((((("breach-" ++ₛ breach_id) ++ₛ "-") ++ₛ notice_name notice) ++ₛ "-") ++ₛ stage_name stage)

unfoldable pub alarm_ids : String → List Notice → List EventId
alarm_ids breach_id [] = []
alarm_ids breach_id (n ∷ ns) =
    alarm_id breach_id n due_stage ∷ alarm_id breach_id n overdue_stage ∷ alarm_ids breach_id ns

-- The write to the row with that id, and whether it was open.
unfoldable pub acknowledge_one : List Event → EventId → String → ℕ → List Event × ℕ
acknowledge_one [] event_id actor now = ([], 0)
acknowledge_one (e ∷ es) event_id actor now =
    let (es', n) = acknowledge_one es event_id actor now in
    if same_id e.event_id event_id
    then (if str_eq e.state "open"
        then (
          record e {
            state = "acknowledged";
            acknowledged_by = some actor;
            acknowledged_at = some now;
          }
              ∷ es,
          1,
        )
        else (e ∷ es, 0))
    else (e ∷ es', n)

unfoldable pub acknowledge_each : List Event → List EventId → String → ℕ → List Event × ℕ
acknowledge_each es [] actor now = (es, 0)
acknowledge_each es (i ∷ is) actor now =
    let (es', m) = acknowledge_one es i actor now in
    let (es'', n) = acknowledge_each es' is actor now in (es'', m + n)

-- _acknowledge_alarms
unfoldable pub acknowledge_alarms :
    Register → BreachRecord → List Notice → String → ℕ → Register × ℕ
acknowledge_alarms store breach notices actor now =
    let (events, n) =
      acknowledge_each store.session.events (alarm_ids breach.breach_id notices) actor now in
    (record store { session = record store.session { events = events } }, n)

-- The row of the breach is written back.
unfoldable pub write_row : BreachRecord → List BreachRecord → List BreachRecord
write_row breach [] = []
write_row breach (b ∷ bs) =
    let rest = write_row breach bs in
    if str_eq b.breach_id breach.breach_id then breach ∷ bs else b ∷ rest

unfoldable pub with_notice : BreachRecord → Notice → ℕ → Option String → BreachRecord
with_notice breach regulator notified_at reference = record breach {
  regulator_notified_at = some notified_at;
  regulator_reference = reference;
}
with_notice breach individuals notified_at reference = record breach {
  individuals_notified_at = some notified_at;
}

unfoldable pub is_individuals : Notice → Bool
is_individuals regulator = false
is_individuals individuals = true

unfoldable pub record_notice :
    BreachSettings
    → Register
    → BreachRecord
    → Notice
    → ℕ
    → Option String
    → String
    → ℕ
    → BreachError ⊎ Register
record_notice settings store breach notice notified_at reference actor now =
    let breach' = with_notice breach notice notified_at reference in
    let store' : Register = record store { breaches = write_row breach' store.breaches } in
    let (store'', acked) = acknowledge_alarms store' breach' (notice ∷ []) actor now in
    if ltb (now + settings.max_future_skew) notified_at
    then inl notified_in_future
    else if is_individuals notice && not breach.notify_individuals
    then inl no_individual_notice
    else inr (
        audited store'' actor breach'
          (notified notice notified_at reference (sent_at breach notice) acked))

unfoldable pub notices : List Notice
notices = regulator ∷ individuals ∷ []

unfoldable pub is_outstanding : NoticeStatus → Bool
is_outstanding pending = true
is_outstanding overdue = true
is_outstanding _ = false

unfoldable pub close_breach :
    Register → BreachRecord → Option String → String → ℕ → BreachError ⊎ Register
close_breach store breach note actor now =
    let outstanding = select (λ n. is_outstanding (notice_status breach n now 0)) notices in
    let breach' : BreachRecord = record breach {
      closed_at = some now;
      closed_by = some actor;
      close_note = note;
    } in
    let store' : Register = record store { breaches = write_row breach' store.breaches } in
    let (store'', acked) = acknowledge_alarms store' breach' notices actor now in
    if is_some breach.closed_at
    then inl already_closed
    else inr (audited store'' actor breach' (closed outstanding acked))
