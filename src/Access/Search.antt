-- ===== src/Access/Search.antt =====
-- src/minemonitor/access/service.py: physical searches that are completed or missed.
pub mod Laws
mod Tests
use mine_intelligence.Prelude.{
  Bool, List, Option, String, [], false, if◌then◌else◌, is_some, leb, none, not, some, str_eq, true,
  ℕ, ◌&&◌, ◌++ₛ◌, ◌+◌, ◌∷◌,
}
use mine_intelligence.Storage.{Event, EventId, Session, commit, get_event, named}
use mine_intelligence.Access.Model.{AccessEvent, Site, Store, find_passage, gate_alarm}
use mine_intelligence.Events.{persist_event}

unfoldable pub set_searched : Option Bool → AccessEvent → AccessEvent
set_searched metal_detected row = record row {
  search_completed = some true;
  metal_detected = elim metal_detected [ none ↦ row.metal_detected | some m ↦ some m ];
}

unfoldable pub update_passage : String → Option Bool → List AccessEvent → List AccessEvent
update_passage id metal_detected [] = []
update_passage id metal_detected (row ∷ rows) =
    let rest = update_passage id metal_detected rows in
    if str_eq row.id id then set_searched metal_detected row ∷ rows else row ∷ rest

unfoldable pub is_positive : Option Bool → Bool
is_positive none = false
is_positive (some m) = m

-- The alarm of a positive search: the flush within the savepoint stores it, or undoes it alone.
unfoldable pub raise_metal : Site → String → AccessEvent → ℕ → ℕ → Session → Session × Option Event
raise_metal site site_id row now clock session =
    let alarm =
      gate_alarm (named ("metal-" ++ₛ row.id)) site_id now "metal_detected" "critical"
        row.gate_id in
    elim (get_event session alarm.event_id) [
      | some ev ↦ (session, none)
      | none ↦ elim (commit (persist_event session alarm site.outbox clock)) [
        | none ↦ (session, none)
        | some session' ↦ (session', some alarm)
      ]
    ]

-- complete_search; the flag says whether the passage was found.
unfoldable pub complete_search :
    Site → Store → String → String → Option Bool → ℕ → ℕ → Store × Bool × Option Event
unfolding set_searched update_passage is_positive raise_metal gate_alarm
complete_search site store site_id id metal_detected now clock = elim (find_passage store id) [
  | none ↦ (store, false, none)
  | some row ↦
      if str_eq row.site_id site_id
      then (let store' = record store {
        passages = update_passage id metal_detected store.passages;
      } in
          if is_positive metal_detected
          then (let (session, alarm) = raise_metal site site_id row now clock store.session in
              (record store' { session = session }, true, alarm))
          else (store', true, none))
      else (store, false, none)
]

-- Selected, neither completed nor escalated, and the grace has passed.
unfoldable pub is_missed : String → ℕ → ℕ → AccessEvent → Bool
is_missed site_id now grace row =
    str_eq row.site_id site_id
    && (row.search_selected
        && (not (is_positive row.search_completed)
            && (not (is_some row.search_escalated_at) && leb (row.ts + grace) now)))

-- The id of a passage's alarm, `search-missed-<id>`.
unfoldable pub missed_id : AccessEvent → EventId
missed_id row = named ("search-missed-" ++ₛ row.id)

unfoldable pub missed_alarm : String → ℕ → AccessEvent → Event
missed_alarm site_id now row =
    gate_alarm (missed_id row) site_id now "search_missed" "warning" row.gate_id

-- The loop over the pending rows: the rows, the session and the alarms.
unfoldable pub escalate :
    Site → String → ℕ → ℕ → ℕ → List AccessEvent → Session → List AccessEvent × Session × List Event
unfolding missed_alarm gate_alarm
escalate site site_id now grace clock [] session = ([], session, [])
escalate site site_id now grace clock (row ∷ rows) session =
    let missed = is_missed site_id now grace row in
    let raised = missed && not (is_some (get_event session (missed_id row))) in
    let alarm = missed_alarm site_id now row in
    let (rows', session', alarms) =
      escalate site site_id now grace clock rows
        (if raised then persist_event session alarm site.outbox clock else session) in
    (
      (if missed then record row { search_escalated_at = some now } else row) ∷ rows',
      session',
      if raised then alarm ∷ alarms else alarms,
    )

-- detect_missed_searches; `none` where the commit fails, and nothing of the run is kept.
unfoldable pub detect_missed_searches :
    Site → Store → String → ℕ → ℕ → ℕ → Option (Store × List Event)
detect_missed_searches site store site_id now grace clock =
    let (rows, session, alarms) =
      escalate site site_id now grace clock store.passages store.session in
    elim (commit session) [
      | none ↦ none
      | some session' ↦ some (record store { passages = rows; session = session' }, alarms)
    ]
