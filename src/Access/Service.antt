-- ===== src/Access/Service.antt =====
-- src/minemonitor/access/service.py: recording a gate passage, and the verdict on it.
pub mod Laws
mod Tests
use mine_intelligence.Prelude.Text.{non_empty}
use mine_intelligence.Prelude.{
  Bool, List, Option, String, [], false, find, if◌then◌else◌, inl, inr, is_some, ltb, min, none,
  not, some, str_eq, true, ℕ, ◌&&◌, ◌++◌, ◌+◌, ◌==◌, ◌||◌, ◌∷◌, ◌⊎◌,
}
use mine_intelligence.Storage.{Event, commit}
use mine_intelligence.Access.Model.{
  AccessError, AccessEvent, Operator, Passage, Site, Store, access_id, find_passage,
  future_timestamp, gate_alarm, integrity_error, unknown_decision,
}
use mine_intelligence.Events.{new_event_id, persist_event}

pub data Verdict : Type 0 where
  unknown denied granted : Verdict

-- _select_for_search
unfoldable pub select_for_search : Site → String → ℕ → Bool
select_for_search site id rate_percent =
    if rate_percent == 0 then false else ltb (site.bucket id) (min rate_percent 100)

is_valid_decision : String → Bool
is_valid_decision d = str_eq d "granted" || str_eq d "denied"

new_passage : String → Passage → ℕ → Bool → AccessEvent
new_passage site_id p now search_selected = record {
  id = access_id site_id p.source_system p.source_event_id;
  site_id = site_id;
  ts = p.ts;
  source_system = p.source_system;
  gate_id = p.gate_id;
  credential_ref = p.credential_ref;
  operator_ref = p.operator_ref;
  decision = p.decision;
  reason = p.reason;
  search_selected = search_selected;
  search_completed = p.search_completed;
  metal_detected = none;
  created_at = now;
  search_escalated_at = none;
}

-- record_access_event; the row is flushed at once, and with it what the session holds.
unfoldable pub record_access_event :
    Store → String → Passage → ℕ → Bool → AccessError ⊎ (Store × AccessEvent × Bool)
unfolding is_valid_decision new_passage
record_access_event store site_id p now search_selected =
    if is_valid_decision p.decision
    then elim (find_passage store (access_id site_id p.source_system p.source_event_id)) [
      | some row ↦ inr (store, row, false)
      | none ↦ elim (commit store.session) [
        | none ↦ inl integrity_error
        | some session ↦
            let row = new_passage site_id p now search_selected in
            inr
              (record store { passages = store.passages ++ row ∷ []; session = session }, row, true)
      ]
    ]
    else inl unknown_decision

-- session.get(Operator, operator_id)
unfoldable pub find_operator : Store → String → Option Operator
find_operator store id = find (λ (op : Operator). str_eq op.operator_id id) store.operators

verdict_on : Site → String → ℕ → Operator → Verdict × Option String
verdict_on site site_id at op =
    if not (str_eq op.site_id site_id)
    then (unknown, some "operator not registered")
    else if is_some op.erased_at
    then (unknown, some "operator erased")
    else if op.suspended
    then (denied, some "operator suspended")
    else if not op.inducted
    then (denied, some "operator not inducted")
    else if not (site.on_shift site_id at)
    then (denied, some "off-shift")
    else (granted, none)

unfoldable pub authorize : Store → Site → String → Option String → ℕ → Verdict × Option String
unfolding verdict_on
authorize store site site_id none at = (unknown, some "no operator reference")
authorize store site site_id (some ref) at =
    if non_empty ref
    then elim (find_operator store ref) [
      | none ↦ (unknown, some "operator not registered")
      | some op ↦ verdict_on site site_id at op
    ]
    else (unknown, some "no operator reference")

is_denied : Verdict → Bool
is_denied denied = true
is_denied _ = false

-- The alarm of a passage that has just been recorded, if it should not have been let through.
check_entry :
    Site → String → Passage → ℕ → Store → AccessEvent → Store × AccessEvent × Bool × Option Event
check_entry site site_id p clock store row =
    if is_denied (authorize store site site_id p.operator_ref p.ts).0 && str_eq p.decision "granted"
    then (let (event_id, session) = new_event_id store.session in
        let alarm = gate_alarm event_id site_id p.ts "access_denied" "critical" p.gate_id in
        (
          record store { session = persist_event session alarm site.outbox clock },
          row,
          true,
          some alarm,
        ))
    else (store, row, true, none)

-- ingest_access_event; `clock` is the time at which notifications are queued.
unfoldable pub ingest_access_event :
    Site
    → Store
    → String
    → Passage
    → ℕ
    → ℕ
    → ℕ
    → AccessError ⊎ (Store × AccessEvent × Bool × Option Event)
unfolding check_entry is_denied gate_alarm
ingest_access_event site store site_id p now rate clock =
    let effective_selected =
      p.search_selected
      || (str_eq p.decision "granted"
          && select_for_search site (access_id site_id p.source_system p.source_event_id) rate) in
    if ltb (now + site.max_future_skew) p.ts
    then inl future_timestamp
    else elim (record_access_event store site_id p now effective_selected) [
      | inl e ↦ inl e
      | inr (store', row, created) ↦
          if created
          then inr (check_entry site site_id p clock store' row)
          else inr (store', row, false, none)
    ]

unfoldable pub set_status : Option Bool → Option Bool → Operator → Operator
set_status suspended inducted op = record op {
  suspended = elim suspended [ none ↦ op.suspended | some b ↦ b ];
  inducted = elim inducted [ none ↦ op.inducted | some b ↦ b ];
}

unfoldable pub update_operator : String → Option Bool → Option Bool → List Operator → List Operator
update_operator id suspended inducted [] = []
update_operator id suspended inducted (op ∷ ops) =
    let rest = update_operator id suspended inducted ops in
    if str_eq op.operator_id id then set_status suspended inducted op ∷ ops else op ∷ rest

-- set_operator_access_status
unfoldable pub set_operator_access_status :
    Store → String → String → Option Bool → Option Bool → Store × Bool
unfolding set_status update_operator
set_operator_access_status store site_id id suspended inducted = elim (find_operator store id) [
  | none ↦ (store, false)
  | some op ↦
      if str_eq op.site_id site_id
      then (
        record store { operators = update_operator id suspended inducted store.operators },
        true,
      )
      else (store, false)
]
