-- ===== src/Access/Model.antt =====
-- The rows and settings that src/minemonitor/access/service.py works on. The shift calendar of
-- operations/shifts.py, which asks the time zone database, and the SHA-256 bucket of an id are fields
-- of `Site`.
use mine_intelligence.Notifications.Outbox.{Settings}
use mine_intelligence.Prelude.{Bool, List, Option, String, find, none, str_eq, ℕ, ◌++ₛ◌}
use mine_intelligence.Storage.{Event, EventId, Session}

-- The columns of `operators` that authorisation reads.
pub record Operator : Type 0 where
  pub operator_id : String
  pub site_id : String
  pub suspended : Bool
  pub inducted : Bool
  pub erased_at : Option ℕ

pub record AccessEvent : Type 0 where
  pub id : String
  pub site_id : String
  pub ts : ℕ
  pub source_system : String
  pub gate_id : String
  pub credential_ref : Option String
  pub operator_ref : Option String
  pub decision : String
  pub reason : Option String
  pub search_selected : Bool
  pub search_completed : Option Bool
  pub metal_detected : Option Bool
  pub created_at : ℕ
  pub search_escalated_at : Option ℕ

pub record AccessQuarantine : Type 0 where
  pub id : String
  pub site_id : String
  pub source_system : String
  pub source_event_id : String
  pub gate_id : String
  pub decision : String
  pub claimed_ts : ℕ
  pub skew : ℕ
  pub first_seen_at : ℕ

-- The tables that the service reads and writes, and the alarm queue.
pub record Store : Type 0 where
  pub operators : List Operator
  pub passages : List AccessEvent
  pub quarantined : List AccessQuarantine
  pub session : Session

-- `max_future_skew_s` in microseconds, `resolve_shift(...) is not None`, and the id's bucket.
pub record Site : Type 0 where
  pub max_future_skew : ℕ
  pub on_shift : String → ℕ → Bool
  pub bucket : String → ℕ
  pub outbox : Settings

-- The fields of one gate event, as the caller passes them.
pub record Passage : Type 0 where
  pub source_system : String
  pub source_event_id : String
  pub gate_id : String
  pub decision : String
  pub ts : ℕ
  pub credential_ref : Option String
  pub operator_ref : Option String
  pub reason : Option String
  pub search_selected : Bool
  pub search_completed : Option Bool

-- ValueError, FutureTimestampError, and the IntegrityError of a flush
pub data AccessError : Type 0 where
  unknown_decision future_timestamp integrity_error : AccessError

-- _access_id
unfoldable pub access_id : String → String → String → String
access_id site_id source_system source_event_id =
    "access-" ++ₛ (site_id ++ₛ ("-" ++ₛ (source_system ++ₛ ("-" ++ₛ source_event_id))))

-- The alarms of this service differ in these fields.
unfoldable pub gate_alarm : EventId → String → ℕ → String → String → String → Event
gate_alarm event_id site_id ts type severity gate_id = record {
  event_id = event_id;
  site_id = site_id;
  ts = ts;
  type = type;
  severity = severity;
  asset_id = none;
  zone_id = none;
  source = "access_gate:" ++ₛ gate_id;
  state = "open";
  acknowledged_by = none;
  acknowledged_at = none;
  cleared_at = none;
}

unfoldable pub find_passage : Store → String → Option AccessEvent
find_passage store id = find (λ (row : AccessEvent). str_eq row.id id) store.passages
