-- ===== src/Breaches.antt =====
-- src/minemonitor/breaches/service.py: breaches of personal data and the deadlines of their notices.
pub mod Recording
pub mod Service
pub mod Ids
pub mod Ticks
pub mod History
pub mod Overdue
mod Tests
use mine_intelligence.Prelude.{Bool, List, Option, String, ℕ}
use mine_intelligence.Storage.{Session}
use mine_intelligence.Notifications.Outbox.{Settings}

pub data Notice : Type 0 where
  regulator individuals : Notice

pub data NoticeStatus : Type 0 where
  sent not_required not_sent pending due_soon overdue : NoticeStatus

pub data BreachError : Type 0 where
  discovered_in_future occurred_after_discovered bad_data_classes : BreachError
  unknown_operators : List String → BreachError
  notified_in_future no_individual_notice already_closed : BreachError
  integrity_error : BreachError

-- The settings of src/minemonitor/config.py that the register reads, in microseconds.
pub record BreachSettings : Type 0 where
  pub max_future_skew : ℕ
  pub breach_deadline_from : String
  pub breach_regulator_notice : ℕ
  pub breach_individuals_notice : ℕ
  pub breach_warn_before : ℕ
  pub outbox : Settings

pub record BreachRecord : Type 0 where
  pub breach_id : String
  pub site_id : String
  pub discovered_at : ℕ
  pub occurred_at : Option ℕ
  pub summary : String
  pub data_classes : List String
  pub notify_individuals : Bool
  pub regulator_due_at : ℕ
  pub individuals_due_at : Option ℕ
  pub regulator_notified_at : Option ℕ
  pub regulator_reference : Option String
  pub individuals_notified_at : Option ℕ
  pub recorded_by : String
  pub recorded_at : ℕ
  pub closed_at : Option ℕ
  pub closed_by : Option String
  pub close_note : Option String

-- What an audit entry of the register tells.
pub data AuditDetail : Type 0 where
  recorded : List String → ℕ → Bool → ℕ → Option ℕ → AuditDetail
  notified : Notice → ℕ → Option String → Option ℕ → ℕ → AuditDetail
  closed : List Notice → ℕ → AuditDetail

pub record AuditLog : Type 0 where
  pub actor : String
  pub entity_id : String
  pub site_id : String
  pub detail : AuditDetail

-- `operators` are the site and the id of each operator, `links` the rows of breach_operators.
pub record Register : Type 0 where
  pub breaches : List BreachRecord
  pub links : List (String × String)
  pub operators : List (String × String)
  pub audit : List AuditLog
  pub session : Session
