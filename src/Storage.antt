-- ===== src/Storage.antt =====
-- The rows of src/minemonitor/storage/models.py that several services share, and the session of
-- src/minemonitor/storage/db.py: rows that are added wait until a flush, and, since the session is
-- built with `autoflush=False`, no query sees them before it.
pub mod Laws
use mine_intelligence.Prelude.{
  Bool, List, Option, String, [], any, false, find, if◌then◌else◌, none, not, some, str_eq, true, ℕ,
  ◌&&◌, ◌++◌, ◌==◌, ◌∷◌,
}

-- The id of an alarm: a fresh ULID, named by its draw, or a text that the code builds.
pub data EventId : Type 0 where
  ulid : ℕ → EventId
  named : String → EventId

unfoldable pub same_id : EventId → EventId → Bool
same_id (ulid m) (ulid n) = m == n
same_id (named s) (named t) = str_eq s t
same_id _ _ = false

-- `event.v1` and the row of `events`. The rendered summary and the JSON payloads are left out,
-- but for the key `cleared_at` of `detail`, which the occupancy rule reads back.
pub record Event : Type 0 where
  pub event_id : EventId
  pub site_id : String
  pub ts : ℕ
  pub type : String
  pub severity : String
  pub asset_id : Option String
  pub zone_id : Option String
  pub source : String
  pub state : String
  pub acknowledged_by : Option String
  pub acknowledged_at : Option ℕ
  pub cleared_at : Option ℕ

pub record Notification : Type 0 where
  pub id : ℕ
  pub site_id : String
  pub event_id : EventId
  pub channel : String
  pub target : String
  pub state : String
  pub attempts : ℕ
  pub created_at : ℕ
  pub next_attempt_at : ℕ
  pub sent_at : Option ℕ
  pub last_error : Option String

-- `events` and `notifications` are flushed; `added_…` wait for the flush. `drawn` counts ULIDs.
pub record Session : Type 0 where
  pub events : List Event
  pub added_events : List Event
  pub notifications : List Notification
  pub added_notifications : List Notification
  pub drawn : ℕ

unfoldable pub same_event : Event → Event → Bool
same_event a b = same_id a.event_id b.event_id

-- UniqueConstraint("event_id", "channel", "target")
unfoldable pub same_delivery : Notification → Notification → Bool
same_delivery a b =
    same_id a.event_id b.event_id && (str_eq a.channel b.channel && str_eq a.target b.target)

-- No two rows clash.
unfoldable pub distinct {ℓ} : {A : Type ℓ} → (A → A → Bool) → List A → Bool
distinct same [] = true
distinct same (x ∷ xs) = not (any (same x) xs) && distinct same xs

-- `session.commit()`: the flush writes the added rows; `none` is the `IntegrityError` that a
-- primary key or the unique constraint raises, after which nothing of the transaction is kept.
unfoldable pub commit : Session → Option Session
unfolding distinct same_event same_delivery
commit s =
    if distinct same_event (s.events ++ s.added_events)
      && distinct same_delivery (s.notifications ++ s.added_notifications)
    then some (record s {
      events = s.events ++ s.added_events;
      added_events = [];
      notifications = s.notifications ++ s.added_notifications;
      added_notifications = [];
    })
    else none

-- `session.get(Event, event_id)`
unfoldable pub get_event : Session → EventId → Option Event
get_event s event_id = find (λ (e : Event). same_id e.event_id event_id) s.events
