-- ===== src/Breaches/History.antt =====
-- The requests and the ticks that change the breach register (src/minemonitor/breaches/service.py,
-- as src/minemonitor/api/routers/breaches.py calls it: with the row that the store has for the id).
pub mod Kept
pub mod Silent
use mine_intelligence.Prelude.{
  Bool, List, Option, String, [], any, false, find, inr, is_some, none, not, some, str_eq, true, ℕ,
  ◌&&◌, ◌||◌, ◌≡◌,
}
use mine_intelligence.Storage.{Event, same_id}
use mine_intelligence.Breaches.{BreachRecord, BreachSettings, Notice, Register}
use mine_intelligence.Breaches.Recording.{BreachIn, record_breach}
use mine_intelligence.Breaches.Service.{
  alarm_id, close_breach, due_stage, overdue_stage, record_notice, sent_at,
}
use mine_intelligence.Breaches.Ticks.{check_breach_deadlines}

unfoldable pub find_breach : Register → String → Option BreachRecord
find_breach store id = find (λ (b : BreachRecord). str_eq b.breach_id id) store.breaches

pub data Step (settings : BreachSettings) : Register → Register → Type 0 where
  recording :
      {s t : Register} (breach_id site_id : String) (body : BreachIn) (actor : String) (now : ℕ)
      (row : BreachRecord)
      → find_breach s breach_id ≡ none
      → record_breach settings s breach_id site_id body actor now ≡ inr (t, row)
      → Step settings s t
  notifying :
      {s t : Register} (id : String) (row : BreachRecord) (notice : Notice) (notified_at : ℕ)
      (reference : Option String) (actor : String) (now : ℕ)
      → find_breach s id ≡ some row
      → record_notice settings s row notice notified_at reference actor now ≡ inr t
      → Step settings s t
  closing :
      {s t : Register} (id : String) (row : BreachRecord) (note : Option String) (actor : String)
      (now : ℕ)
      → find_breach s id ≡ some row
      → close_breach s row note actor now ≡ inr t
      → Step settings s t
  ticking :
      {s t : Register} (site_id : String) (now clock : ℕ) (alarms : List Event)
      → check_breach_deadlines settings s site_id now clock ≡ some (t, alarms)
      → Step settings s t

-- Any number of steps.
pub data Steps (settings : BreachSettings) : Register → Register → Type 0 where
  done : {s : Register} → Steps settings s s
  then : {s t u : Register} → Step settings s t → Steps settings t u → Steps settings s u

-- An alarm of that notice that is still open.
unfoldable pub is_open_alarm : String → Notice → Event → Bool
is_open_alarm b n e =
    str_eq e.state "open"
    && (same_id e.event_id (alarm_id b n due_stage)
        || same_id e.event_id (alarm_id b n overdue_stage))

-- The breach is open, and the notice is not recorded.
unfoldable pub is_unsettled : String → Notice → BreachRecord → Bool
is_unsettled b n row =
    str_eq row.breach_id b && (not (is_some (sent_at row n)) && not (is_some row.closed_at))

pub record IsSilent (b : String) (n : Notice) (s : Register) : Type 0 where
  pub present : any (λ (r : BreachRecord). str_eq r.breach_id b) s.breaches ≡ true
  pub settled : any (is_unsettled b n) s.breaches ≡ false
  pub no_open_alarm : any (is_open_alarm b n) s.session.events ≡ false
  pub nothing_added : s.session.added_events ≡ []
