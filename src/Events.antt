-- ===== src/Events.antt =====
-- src/minemonitor/events/repository.py: persist, dedupe and acknowledge events.
pub mod Laws
mod Tests
use mathlib.Core.Option
use mine_intelligence.Prelude.{
  Bool, List, Option, String, [], any, false, if◌then◌else◌, leb, none, some, str_eq, true, ℕ, ◌&&◌,
  ◌++◌, ◌+◌, ◌∷◌,
}
use mine_intelligence.Storage.{Event, EventId, Session, commit, get_event, same_id, ulid}
use mine_intelligence.Notifications.Outbox.{Settings, enqueue_for_event}

-- new_event_id(): a ULID not drawn before.
unfoldable pub new_event_id : Session → EventId × Session
new_event_id s = (ulid s.drawn, record s { drawn = s.drawn + 1 })

-- The row is added, and its notifications with it; the caller commits.
unfoldable pub persist_event : Session → Event → Settings → ℕ → Session
persist_event session event settings now =
    (enqueue_for_event (record session { added_events = session.added_events ++ event ∷ [] }) event
      settings now).0

-- `asset_id == …` where the caller gives one
unfoldable pub matches : Option String → Option String → Bool
matches none given = true
matches (some wanted) none = false
matches (some wanted) (some found) = str_eq found wanted

unfoldable pub alarmed_since : Session → String → String → ℕ → Option String → Option String → Bool
unfolding matches
alarmed_since session site_id type since asset_id source =
    any
      (λ (e : Event).
        str_eq e.site_id site_id
        && (str_eq e.type type
            && (leb since e.ts && (matches asset_id e.asset_id && matches source (some e.source)))))
      session.events

-- the write of an acknowledgement, to the row with that id
acknowledged : List Event → EventId → String → ℕ → List Event
acknowledged [] event_id by now = []
acknowledged (e ∷ es) event_id by now =
    if same_id e.event_id event_id
    then record e { state = "acknowledged"; acknowledged_by = some by; acknowledged_at = some now }
      ∷ es
    else e ∷ acknowledged es event_id by now

-- `none` where the commit raises; the flag says whether the row was found.
unfoldable pub acknowledge_event : Session → String → EventId → String → ℕ → Option (Session × Bool)
unfolding acknowledged
acknowledge_event session site_id event_id by now = elim (get_event session event_id) [
  | none ↦ some (session, false)
  | some row ↦
      if str_eq row.site_id site_id
      then Option.map (λ (s : Session). (s, true))
          (commit (record session { events = acknowledged session.events event_id by now }))
      else some (session, false)
]
