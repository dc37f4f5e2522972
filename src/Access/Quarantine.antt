-- ===== src/Access/Quarantine.antt =====
-- src/minemonitor/access/service.py: gate events refused for a time in the future.
pub mod Laws
mod Tests
use mine_intelligence.Prelude.{
  Bool, Option, String, [], any, find, if◌then◌else◌, inl, inr, none, some, str_eq, ℕ, ◌&&◌, ◌++ₛ◌,
  ◌++◌, ◌-◌, ◌∷◌, ◌⊎◌,
}
use mine_intelligence.Storage.{Event, commit}
use mine_intelligence.Access.Model.{
  AccessError, AccessQuarantine, Passage, Site, Store, access_id, gate_alarm, integrity_error,
}
use mine_intelligence.Events.{new_event_id, persist_event}

unfoldable pub is_open_skew : String → String → Event → Bool
is_open_skew site_id source e =
    str_eq e.site_id site_id
    && (str_eq e.type "source_clock_skew" && (str_eq e.source source && str_eq e.state "open"))

unfoldable pub find_quarantined : Store → String → Option AccessQuarantine
find_quarantined store id = find (λ (row : AccessQuarantine). str_eq row.id id) store.quarantined

new_quarantine : String → Passage → ℕ → AccessQuarantine
new_quarantine site_id p now = record {
  id = access_id site_id p.source_system p.source_event_id;
  site_id = site_id;
  source_system = p.source_system;
  source_event_id = p.source_event_id;
  gate_id = p.gate_id;
  decision = p.decision;
  claimed_ts = p.ts;
  skew = p.ts - now;
  first_seen_at = now;
}

-- the alarm for a row that has just been quarantined and flushed
warn_skew : Site → String → Passage → ℕ → ℕ → Store → Store × Option Event
unfolding is_open_skew gate_alarm
warn_skew site site_id p now clock store =
    if any (is_open_skew site_id ("access_gate:" ++ₛ p.gate_id)) store.session.events
    then (store, none)
    else (let (event_id, session) = new_event_id store.session in
        let alarm = gate_alarm event_id site_id now "source_clock_skew" "warning" p.gate_id in
        (record store { session = persist_event session alarm site.outbox clock }, some alarm))

-- quarantine_future_event, for an event refused because its time is ahead of `now`
unfoldable pub quarantine_future_event :
    Site → Store → String → Passage → ℕ → ℕ → AccessError ⊎ (Store × Option Event)
unfolding new_quarantine warn_skew is_open_skew gate_alarm
quarantine_future_event site store site_id p now clock =
    elim (find_quarantined store (access_id site_id p.source_system p.source_event_id)) [
      | some row ↦ inr (store, none)
      | none ↦ elim (commit store.session) [
        | none ↦ inl integrity_error
        | some session ↦
            let store' = record store {
              quarantined = store.quarantined ++ new_quarantine site_id p now ∷ [];
              session = session;
            } in
            inr (warn_skew site site_id p now clock store')
      ]
    ]
