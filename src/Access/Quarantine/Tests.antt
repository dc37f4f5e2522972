-- ===== src/Access/Quarantine/Tests.antt =====
-- A gate whose clock is a day ahead, and the theorems there.
use mine_intelligence.Notifications.Outbox.{enqueue_for_event, qualifies}
use mine_intelligence.Events.{new_event_id, persist_event}
use mine_intelligence.Storage.Laws.{all_events}
use mine_intelligence.Storage.{Event, commit}
use mine_intelligence.Prelude.{
  All, Option, [], from_option, inl, inr, is_some, map, none, refl, true, ◌++◌, ◌≡◌,
}
use mine_intelligence.Access.Model.{Passage, Store, access_id}
use mine_intelligence.Access.Tests.{entry_at, gate, ran}
use mine_intelligence.Access.Quarantine.{find_quarantined, quarantine_future_event}
use mine_intelligence.Access.Quarantine.Laws.{
  alarm-quarantine_future_event, is_open_alarm, is_quarantined,
}

abbrev ahead : Passage
ahead = entry_at 86400000000

abbrev other : Passage
other = record ahead { source_event_id = "8" }

abbrev first : Store × Option Event
first = elim (quarantine_future_event ran gate "ran" ahead 5 5) [ inl e ↦ (gate, none) | inr x ↦ x ]

abbrev second : Store × Option Event
second = elim (quarantine_future_event ran first.0 "ran" other 6 6) [
  | inl e ↦ (gate, none)
  | inr x ↦ x
]

-- The gate after its alarm has been acknowledged.
abbrev acknowledged : Store
acknowledged = record first.0 {
  session = record first.0.session {
    events = map (λ (e : Event). record e { state = "acknowledged" }) (all_events first.0.session);
    added_events = [];
  };
}

abbrev third : Store × Option Event
third = elim (quarantine_future_event ran acknowledged "ran" other 6 6) [
  | inl e ↦ (gate, none)
  | inr x ↦ x
]

alarm-quarantine_future_event_example :
    (is_quarantined third.0 "ran" other ≡ true)
    × (third.0.passages ≡ acknowledged.passages)
    × (is_some third.1 ≡ true)
    × (all_events third.0.session ≡ all_events acknowledged.session ++ from_option third.1)
    × All
        (λ (e : Event).
          (is_open_alarm "ran" "north" e ≡ true) × (e.severity ≡ "warning") × (e.ts ≡ 6))
        (from_option third.1)
unfolding quarantine_future_event find_quarantined commit access_id persist_event enqueue_for_event
    qualifies new_event_id
alarm-quarantine_future_event_example =
    alarm-quarantine_future_event ran acknowledged "ran" other 6 6 third.0 third.1 refl
