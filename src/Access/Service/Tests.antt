-- ===== src/Access/Service/Tests.antt =====
-- A suspended operator passes the gate, and the theorems there.
use mine_intelligence.Storage.Laws.{all_events}
use mine_intelligence.Storage.{Event, commit}
use mine_intelligence.Prelude.{
  All, Bool, Option, arith, false, from_option, inl, inr, is_some, none, not, refl, true, ◌≡◌, ◌⊎◌,
}
use mine_intelligence.Access.Model.{AccessError, AccessEvent, Store, find_passage}
use mine_intelligence.Access.Tests.{entry_at, gate, ran, searched}
use mine_intelligence.Access.Service.{find_operator, ingest_access_event, record_access_event}
use mine_intelligence.Access.Service.Laws.{
  IsDenial, alarm-ingest_access_event, ingest_access_event_again, on_record,
}

abbrev after : AccessError ⊎ (Store × AccessEvent × Bool × Option Event)
after = ingest_access_event ran gate "ran" (entry_at 1000000) 2000000 0 2000000

abbrev stored : Store × AccessEvent × Bool × Option Event
stored = elim after [ inl e ↦ (gate, searched, false, none) | inr x ↦ x ]

alarm-ingest_access_event_example :
    (stored.2 ≡ not (on_record gate "ran" (entry_at 1000000)))
    × (is_some stored.3 ≡ true)
    × (all_events stored.0.session ≡ from_option stored.3)
    × All (IsDenial ran gate "ran" (entry_at 1000000) 2000000 0 2000000) (from_option stored.3)
unfolding ingest_access_event record_access_event find_passage commit find_operator
alarm-ingest_access_event_example =
    alarm-ingest_access_event ran gate "ran" (entry_at 1000000) 2000000 0 2000000 stored.0 stored.1
      stored.2 stored.3 refl

ingest_access_event_again_example :
    ingest_access_event ran stored.0 "ran" (entry_at 1000000) 9000000 50 9000000
    ≡ inr (stored.0, stored.1, false, none)
unfolding ingest_access_event record_access_event find_passage commit
ingest_access_event_again_example =
    ingest_access_event_again ran gate "ran" (entry_at 1000000) 2000000 0 2000000 stored.0 stored.1
      stored.2 stored.3 9000000 50 9000000 refl (omega arith)
