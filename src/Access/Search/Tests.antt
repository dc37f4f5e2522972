-- ===== src/Access/Search/Tests.antt =====
-- A selected search that nobody made, and one that found metal.
use mine_intelligence.Notifications.Outbox.{enqueue_for_event, qualifies}
use mine_intelligence.Events.{persist_event}
use mine_intelligence.Storage.{Event, commit, get_event}
use mine_intelligence.Prelude.{
  All, Bool, List, Option, [], from_option, is_some, none, refl, some, true, ◌∷◌, ◌≡◌,
}
use mine_intelligence.Access.Model.{AccessEvent, Store, find_passage}
use mine_intelligence.Access.Tests.{gate, no_rows-IsClean, ran, searched}
use mine_intelligence.Access.Search.{
  complete_search, detect_missed_searches, escalate, is_missed, is_positive,
}
use mine_intelligence.Access.Search.Laws.{
  IsMetal, alarm-complete_search, alarms-detect_missed_searches, detect_missed_searches_again,
  overdue_alarm,
}
use mathlib.Core.Option

abbrev busy : Store
busy = record gate { passages = searched ∷ [] }

abbrev checked : Store × List Event
checked = elim (detect_missed_searches ran busy "ran" 9000000 5000000 9000000) [
  | none ↦ (busy, [])
  | some x ↦ x
]

alarms-detect_missed_searches_example :
    (checked.1 ≡ overdue_alarm ran "ran" 9000000 5000000 9000000 searched ∷ [])
    × (checked.0.session.events ≡ checked.1)
    × (checked.0.session.added_events ≡ [])
    × (checked.0.passages ≡ record searched { search_escalated_at = some 9000000 } ∷ [])
unfolding detect_missed_searches commit escalate is_missed is_positive get_event persist_event
    enqueue_for_event qualifies
alarms-detect_missed_searches_example =
    alarms-detect_missed_searches ran "ran" 9000000 5000000 9000000 busy checked.0 checked.1 refl

detect_missed_searches_again_example :
    detect_missed_searches ran checked.0 "ran" 9000000 5000000 9000000 ≡ some (checked.0, [])
unfolding detect_missed_searches commit escalate is_missed is_positive get_event persist_event
    enqueue_for_event qualifies
detect_missed_searches_again_example =
    detect_missed_searches_again ran "ran" 9000000 5000000 9000000 busy checked.0 checked.1 refl

abbrev found_metal : Store × Bool × Option Event
found_metal = complete_search ran busy "ran" "p1" (some true) 5 5

alarm-complete_search_example :
    (Option.map (λ (r : AccessEvent). r.search_completed) (find_passage found_metal.0 "p1")
      ≡ some (some true))
    × (is_some found_metal.2 ≡ true)
    × (found_metal.0.session.events ≡ from_option found_metal.2)
    × All (IsMetal "p1" "ran" 5) (from_option found_metal.2)
unfolding find_passage qualifies
alarm-complete_search_example =
    alarm-complete_search ran busy "ran" "p1" searched 5 5 no_rows-IsClean
      (record { no_event = refl; no_notification = refl }) refl refl
