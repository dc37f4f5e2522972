-- ===== src/Operations/Incidents/Tests.antt =====
-- An incident that is assigned, and the theorems at it.
use mine_intelligence.Prelude.{List, Option, String, [], is_some, none, refl, some, true, ◌∷◌, ◌≡◌}
use mine_intelligence.Operations.Incidents.{
  Case, Request, add_note, assigned, can_transition, closed, create_incident, state_named,
  transition_incident,
}
use mine_intelligence.Operations.Incidents.Lifecycle.{
  Action, IsConsistent, apply, change, comment, history, history-IsConsistent, history_closed,
}
use mine_intelligence.Operations.Incidents.Timeline.{IsTold, history-IsTold}

abbrev born : Case
born = create_incident 0 "ran" "Overspeed" "overspeed" "warning" "ana" none none none 10

abbrev ask : Option String → Request
ask who = record {
  actor = "ana";
  note = none;
  assignee = who;
  resolution = none;
  resolution_category = none;
  now = 20;
}

abbrev script : List Action
script =
    change "resolved" (ask none)
    ∷ change "assigned" (ask (some "ben"))
    ∷ change "assigned" (ask none)
    ∷ comment "ana" "seen" 12
    ∷ []

assigned_state : (history born script).incident.state ≡ assigned
unfolding history apply create_incident add_note transition_incident state_named can_transition
assigned_state = refl

history-IsConsistent_example : IsConsistent (history born script).incident
history-IsConsistent_example =
    history-IsConsistent 0 10 "ran" "Overspeed" "overspeed" "warning" "ana" none none none script

history-IsTold_example : IsTold (history born script)
history-IsTold_example =
    history-IsTold 0 10 "ran" "Overspeed" "overspeed" "warning" "ana" none none none script

abbrev shut : Case
shut = (transition_incident born "closed" (ask none)).1

shut_closed : shut.incident.state ≡ closed
unfolding create_incident transition_incident state_named can_transition
shut_closed = refl

history_closed_example :
    let c' = history shut script in
    (c'.incident.state ≡ closed)
    × (is_some (transition_incident c' "open" (ask none)).0 ≡ true)
    × ((transition_incident c' "open" (ask none)).1 ≡ c')
history_closed_example = history_closed shut script "open" (ask none) shut_closed
