-- ===== src/Operations/Incidents/Lifecycle.antt =====
-- What holds of an incident at every point of its life (src/minemonitor/operations/incidents.py).
use mine_intelligence.Storage.{EventId}
use mine_intelligence.Prelude.{
  List, Option, String, [], arith, is_some, none, refl, some, true, ℕ, ◌∷◌, ◌≡◌, ◌≢◌,
}
use mine_intelligence.Operations.Incidents.{
  Case, Incident, Refusal, Request, State, acknowledged, add_note, assign, assigned, can_transition,
  closed, create_incident, given, move, moved, opened, resolve, resolved, state_named,
  transition_incident, unknown_state,
}

pub data Action : Type 0 where
  comment : String → String → ℕ → Action
  change : String → Request → Action

-- A refused transition raises, so the caller commits nothing of it.
unfoldable pub apply : Case → Action → Case
apply c (comment actor words now) = add_note c actor words now
apply c (change to_state r) =
    let (refused, c') = transition_incident c to_state r in elim refused [ none ↦ c' | some e ↦ c ]

-- The case after some actions, the newest first.
unfoldable pub history : Case → List Action → Case
history c [] = c
history c (a ∷ earlier) = apply (history c earlier) a

-- The assigned have an assignee, the resolved a resolution and its time, and exactly the closed a
-- time of closure.
pub record IsConsistent (i : Incident) : Type 0 where
  pub assignment : i.state ≡ assigned → given i.assignee ≡ true
  pub resolution : i.state ≡ resolved → (given i.resolution ≡ true) × (is_some i.resolved_at ≡ true)
  pub closure : i.state ≡ closed → is_some i.closed_at ≡ true
  pub still_open : i.state ≢ closed → i.closed_at ≡ none

-- A move that is not refused.
move-IsConsistent :
    (c : Case) (to : State) (r : Request)
    → (move c to r).0 ≡ none
    → IsConsistent c.incident
    → IsConsistent (move c to r).1.incident
unfolding move assign resolve moved can_transition
move-IsConsistent c opened r e h = ground arith
move-IsConsistent c acknowledged r e h = ground arith
move-IsConsistent c assigned r e h = ground arith
move-IsConsistent c resolved r e h = ground arith
move-IsConsistent c _ r e h = ground arith

history-none : (c : Case) → history c [] ≡ c
unfolding history
history-none c = refl

-- A change that keeps a property when it is not refused keeps it in any case.
module _ (P : Case → Type 0) (c : Case) (r : Request) (h : P c)
    (step : (to : State) → (move c to r).0 ≡ none → P (move c to r).1) where
  kept :
      (refused : Option Refusal) (c' : Case)
      → (refused ≡ none → P c')
      → P (elim refused [ none ↦ c' | some e ↦ c ])
  kept none c' f = f refl
  kept (some e) c' f = h

  pub change_keeps : (to_state : String) → P (apply c (change to_state r))
  unfolding apply transition_incident
  change_keeps to_state = go (state_named to_state)
    where
      go :
          (o : Option State)
          → let res : Option Refusal × Case = elim o [
            | none ↦ (some unknown_state, c)
            | some to ↦ move c to r
          ] in
            P (elim res.0 [ none ↦ res.1 | some e ↦ c ])
      go none = h
      go (some to) = kept (move c to r).0 (move c to r).1 (step to)

apply-IsConsistent :
    (c : Case) (a : Action) → IsConsistent c.incident → IsConsistent (apply c a).incident
unfolding apply add_note
apply-IsConsistent c (comment actor words now) h = record {
  assignment = h.assignment;
  resolution = h.resolution;
  closure = h.closure;
  still_open = h.still_open;
}
apply-IsConsistent c (change to_state r) h =
    change_keeps (λ (k : Case). IsConsistent k.incident) c r h
      (λ to done. move-IsConsistent c to r done h) to_state

-- From its creation on, whatever the actions and whichever of them are refused, an assigned incident
-- has an assignee, a resolved one has a resolution and its time, and exactly a closed one has a
-- time of closure.
pub history-IsConsistent :
    (id now : ℕ) (site summary type severity actor : String) (asset zone_id : Option String)
    (event_id : Option EventId) (actions : List Action)
    → IsConsistent
        (history
          (create_incident id site summary type severity actor asset zone_id event_id now)
          actions).incident
unfolding history create_incident
history-IsConsistent id now site summary type severity actor asset zone_id event_id [] =
    ground arith
history-IsConsistent id now site summary type severity actor asset zone_id event_id (a ∷ earlier) =
    apply-IsConsistent _ a
      (history-IsConsistent id now site summary type severity actor asset zone_id event_id earlier)

apply_closed :
    (c : Case) (a : Action) → c.incident.state ≡ closed → (apply c a).incident.state ≡ closed
unfolding apply add_note transition_incident can_transition
apply_closed c (comment actor words now) h = h
apply_closed c (change to_state r) h = ground arith

-- A closed incident stays closed, and each later request to move it is refused and changes nothing.
pub history_closed :
    (c : Case) (actions : List Action) (to_state : String) (r : Request)
    → c.incident.state ≡ closed
    → let c' = history c actions in
      (c'.incident.state ≡ closed)
      × (is_some (transition_incident c' to_state r).0 ≡ true)
      × ((transition_incident c' to_state r).1 ≡ c')
unfolding history transition_incident can_transition
history_closed c [] to_state r h = ground arith
history_closed c (a ∷ earlier) to_state r h =
    let before = (history_closed c earlier to_state r h).0 in
    let e = apply_closed (history c earlier) a before in ground arith
