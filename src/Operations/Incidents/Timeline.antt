-- ===== src/Operations/Incidents/Timeline.antt =====
-- The timeline of an incident tells how it got to its state
-- (src/minemonitor/operations/incidents.py).
use mine_intelligence.Storage.{EventId}
use mine_intelligence.Operations.Incidents.Lifecycle.{
  Action, apply, change, change_keeps, comment, history,
}
use mine_intelligence.Prelude.{
  List, Option, String, [], ap, arith, none, refl, some, sym, true, ℕ, ◌++◌, ◌∙◌, ◌∷◌, ◌≡◌,
}
use mine_intelligence.Operations.Incidents.{
  Case, Incident, IncidentNote, NoteKind, Request, State, add_note, assign, assigned,
  can_transition, create_incident, move, moved, note, opened, resolve, resolved, state_change,
}
use mathlib.Core.Path.{subst}

-- A recorded change of state is the creation or an allowed move.
abbrev pub IsLegal : Option State → Option State → Type 0
IsLegal none to = to ≡ some opened
IsLegal (some from) none = ⊥
IsLegal (some from) (some to) = can_transition from to ≡ true

abbrev pub Entry :
    NoteKind → Option State → Option State → Option State → (Option State → Type 0) → Type 0
Entry note from to current Rest = Rest current
Entry state_change from to current Rest = (from ≡ current) × IsLegal from to × Rest to

-- Entries that lead from one state to another, each change starting where the one before ended.
abbrev pub Leads : Option State → List IncidentNote → Option State → Type 0
Leads current [] final = current ≡ final
Leads current (n ∷ ns) final =
    Entry n.kind n.from_state n.to_state current (λ next. Leads next ns final)

Entry-map :
    (k : NoteKind) (from to current : Option State) (P Q : Option State → Type 0)
    → ((next : Option State) → P next → Q next)
    → Entry k from to current P
    → Entry k from to current Q
Entry-map note from to current P Q f h = f current h
Entry-map state_change from to current P Q f h = (h.0, h.1, f to h.2)

Leads-append :
    (current mid final : Option State) (ns : List IncidentNote) (n : IncidentNote)
    → Entry n.kind n.from_state n.to_state mid (λ next. next ≡ final)
    → Leads current ns mid
    → Leads current (ns ++ n ∷ []) final
Leads-append current mid final [] n e h =
    subst (λ c. Entry n.kind n.from_state n.to_state c (λ next. next ≡ final)) (sym h) e
Leads-append current mid final (m ∷ ms) n e h =
    Entry-map m.kind m.from_state m.to_state current (λ next. Leads next ms mid)
      (λ next. Leads next (ms ++ n ∷ []) final) (λ next l. Leads-append next mid final ms n e l) h

-- The timeline leads from nothing to the state that the incident is in.
abbrev pub IsTold : Case → Type 0
IsTold c = Leads none c.notes (some c.incident.state)

assign_state : (i : Incident) (to : State) (r : Request) → (assign i to r).1.state ≡ i.state
unfolding assign
assign_state i assigned r = ground arith
assign_state i _ r = refl

resolve_state : (i : Incident) (to : State) (r : Request) → (resolve i to r).1.state ≡ i.state
unfolding resolve
resolve_state i resolved r = ground arith
resolve_state i _ r = refl

moved-IsTold :
    (c : Case) (i : Incident) (to : State) (r : Request)
    → i.state ≡ c.incident.state
    → can_transition c.incident.state to ≡ true
    → IsTold c
    → IsTold (moved c i to r)
unfolding moved
moved-IsTold c i to r same legal h =
    Leads-append none (some c.incident.state) (some to) c.notes _
      (ap some same, rw same legal, refl) h

move_done :
    (c : Case) (to : State) (r : Request)
    → (move c to r).0 ≡ none
    → (can_transition c.incident.state to ≡ true)
      × ((move c to r).1 ≡ moved c (resolve (assign c.incident to r).1 to r).1 to r)
unfolding move
move_done c to r e = ground arith

move-IsTold :
    (c : Case) (to : State) (r : Request)
    → (move c to r).0 ≡ none
    → IsTold c
    → IsTold (move c to r).1
move-IsTold c to r e h =
    let (legal, done) = move_done c to r e in
    subst IsTold (sym done) (
      moved-IsTold c _ to r
        (resolve_state (assign c.incident to r).1 to r ∙ assign_state c.incident to r) legal h)

apply-IsTold : (c : Case) (a : Action) → IsTold c → IsTold (apply c a)
unfolding apply add_note
apply-IsTold c (comment actor words now) h =
    Leads-append none (some c.incident.state) (some c.incident.state) c.notes _ refl h
apply-IsTold c (change to_state r) h =
    change_keeps IsTold c r h (λ to done. move-IsTold c to r done h) to_state

-- From its creation on, the entries of an incident's timeline start with the creation, go on by
-- allowed moves, each from the state where the one before ended, and end at the incident's state.
pub history-IsTold :
    (id now : ℕ) (site summary type severity actor : String) (asset zone_id : Option String)
    (event_id : Option EventId) (actions : List Action)
    → IsTold (
        history
          (create_incident id site summary type severity actor asset zone_id event_id now)
          actions)
unfolding history create_incident
history-IsTold id now site summary type severity actor asset zone_id event_id [] =
    (refl, refl, refl)
history-IsTold id now site summary type severity actor asset zone_id event_id (a ∷ earlier) =
    apply-IsTold _ a
      (history-IsTold id now site summary type severity actor asset zone_id event_id earlier)
