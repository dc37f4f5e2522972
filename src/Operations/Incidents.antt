-- ===== src/Operations/Incidents.antt =====
-- src/minemonitor/operations/incidents.py: the lifecycle of an incident and its timeline.
pub mod Lifecycle
pub mod Timeline
mod Tests
use mine_intelligence.Prelude.{
  Bool, List, Option, String, [], false, if◌then◌else◌, none, some, str_eq, true, ℕ, ◌++◌, ◌∷◌,
}
use mine_intelligence.Prelude.Text.{non_empty}
use mine_intelligence.Storage.{EventId}

-- INCIDENT_STATES; `opened` is the source's "open".
pub data State : Type 0 where
  opened acknowledged investigating assigned resolved closed : State

-- A text that is one of INCIDENT_STATES.
unfoldable pub state_named : String → Option State
state_named s =
    if str_eq s "open"
    then some opened
    else if str_eq s "acknowledged"
    then some acknowledged
    else if str_eq s "investigating"
    then some investigating
    else if str_eq s "assigned"
    then some assigned
    else if str_eq s "resolved"
    then some resolved
    else if str_eq s "closed"
    then some closed
    else none

-- `target in _ALLOWED[current]`
unfoldable pub can_transition : State → State → Bool
can_transition opened opened = false
can_transition opened target = true
can_transition acknowledged investigating = true
can_transition acknowledged assigned = true
can_transition acknowledged resolved = true
can_transition acknowledged closed = true
can_transition investigating assigned = true
can_transition investigating resolved = true
can_transition investigating closed = true
can_transition assigned investigating = true
can_transition assigned resolved = true
can_transition assigned closed = true
can_transition resolved closed = true
can_transition resolved investigating = true
can_transition current target = false

pub record Incident : Type 0 where
  pub incident_id : ℕ
  pub site_id : String
  pub event_id : Option EventId
  pub type : String
  pub severity : String
  pub asset_id : Option String
  pub zone_id : Option String
  pub summary : String
  pub state : State
  pub assignee : Option String
  pub resolution : Option String
  pub resolution_category : Option String
  pub resolved_at : Option ℕ
  pub closed_at : Option ℕ
  pub created_by : String
  pub created_at : ℕ
  pub updated_at : ℕ

pub data NoteKind : Type 0 where
  state_change note : NoteKind

-- a row of `incident_notes`; its id is a ULID and is left out
pub record IncidentNote : Type 0 where
  pub incident_id : ℕ
  pub site_id : String
  pub ts : ℕ
  pub actor : String
  pub kind : NoteKind
  pub from_state : Option State
  pub to_state : Option State
  pub text : Option String

-- An incident with its timeline, oldest entry first.
pub record Case : Type 0 where
  pub incident : Incident
  pub notes : List IncidentNote

pub data Refusal : Type 0 where
  unknown_state illegal_move no_assignee no_resolution : Refusal

append : Case → String → NoteKind → Option State → Option State → Option String → ℕ → Case
append c actor kind from_state to_state text now = record c {
  notes =
      c.notes
      ++ record {
        incident_id = c.incident.incident_id;
        site_id = c.incident.site_id;
        ts = now;
        actor = actor;
        kind = kind;
        from_state = from_state;
        to_state = to_state;
        text = text;
      }
        ∷ [];
}

unfoldable pub create_incident :
    ℕ
    → String
    → String
    → String
    → String
    → String
    → Option String
    → Option String
    → Option EventId
    → ℕ
    → Case
unfolding append
create_incident id site_id summary type severity actor asset_id zone_id event_id now =
    append
      (record {
        incident = record {
          incident_id = id;
          site_id = site_id;
          event_id = event_id;
          type = type;
          severity = severity;
          asset_id = asset_id;
          zone_id = zone_id;
          summary = summary;
          state = opened;
          assignee = none;
          resolution = none;
          resolution_category = none;
          resolved_at = none;
          closed_at = none;
          created_by = actor;
          created_at = now;
          updated_at = now;
        };
        notes = [];
      })
      actor state_change none (some opened) (some summary) now

unfoldable pub add_note : Case → String → String → ℕ → Case
unfolding append
add_note c actor text now =
    let c' = append c actor note none none (some text) now in
    record c' { incident = record c'.incident { updated_at = now } }

-- The arguments of a transition but for its target.
pub record Request : Type 0 where
  pub actor : String
  pub note : Option String
  pub assignee : Option String
  pub resolution : Option String
  pub resolution_category : Option String
  pub now : ℕ

-- The truth value of an optional text: neither None nor empty.
abbrev pub given : Option String → Bool
given none = false
given (some s) = non_empty s

-- `assignee if assignee is not None else incident.assignee`
abbrev pub or_else : Option String → Option String → Option String
or_else none current = current
or_else (some s) current = some s

-- the checks and writes of the assignee
assign : Incident → State → Request → Option Refusal × Incident
assign i assigned r =
    let target = or_else r.assignee i.assignee in
    if given target then (none, record i { assignee = target }) else (some no_assignee, i)
assign i to r = (none, record i { assignee = or_else r.assignee i.assignee })

-- the writes of a resolution and of a closure
resolve : Incident → State → Request → Option Refusal × Incident
resolve i resolved r =
    if given r.resolution
    then (
      none,
      record i {
        resolution = r.resolution;
        resolution_category = r.resolution_category;
        resolved_at = some r.now;
      },
    )
    else (some no_resolution, i)
resolve i closed r = (none, record i { closed_at = some r.now })
resolve i to r = (none, i)

moved : Case → Incident → State → Request → Case
unfolding append
moved c i to r =
    append (record c { incident = record i { state = to; updated_at = r.now } }) r.actor
      state_change (some i.state) (some to) r.note r.now

pub move : Case → State → Request → Option Refusal × Case
move c to r =
    if can_transition c.incident.state to
    then (let (refused, i) = assign c.incident to r in
        elim refused [
          | some e ↦ (some e, record c { incident = i })
          | none ↦
              let (refused', j) = resolve i to r in
              elim refused' [
                | some e ↦ (some e, record c { incident = j })
                | none ↦ (none, moved c j to r)
              ]
        ])
    else (some illegal_move, c)

-- What was written to the incident before a refusal stays written on the object.
unfoldable pub transition_incident : Case → String → Request → Option Refusal × Case
unfolding move assign resolve moved
transition_incident c to_state r = elim (state_named to_state) [
  | none ↦ (some unknown_state, c)
  | some to ↦ move c to r
]
