-- ===== src/Vision/EdgeOutbox.antt =====
-- src/minemonitor/vision/edge/outbox.py: the durable queue of an edge node. The SQLite file is its two
-- tables; an insertion time is in whole microseconds, which order as the texts stored do.
pub mod Laws
pub mod Counts
mod Tests
use Prim.Native.String.{compare}
use Prim.Native.Nat.{Ordering}
use mine_intelligence.Prelude.{
  Bool, List, Option, String, [], any, false, if◌then◌else◌, leb, length, ltb, map, none, not,
  select, some, str_eq, take, true, ℕ, ◌&&◌, ◌++◌, ◌+◌, ◌-◌, ◌==◌, ◌||◌, ◌∷◌,
}

pub record Row : Type 0 where
  pub id : String
  pub schema : String
  pub payload : String
  pub created_at : ℕ
  pub attempts : ℕ
  pub state : String
  pub last_error : Option String

pub record Observed : Type 0 where
  pub observation_id : String
  pub ts : ℕ
  pub payload : String

pub record EdgeOutbox : Type 0 where
  pub rows : List Row
  pub observations : List Observed

unfoldable pub has_row : String → List Row → Bool
has_row id rows = any (λ (r : Row). str_eq r.id id) rows

unfoldable pub new_pending : String → String → String → ℕ → Row
new_pending id schema payload now = record {
  id = id;
  schema = schema;
  payload = payload;
  created_at = now;
  attempts = 0;
  state = "pending";
  last_error = none;
}

-- put: INSERT OR IGNORE
unfoldable pub put : EdgeOutbox → String → String → String → ℕ → EdgeOutbox × Bool
unfolding new_pending
put box id schema payload now =
    if has_row id box.rows
    then (box, false)
    else (record box { rows = box.rows ++ new_pending id schema payload now ∷ [] }, true)

is_less : Ordering → Bool
is_less Ordering.lt = true
is_less _ = false

-- ORDER BY created_at, id
pub comes_first : Row → Row → Bool
comes_first a b =
    ltb a.created_at b.created_at || (a.created_at == b.created_at && is_less (compare a.id b.id))

unfoldable pub insert_row : Row → List Row → List Row
insert_row r [] = r ∷ []
insert_row r (s ∷ rows) =
    let rest = insert_row r rows in if comes_first s r then s ∷ rest else r ∷ s ∷ rows

unfoldable pub by_age : List Row → List Row
by_age [] = []
by_age (r ∷ rows) = insert_row r (by_age rows)

unfoldable pub is_pending : Row → Bool
is_pending r = str_eq r.state "pending"

unfoldable pub pending : EdgeOutbox → ℕ → List (String × String)
unfolding by_age insert_row comes_first is_less
pending box limit =
    map (λ (r : Row). (r.id, r.payload)) (take limit (by_age (select is_pending box.rows)))

-- UPDATE outbox SET … WHERE id=?
unfoldable pub update_rows : (Row → Row) → String → List Row → List Row
update_rows f id [] = []
update_rows f id (r ∷ rows) =
    let rest = update_rows f id rows in (if str_eq r.id id then f r else r) ∷ rest

-- executemany
unfoldable pub update_each : (Row → Row) → List String → List Row → List Row
update_each f [] rows = rows
update_each f (id ∷ ids) rows = update_each f ids (update_rows f id rows)

unfoldable pub sent : Row → Row
sent r = record r { state = "sent"; attempts = r.attempts + 1 }

unfoldable pub attempted : String → Row → Row
attempted error r = record r { attempts = r.attempts + 1; last_error = some error }

unfoldable pub dead : String → Row → Row
dead error r = record r { state = "dead"; attempts = r.attempts + 1; last_error = some error }

unfoldable pub mark_sent : EdgeOutbox → List String → EdgeOutbox
unfolding sent
mark_sent box ids = record box { rows = update_each sent ids box.rows }

unfoldable pub mark_attempt : EdgeOutbox → List String → String → EdgeOutbox
unfolding attempted
mark_attempt box ids error = record box { rows = update_each (attempted error) ids box.rows }

unfoldable pub mark_dead : EdgeOutbox → String → String → EdgeOutbox
unfolding dead
mark_dead box id error = record box { rows = update_rows (dead error) id box.rows }

unfoldable pub has_state : String → Row → Bool
has_state state r = str_eq r.state state

-- counts, of the three states that are written
unfoldable pub counts : EdgeOutbox → ℕ × ℕ × ℕ
unfolding has_state
counts box = (
  length (select (has_state "pending") box.rows),
  length (select (has_state "sent") box.rows),
  length (select (has_state "dead") box.rows),
)

unfoldable pub is_kept : ℕ → Row → Bool
is_kept before r = not (str_eq r.state "sent" && ltb r.created_at before)

-- prune_sent, and how many rows it deletes
unfoldable pub prune_sent : EdgeOutbox → ℕ → EdgeOutbox × ℕ
unfolding is_kept
prune_sent box before =
    let kept = select (is_kept before) box.rows in
    (record box { rows = kept }, length box.rows - length kept)

-- store_observation: INSERT OR IGNORE
unfoldable pub store_observation : EdgeOutbox → Observed → EdgeOutbox
store_observation box obs =
    if any (λ (o : Observed). str_eq o.observation_id obs.observation_id) box.observations
    then box
    else record box { observations = box.observations ++ obs ∷ [] }

insert_observed : Observed → List Observed → List Observed
insert_observed o [] = o ∷ []
insert_observed o (p ∷ ps) =
    let rest = insert_observed o ps in if ltb p.ts o.ts then p ∷ rest else o ∷ p ∷ ps

by_ts : List Observed → List Observed
by_ts [] = []
by_ts (o ∷ os) = insert_observed o (by_ts os)

-- observations_between: payloads, the oldest first, those at one time in the order of the table
unfoldable pub observations_between : EdgeOutbox → ℕ → ℕ → List String
unfolding by_ts insert_observed
observations_between box start end =
    map (λ (o : Observed). o.payload)
      (by_ts (select (λ (o : Observed). leb start o.ts && leb o.ts end) box.observations))

unfoldable pub prune_observations : EdgeOutbox → ℕ → EdgeOutbox × ℕ
prune_observations box before =
    let kept = select (λ (o : Observed). leb before o.ts) box.observations in
    (record box { observations = kept }, length box.observations - length kept)
