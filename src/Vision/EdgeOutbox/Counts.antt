-- ===== src/Vision/EdgeOutbox/Counts.antt =====
-- The rows of the outbox: one for each id, each in one of three states
-- (src/minemonitor/vision/edge/outbox.py).
use mine_intelligence.Prelude.{
  Bool, List, String, [], arith, eq_iff, false, if◌then◌else◌, length, not, refl, select, str_eq,
  true, ◌&&◌, ◌++◌, ◌+◌, ◌||◌, ◌∷◌, ◌≡◌, ◌≤◌,
}
use mine_intelligence.Vision.EdgeOutbox.{
  EdgeOutbox, Row, attempted, counts, dead, has_row, has_state, mark_attempt, mark_dead, mark_sent,
  new_pending, prune_observations, prune_sent, put, sent, store_observation, update_each,
  update_rows,
}
use mine_intelligence.Vision.EdgeOutbox.Laws.{
  Op, apart, apply, op_attempt, op_dead, op_observe, op_prune, op_prune_observations, op_put,
  op_sent, run,
}

is_known : Row → Bool
is_known r = str_eq r.state "pending" || (str_eq r.state "sent" || str_eq r.state "dead")

abbrev pub empty : EdgeOutbox
empty = record { rows = []; observations = [] }

-- Every row is in a known state, and no two rows have one id.
abbrev well_formed : List Row → Bool
well_formed [] = true
well_formed (r ∷ rows) = (is_known r && not (has_row r.id rows)) && well_formed rows

has_row-update :
    (f : Row → Row) (i id : String) (rows : List Row)
    → ((r : Row) → (f r).id ≡ r.id)
    → has_row id (update_rows f i rows) ≡ has_row id rows
unfolding has_row update_rows
has_row-update f i id [] same = refl
has_row-update f i id (r ∷ rows) same = ground (arith, same r, has_row-update f i id rows same)

well_formed-update :
    (f : Row → Row) (i : String) (rows : List Row)
    → ((r : Row) → (f r).id ≡ r.id)
    → ((r : Row) → is_known r ≡ true → is_known (f r) ≡ true)
    → well_formed rows ≡ true
    → well_formed (update_rows f i rows) ≡ true
unfolding update_rows
well_formed-update f i [] same keep h = h
well_formed-update f i (r ∷ rows) same keep h = ground (
  arith,
  same r,
  keep r,
  has_row-update f i r.id rows same,
  well_formed-update f i rows same keep,
)

well_formed-update_each :
    (f : Row → Row) (ids : List String) (rows : List Row)
    → ((r : Row) → (f r).id ≡ r.id)
    → ((r : Row) → is_known r ≡ true → is_known (f r) ≡ true)
    → well_formed rows ≡ true
    → well_formed (update_each f ids rows) ≡ true
unfolding update_each
well_formed-update_each f [] rows same keep h = h
well_formed-update_each f (i ∷ ids) rows same keep h =
    well_formed-update_each f ids (update_rows f i rows) same keep
      (well_formed-update f i rows same keep h)

has_row-append :
    (id : String) (rows : List Row) (r : Row)
    → has_row id (rows ++ r ∷ []) ≡ (has_row id rows || str_eq r.id id)
unfolding has_row
has_row-append id [] r = ground arith
has_row-append id (s ∷ rows) r = ground (arith, has_row-append id rows r)

well_formed-append :
    (rows : List Row) (r : Row)
    → well_formed rows ≡ true
    → is_known r ≡ true
    → has_row r.id rows ≡ false
    → well_formed (rows ++ r ∷ []) ≡ true
unfolding has_row
well_formed-append [] r h k n = ground arith
well_formed-append (s ∷ rows) r h k n = ground (
  arith,
  has_row-append s.id rows r,
  well_formed-append rows r,
  eq_iff r.id s.id,
  eq_iff s.id r.id,
)

has_row-select :
    (p : Row → Bool) (id : String) (rows : List Row)
    → has_row id rows ≡ false
    → has_row id (select p rows) ≡ false
unfolding has_row
has_row-select p id [] h = h
has_row-select p id (r ∷ rows) h = ground (arith, has_row-select p id rows)

well_formed-select :
    (p : Row → Bool) (rows : List Row)
    → well_formed rows ≡ true
    → well_formed (select p rows) ≡ true
well_formed-select p [] h = h
well_formed-select p (r ∷ rows) h =
    ground (arith, has_row-select p r.id rows, well_formed-select p rows)

well_formed-apply :
    (box : EdgeOutbox) (op : Op)
    → well_formed box.rows ≡ true
    → well_formed (apply box op).rows ≡ true
unfolding apply put mark_sent mark_attempt mark_dead prune_sent store_observation prune_observations
    attempted dead sent new_pending is_known
well_formed-apply box (op_put i schema p now) h =
    ground (arith, h, well_formed-append box.rows (new_pending i schema p now) h refl)
well_formed-apply box (op_sent ids) h =
    well_formed-update_each sent ids box.rows (λ r. refl) (λ r k. refl) h
well_formed-apply box (op_attempt ids error) h =
    well_formed-update_each (attempted error) ids box.rows (λ r. refl) (λ r k. k) h
well_formed-apply box (op_dead i error) h =
    well_formed-update (dead error) i box.rows (λ r. refl) (λ r k. refl) h
well_formed-apply box (op_prune time) h = well_formed-select _ box.rows h
well_formed-apply box (op_observe obs) h = ground arith
well_formed-apply box (op_prune_observations time) h = h

well_formed-run :
    (box : EdgeOutbox) (ops : List Op)
    → well_formed box.rows ≡ true
    → well_formed (run box ops).rows ≡ true
unfolding run
well_formed-run box [] h = h
well_formed-run box (op ∷ ops) h = well_formed-run (apply box op) ops (well_formed-apply box op h)

length-select_cons :
    (p : Row → Bool) (r : Row) (rows : List Row)
    → length (select p (r ∷ rows)) ≡ (if p r then 1 else 0) + length (select p rows)
length-select_cons p r rows = ground arith

known_cases :
    (s : String)
    → (str_eq s "pending" || (str_eq s "sent" || str_eq s "dead")) ≡ true
    → (if str_eq s "pending" then 1 else 0)
        + ((if str_eq s "sent" then 1 else 0) + (if str_eq s "dead" then 1 else 0))
      ≡ 1
known_cases s h = ground (
  arith,
  apart s "pending" "sent" refl,
  apart s "pending" "dead" refl,
  apart s "sent" "dead" refl,
)

counts_total :
    (rows : List Row)
    → well_formed rows ≡ true
    → length (select (has_state "pending") rows)
        + (length (select (has_state "sent") rows) + length (select (has_state "dead") rows))
      ≡ length rows
unfolding has_state is_known
counts_total [] h = refl
counts_total (r ∷ rows) h =
    let a = length-select_cons (has_state "pending") r rows in
    let b = length-select_cons (has_state "sent") r rows in
    let c = length-select_cons (has_state "dead") r rows in
    omega (
      arith,
      a,
      b,
      c,
      counts_total rows (ground (arith, h)),
      known_cases r.state (ground (arith, h)),
    )

no_row :
    (rows : List Row) (id : String)
    → has_row id rows ≡ false
    → length (select (λ (r : Row). str_eq r.id id) rows) ≡ 0
unfolding has_row
no_row [] id h = refl
no_row (r ∷ rows) id h = ground (arith, no_row rows id)

one_row :
    (rows : List Row) (id : String)
    → well_formed rows ≡ true
    → length (select (λ (r : Row). str_eq r.id id) rows) ≤ 1
unfolding has_row
one_row [] id h = omega arith
one_row (r ∷ rows) id h = ground (arith, no_row rows id, one_row rows id, eq_iff r.id id)

-- After any calls on a new outbox, no id has two rows, and the counts of pending, sent and dead
-- records add up to all the rows.
pub counts-run :
    (ops : List Op) (id : String)
    → (length (select (λ (r : Row). str_eq r.id id) (run empty ops).rows) ≤ 1)
      × ((counts (run empty ops)).0 + ((counts (run empty ops)).1 + (counts (run empty ops)).2)
          ≡ length (run empty ops).rows)
unfolding counts
counts-run ops id =
    let h = well_formed-run empty ops refl in
    (one_row (run empty ops).rows id h, counts_total (run empty ops).rows h)
