-- ===== src/Vision/Publish/Drain.antt =====
-- The drain ends (src/minemonitor/vision/edge/publish.py).
use mine_intelligence.Vision.Publish.{
  Answer, Delivered, Publisher, accepted, deliver_batch, drain, ids_of, rejected, rejected_below,
  unreachable,
}
use mine_intelligence.Prelude.{
  All, All-take, Bool, Bool-cases, List, Option-cases, String, [], any, arith, eq_refl, false,
  get_elem?, if◌then◌else◌, inl, inr, is_empty, is_some, length, map, refl, select, some, str_eq,
  suc, take, true, zero, ℕ, ◌&&◌, ◌+◌, ◌<◌, ◌∷◌, ◌≡◌, ◌≤◌,
}
use mine_intelligence.Vision.EdgeOutbox.{
  EdgeOutbox, Row, by_age, comes_first, dead, insert_row, is_pending, mark_attempt, mark_dead,
  mark_sent, pending, sent, update_each, update_rows,
}

-- How many rows are pending.
abbrev backlog : EdgeOutbox → ℕ
backlog box = length (select is_pending box.rows)

abbrev waits_with : String → Row → Bool
waits_with id r = str_eq r.id id && is_pending r

module _ (f : Row → Row) (off : (r : Row) → is_pending (f r) ≡ false) where
  length-update_rows_le :
      (id : String) (rows : List Row)
      → length (select is_pending (update_rows f id rows)) ≤ length (select is_pending rows)
  unfolding update_rows
  length-update_rows_le id [] = omega arith
  length-update_rows_le id (r ∷ rows) = ground (arith, off r, length-update_rows_le id rows)

  length-update_rows_lt :
      (id : String) (rows : List Row)
      → any (waits_with id) rows ≡ true
      → length (select is_pending (update_rows f id rows)) < length (select is_pending rows)
  unfolding update_rows
  length-update_rows_lt id [] h = absurd (ground arith)
  length-update_rows_lt id (r ∷ rows) h =
      ground (arith, off r, length-update_rows_le id rows, length-update_rows_lt id rows)

  length-update_each_le :
      (ids : List String) (rows : List Row)
      → length (select is_pending (update_each f ids rows)) ≤ length (select is_pending rows)
  unfolding update_each
  length-update_each_le [] rows = omega arith
  length-update_each_le (id ∷ ids) rows =
      omega
        (arith, length-update_each_le ids (update_rows f id rows), length-update_rows_le id rows)

-- Every row of the list is pending, with its id in the table.
Listed : List Row → List Row → Type 0
Listed rows xs = All (λ (x : Row). any (waits_with x.id) rows ≡ true) xs

Listed-more : (r : Row) (rows xs : List Row) → Listed rows xs → Listed (r ∷ rows) xs
unfolding Listed
Listed-more r rows [] h = tt
Listed-more r rows (x ∷ xs) h = (ground (arith, h.0), Listed-more r rows xs h.1)

Listed-if :
    (b : Bool) (rows : List Row) (x : Row) (xs : List Row)
    → (b ≡ true → any (waits_with x.id) rows ≡ true)
    → Listed rows xs
    → Listed rows (if b then x ∷ xs else xs)
unfolding Listed
Listed-if true rows x xs h l = (h refl, l)
Listed-if false rows x xs h l = l

Listed-select : (rows : List Row) → Listed rows (select is_pending rows)
unfolding Listed
Listed-select [] = tt
Listed-select (r ∷ rows) =
    Listed-if (is_pending r) (r ∷ rows) r (select is_pending rows)
      (λ e. ground (arith, e, eq_refl r.id))
      (Listed-more r rows (select is_pending rows) (Listed-select rows))

Listed-insert_row :
    (rows : List Row) (x : Row) (xs : List Row)
    → any (waits_with x.id) rows ≡ true
    → Listed rows xs
    → Listed rows (insert_row x xs)
unfolding Listed insert_row
Listed-insert_row rows x [] h l = (h, tt)
Listed-insert_row rows x (y ∷ ys) h l = elim (Bool-cases (comes_first y x)) [
  | inl e ↦ rw e (l.0, Listed-insert_row rows x ys h l.1)
  | inr e ↦ rw e (h, l)
]

Listed-by_age : (rows xs : List Row) → Listed rows xs → Listed rows (by_age xs)
unfolding Listed by_age
Listed-by_age rows [] l = tt
Listed-by_age rows (x ∷ xs) l = Listed-insert_row rows x (by_age xs) l.0 (Listed-by_age rows xs l.1)

items_listed :
    (rows xs : List Row)
    → All (λ (x : Row). any (waits_with x.id) rows ≡ true) xs
    → All
        (λ (x : String × String). any (waits_with x.0) rows ≡ true)
        (map (λ (r : Row). (r.id, r.payload)) xs)
items_listed rows [] l = tt
items_listed rows (x ∷ xs) l = (l.0, items_listed rows xs l.1)

Listed-pending :
    (box : EdgeOutbox) (batch : ℕ)
    → All (λ (x : String × String). any (waits_with x.0) box.rows ≡ true) (pending box batch)
unfolding Listed pending
Listed-pending box batch =
    items_listed box.rows (take batch (by_age (select is_pending box.rows))) (
      All-take (λ (x : Row). any (waits_with x.id) box.rows ≡ true) batch
        (by_age (select is_pending box.rows))
        (Listed-by_age box.rows (select is_pending box.rows) (Listed-select box.rows)))

listed_at :
    (rows : List Row) (items : List (String × String)) (index : ℕ) (item : String × String)
    → All (λ (x : String × String). any (waits_with x.0) rows ≡ true) items
    → get_elem? items index ≡ some item
    → any (waits_with item.0) rows ≡ true
listed_at rows [] index item l h = absurd (ground (arith, h))
listed_at rows (x ∷ items) zero item l h = ground (arith, l.0, h)
listed_at rows (x ∷ items) (suc index) item l h = listed_at rows items index item l.1 h

-- A round after which the loop goes on leaves fewer records pending.
deliver_batch_lt :
    (box : EdgeOutbox) (items : List (String × String)) (answer : Answer) (d : Delivered)
    → All (λ (x : String × String). any (waits_with x.0) box.rows ≡ true) items
    → is_empty items ≡ false
    → (deliver_batch box items answer d).2 ≡ true
    → backlog (deliver_batch box items answer d).0 < backlog box
unfolding deliver_batch mark_sent mark_dead mark_attempt is_pending sent dead update_each
deliver_batch_lt box [] answer d l ne g = absurd (ground (arith, ne))
deliver_batch_lt box (x ∷ items) accepted d l ne g =
    let rows = box.rows in
    omega (
      arith,
      length-update_rows_lt sent (λ r. refl) x.0 rows l.0,
      length-update_each_le sent (λ r. refl) (ids_of items) (update_rows sent x.0 rows),
    )
deliver_batch_lt box (x ∷ items) (unreachable error) d l ne g = absurd (ground (arith, g))
deliver_batch_lt box (x ∷ items) (rejected_below n reason) d l ne g = absurd (ground (arith, g))
deliver_batch_lt box (x ∷ items) (rejected index reason) d l ne g =
    elim (Option-cases (get_elem? (x ∷ items) index)) [
      | inl e ↦ absurd (ground (arith, e, g))
      | inr (item, e) ↦
          rw (e, deliver_batch)
            (length-update_rows_lt (dead reason) (λ r. refl) item.0 box.rows
              (listed_at box.rows (x ∷ items) index item l e))
    ]

-- Whatever the publisher answers, the drain ends, in no more rounds than there are pending records
-- and one: enough fuel gives a result.
pub drain-total :
    (fuel : ℕ) (box : EdgeOutbox) (publish : Publisher) (batch call : ℕ) (d : Delivered)
    → length (select is_pending box.rows) < fuel
    → is_some (drain fuel box publish batch call d) ≡ true
unfolding drain
drain-total zero box publish batch call d h = absurd (omega arith)
drain-total (suc fuel) box publish batch call d h =
    let items = pending box batch in
    let answer = publish call (map (λ (x : String × String). x.1) items) in
    let (box', d', goes_on) = deliver_batch box items answer d in
    elim (Bool-cases (is_empty items)) [
      | inl e ↦ rw e
      | inr e ↦ elim (Bool-cases goes_on) [
        | inl g ↦
            let fewer = deliver_batch_lt box items answer d (Listed-pending box batch) e g in
            rw (e, g) (drain-total fuel box' publish batch (call + 1) d' (omega (arith, h, fewer)))
        | inr g ↦ rw (e, g)
      ]
    ]
