-- ===== src/Notifications/Dispatch/Laws.antt =====
-- What one drain of the outbox does to each row (src/minemonitor/notifications/dispatch.py).
use mathlib.Core.Option
use mine_intelligence.Prelude.{
  List, Option, String, [], append-nil, arith, if◌then◌else◌, is_some, length, length-take, min,
  none, refl, select, some, suc, take, true, ℕ, ◌+◌, ◌==◌, ◌∙◌, ◌∷◌, ◌≡◌, ◌≤◌,
}
use mine_intelligence.Storage.{Notification, Session, commit, distinct, get_event}
use mine_intelligence.Notifications.Dispatch.{
  Counts, Sender, Settings, by_time, dispatch_pending, drain, is_due, outcome, settle, tally, write,
}
use mine_intelligence.Notifications.Dispatch.Batch.{
  distinct-by_time, distinct-select, distinct-take, keep_if, length-by_time, row_of, row_of-by_time,
  row_of-none, row_of-select, row_of-take, same_row,
}

id-settle :
    (s : Settings) (now : ℕ) (n : Notification) (r : Option String) → (settle s now n r).id ≡ n.id
unfolding settle
id-settle s now n none = refl
id-settle s now n (some e) = ground arith

row_of-write :
    (ns : List Notification) (n : Notification) (i : ℕ)
    → row_of (write ns n) i
      ≡ (if n.id == i then (if is_some (row_of ns i) then some n else none) else row_of ns i)
unfolding write
row_of-write [] n i = ground arith
row_of-write (m ∷ ms) n i = ground (arith, row_of-write ms n i)

-- What becomes of row `i` when the rows `b` are delivered: the row found among them is settled.
after_drain : Session → Sender → Settings → ℕ → ℕ → Option Notification → Option Notification
after_drain session sender s now i none = row_of session.notifications i
after_drain session sender s now i (some n) =
    if is_some (row_of session.notifications i)
    then some (settle s now n (outcome sender n (get_event session n.event_id)))
    else none

row_of-drain :
    (session : Session) (sender : Sender) (s : Settings) (now i : ℕ) (b : List Notification)
    (c : Counts)
    → distinct same_row b ≡ true
    → row_of (drain session sender s now b c).0.notifications i
      ≡ after_drain session sender s now i (row_of b i)
unfolding drain distinct after_drain get_event
row_of-drain session sender s now i [] c d = refl
row_of-drain session sender s now i (n ∷ ns) c d =
    let r = outcome sender n (get_event session n.event_id) in
    let session' : Session = record session {
      notifications = write session.notifications (settle s now n r);
    } in
    ground (
      arith,
      row_of-drain session' sender s now i ns (tally s n r c),
      row_of-write session.notifications (settle s now n r) i,
      id-settle s now n r,
      row_of-none ns n,
    )

-- What one drain makes of a row: settled if it was due, and otherwise left alone.
pub drained : Session → Sender → Settings → ℕ → Notification → Notification
drained session sender s now n =
    if is_due now n then settle s now n (outcome sender n (get_event session n.event_id)) else n

pub commit_rows :
    (s t : Session)
    → commit s ≡ some t
    → s.added_notifications ≡ []
    → t.notifications ≡ s.notifications
unfolding commit
commit_rows s t h e = ground (arith, append-nil s.notifications)

pub added-drain :
    (session : Session) (sender : Sender) (s : Settings) (now : ℕ) (b : List Notification)
    (c : Counts)
    → (drain session sender s now b c).0.added_notifications ≡ session.added_notifications
unfolding drain
added-drain session sender s now [] c = refl
added-drain session sender s now (n ∷ ns) c =
    let r = outcome sender n (get_event session n.event_id) in
    added-drain (record session { notifications = write session.notifications (settle s now n r) })
      sender s now ns (tally s n r c)

after_drain-keep_if :
    (session : Session) (sender : Sender) (s : Settings) (now i : ℕ) (o : Option Notification)
    → row_of session.notifications i ≡ o
    → after_drain session sender s now i (keep_if (is_due now) o)
      ≡ Option.map (drained session sender s now) o
unfolding after_drain keep_if drained
after_drain-keep_if session sender s now i none h = h
after_drain-keep_if session sender s now i (some n) h = ground arith

-- With room for every due row in the batch, a drain that commits settles exactly the pending rows
-- that are due, each by the outcome of its own delivery, and leaves every other row (sent, failed,
-- or waiting for its retry time) as it was.
pub dispatch_pending_rows :
    (session t : Session) (sender : Sender) (s : Settings) (now batch i : ℕ)
    → session.added_notifications ≡ []
    → distinct same_row session.notifications ≡ true
    → length (select (is_due now) session.notifications) ≤ batch
    → (dispatch_pending session sender s now batch).0 ≡ some t
    → row_of t.notifications i
      ≡ Option.map (drained session sender s now) (row_of session.notifications i)
unfolding dispatch_pending
dispatch_pending_rows session t sender s now batch i clean d room h =
    let due = select (is_due now) session.notifications in
    let b = take batch (by_time due) in
    let zero_counts : Counts = record { sent = 0; retry = 0; failed = 0 } in
    let due_distinct = distinct-select (is_due now) session.notifications d in
    let sorted_distinct = distinct-by_time due ∙ due_distinct in
    let found : row_of b i ≡ keep_if (is_due now) (row_of session.notifications i) =
      row_of-take batch (by_time due) i (omega (arith, length-by_time due))
      ∙ row_of-by_time due i due_distinct
      ∙ row_of-select (is_due now) session.notifications i d in
    let drain_rows =
      row_of-drain session sender s now i b zero_counts
        (distinct-take batch (by_time due) sorted_distinct) in
    rw (commit_rows _ t h (added-drain session sender s now b zero_counts ∙ clean)) (
      drain_rows
      ∙ rw found (after_drain-keep_if session sender s now i (row_of session.notifications i) refl))

abbrev pub total : Counts → ℕ
total c = c.sent + c.retry + c.failed

total-tally :
    (s : Settings) (n : Notification) (r : Option String) (c : Counts)
    → total (tally s n r c) ≡ suc (total c)
unfolding tally
total-tally s n none c = omega arith
total-tally s n (some e) c = ground arith

total-drain :
    (session : Session) (sender : Sender) (s : Settings) (now : ℕ) (b : List Notification)
    (c : Counts)
    → total (drain session sender s now b c).1 ≡ total c + length b
unfolding drain
total-drain session sender s now [] c = omega arith
total-drain session sender s now (n ∷ ns) c =
    let r = outcome sender n (get_event session n.event_id) in
    let session' : Session = record session {
      notifications = write session.notifications (settle s now n r);
    } in
    omega (arith, total-drain session' sender s now ns (tally s n r c), total-tally s n r c)

-- The outcomes reported add up to the rows delivered: all the due rows, or the batch if there are more.
pub total-dispatch_pending :
    (session : Session) (sender : Sender) (s : Settings) (now batch : ℕ)
    → total (dispatch_pending session sender s now batch).1
      ≡ min batch (length (select (is_due now) session.notifications))
unfolding dispatch_pending
total-dispatch_pending session sender s now batch =
    let due = select (is_due now) session.notifications in
    omega (
      arith,
      total-drain session sender s now (take batch (by_time due))
          (record { sent = 0; retry = 0; failed = 0 }),
      length-take batch (by_time due),
      length-by_time due,
    )
