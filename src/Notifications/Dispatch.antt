-- ===== src/Notifications/Dispatch.antt =====
-- src/minemonitor/notifications/dispatch.py: drain the outbox with retry and backoff. The network
-- is a `Sender`: for each channel, the error that a delivery of this row raises, if any.
mod Batch
pub mod Laws
pub mod Sound
mod Tests
use mine_intelligence.Prelude.{
  Bool, List, Option, String, [], if◌then◌else◌, leb, none, select, some, str_eq, take, ℕ, ◌&&◌,
  ◌*◌, ◌+◌, ◌-◌, ◌==◌, ◌^◌, ◌∷◌,
}
use mine_intelligence.Prelude.Text.{prefix}
use mine_intelligence.Storage.{Event, Notification, Session, commit, get_event}

pub record Sender : Type 0 where
  pub webhook : Notification → Event → Option String
  pub email : Notification → Event → Option String
  pub whatsapp : Notification → Event → Option String

pub record Settings : Type 0 where
  pub notify_max_attempts : ℕ
  pub notify_retry_base_s : ℕ

pub record Counts : Type 0 where
  pub sent : ℕ
  pub retry : ℕ
  pub failed : ℕ

-- The error of one delivery, or `none`.
deliver : Sender → Notification → Event → Option String
deliver sender n ev =
    if str_eq n.channel "webhook"
    then sender.webhook n ev
    else if str_eq n.channel "email"
    then sender.email n ev
    else if str_eq n.channel "whatsapp"
    then sender.whatsapp n ev
    else some "unknown channel"

-- the body of the `try`
pub outcome : Sender → Notification → Option Event → Option String
unfolding deliver
outcome sender n none = some "event no longer exists"
outcome sender n (some ev) = deliver sender n ev

-- seconds in microseconds
abbrev pub seconds : ℕ → ℕ
seconds n = n * 1000000

-- What the loop writes to a row: after a success, and after an error.
pub settle : Settings → ℕ → Notification → Option String → Notification
settle s now n none = record n { state = "sent"; sent_at = some now; attempts = n.attempts + 1 }
settle s now n (some error) =
    let attempts = n.attempts + 1 in
    if leb s.notify_max_attempts attempts
    then record n { attempts = attempts; last_error = some (prefix 500 error); state = "failed" }
    else record n {
      attempts = attempts;
      last_error = some (prefix 500 error);
      next_attempt_at = now + seconds (s.notify_retry_base_s * 2 ^ (attempts - 1));
    }

pub tally : Settings → Notification → Option String → Counts → Counts
tally s n none c = record c { sent = c.sent + 1 }
tally s n (some error) c =
    if leb s.notify_max_attempts (n.attempts + 1)
    then record c { failed = c.failed + 1 }
    else record c { retry = c.retry + 1 }

pub is_due : ℕ → Notification → Bool
is_due now n = str_eq n.state "pending" && leb n.next_attempt_at now

-- ORDER BY next_attempt_at
pub insert_by_time : Notification → List Notification → List Notification
insert_by_time n [] = n ∷ []
insert_by_time n (m ∷ ms) =
    if leb n.next_attempt_at m.next_attempt_at then n ∷ m ∷ ms else m ∷ insert_by_time n ms

pub by_time : List Notification → List Notification
unfolding insert_by_time
by_time [] = []
by_time (n ∷ ns) = insert_by_time n (by_time ns)

-- The write to the row with that id.
pub write : List Notification → Notification → List Notification
write [] n = []
write (m ∷ ms) n = let rest = write ms n in if m.id == n.id then n ∷ ms else m ∷ rest

-- the loop over the batch
pub drain : Session → Sender → Settings → ℕ → List Notification → Counts → Session × Counts
unfolding outcome
drain session sender s now [] c = (session, c)
drain session sender s now (n ∷ ns) c =
    let result = outcome sender n (get_event session n.event_id) in
    drain (record session { notifications = write session.notifications (settle s now n result) })
      sender s now ns (tally s n result c)

-- The batch: the due rows, oldest first.
pub batch_of : Session → ℕ → ℕ → List Notification
unfolding is_due by_time
batch_of session now batch = take batch (by_time (select (is_due now) session.notifications))

pub dispatch_pending : Session → Sender → Settings → ℕ → ℕ → Option Session × Counts
unfolding drain batch_of
dispatch_pending session sender s now batch =
    let none_yet : Counts = record { sent = 0; retry = 0; failed = 0 } in
    let (session', c) = drain session sender s now (batch_of session now batch) none_yet in
    (commit session', c)
