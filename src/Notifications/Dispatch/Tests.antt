-- ===== src/Notifications/Dispatch/Tests.antt =====
-- Drains of a small outbox, and the theorems at it.
use mathlib.Core.Option
use mine_intelligence.Prelude.{All, String, [], arith, none, refl, some, ℕ, ◌∷◌, ◌≡◌}
use mine_intelligence.Prelude.Text.{prefix}
use mine_intelligence.Storage.{
  Event, Notification, Session, commit, distinct, get_event, same_id, ulid,
}
use mine_intelligence.Notifications.Dispatch.{
  Sender, Settings, by_time, dispatch_pending, drain, is_due, settle, tally, write,
}
use mine_intelligence.Notifications.Dispatch.Batch.{row_of}
use mine_intelligence.Notifications.Dispatch.Laws.{dispatch_pending_rows, drained}
use mine_intelligence.Notifications.Dispatch.Sound.{IsSound, dispatch_pending-IsSound}

abbrev fire : Event
fire = record {
  event_id = ulid 7;
  site_id = "ran";
  ts = 5;
  type = "overspeed";
  severity = "warning";
  asset_id = some "truck-1";
  zone_id = none;
  source = "gnss_geofence";
  state = "open";
  acknowledged_by = none;
  acknowledged_at = none;
  cleared_at = none;
}

abbrev row : ℕ → String → String → ℕ → Notification
row id channel target due = record {
  id = id;
  site_id = "ran";
  event_id = ulid 7;
  channel = channel;
  target = target;
  state = "pending";
  attempts = 0;
  created_at = 1;
  next_attempt_at = due;
  sent_at = none;
  last_error = none;
}

abbrev queue : Session
queue = record {
  events = fire ∷ [];
  added_events = [];
  notifications =
      row 1 "email" "ops" 4 ∷ row 2 "webhook" "desk" 3 ∷ row 3 "webhook" "pager" 90 ∷ [];
  added_notifications = [];
  drawn = 8;
}

-- The mail server is down.
abbrev no_mail : Sender
no_mail = record { webhook = λ n ev. none; email = λ n ev. some "refused"; whatsapp = λ n ev. none }

abbrev twice : Settings
twice = record { notify_max_attempts = 2; notify_retry_base_s = 60 }

abbrev after : Session
after = record queue {
  notifications =
      record (row 1 "email" "ops" 4) {
        attempts = 1;
        next_attempt_at = 60000010;
        last_error = some "refused";
      }
      ∷ record (row 2 "webhook" "desk" 3) { attempts = 1; state = "sent"; sent_at = some 10 }
      ∷ row 3 "webhook" "pager" 90
      ∷ [];
}

drain_commits : (dispatch_pending queue no_mail twice 10 100).0 ≡ some after
unfolding dispatch_pending settle tally is_due by_time write drain commit get_event prefix same_id
drain_commits = refl

dispatch_pending_rows_example :
    row_of after.notifications 2
    ≡ Option.map (drained queue no_mail twice 10) (row_of queue.notifications 2)
unfolding is_due distinct
dispatch_pending_rows_example =
    dispatch_pending_rows queue after no_mail twice 10 100 2 refl refl (omega arith) drain_commits

waiting_row :
    (id : ℕ) (channel target : String) (due : ℕ) → IsSound twice (row id channel target due)
waiting_row id channel target due = record {
  waiting = λ e. omega arith;
  failed = λ e. cc;
  sent = λ e. cc;
}

queue-IsSound : All (IsSound twice) queue.notifications
queue-IsSound = (waiting_row _ _ _ _, (waiting_row _ _ _ _, (waiting_row _ _ _ _, tt)))

dispatch_pending-IsSound_example : All (IsSound twice) after.notifications
dispatch_pending-IsSound_example =
    dispatch_pending-IsSound queue after no_mail twice 10 100 refl queue-IsSound drain_commits
