-- ===== src/Notifications/Outbox.antt =====
-- src/minemonitor/notifications/outbox.py: queue notifications for qualifying events.
pub mod Laws
use mine_intelligence.Prelude.{
  Bool, List, String, [], any, false, if◌then◌else◌, leb, none, str_eq, ℕ, ◌&&◌, ◌++◌, ◌+◌, ◌∷◌,
}
use mine_intelligence.Prelude.Text.{non_empty, split_comma, strip}
use mine_intelligence.Storage.{Event, Notification, Session, same_delivery}

-- The settings of src/minemonitor/config.py that the outbox reads.
pub record Settings : Type 0 where
  pub notify_min_severity : String
  pub notify_webhook_url : String
  pub notify_smtp_host : String
  pub notify_email_to : String
  pub notify_whatsapp_url : String
  pub notify_whatsapp_to : String

-- `_SEVERITY_ORDER.get(severity, missing)`, each value one more than in the source, whose
-- `missing` of -1 is 0 here and whose 99 is 100.
unfoldable pub severity_order : String → ℕ → ℕ
severity_order severity missing =
    if str_eq severity "info"
    then 1
    else if str_eq severity "warning"
    then 2
    else if str_eq severity "critical"
    then 3
    else missing

unfoldable pub qualifies : String → String → Bool
unfolding severity_order
qualifies event_severity min_severity =
    if non_empty min_severity
    then leb (severity_order min_severity 100) (severity_order event_severity 0)
    else false

-- The trimmed, non-blank parts of a comma-separated setting, each on the given channel.
unfoldable pub recipients : String → List String → List (String × String)
recipients channel [] = []
recipients channel (part ∷ parts) =
    let rest = recipients channel parts in
    if non_empty (strip part) then (channel, strip part) ∷ rest else rest

unfoldable pub channel_targets : Settings → List (String × String)
unfolding recipients
channel_targets s =
    (if non_empty s.notify_webhook_url then ("webhook", s.notify_webhook_url) ∷ [] else [])
    ++ ((if non_empty s.notify_smtp_host && non_empty s.notify_email_to
          then recipients "email" (split_comma s.notify_email_to)
          else [])
        ++ (if non_empty s.notify_whatsapp_url && non_empty s.notify_whatsapp_to
            then recipients "whatsapp" (split_comma s.notify_whatsapp_to)
            else []))

-- The row queried for, and the one that is added.
unfoldable pub new_row : Event → ℕ → ℕ → String × String → Notification
new_row event now id (channel, target) = record {
  id = id;
  site_id = event.site_id;
  event_id = event.event_id;
  channel = channel;
  target = target;
  state = "pending";
  attempts = 0;
  created_at = now;
  next_attempt_at = now;
  sent_at = none;
  last_error = none;
}

-- The select sees flushed rows alone.
unfoldable pub exists : Session → Notification → Bool
exists s row = any (λ (n : Notification). same_delivery n row) s.notifications

-- the loop over the targets
unfoldable pub enqueue_each : Session → Event → ℕ → ℕ → List (String × String) → Session × ℕ
enqueue_each s event now added [] = (s, added)
enqueue_each s event now added (target ∷ targets) =
    let row = new_row event now s.drawn target in
    let skip = exists s row in
    enqueue_each
      (if skip then s else record s {
        added_notifications = s.added_notifications ++ row ∷ [];
        drawn = s.drawn + 1;
      })
      event now (if skip then added else added + 1) targets

unfoldable pub enqueue_for_event : Session → Event → Settings → ℕ → Session × ℕ
enqueue_for_event session event s now =
    if qualifies event.severity s.notify_min_severity
    then enqueue_each session event now 0 (channel_targets s)
    else (session, 0)
