-- ===== src/Events/Tests.antt =====
-- An alarm with and without a repeated recipient, and the theorems at it.
use mine_intelligence.Prelude.{String, [], false, is_some, none, refl, some, ◌∷◌, ◌≡◌}
use mine_intelligence.Prelude.Text.{split_comma, strip}
use mine_intelligence.Storage.{Event, Session, commit, distinct, named, same_id}
use mine_intelligence.Storage.Laws.{IsClean}
use mine_intelligence.Notifications.Outbox.{
  Settings, channel_targets, enqueue_each, enqueue_for_event, exists, new_row, qualifies,
  recipients, severity_order,
}
use mine_intelligence.Events.{persist_event}
use mine_intelligence.Events.Laws.{IsNew, commit-persist_event}

abbrev empty_session : Session
empty_session = record {
  events = [];
  added_events = [];
  notifications = [];
  added_notifications = [];
  drawn = 0;
}

abbrev alarm : Event
alarm = record {
  event_id = named "search-missed-1";
  site_id = "ran";
  ts = 5;
  type = "search_missed";
  severity = "warning";
  asset_id = none;
  zone_id = none;
  source = "access_gate:g1";
  state = "open";
  acknowledged_by = none;
  acknowledged_at = none;
  cleared_at = none;
}

abbrev mail_to : String → Settings
mail_to addresses = record {
  notify_min_severity = "warning";
  notify_webhook_url = "";
  notify_smtp_host = "mail";
  notify_email_to = addresses;
  notify_whatsapp_url = "";
  notify_whatsapp_to = "";
}

parsed : channel_targets (mail_to " a@x ,, b@x") ≡ ("email", "a@x") ∷ ("email", "b@x") ∷ []
unfolding channel_targets recipients split_comma strip
parsed = refl

empty-IsClean : IsClean empty_session
unfolding distinct
empty-IsClean = record {
  no_events = refl;
  no_notifications = refl;
  events_distinct = refl;
  notifications_distinct = refl;
}

empty-IsNew : IsNew empty_session alarm.event_id
empty-IsNew = record { no_event = refl; no_notification = refl }

-- One address given twice: nothing of the alarm's transaction is kept.
commit-persist_event_example :
    is_some (commit (persist_event empty_session alarm (mail_to "a@x,a@x") 5)) ≡ false
unfolding qualifies severity_order channel_targets recipients split_comma strip distinct
commit-persist_event_example =
    commit-persist_event empty_session alarm (mail_to "a@x,a@x") 5 empty-IsClean empty-IsNew

abbrev stored : Session
stored = record {
  events = alarm ∷ [];
  added_events = [];
  notifications = new_row alarm 5 0 ("email", "a@x") ∷ new_row alarm 5 1 ("email", "b@x") ∷ [];
  added_notifications = [];
  drawn = 2;
}

commits : commit (persist_event empty_session alarm (mail_to "a@x,b@x") 5) ≡ some stored
unfolding commit persist_event enqueue_for_event enqueue_each qualifies severity_order
    channel_targets recipients split_comma strip distinct new_row same_id exists
commits = refl
