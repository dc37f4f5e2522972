-- ===== src/Access/Tests.antt =====
-- A gate with two operators and an empty queue, which the tests of the services share.
use mine_intelligence.Prelude.{[], none, refl, some, true, ℕ, ◌∷◌}
use mine_intelligence.Storage.{Session, distinct}
use mine_intelligence.Storage.Laws.{IsClean}
use mine_intelligence.Notifications.Outbox.{Settings}
use mine_intelligence.Access.Model.{AccessEvent, Operator, Passage, Site, Store}

abbrev pub silent : Settings
silent = record {
  notify_min_severity = "";
  notify_webhook_url = "";
  notify_smtp_host = "";
  notify_email_to = "";
  notify_whatsapp_url = "";
  notify_whatsapp_to = "";
}

abbrev pub ran : Site
ran = record {
  max_future_skew = 120000000;
  on_shift = λ site_id at. true;
  bucket = λ id. 7;
  outbox = silent;
}

abbrev pub no_rows : Session
no_rows = record {
  events = [];
  added_events = [];
  notifications = [];
  added_notifications = [];
  drawn = 0;
}

pub no_rows-IsClean : IsClean no_rows
unfolding distinct
no_rows-IsClean = record {
  no_events = refl;
  no_notifications = refl;
  events_distinct = refl;
  notifications_distinct = refl;
}

abbrev pub worker : Operator
worker = record {
  operator_id = "op1";
  site_id = "ran";
  suspended = true;
  inducted = true;
  erased_at = none;
}

abbrev pub gate : Store
gate = record { operators = worker ∷ []; passages = []; quarantined = []; session = no_rows }

abbrev pub entry_at : ℕ → Passage
entry_at ts = record {
  source_system = "dahua";
  source_event_id = "7";
  gate_id = "north";
  decision = "granted";
  ts = ts;
  credential_ref = none;
  operator_ref = some "op1";
  reason = none;
  search_selected = true;
  search_completed = none;
}

abbrev pub searched : AccessEvent
searched = record {
  id = "p1";
  site_id = "ran";
  ts = 1000000;
  source_system = "dahua";
  gate_id = "north";
  credential_ref = none;
  operator_ref = none;
  decision = "granted";
  reason = none;
  search_selected = true;
  search_completed = none;
  metal_detected = none;
  created_at = 1000000;
  search_escalated_at = none;
}
