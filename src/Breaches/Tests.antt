-- ===== src/Breaches/Tests.antt =====
-- A breach, its alarms and its notice, and the theorems at it.
use mine_intelligence.Notifications.Outbox.{enqueue_for_event, qualifies}
use mine_intelligence.Prelude.Text.{sorted_set}
use mine_intelligence.Events.{persist_event}
use mine_intelligence.Breaches.History.Silent.{
  close_breach-is_quiet, is_quiet, record_notice-is_quiet,
}
use mine_intelligence.Breaches.History.{Steps, done, find_breach, then, ticking}
use mine_intelligence.Prelude.{[], any, arith, inr, none, refl, some, true, ◌++◌, ◌||◌, ◌∷◌, ◌≡◌}
use mine_intelligence.Storage.{Event, Session, commit, distinct, get_event, same_id}
use mine_intelligence.Storage.Laws.{IsClean}
use mine_intelligence.Breaches.{
  BreachRecord, BreachSettings, Register, closed, individuals, notified, recorded, regulator,
}
use mine_intelligence.Breaches.Recording.{
  BreachIn, audited, deadlines, is_after, knows, mentions, record_breach, refusal,
}
use mine_intelligence.Breaches.Service.{
  acknowledge_alarms, acknowledge_each, acknowledge_one, alarm_id, alarm_ids, close_breach, due_at,
  is_individuals, is_outstanding, notice_name, notice_status, notices, overdue_stage, record_notice,
  sent_at, stage_name, with_notice, write_row,
}
use mine_intelligence.Breaches.Ticks.{
  by_discovery, check_breach_deadlines, is_open_at, notice_alarm,
}
use mine_intelligence.Breaches.Ticks.Laws.{has_id}
use mine_intelligence.Breaches.Ticks.Again.{check_breach_deadlines_again}
use mine_intelligence.Breaches.Overdue.{check_breach_deadlines_overdue, is_critical}

abbrev settings : BreachSettings
settings = record {
  max_future_skew = 60;
  breach_deadline_from = "discovered";
  breach_regulator_notice = 100;
  breach_individuals_notice = 300;
  breach_warn_before = 10;
  outbox = record {
    notify_min_severity = "";
    notify_webhook_url = "";
    notify_smtp_host = "";
    notify_email_to = "";
    notify_whatsapp_url = "";
    notify_whatsapp_to = "";
  };
}

abbrev no_events : Session
no_events = record {
  events = [];
  added_events = [];
  notifications = [];
  added_notifications = [];
  drawn = 0;
}

abbrev breach : BreachRecord
breach = record {
  breach_id = "B1";
  site_id = "ran";
  discovered_at = 1000;
  occurred_at = none;
  summary = "a lost laptop";
  data_classes = "events" ∷ "positions" ∷ [];
  notify_individuals = true;
  regulator_due_at = 1100;
  individuals_due_at = some 1300;
  regulator_notified_at = none;
  regulator_reference = none;
  individuals_notified_at = none;
  recorded_by = "ana";
  recorded_at = 1005;
  closed_at = none;
  closed_by = none;
  close_note = none;
}

abbrev empty_register : Register
empty_register = record {
  breaches = [];
  links = [];
  operators = ("ran", "op1") ∷ [];
  audit = [];
  session = no_events;
}

abbrev body : BreachIn
body = record {
  discovered_at = 1000;
  occurred_at = none;
  summary = "a lost laptop";
  data_classes = "positions" ∷ "events" ∷ "positions" ∷ [];
  operator_ids = "op1" ∷ "op1" ∷ [];
  notify_individuals = true;
}

abbrev register : Register
register = record {
  breaches = breach ∷ [];
  links = ("B1", "op1") ∷ [];
  operators = ("ran", "op1") ∷ [];
  audit =
      record {
        actor = "ana";
        entity_id = "B1";
        site_id = "ran";
        detail = recorded ("events" ∷ "positions" ∷ []) 1 true 1100 (some 1300);
      }
      ∷ [];
  session = no_events;
}

recorded_once :
    record_breach settings empty_register "B1" "ran" body "ana" 1005 ≡ inr (register, breach)
unfolding record_breach commit distinct refusal is_after mentions sorted_set knows audited deadlines
recorded_once = refl

register-IsClean : IsClean register.session
unfolding distinct
register-IsClean = record {
  no_events = refl;
  no_notifications = refl;
  events_distinct = refl;
  notifications_distinct = refl;
}

abbrev overdue_alarm : Event
overdue_alarm = notice_alarm "ran" 1150 breach regulator overdue_stage

abbrev alarmed : Register
alarmed = record register { session = record no_events { events = overdue_alarm ∷ [] } }

overdue_tick :
    check_breach_deadlines settings register "ran" 1150 1150 ≡ some (alarmed, overdue_alarm ∷ [])
unfolding check_breach_deadlines commit by_discovery is_open_at notice_status sent_at due_at
    get_event persist_event enqueue_for_event qualifies
overdue_tick = refl

check_breach_deadlines_again_example :
    check_breach_deadlines settings alarmed "ran" 1150 1150 ≡ some (alarmed, [])
check_breach_deadlines_again_example =
    check_breach_deadlines_again settings "ran" 1150 1150 register alarmed (overdue_alarm ∷ [])
      register-IsClean overdue_tick

check_breach_deadlines_overdue_example :
    (has_id (alarm_id "B1" regulator overdue_stage) alarmed.session.events ≡ true)
    × ((has_id (alarm_id "B1" regulator overdue_stage) register.session.events
          || any (is_critical "ran" 1150 "B1" regulator) alarmed.session.events)
        ≡ true)
unfolding find_breach sent_at due_at
check_breach_deadlines_overdue_example =
    check_breach_deadlines_overdue settings register alarmed "ran" 1150 1150 (overdue_alarm ∷ [])
      "B1" breach regulator 1100 refl refl (refl, refl) (refl, refl) (omega arith) overdue_tick

abbrev acknowledged_alarm : Event
acknowledged_alarm = record overdue_alarm {
  state = "acknowledged";
  acknowledged_by = some "ana";
  acknowledged_at = some 1160;
}

abbrev told : Register
told = record alarmed {
  breaches =
      record breach { regulator_notified_at = some 1155; regulator_reference = some "r7" } ∷ [];
  audit =
      alarmed.audit
      ++ record {
        actor = "ana";
        entity_id = "B1";
        site_id = "ran";
        detail = notified regulator 1155 (some "r7") none 1;
      }
        ∷ [];
  session = record no_events { events = acknowledged_alarm ∷ [] };
}

telling : record_notice settings alarmed breach regulator 1155 (some "r7") "ana" 1160 ≡ inr told
unfolding record_notice is_individuals audited acknowledge_alarms write_row with_notice sent_at
    acknowledge_each alarm_ids acknowledge_one same_id notice_alarm alarm_id notice_name stage_name
telling = refl

quiet_tick : check_breach_deadlines settings told "ran" 1200 1200 ≡ some (told, [])
unfolding check_breach_deadlines commit by_discovery is_open_at notice_status sent_at due_at
quiet_tick = refl

alarmed-IsClean : IsClean alarmed.session
unfolding distinct
alarmed-IsClean = record {
  no_events = refl;
  no_notifications = refl;
  events_distinct = refl;
  notifications_distinct = refl;
}

later : Steps settings told told
later = then (ticking "ran" 1200 1200 [] quiet_tick) done

record_notice-is_quiet_example : is_quiet "B1" regulator told ≡ true
unfolding distinct find_breach
record_notice-is_quiet_example =
    record_notice-is_quiet settings alarmed told told "B1" breach regulator 1155 (some "r7") "ana"
      1160 alarmed-IsClean refl refl telling later

abbrev closed_alarm : Event
closed_alarm = record acknowledged_alarm { acknowledged_at = some 1170 }

abbrev ended : Register
ended = record alarmed {
  breaches =
      record breach { closed_at = some 1170; closed_by = some "ana"; close_note = none } ∷ [];
  audit =
      alarmed.audit
      ++ record {
        actor = "ana";
        entity_id = "B1";
        site_id = "ran";
        detail = closed (regulator ∷ individuals ∷ []) 1;
      }
        ∷ [];
  session = record no_events { events = closed_alarm ∷ [] };
}

ending : close_breach alarmed breach none "ana" 1170 ≡ inr ended
unfolding close_breach audited acknowledge_alarms write_row notices acknowledge_each is_outstanding
    alarm_ids notice_status acknowledge_one sent_at same_id due_at notice_alarm alarm_id notice_name
    stage_name
ending = refl

close_breach-is_quiet_example : is_quiet "B1" individuals ended ≡ true
unfolding distinct find_breach
close_breach-is_quiet_example =
    close_breach-is_quiet settings alarmed ended ended "B1" breach individuals none "ana" 1170
      alarmed-IsClean refl refl ending done
