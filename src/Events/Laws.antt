-- ===== src/Events/Laws.antt =====
-- An alarm and its notifications in one transaction (src/minemonitor/events/repository.py with
-- src/minemonitor/notifications/outbox.py).
use mine_intelligence.Notifications.Outbox.Laws.{
  clash-fresh_rows, distinct-fresh_rows, enqueue_each_lem, fresh_rows, fresh_rows-again,
  fresh_rows-with, same_target, target_of, targets-fresh_rows, with_rows,
}
use mine_intelligence.Prelude.{
  Bool, Bool-cases, List, [], any, append-nil, arith, drop, drop-append, false, if◌then◌else◌, inl,
  inr, is_some, is_some-if, length, map, refl, some, true, ℕ, ◌++◌, ◌∙◌, ◌∷◌, ◌≡◌,
}
use mine_intelligence.Storage.{
  Event, EventId, Notification, Session, commit, distinct, get_event, same_delivery, same_event,
  same_id,
}
use mine_intelligence.Storage.Laws.{IsClean, clash, distinct-append}
use mine_intelligence.Notifications.Outbox.{Settings, channel_targets, enqueue_for_event, qualifies}
use mine_intelligence.Events.{persist_event}

-- No flushed row has the event's id, and no flushed notification is for it.
pub record IsNew (s : Session) (i : EventId) : Type 0 where
  pub no_event : any (λ (e : Event). same_id e.event_id i) s.events ≡ false
  pub no_notification : any (λ (n : Notification). same_id n.event_id i) s.notifications ≡ false

-- The notifications that the alarm's transaction adds.
pub queued : Session → Event → Settings → ℕ → List Notification
queued s event settings now =
    if qualifies event.severity settings.notify_min_severity
    then fresh_rows s event now s.drawn (channel_targets settings)
    else []

persist_event_lem :
    (s : Session) (event : Event) (settings : Settings) (now : ℕ)
    → IsClean s
    → ((persist_event s event settings now).events ≡ s.events)
      × ((persist_event s event settings now).added_events ≡ event ∷ [])
      × ((persist_event s event settings now).notifications ≡ s.notifications)
      × ((persist_event s event settings now).added_notifications ≡ queued s event settings now)
unfolding persist_event enqueue_for_event queued with_rows
persist_event_lem s event settings now c =
    let s' : Session = record s { added_events = s.added_events ++ event ∷ [] } in
    ground (
      arith,
      enqueue_each_lem s' event now 0 (channel_targets settings),
      fresh_rows-with s' s event now s.drawn (channel_targets settings) refl,
    )

-- What the session holds after an alarm is added: the flushed rows, and the alarm last of those
-- that wait.
pub persist_event_adds :
    (s : Session) (event : Event) (settings : Settings) (now : ℕ)
    → ((persist_event s event settings now).events ≡ s.events)
      × ((persist_event s event settings now).added_events ≡ s.added_events ++ event ∷ [])
unfolding persist_event enqueue_for_event with_rows
persist_event_adds s event settings now =
    let s' : Session = record s { added_events = s.added_events ++ event ∷ [] } in
    ground (arith, enqueue_each_lem s' event now 0 (channel_targets settings))

-- A query does not see the alarm until it is flushed.
pub get_event-persist_event :
    (s : Session) (event : Event) (settings : Settings) (now : ℕ) (i : EventId)
    → get_event (persist_event s event settings now) i ≡ get_event s i
unfolding get_event
get_event-persist_event s event settings now i =
    rw ((persist_event_adds s event settings now).0) refl

distinct-single {ℓ} :
    {A : Type ℓ} (same : A → A → Bool) (xs : List A) (x : A)
    → distinct same xs ≡ true
    → clash same xs (x ∷ []) ≡ false
    → distinct same (xs ++ x ∷ []) ≡ true
unfolding distinct
distinct-single same xs x d c = ground (arith, distinct-append same xs (x ∷ []))

clash-event :
    (es : List Event) (event : Event)
    → any (λ (e : Event). same_id e.event_id event.event_id) es ≡ false
    → clash same_event es (event ∷ []) ≡ false
unfolding same_event
clash-event [] event h = refl
clash-event (e ∷ es) event h = ground (arith, clash-event es event)

distinct-queued :
    (s : Session) (event : Event) (settings : Settings) (now : ℕ)
    → IsNew s event.event_id
    → IsClean s
    → distinct same_delivery (s.notifications ++ queued s event settings now) ≡ (
        if qualifies event.severity settings.notify_min_severity
        then distinct same_target (channel_targets settings)
        else true)
unfolding queued
distinct-queued s event settings now new clean =
    let ts = channel_targets settings in
    let rows = fresh_rows s event now s.drawn ts in
    ground (
      arith,
      append-nil s.notifications,
      distinct-append same_delivery s.notifications rows,
      clash-fresh_rows s event s.notifications now s.drawn ts new.no_notification,
      distinct-fresh_rows s event now s.drawn ts new.no_notification,
    )

-- A new alarm and its notifications commit exactly when it does not qualify for notification or
-- no configured destination is listed twice; otherwise the whole transaction is lost.
pub commit-persist_event :
    (s : Session) (event : Event) (settings : Settings) (now : ℕ)
    → IsClean s
    → IsNew s event.event_id
    → is_some (commit (persist_event s event settings now)) ≡ (
        if qualifies event.severity settings.notify_min_severity
        then distinct same_target (channel_targets settings)
        else true)
unfolding commit
commit-persist_event s event settings now clean new =
    let (ev, added, ns, rows) = persist_event_lem s event settings now clean in
    let d = distinct-queued s event settings now new clean in
    let e =
      distinct-single same_event s.events event clean.events_distinct
        (clash-event s.events event new.no_event) in
    rw (ev, added, ns, rows, e, commit) (is_some-if _ _ ∙ d)

targets-queued :
    (s : Session) (event : Event) (settings : Settings) (now : ℕ)
    → IsNew s event.event_id
    → map target_of (queued s event settings now) ≡ (
        if qualifies event.severity settings.notify_min_severity
        then channel_targets settings
        else [])
unfolding queued
targets-queued s event settings now new =
    elim (Bool-cases (qualifies event.severity settings.notify_min_severity)) [
      | inl e ↦
          rw e
            (targets-fresh_rows s event now s.drawn (channel_targets settings) new.no_notification)
      | inr e ↦ rw e
    ]

commit_parts :
    (s t : Session)
    → commit s ≡ some t
    → (t.events ≡ s.events ++ s.added_events)
      × (t.notifications ≡ s.notifications ++ s.added_notifications)
unfolding commit
commit_parts s t h = ground arith

-- A committed alarm is the last row of the queue. If it qualifies, the commit adds one
-- notification for each configured destination, in their order, and otherwise none; no other row
-- changes.
pub persist_event_rows :
    (s t : Session) (event : Event) (settings : Settings) (now : ℕ)
    → IsClean s
    → IsNew s event.event_id
    → commit (persist_event s event settings now) ≡ some t
    → (t.events ≡ s.events ++ event ∷ [])
      × (t.notifications ≡ s.notifications ++ drop (length s.notifications) t.notifications)
      × (map target_of (drop (length s.notifications) t.notifications) ≡ (
          if qualifies event.severity settings.notify_min_severity
          then channel_targets settings
          else []))
persist_event_rows s t event settings now clean new h =
    let (ev, added, ns, rows) = persist_event_lem s event settings now clean in
    let (es, fs) = commit_parts _ t h in
    let whole : t.notifications ≡ s.notifications ++ queued s event settings now = cc in
    (
      cc,
      rw (whole, drop-append) (refl),
      rw (whole, drop-append) (targets-queued s event settings now new),
    )

with_rows_none : (s : Session) → with_rows s [] ≡ s
unfolding with_rows
with_rows_none s = ground (arith, append-nil s.added_notifications)

-- Enqueueing a committed alarm's notifications again, at any later time, adds no row and reports 0.
pub enqueue_for_event-persist_event :
    (s t : Session) (event : Event) (settings : Settings) (now later : ℕ)
    → IsClean s
    → IsNew s event.event_id
    → commit (persist_event s event settings now) ≡ some t
    → enqueue_for_event t event settings later ≡ (t, 0)
unfolding enqueue_for_event queued
enqueue_for_event-persist_event s t event settings now later clean new h =
    elim (Bool-cases (qualifies event.severity settings.notify_min_severity)) [
      | inl e ↦
          let (ev, added, ns, rows) = persist_event_lem s event settings now clean in
          let (es, fs) = commit_parts _ t h in
          let whole : t.notifications ≡ s.notifications ++ queued s event settings now = cc in
          rw (e, enqueue_each_lem t event later 0 (channel_targets settings))
            (rw
              (fresh_rows-again s t event now later s.drawn t.drawn [] (channel_targets settings)
                (rw (e, queued) at whole))
              (rw with_rows_none))
      | inr e ↦ rw e
    ]
