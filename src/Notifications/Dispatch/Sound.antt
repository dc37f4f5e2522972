-- ===== src/Notifications/Dispatch/Sound.antt =====
-- The queue's rows stay sound (src/minemonitor/notifications/dispatch.py).
use mine_intelligence.Notifications.Dispatch.Laws.{added-drain, commit_rows}
use mine_intelligence.Prelude.{
  All, All-select_self, All-take, Bool-cases, List, Option, String, [], arith, eq_iff, false, inl,
  inr, is_some, leb, none, refl, select, some, str_eq, take, tests, true, ℕ, ◌+◌, ◌<◌, ◌==◌, ◌∙◌,
  ◌∷◌, ◌≡◌, ◌≤◌,
}
use mine_intelligence.Storage.{Notification, Session, get_event}
use mine_intelligence.Notifications.Dispatch.{
  Counts, Sender, Settings, by_time, dispatch_pending, drain, insert_by_time, is_due, outcome,
  settle, tally, write,
}

-- A row as the queue promises it: waiting rows have attempts left, failed rows have none left,
-- and a sent row was attempted and has its time.
pub record IsSound (s : Settings) (n : Notification) : Type 0 where
  pub waiting : str_eq n.state "pending" ≡ true → n.attempts < s.notify_max_attempts
  pub failed : str_eq n.state "failed" ≡ true → s.notify_max_attempts ≤ n.attempts
  pub sent : str_eq n.state "sent" ≡ true → (0 < n.attempts) × (is_some n.sent_at ≡ true)

pending-failed : str_eq "pending" "failed" ≡ false
pending-failed = refl

pending-sent : str_eq "pending" "sent" ≡ false
pending-sent = refl

settle-IsSound :
    (s : Settings) (now : ℕ) (n : Notification) (r : Option String)
    → str_eq n.state "pending" ≡ true
    → IsSound s (settle s now n r)
unfolding settle
settle-IsSound s now n none p = record {
  waiting = λ e. cc;
  failed = λ e. cc;
  sent = λ e. (omega arith, refl);
}
settle-IsSound s now n (some e) p =
    let q = (eq_iff n.state "pending").0 p in
    elim (Bool-cases (leb s.notify_max_attempts (n.attempts + 1))) [
      | inl f ↦ rw f (record { waiting = λ e. cc; failed = λ e. omega tests; sent = λ e. cc })
      | inr f ↦ rw f (record {
        waiting = λ e. ground arith;
        failed = λ e. cc (pending-failed);
        sent = λ e. cc (pending-sent);
      })
    ]

pending_of_is_due :
    (now : ℕ) (n : Notification) → is_due now n ≡ true → str_eq n.state "pending" ≡ true
unfolding is_due
pending_of_is_due now n h = ground arith

abbrev IsDueAll : ℕ → List Notification → Type 0
IsDueAll now ns = All (λ n. is_due now n ≡ true) ns

IsDueAll-insert_by_time :
    (now : ℕ) (n : Notification) (ns : List Notification)
    → is_due now n ≡ true
    → IsDueAll now ns
    → IsDueAll now (insert_by_time n ns)
unfolding insert_by_time
IsDueAll-insert_by_time now n [] h hs = (h, tt)
IsDueAll-insert_by_time now n (m ∷ ms) h hs =
    elim (Bool-cases (leb n.next_attempt_at m.next_attempt_at)) [
      | inl e ↦ rw e (h, hs)
      | inr e ↦ rw e (hs.0, IsDueAll-insert_by_time now n ms h hs.1)
    ]

IsDueAll-by_time : (now : ℕ) (ns : List Notification) → IsDueAll now ns → IsDueAll now (by_time ns)
unfolding by_time
IsDueAll-by_time now [] h = tt
IsDueAll-by_time now (n ∷ ns) h =
    IsDueAll-insert_by_time now n (by_time ns) h.0 (IsDueAll-by_time now ns h.1)

write-IsSound :
    (s : Settings) (ns : List Notification) (n : Notification)
    → All (IsSound s) ns
    → IsSound s n
    → All (IsSound s) (write ns n)
unfolding write
write-IsSound s [] n hs h = tt
write-IsSound s (m ∷ ms) n hs h = elim (Bool-cases (m.id == n.id)) [
  | inl e ↦ rw e (h, hs.1)
  | inr e ↦ rw e (hs.0, write-IsSound s ms n hs.1 h)
]

drain-IsSound :
    (session : Session) (sender : Sender) (s : Settings) (now : ℕ) (b : List Notification)
    (c : Counts)
    → All (IsSound s) session.notifications
    → IsDueAll now b
    → All (IsSound s) (drain session sender s now b c).0.notifications
unfolding drain
drain-IsSound session sender s now [] c hs due = hs
drain-IsSound session sender s now (n ∷ ns) c hs due =
    let r = outcome sender n (get_event session n.event_id) in
    drain-IsSound
      (record session { notifications = write session.notifications (settle s now n r) }) sender s
      now ns (tally s n r c)
      (write-IsSound s session.notifications (settle s now n r) hs
        (settle-IsSound s now n r (pending_of_is_due now n due.0)))
      due.1

-- A drain that commits keeps every row sound, whatever the deliveries do.
pub dispatch_pending-IsSound :
    (session t : Session) (sender : Sender) (s : Settings) (now batch : ℕ)
    → session.added_notifications ≡ []
    → All (IsSound s) session.notifications
    → (dispatch_pending session sender s now batch).0 ≡ some t
    → All (IsSound s) t.notifications
unfolding dispatch_pending
dispatch_pending-IsSound session t sender s now batch clean hs h =
    let due = select (is_due now) session.notifications in
    let b = take batch (by_time due) in
    let zero_counts : Counts = record { sent = 0; retry = 0; failed = 0 } in
    rw (commit_rows _ t h (added-drain session sender s now b zero_counts ∙ clean)) (
      drain-IsSound session sender s now b zero_counts hs (
        All-take (λ (n : Notification). is_due now n ≡ true) batch (by_time due)
          (IsDueAll-by_time now due (All-select_self (is_due now) session.notifications))))
