-- ===== src/Breaches/History/Silent.antt =====
-- A notice that is recorded, and a breach that is closed, raise no more alarms
-- (src/minemonitor/breaches/service.py).
use mine_intelligence.Storage.Laws.{IsClean, same_id_iff}
use mine_intelligence.Prelude.{
  All, Bool, Bool-cases, List, Option, String, [], any, any-some, any-weaken, arith, eq_iff, false,
  find, holds-find, inl, inr, not, refl, some, str_eq, sym, true, ℕ, ◌&&◌, ◌∙◌, ◌∷◌, ◌≡◌,
}
use mine_intelligence.Storage.{Event, EventId, distinct, same_event, same_id}
use mine_intelligence.Breaches.{
  BreachRecord, BreachSettings, Notice, Register, individuals, regulator,
}
use mine_intelligence.Breaches.Recording.{audited}
use mine_intelligence.Breaches.Service.{
  acknowledge_alarms, acknowledge_each, acknowledge_one, alarm_id, alarm_ids, close_breach,
  due_stage, notices, overdue_stage, record_notice, sent_at, with_notice, write_row,
}
use mine_intelligence.Breaches.History.{
  IsSilent, Step, Steps, closing, done, find_breach, is_open_alarm, is_unsettled, notifying,
  recording, then, ticking,
}
use mine_intelligence.Breaches.History.Kept.{
  IsSilent-check_breach_deadlines, IsSilent-close_breach, IsSilent-record_breach,
  IsSilent-record_notice, any-acknowledge_each, any-or, any_id-write_row,
}
use mathlib.Core.Path.{subst}

unfoldable pub same_breach : BreachRecord → BreachRecord → Bool
same_breach a b = str_eq a.breach_id b.breach_id

is_open_with : EventId → Event → Bool
is_open_with i e = str_eq e.state "open" && same_id e.event_id i

same_event-acknowledge_one :
    (x : Event) (es : List Event) (i : EventId) (actor : String) (now : ℕ)
    → any (same_event x) (acknowledge_one es i actor now).0 ≡ any (same_event x) es
unfolding acknowledge_one same_event
same_event-acknowledge_one x [] i actor now = refl
same_event-acknowledge_one x (e ∷ es) i actor now =
    ground (arith, same_event-acknowledge_one x es i actor now)

distinct-acknowledge_one :
    (es : List Event) (i : EventId) (actor : String) (now : ℕ)
    → distinct same_event (acknowledge_one es i actor now).0 ≡ distinct same_event es
unfolding acknowledge_one distinct same_event
distinct-acknowledge_one [] i actor now = refl
distinct-acknowledge_one (e ∷ es) i actor now =
    ground
      (arith, distinct-acknowledge_one es i actor now, same_event-acknowledge_one e es i actor now)

closed-acknowledge_one :
    (es : List Event) (i : EventId) (actor : String) (now : ℕ)
    → distinct same_event es ≡ true
    → any (is_open_with i) (acknowledge_one es i actor now).0 ≡ false
unfolding acknowledge_one distinct same_event is_open_with
closed-acknowledge_one [] i actor now d = refl
closed-acknowledge_one (e ∷ es) i actor now d = elim (Bool-cases (same_id e.event_id i)) [
  | inl k ↦
      let none_other =
        any-weaken (is_open_with i) (same_event e) es
          (λ x m.
            subst (λ (j : EventId). same_id e.event_id j ≡ true)
              (sym (same_id_iff x.event_id i (ground (arith, m)))) k)
          (ground (arith, d)) in
      ground (arith, k, none_other)
  | inr k ↦ ground (arith, k, d, closed-acknowledge_one es i actor now)
]

closed-acknowledge_each :
    (es : List Event) (is : List EventId) (actor : String) (now : ℕ)
    → distinct same_event es ≡ true
    → All (λ (i : EventId). any (is_open_with i) (acknowledge_each es is actor now).0 ≡ false) is
unfolding acknowledge_each is_open_with
closed-acknowledge_each es [] actor now d = tt
closed-acknowledge_each es (i ∷ is) actor now d =
    let es' = (acknowledge_one es i actor now).0 in
    (
      any-acknowledge_each (is_open_with i) actor now (λ e. ground arith) es' is
          (closed-acknowledge_one es i actor now d),
      closed-acknowledge_each es' is actor now (distinct-acknowledge_one es i actor now ∙ d),
    )

-- Only the row that is written could have passed the test.
settled-write_row :
    (p : BreachRecord → Bool) (id : String) (bs : List BreachRecord) (row row' : BreachRecord)
    → ((r : BreachRecord) → p r ≡ true → str_eq r.breach_id id ≡ true)
    → find (λ (r : BreachRecord). str_eq r.breach_id id) bs ≡ some row
    → row'.breach_id ≡ id
    → p row' ≡ false
    → distinct same_breach bs ≡ true
    → any p (write_row row' bs) ≡ false
unfolding write_row distinct same_breach
settled-write_row p id [] row row' only f e u d = refl
settled-write_row p id (c ∷ cs) row row' only f e u d = elim (Bool-cases (str_eq c.breach_id id)) [
  | inl k ↦
      let same : str_eq c.breach_id row'.breach_id ≡ true =
        subst (λ (j : String). str_eq c.breach_id j ≡ true) (sym e) k in
      let none_other =
        any-weaken p (same_breach c) cs
          (λ r m.
            subst (λ (j : String). str_eq c.breach_id j ≡ true)
              (sym ((eq_iff r.breach_id id).0 (only r m))) k)
          (ground (arith, d)) in
      ground (arith, same, u, none_other)
  | inr k ↦
      let other : str_eq c.breach_id row'.breach_id ≡ false =
        subst (λ (j : String). str_eq c.breach_id j ≡ false) (sym e) k in
      let not_this : p c ≡ false = elim (Bool-cases (p c)) [
        | inl m ↦ absurd (ground (arith, only c m, k))
        | inr m ↦ m
      ] in
      ground (
        arith,
        other,
        not_this,
        settled-write_row p id cs row row' only (ground (arith, f, k)) e u (ground (arith, d)),
      )
]

module _ (settings : BreachSettings) (b : String) (n : Notice) where
  IsSilent-Step : (s t : Register) → Step settings s t → IsSilent b n s → IsSilent b n t
  IsSilent-Step s t (recording id site_id body actor now row f h) q =
      IsSilent-record_breach settings b n s t id site_id body actor now row f h q
  IsSilent-Step s t (notifying id row m at reference actor now f h) q =
      IsSilent-record_notice settings b n s t id row m at reference actor now f h q
  IsSilent-Step s t (closing id row remark actor now f h) q =
      IsSilent-close_breach settings b n s t id row remark actor now f h q
  IsSilent-Step s t (ticking site_id now clock alarms h) q =
      IsSilent-check_breach_deadlines settings b n s t site_id now clock alarms h q

  IsSilent-Steps : {s t : Register} → Steps settings s t → IsSilent b n s → IsSilent b n t
  IsSilent-Steps done q = q
  IsSilent-Steps (then x xs) q = IsSilent-Steps xs (IsSilent-Step _ _ x q)

-- No alarm of that notice is open.
abbrev pub is_quiet : String → Notice → Register → Bool
is_quiet b n s = not (any (is_open_alarm b n) s.session.events)

-- The row that is written is settled, and its alarms are acknowledged.
IsSilent-now :
    (b : String) (n : Notice) (s t : Register) (row row' : BreachRecord) (is : List EventId)
    (actor : String) (now : ℕ)
    → IsClean s.session
    → distinct same_breach s.breaches ≡ true
    → find_breach s b ≡ some row
    → (row'.breach_id ≡ b) × (is_unsettled b n row' ≡ false)
    → (t.breaches ≡ write_row row' s.breaches)
      × (t.session.events ≡ (acknowledge_each s.session.events is actor now).0)
      × (t.session.added_events ≡ s.session.added_events)
    → any (is_open_with (alarm_id b n due_stage)) t.session.events ≡ false
    → any (is_open_with (alarm_id b n overdue_stage)) t.session.events ≡ false
    → IsSilent b n t
unfolding find_breach is_unsettled is_open_alarm is_open_with
IsSilent-now b n s t row row' is actor now clean d f (same, u) (bs, es, added) x y = record {
  present = rw bs (any_id-write_row b row' s.breaches ∙ any-some _ s.breaches row f);
  settled = rw bs (
      settled-write_row (is_unsettled b n) b s.breaches row row' (λ r k. ground (arith, k)) f same u
        d);
  no_open_alarm =
      any-weaken (is_open_alarm b n) _ t.session.events (λ e k. ground (arith, k))
        (any-or _ _ t.session.events x y);
  nothing_added = added ∙ clean.no_events;
}

with_notice_lem :
    (b : String) (n : Notice) (row : BreachRecord) (at : ℕ) (reference : Option String)
    → ((with_notice row n at reference).breach_id ≡ row.breach_id)
      × (is_unsettled b n (with_notice row n at reference) ≡ false)
unfolding with_notice is_unsettled sent_at
with_notice_lem b regulator row at reference = (refl, ground arith)
with_notice_lem b individuals row at reference = (refl, ground arith)

-- Once a notice of a breach is recorded, no alarm of that notice is open, whatever is recorded,
-- closed and checked from then on.
pub record_notice-is_quiet :
    (settings : BreachSettings) (s t u : Register) (b : String) (row : BreachRecord) (n : Notice)
    (notified_at : ℕ) (reference : Option String) (actor : String) (now : ℕ)
    → IsClean s.session
    → distinct same_breach s.breaches ≡ true
    → find_breach s b ≡ some row
    → record_notice settings s row n notified_at reference actor now ≡ inr t
    → Steps settings t u
    → is_quiet b n u ≡ true
unfolding record_notice acknowledge_alarms audited find_breach alarm_ids
record_notice-is_quiet settings s t u b row n at reference actor now clean d f h steps =
    let row' = with_notice row n at reference in
    let found = (eq_iff row.breach_id b).0 (holds-find _ s.breaches row f) in
    let (kept, u') = with_notice_lem b n row at reference in
    let same : row'.breach_id ≡ b = kept ∙ found in
    let is = alarm_ids row'.breach_id (n ∷ []) in
    let e : (t.breaches ≡ write_row row' s.breaches)
        × (t.session.events ≡ (acknowledge_each s.session.events is actor now).0)
        × (t.session.added_events ≡ s.session.added_events) =
      ground (arith, h) in
    let (x, (y, _)) = closed-acknowledge_each s.session.events is actor now clean.events_distinct in
    let silent =
      IsSilent-now b n s t row row' is actor now clean d f (same, u') e (rw (sym (e.1), same) at x)
        (rw (sym (e.1), same) at y) in
    ground (arith, (IsSilent-Steps settings b n steps silent).no_open_alarm)

of_notices {ℓ} :
    (P : EventId → Type ℓ) (id : String) (n : Notice)
    → All P (alarm_ids id notices)
    → P (alarm_id id n due_stage) × P (alarm_id id n overdue_stage)
unfolding alarm_ids notices
of_notices P id regulator (x, (y, _)) = (x, y)
of_notices P id individuals (_, (_, (x, (y, _)))) = (x, y)

-- Once a breach is closed, no alarm of either of its notices is open, whatever is recorded, closed
-- and checked from then on.
pub close_breach-is_quiet :
    (settings : BreachSettings) (s t u : Register) (b : String) (row : BreachRecord) (n : Notice)
    (remark : Option String) (actor : String) (now : ℕ)
    → IsClean s.session
    → distinct same_breach s.breaches ≡ true
    → find_breach s b ≡ some row
    → close_breach s row remark actor now ≡ inr t
    → Steps settings t u
    → is_quiet b n u ≡ true
unfolding close_breach acknowledge_alarms audited find_breach is_unsettled
close_breach-is_quiet settings s t u b row n remark actor now clean d f h steps =
    let row' : BreachRecord = record row {
      closed_at = some now;
      closed_by = some actor;
      close_note = remark;
    } in
    let same = (eq_iff row.breach_id b).0 (holds-find _ s.breaches row f) in
    let is = alarm_ids row.breach_id notices in
    let e : (t.breaches ≡ write_row row' s.breaches)
        × (t.session.events ≡ (acknowledge_each s.session.events is actor now).0)
        × (t.session.added_events ≡ s.session.added_events) =
      ground (arith, h) in
    let all_closed = closed-acknowledge_each s.session.events is actor now clean.events_distinct in
    let (x, y) =
      of_notices
        (λ i. any (is_open_with i) (acknowledge_each s.session.events is actor now).0 ≡ false)
        row.breach_id n all_closed in
    let silent =
      IsSilent-now b n s t row row' is actor now clean d f (same, ground arith) e
        (rw (sym (e.1), same) at x) (rw (sym (e.1), same) at y) in
    ground (arith, (IsSilent-Steps settings b n steps silent).no_open_alarm)
