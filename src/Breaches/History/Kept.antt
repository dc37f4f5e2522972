-- ===== src/Breaches/History/Kept.antt =====
-- What a step keeps of a breach register (src/minemonitor/breaches/service.py).
use mine_intelligence.Breaches.Ticks.Again.{events-check_breach_deadlines}
use mine_intelligence.Storage.Laws.{any-append, commit-append}
use mine_intelligence.Prelude.{
  Bool, Bool-cases, List, Option, Option-cases, String, [], any, any-none, any-weaken, ap,
  append-nil, arith, eq_iff, false, find, inl, inr, none, refl, some, str_eq, sym, true, ℕ, ◌&&◌,
  ◌++◌, ◌||◌, ◌∙◌, ◌∷◌, ◌≡◌,
}
use mine_intelligence.Storage.{Event, EventId, Session, commit}
use mine_intelligence.Breaches.{
  BreachRecord, BreachSettings, Notice, Register, individuals, regulator,
}
use mine_intelligence.Breaches.Recording.{BreachIn, audited, record_breach}
use mine_intelligence.Breaches.Service.{
  Stage, acknowledge_alarms, acknowledge_each, acknowledge_one, alarm_id, alarm_ids, close_breach,
  due_at, due_stage, notice_status, notices, overdue_stage, record_notice, sent_at, with_notice,
  write_row,
}
use mine_intelligence.Breaches.Ticks.{check_breach_deadlines, stage_of}
use mine_intelligence.Breaches.Ticks.Laws.{has_id, is_unraised, raises-check_breach_deadlines}
use mine_intelligence.Breaches.History.{IsSilent, find_breach, is_open_alarm, is_unsettled}
use mathlib.Core.Path.{subst}

pub any-or {ℓ} :
    {A : Type ℓ} (p q : A → Bool) (xs : List A)
    → any p xs ≡ false
    → any q xs ≡ false
    → any (λ (x : A). p x || q x) xs ≡ false
any-or p q [] a b = refl
any-or p q (x ∷ xs) a b = ground (arith, a, b, any-or p q xs)

any-find {ℓ} :
    {A : Type ℓ} (p q : A → Bool) (xs : List A) (x : A)
    → find q xs ≡ some x
    → any p xs ≡ false
    → p x ≡ false
any-find p q [] x f h = cc
any-find p q (y ∷ ys) x f h = elim (Bool-cases (q y)) [
  | inl e ↦
      let same : y ≡ x = ground (arith, e, f) in subst (λ z. p z ≡ false) same (ground (arith, h))
  | inr e ↦ any-find p q ys x (ground (arith, e, f)) (ground (arith, h))
]

-- A row that is written under its own id.
any-write_row :
    (p : BreachRecord → Bool) (b : BreachRecord) (bs : List BreachRecord)
    → p b ≡ false
    → any p bs ≡ false
    → any p (write_row b bs) ≡ false
unfolding write_row
any-write_row p b [] h a = refl
any-write_row p b (c ∷ cs) h a = ground (arith, h, a, any-write_row p b cs)

pub any_id-write_row :
    (id : String) (b : BreachRecord) (bs : List BreachRecord)
    → any (λ (r : BreachRecord). str_eq r.breach_id id) (write_row b bs)
      ≡ any (λ (r : BreachRecord). str_eq r.breach_id id) bs
unfolding write_row
any_id-write_row id b [] = refl
any_id-write_row id b (c ∷ cs) = elim (Bool-cases (str_eq c.breach_id b.breach_id)) [
  | inl e ↦
      let same : c.breach_id ≡ b.breach_id = (eq_iff c.breach_id b.breach_id).0 e in
      ground (arith, e, ap (λ i. str_eq i id) same)
  | inr e ↦ ground (arith, e, any_id-write_row id b cs)
]

-- Acknowledging some alarms brings up none that a test finds only among the open ones.
module _ (p : Event → Bool) (actor : String) (now : ℕ)
    (f : (e : Event)
      → p (record e {
        state = "acknowledged";
        acknowledged_by = some actor;
        acknowledged_at = some now;
      })
        ≡ false) where
  any-acknowledge_one :
      (es : List Event) (i : EventId)
      → any p es ≡ false
      → any p (acknowledge_one es i actor now).0 ≡ false
  unfolding acknowledge_one
  any-acknowledge_one [] i h = refl
  any-acknowledge_one (e ∷ es) i h = ground (arith, h, any-acknowledge_one es i, f e)

  pub any-acknowledge_each :
      (es : List Event) (is : List EventId)
      → any p es ≡ false
      → any p (acknowledge_each es is actor now).0 ≡ false
  unfolding acknowledge_each
  any-acknowledge_each es [] h = h
  any-acknowledge_each es (i ∷ is) h =
      any-acknowledge_each (acknowledge_one es i actor now).0 is (any-acknowledge_one es i h)

pub is_unsettled-with_notice :
    (b : String) (n m : Notice) (row : BreachRecord) (at : ℕ) (reference : Option String)
    → is_unsettled b n row ≡ false
    → is_unsettled b n (with_notice row m at reference) ≡ false
unfolding is_unsettled with_notice sent_at
is_unsettled-with_notice b regulator regulator row at reference h = ground (arith, h)
is_unsettled-with_notice b regulator individuals row at reference h = ground (arith, h)
is_unsettled-with_notice b individuals regulator row at reference h = ground (arith, h)
is_unsettled-with_notice b individuals individuals row at reference h = ground (arith, h)

-- An alarm is raised only for a notice that is unsettled.
is_unsettled-is_unraised :
    (settings : BreachSettings) (now : ℕ) (session : Session) (row : BreachRecord) (b : String)
    (n : Notice) (s : Stage)
    → (str_eq row.breach_id b && is_unraised settings now session row n s) ≡ true
    → is_unsettled b n row ≡ true
unfolding is_unsettled notice_status stage_of
is_unsettled-is_unraised settings now session row b n s h = elim (Option-cases (due_at row n)) [
  | inl e ↦ ground (arith, e, h)
  | inr (due, e) ↦ ground (arith, e, h)
]

module _ (settings : BreachSettings) (b : String) (n : Notice) where
  raises_none :
      (s t : Register) (site_id : String) (now clock : ℕ) (alarms : List Event) (stage : Stage)
      → check_breach_deadlines settings s site_id now clock ≡ some (t, alarms)
      → any (is_unsettled b n) s.breaches ≡ false
      → has_id (alarm_id b n stage) alarms ≡ false
  raises_none s t site_id now clock alarms stage h u =
      raises-check_breach_deadlines settings site_id now clock s t alarms b n stage h
      ∙ any-weaken _ (is_unsettled b n) s.breaches
          (λ r e. is_unsettled-is_unraised settings now s.session r b n stage (ground (arith, e))) u

  -- A row that is settled is written, and alarms are acknowledged.
  IsSilent-write_row :
      (s t : Register) (row : BreachRecord) (is : List EventId) (actor : String) (now : ℕ)
      → is_unsettled b n row ≡ false
      → (t.breaches ≡ write_row row s.breaches)
        × (t.session.events ≡ (acknowledge_each s.session.events is actor now).0)
        × (t.session.added_events ≡ s.session.added_events)
      → IsSilent b n s
      → IsSilent b n t
  unfolding is_open_alarm
  IsSilent-write_row s t row is actor now u (bs, es, added) q = record {
    present = rw (bs, any_id-write_row b row s.breaches) q.present;
    settled = rw bs (any-write_row (is_unsettled b n) row s.breaches u q.settled);
    no_open_alarm = rw es (
        any-acknowledge_each (is_open_alarm b n) actor now (λ e. ground arith) s.session.events is
          q.no_open_alarm);
    nothing_added = added ∙ q.nothing_added;
  }

  pub IsSilent-check_breach_deadlines :
      (s t : Register) (site_id : String) (now clock : ℕ) (alarms : List Event)
      → check_breach_deadlines settings s site_id now clock ≡ some (t, alarms)
      → IsSilent b n s
      → IsSilent b n t
  unfolding is_open_alarm
  IsSilent-check_breach_deadlines s t site_id now clock alarms h q =
      let (bs, es, added) =
        events-check_breach_deadlines settings site_id now clock s t alarms q.nothing_added h in
      let none_of = λ (stage : Stage). raises_none s t site_id now clock alarms stage h q.settled in
      let none_open =
        any-weaken (is_open_alarm b n) _ alarms (λ x k. ground (arith, k))
          (any-or _ _ alarms (none_of due_stage) (none_of overdue_stage)) in
      record {
        present = rw bs q.present;
        settled = rw bs q.settled;
        no_open_alarm =
            ap (any (is_open_alarm b n)) es
            ∙ (any-append (is_open_alarm b n) s.session.events alarms
                ∙ ground (arith, q.no_open_alarm, none_open));
        nothing_added = added;
      }

  pub IsSilent-record_notice :
      (s t : Register) (id : String) (row : BreachRecord) (m : Notice) (at : ℕ)
      (reference : Option String) (actor : String) (now : ℕ)
      → find_breach s id ≡ some row
      → record_notice settings s row m at reference actor now ≡ inr t
      → IsSilent b n s
      → IsSilent b n t
  unfolding record_notice find_breach acknowledge_alarms audited
  IsSilent-record_notice s t id row m at reference actor now f h q =
      IsSilent-write_row s t (with_notice row m at reference)
        (alarm_ids (with_notice row m at reference).breach_id (m ∷ [])) actor now
        (is_unsettled-with_notice b n m row at reference
          (any-find (is_unsettled b n) _ s.breaches row f q.settled))
        (ground (arith, h)) q

  pub IsSilent-close_breach :
      (s t : Register) (id : String) (row : BreachRecord) (remark : Option String) (actor : String)
      (now : ℕ)
      → find_breach s id ≡ some row
      → close_breach s row remark actor now ≡ inr t
      → IsSilent b n s
      → IsSilent b n t
  unfolding close_breach find_breach acknowledge_alarms audited is_unsettled
  IsSilent-close_breach s t id row remark actor now f h q =
      IsSilent-write_row s t
        (record row { closed_at = some now; closed_by = some actor; close_note = remark })
        (alarm_ids row.breach_id notices) actor now (ground arith) (ground (arith, h)) q

  pub IsSilent-record_breach :
      (s t : Register) (id site_id : String) (body : BreachIn) (actor : String) (now : ℕ)
      (row : BreachRecord)
      → find_breach s id ≡ none
      → record_breach settings s id site_id body actor now ≡ inr (t, row)
      → IsSilent b n s
      → IsSilent b n t
  unfolding record_breach find_breach audited is_unsettled
  IsSilent-record_breach s t id site_id body actor now row f h q =
      let e : (t.breaches ≡ s.breaches ++ row ∷ [])
          × (commit s.session ≡ some t.session)
          × (row.breach_id ≡ id) =
        ground (arith, h) in
      let (flushed, none_left) = commit-append s.session t.session (e.1) in
      let kept : t.session.events ≡ s.session.events =
        flushed
        ∙ (ap (λ xs. s.session.events ++ xs) q.nothing_added ∙ append-nil s.session.events) in
      let other : str_eq row.breach_id b ≡ false = elim (Bool-cases (str_eq row.breach_id b)) [
        | inl k ↦
            let same : id ≡ b = sym (e.2) ∙ (eq_iff row.breach_id b).0 k in
            absurd (
              ground (
                arith,
                q.present,
                any-none _ s.breaches (subst (λ i. find_breach s i ≡ none) same f),
              ))
        | inr k ↦ k
      ] in
      record {
        present = rw (e.0) (any-append _ s.breaches (row ∷ []) ∙ ground (arith, q.present));
        settled = rw (e.0) (
            any-append (is_unsettled b n) s.breaches (row ∷ []) ∙ ground (arith, q.settled, other));
        no_open_alarm = rw kept q.no_open_alarm;
        nothing_added = none_left;
      }
