-- ===== src/Access/Quarantine/Laws.antt =====
-- One alarm for a gate whose clock runs ahead (src/minemonitor/access/service.py).
use mathlib.Core.Path.{subst}
use mine_intelligence.Events.{new_event_id}
use mine_intelligence.Events.Laws.{persist_event_adds}
use mine_intelligence.Prelude.{
  All, Bool, Bool-cases, List, Option, Option-cases, String, [], any, ap, append-nil, append_assoc,
  arith, eq_refl, false, find, from_option, inl, inr, is_some, none, not, refl, some, str_eq, sym,
  true, ℕ, ◌&&◌, ◌++ₛ◌, ◌++◌, ◌∙◌, ◌∷◌, ◌≡◌, ◌⊎◌,
}
use mine_intelligence.Storage.{Event, Session, commit}
use mine_intelligence.Storage.Laws.{all_events, any-append, commit-append}
use mine_intelligence.Access.Model.{Passage, Site, Store, access_id, gate_alarm}
use mine_intelligence.Access.Quarantine.{
  find_quarantined, is_open_skew, new_quarantine, quarantine_future_event, warn_skew,
}

find-append_found {ℓ} :
    {A : Type ℓ} (p : A → Bool) (xs : List A) (x : A)
    → p x ≡ true
    → is_some (find p (xs ++ x ∷ [])) ≡ true
find-append_found p [] x h = rw h
find-append_found p (y ∷ ys) x h = ground (arith, find-append_found p ys x)

-- A clock-skew alarm of the gate that nobody has acknowledged or resolved.
abbrev pub is_open_alarm : String → String → Event → Bool
is_open_alarm site_id gate_id e =
    str_eq e.state "open"
    && (str_eq e.type "source_clock_skew"
        && (str_eq e.source ("access_gate:" ++ₛ gate_id) && str_eq e.site_id site_id))

-- Such an alarm is stored, or waits for the flush.
abbrev pub has_open_alarm : Store → String → String → Bool
has_open_alarm store site_id gate_id =
    any (is_open_alarm site_id gate_id) (all_events store.session)

any-is_open_skew :
    (site_id gate_id : String) (es : List Event)
    → any (is_open_skew site_id ("access_gate:" ++ₛ gate_id)) es
      ≡ any (is_open_alarm site_id gate_id) es
unfolding is_open_skew
any-is_open_skew site_id gate_id [] = refl
any-is_open_skew site_id gate_id (e ∷ es) = ground (arith, any-is_open_skew site_id gate_id es)

abbrev pub is_quarantined : Store → String → Passage → Bool
is_quarantined store site_id p =
    is_some (find_quarantined store (access_id site_id p.source_system p.source_event_id))

module _ (site : Site) (store : Store) (site_id : String) (p : Passage) (now clock : ℕ) where
  skew_alarm : Store → Event
  unfolding gate_alarm
  skew_alarm s =
      gate_alarm (new_event_id s.session).0 site_id now "source_clock_skew" "warning" p.gate_id

  skew_alarm_lem :
      (s : Store)
      → (is_open_alarm site_id p.gate_id (skew_alarm s) ≡ true)
        × ((skew_alarm s).severity ≡ "warning")
        × ((skew_alarm s).ts ≡ now)
  unfolding skew_alarm gate_alarm
  skew_alarm_lem s = ground (arith, eq_refl site_id, eq_refl ("access_gate:" ++ₛ p.gate_id))

  -- What a new row in the quarantine brings.
  abbrev Warned : Store → Store × Option Event → Type 0
  Warned s (s', alarm) =
      (is_some alarm ≡ not (any (is_open_alarm site_id p.gate_id) s.session.events))
      × (all_events s'.session ≡ all_events s.session ++ from_option alarm)
      × All
          (λ (e : Event).
            (is_open_alarm site_id p.gate_id e ≡ true) × (e.severity ≡ "warning") × (e.ts ≡ now))
          (from_option alarm)
      × (s'.passages ≡ s.passages)

  warn_skew_lem : (s : Store) → Warned s (warn_skew site site_id p now clock s)
  unfolding warn_skew skew_alarm new_event_id
  warn_skew_lem s =
      let drawn = (new_event_id s.session).1 in
      elim (Bool-cases
        (any (is_open_skew site_id ("access_gate:" ++ₛ p.gate_id)) s.session.events)) [
          | inl e ↦ rw e (
            rw (← any-is_open_skew site_id p.gate_id s.session.events) (rw e refl),
            sym (append-nil (all_events s.session)),
            tt,
            refl,
          )
          | inr e ↦ rw e (
            rw (← any-is_open_skew site_id p.gate_id s.session.events) (rw e refl),
            rw
                (
                  (persist_event_adds drawn (skew_alarm s) site.outbox clock).0,
                  (persist_event_adds drawn (skew_alarm s) site.outbox clock).1,
                )
                (sym (append_assoc s.session.events s.session.added_events (skew_alarm s ∷ []))),
            (skew_alarm_lem s, tt),
            refl,
          )
        ]

  quarantined_in : Session → Store
  unfolding new_quarantine
  quarantined_in session = record store {
    quarantined = store.quarantined ++ new_quarantine site_id p now ∷ [];
    session = session;
  }

  -- The two ways to an answer.
  quarantine_future_event-cases :
      (store' : Store) (alarm : Option Event)
      → quarantine_future_event site store site_id p now clock ≡ inr (store', alarm)
      → ((is_quarantined store site_id p ≡ true) × ((store ≡ store') × (alarm ≡ none)))
        ⊎ ((is_quarantined store site_id p ≡ false)
            × (s : Session) × (commit store.session ≡ some s)
            × (warn_skew site site_id p now clock (quarantined_in s) ≡ (store', alarm)))
  unfolding quarantine_future_event quarantined_in
  quarantine_future_event-cases store' alarm h =
      let id = access_id site_id p.source_system p.source_event_id in
      elim (Option-cases (find_quarantined store id)) [
        | inl e ↦ elim (Option-cases (commit store.session)) [
          | inl e' ↦ absurd (ground arith)
          | inr (s, e') ↦ inr (rw e refl, s, e', ground arith)
        ]
        | inr (row, e) ↦ inl (rw e refl, (ground arith, ground arith))
      ]

  found_after :
      (store' : Store) (alarm : Option Event)
      → quarantine_future_event site store site_id p now clock ≡ inr (store', alarm)
      → is_quarantined store' site_id p ≡ true
  unfolding quarantine_future_event find_quarantined
  found_after store' alarm h = grind (arith, find-append_found, eq_refl)

  -- A refused gate event that the service takes is quarantined afterwards and kept out of the
  -- passages, and warns exactly when it is new to the quarantine and its gate has no open
  -- clock-skew alarm. The warning is an open clock-skew alarm of the gate; it is added behind the
  -- alarms that are stored or wait to be, and nothing else is.
  pub alarm-quarantine_future_event :
      (store' : Store) (alarm : Option Event)
      → quarantine_future_event site store site_id p now clock ≡ inr (store', alarm)
      → (is_quarantined store' site_id p ≡ true)
        × (store'.passages ≡ store.passages)
        × (is_some alarm ≡ (
            not (is_quarantined store site_id p) && not (has_open_alarm store site_id p.gate_id)))
        × (all_events store'.session ≡ all_events store.session ++ from_option alarm)
        × All
            (λ (e : Event).
              (is_open_alarm site_id p.gate_id e ≡ true) × (e.severity ≡ "warning") × (e.ts ≡ now))
            (from_option alarm)
  unfolding quarantine_future_event quarantined_in
  alarm-quarantine_future_event store' alarm h =
      let found = found_after store' alarm h in
      elim (quarantine_future_event-cases store' alarm h) [
        | inl (is_old, (same, quiet)) ↦ ground (arith, found, append-nil (all_events store.session))
        | inr (is_new, s, c, e) ↦
            let (raised, queue, kind, kept) =
              subst (Warned (quarantined_in s)) e (warn_skew_lem (quarantined_in s)) in
            let (flushed, none_left) = commit-append store.session s c in
            (
              found,
              kept,
              raised ∙ ground (arith, is_new, ap (any (is_open_alarm site_id p.gate_id)) flushed),
              queue ∙ ground (arith, flushed, none_left, append-nil (all_events store.session)),
              kind,
            )
      ]

  open_after :
      (store' : Store) (alarm : Option Event)
      → quarantine_future_event site store site_id p now clock ≡ inr (store', alarm)
      → (is_quarantined store' site_id p ≡ true)
        × (is_quarantined store site_id p ≡ false → has_open_alarm store' site_id p.gate_id ≡ true)
  unfolding quarantine_future_event find_quarantined
  open_after store' alarm h = grind (
    arith, find-append_found, eq_refl, persist_event_adds, any-append, any-is_open_skew,
    commit-append,
  )

  -- After an event of a gate is newly quarantined, neither that event nor another one of the same
  -- gate warns again while nothing else changes the store.
  pub quarantine_future_event_again :
      (store' store'' : Store) (alarm again : Option Event) (p' : Passage) (now' clock' : ℕ)
      → is_quarantined store site_id p ≡ false
      → quarantine_future_event site store site_id p now clock ≡ inr (store', alarm)
      → p'.gate_id ≡ p.gate_id
      → quarantine_future_event site store' site_id p' now' clock' ≡ inr (store'', again)
      → again ≡ none
  unfolding quarantine_future_event
  quarantine_future_event_again store' store'' alarm again p' now' clock' new h same h' =
      grind (arith, commit-append, any-is_open_skew, open_after store' alarm h)
