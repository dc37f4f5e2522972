-- ===== src/Access/Service/Laws.antt =====
-- What a gate passage leaves behind (src/minemonitor/access/service.py).
use mathlib.Core.Option
use mathlib.Core.Path.{subst}
use mine_intelligence.Prelude.Text.{non_empty}
use mine_intelligence.Storage.{Event, Session, commit}
use mine_intelligence.Events.{new_event_id}
use mine_intelligence.Prelude.{
  All, Bool, Bool-cases, List, Option, Option-cases, String, [], append-nil, append_assoc, arith,
  eq_refl, false, find, from_option, inl, inr, is_some, none, not, refl, some, str_eq, sym, true, ℕ,
  ◌&&◌, ◌++◌, ◌+◌, ◌||◌, ◌∙◌, ◌∷◌, ◌≡◌, ◌≤◌, ◌⊎◌,
}
use mine_intelligence.Access.Model.{
  AccessEvent, Operator, Passage, Site, Store, access_id, find_passage, gate_alarm,
}
use mine_intelligence.Storage.Laws.{all_events, commit-append}
use mine_intelligence.Events.Laws.{persist_event_adds}
use mine_intelligence.Access.Service.{
  authorize, check_entry, find_operator, ingest_access_event, is_denied, new_passage,
  record_access_event, select_for_search, set_operator_access_status, set_status, update_operator,
}

find-append {ℓ} :
    {A : Type ℓ} (p : A → Bool) (xs : List A) (x : A)
    → find p xs ≡ none
    → p x ≡ true
    → find p (xs ++ x ∷ []) ≡ some x
find-append p [] x e h = rw h
find-append p (y ∷ ys) x e h = ground (arith, find-append p ys x)

-- An operator of this site, on record and not erased, who is suspended, not inducted or off shift.
abbrev pub is_barred : Store → Site → String → Option String → ℕ → Bool
is_barred store site site_id none at = false
is_barred store site site_id (some ref) at = non_empty ref && elim (find_operator store ref) [
  | none ↦ false
  | some op ↦
      (str_eq op.site_id site_id && not (is_some op.erased_at))
      && (op.suspended || (not op.inducted || not (site.on_shift site_id at)))
]

abbrev pub on_record : Store → String → Passage → Bool
on_record store site_id p =
    is_some (find_passage store (access_id site_id p.source_system p.source_event_id))

denied-is_barred :
    (store : Store) (site : Site) (site_id : String) (ref : Option String) (at : ℕ)
    (passages : List AccessEvent) (session : Session)
    → is_denied
        (authorize (record store { passages = passages; session = session }) site site_id ref at).0
      ≡ is_barred store site site_id ref at
unfolding authorize is_denied find_operator
denied-is_barred store site site_id none at passages session = refl
denied-is_barred store site site_id (some ref) at passages session = ground arith

module _ (site : Site) (store : Store) (site_id : String) (p : Passage) (now rate clock : ℕ) where
  -- A critical `access_denied` of the site at the time of the passage.
  abbrev pub IsDenial : Event → Type 0
  IsDenial e =
      (e.type ≡ "access_denied") × (e.severity ≡ "critical") × (e.site_id ≡ site_id) × (e.ts ≡ p.ts)

  -- What the check of a passage brings.
  abbrev Checked : Store → Bool → Store × AccessEvent × Bool × Option Event → Type 0
  Checked s raised (s', row, created, alarm) =
      (created ≡ true)
      × (is_some alarm ≡ raised)
      × (all_events s'.session ≡ all_events s.session ++ from_option alarm)
      × All IsDenial (from_option alarm)

  denial : Store → Event
  unfolding gate_alarm
  denial s = gate_alarm (new_event_id s.session).0 site_id p.ts "access_denied" "critical" p.gate_id

  check_entry_lem :
      (s : Store) (row : AccessEvent)
      → Checked s
          (is_denied (authorize s site site_id p.operator_ref p.ts).0
            && str_eq p.decision "granted")
          (check_entry site site_id p clock s row)
  unfolding check_entry denial new_event_id gate_alarm
  check_entry_lem s row =
      let wrong =
        is_denied (authorize s site site_id p.operator_ref p.ts).0 && str_eq p.decision "granted" in
      let adds = persist_event_adds (new_event_id s.session).1 (denial s) site.outbox clock in
      elim (Bool-cases wrong) [
        | inl e ↦ rw e (
          refl,
          refl,
          rw (adds.0, adds.1)
              (sym (append_assoc s.session.events s.session.added_events (denial s ∷ []))),
          ((refl, refl, refl, refl), tt),
        )
        | inr e ↦ rw e (refl, refl, sym (append-nil (all_events s.session)), tt)
      ]

  -- The two ways to an answer.
  ingest_access_event-cases :
      (store' : Store) (row : AccessEvent) (created : Bool) (alarm : Option Event)
      → ingest_access_event site store site_id p now rate clock ≡ inr (store', row, created, alarm)
      → ((on_record store site_id p ≡ true)
          × ((store ≡ store') × ((created ≡ false) × (alarm ≡ none))))
        ⊎ ((on_record store site_id p ≡ false)
            × (s : Session) × (passages : List AccessEvent) × (row' : AccessEvent) × (commit
                  store.session
                ≡ some s)
            × (check_entry site site_id p clock
                  (record store { passages = passages; session = s })
                  row'
                ≡ (store', row, created, alarm)))
  unfolding ingest_access_event record_access_event
  ingest_access_event-cases store' row created alarm h =
      let id = access_id site_id p.source_system p.source_event_id in
      let selected =
        p.search_selected || (str_eq p.decision "granted" && select_for_search site id rate) in
      elim (Option-cases (find_passage store id)) [
        | inl e ↦ elim (Option-cases (commit store.session)) [
          | inl e' ↦ absurd (ground arith)
          | inr (s, e') ↦
              let made = new_passage site_id p now selected in
              inr (rw e refl, s, store.passages ++ made ∷ [], made, e', ground arith)
        ]
        | inr (found, e) ↦ inl (rw e refl, (ground arith, (ground arith, ground arith)))
      ]

  -- A gate event that is accepted is new exactly when it was not on record, and raises an alarm
  -- exactly when it is new, the gate granted it, and the person is barred. The alarm is a critical
  -- `access_denied` of the site at the time of the passage; it is added behind the alarms that
  -- are stored or wait to be, and nothing else is.
  pub alarm-ingest_access_event :
      (store' : Store) (row : AccessEvent) (created : Bool) (alarm : Option Event)
      → ingest_access_event site store site_id p now rate clock ≡ inr (store', row, created, alarm)
      → (created ≡ not (on_record store site_id p))
        × (is_some alarm ≡ (
            not (on_record store site_id p)
            && (str_eq p.decision "granted" && is_barred store site site_id p.operator_ref p.ts)))
        × (all_events store'.session ≡ all_events store.session ++ from_option alarm)
        × All IsDenial (from_option alarm)
  unfolding ingest_access_event record_access_event
  alarm-ingest_access_event store' row created alarm h =
      elim (ingest_access_event-cases store' row created alarm h) [
        | inl (is_old, (same, (again, quiet))) ↦
            rw (is_old, ← same, again, quiet)
              (refl, refl, sym (append-nil (all_events store.session)), tt)
        | inr (is_new, s, passages, row', c, made) ↦
            let s' : Store = record store { passages = passages; session = s } in
            let wrong =
              is_denied (authorize s' site site_id p.operator_ref p.ts).0
              && str_eq p.decision "granted" in
            let (fresh, raised, queue, kind) =
              subst (Checked s' wrong) made (check_entry_lem s' row') in
            let (flushed, none_left) = commit-append store.session s c in
            (
              ground (arith, fresh, is_new),
              raised
                  ∙ ground (
                    arith,
                    is_new,
                    denied-is_barred store site site_id p.operator_ref p.ts passages s,
                  ),
              queue ∙ ground (arith, flushed, none_left, append-nil (all_events store.session)),
              kind,
            )
      ]

  recorded :
      (store' : Store) (row : AccessEvent) (created : Bool) (alarm : Option Event)
      → ingest_access_event site store site_id p now rate clock ≡ inr (store', row, created, alarm)
      → find_passage store' (access_id site_id p.source_system p.source_event_id) ≡ some row
  unfolding ingest_access_event record_access_event find_passage
  recorded store' row created alarm h = grind (arith, find-append, eq_refl)

  -- The same gate event again, at any time that does not refuse it as future, finds the row of the
  -- first time, changes nothing and raises no second alarm.
  pub ingest_access_event_again :
      (store' : Store) (row : AccessEvent) (created : Bool) (alarm : Option Event)
      (later rate' clock' : ℕ)
      → ingest_access_event site store site_id p now rate clock ≡ inr (store', row, created, alarm)
      → p.ts ≤ later + site.max_future_skew
      → ingest_access_event site store' site_id p later rate' clock'
        ≡ inr (store', row, false, none)
  unfolding ingest_access_event record_access_event
  ingest_access_event_again store' row created alarm later rate' clock' h ahead =
      ground (arith, recorded store' row created alarm h)

find-update_operator :
    (suspended inducted : Option Bool) (id : String) (ops : List Operator)
    → find (λ (op : Operator). str_eq op.operator_id id) (update_operator id suspended inducted ops)
      ≡ Option.map
          (set_status suspended inducted)
          (find (λ (op : Operator). str_eq op.operator_id id) ops)
unfolding update_operator set_status
find-update_operator suspended inducted id [] = refl
find-update_operator suspended inducted id (op ∷ ops) =
    ground (arith, find-update_operator suspended inducted id ops)

-- Suspending an operator of the site who is not erased bars the operator at every time, whatever
-- the shifts; the change is reported as made.
pub set_operator_access_status-is_barred :
    (store : Store) (site : Site) (site_id id : String) (op : Operator) (at : ℕ)
    → find_operator store id ≡ some op
    → op.site_id ≡ site_id
    → op.erased_at ≡ none
    → non_empty id ≡ true
    → let (store', found) = set_operator_access_status store site_id id (some true) none in
      (found ≡ true) × (is_barred store' site site_id (some id) at ≡ true)
unfolding set_operator_access_status find_operator set_status
set_operator_access_status-is_barred store site site_id id op at f s e n =
    ground (arith, eq_refl site_id, find-update_operator (some true) none id store.operators)
