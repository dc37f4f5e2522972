-- ===== src/Breaches/Recording.antt =====
-- Recording a breach (src/minemonitor/breaches/service.py).
use mine_intelligence.Prelude.{
  Bool, List, Option, String, [], any, false, if◌then◌else◌, inl, inr, is_empty, length, ltb, map,
  none, not, select, some, str_eq, take, ℕ, ◌&&◌, ◌++◌, ◌+◌, ◌||◌, ◌∷◌, ◌⊎◌,
}
use mine_intelligence.Prelude.Text.{sorted_set}
use mine_intelligence.Storage.{commit}
use mine_intelligence.Breaches.{
  AuditDetail, BreachError, BreachRecord, BreachSettings, Register, bad_data_classes,
  discovered_in_future, integrity_error, occurred_after_discovered, recorded, unknown_operators,
}

unfoldable pub deadlines : BreachSettings → ℕ → Option ℕ → Bool → ℕ × Option ℕ
deadlines settings discovered_at occurred_at notify_individuals =
    let start : ℕ =
      if str_eq settings.breach_deadline_from "occurred"
      then elim occurred_at [ none ↦ discovered_at | some t ↦ t ]
      else discovered_at in
    (
      start + settings.breach_regulator_notice,
      if notify_individuals then some (start + settings.breach_individuals_notice) else none,
    )

abbrev data_class_names : List String
data_class_names =
    "operator_records" ∷ "positions" ∷ "access_events" ∷ "events" ∷ "audit_log" ∷ "evidence"
    ∷ "other" ∷ []

unfoldable pub mentions : List String → String → Bool
mentions names name = any (str_eq name) names

unfoldable pub knows : List (String × String) → String → String → Bool
knows operators site_id id =
    any (λ (o : String × String). str_eq o.0 site_id && str_eq o.1 id) operators

unfoldable pub audited : Register → String → BreachRecord → AuditDetail → Register
audited store actor breach detail = record store {
  audit =
      store.audit
      ++ record {
        actor = actor;
        entity_id = breach.breach_id;
        site_id = breach.site_id;
        detail = detail;
      }
        ∷ [];
}

-- The body of a request to record a breach.
pub record BreachIn : Type 0 where
  pub discovered_at : ℕ
  pub occurred_at : Option ℕ
  pub summary : String
  pub data_classes : List String
  pub operator_ids : List String
  pub notify_individuals : Bool

unfoldable pub is_after : Option ℕ → ℕ → Bool
is_after none t = false
is_after (some u) t = ltb t u

-- The checks before anything is written.
unfoldable pub refusal : BreachSettings → Register → String → BreachIn → ℕ → Option BreachError
refusal settings store site_id body now =
    let missing =
      select (λ id. not (knows store.operators site_id id)) (sorted_set body.operator_ids) in
    if ltb (now + settings.max_future_skew) body.discovered_at
    then some discovered_in_future
    else if is_after body.occurred_at body.discovered_at
    then some occurred_after_discovered
    else if is_empty body.data_classes
        || any (λ c. not (mentions data_class_names c)) body.data_classes
    then some bad_data_classes
    else if is_empty missing
    then none
    else some (unknown_operators (take 20 missing))

-- record_breach; `breach_id` is the text of the ULID that it draws, whose row is not there yet. The
-- flush before the links writes with the row whatever the session holds, and fails with it.
unfoldable pub record_breach :
    BreachSettings
    → Register
    → String
    → String
    → BreachIn
    → String
    → ℕ
    → BreachError ⊎ (Register × BreachRecord)
record_breach settings store breach_id site_id body actor now =
    let ids = sorted_set body.operator_ids in
    let (regulator_due, individuals_due) =
      deadlines settings body.discovered_at body.occurred_at body.notify_individuals in
    let row : BreachRecord = record {
      breach_id = breach_id;
      site_id = site_id;
      discovered_at = body.discovered_at;
      occurred_at = body.occurred_at;
      summary = body.summary;
      data_classes = sorted_set body.data_classes;
      notify_individuals = body.notify_individuals;
      regulator_due_at = regulator_due;
      individuals_due_at = individuals_due;
      regulator_notified_at = none;
      regulator_reference = none;
      individuals_notified_at = none;
      recorded_by = actor;
      recorded_at = now;
      closed_at = none;
      closed_by = none;
      close_note = none;
    } in
    let store' : Register = record store {
      breaches = store.breaches ++ row ∷ [];
      links = store.links ++ map (λ id. (breach_id, id)) ids;
    } in
    elim (refusal settings store site_id body now) [
      | some error ↦ inl error
      | none ↦ elim (commit store.session) [
        | none ↦ inl integrity_error
        | some session ↦ inr (
          audited (record store' { session = session }) actor row
              (recorded row.data_classes (length ids) body.notify_individuals regulator_due
                individuals_due),
          row,
        )
      ]
    ]
