-- ===== src/Rules/Config.antt =====
-- src/minemonitor/rules/config.py: a zone's rules payload as a typed configuration. Distances are
-- in millimetres, speeds in metres an hour and times in microseconds, as whole numbers: the code
-- only compares and subtracts them. The payload is taken to hold values of the documented types;
-- `none` is a missing key, and for the keys that the code tests against None a null as well. A null
-- for another key is a TypeError of `int` or `float`, or the text "None", and is outside the model.
use mine_intelligence.Prelude.{List, Option, String, none, some, ℕ}

pub record RulesPayload : Type 0 where
  pub debounce_in : Option ℕ
  pub exit_debounce : Option ℕ
  pub hysteresis_m : Option ℕ
  pub min_entry_dwell_s : Option ℕ
  pub authorized_classes : Option (List String)
  pub speed_limit_kph : Option ℕ
  pub overspeed_consecutive : Option ℕ
  pub dwell_s : Option ℕ
  pub severity : Option String

pub record RuleConfig : Type 0 where
  pub debounce_in : ℕ
  pub exit_debounce : ℕ
  pub hysteresis_m : ℕ
  pub min_entry_dwell_s : ℕ
  pub authorized_classes : Option (List String)
  pub speed_limit_kph : Option ℕ
  pub overspeed_consecutive : ℕ
  pub dwell_s : Option ℕ
  pub breach_severity : String
  pub overspeed_severity : String
  pub dwell_severity : String

-- r.get(key, default)
abbrev pub get_or {ℓ} : {A : Type ℓ} → Option A → A → A
get_or none d = d
get_or (some a) d = a

abbrev pub stationary_kph : ℕ
stationary_kph = 1500

unfoldable pub parse_rules : RulesPayload → RuleConfig
parse_rules r = record {
  debounce_in = get_or r.debounce_in 2;
  exit_debounce = get_or r.exit_debounce 2;
  hysteresis_m = get_or r.hysteresis_m 15000;
  min_entry_dwell_s = get_or r.min_entry_dwell_s 0;
  authorized_classes = r.authorized_classes;
  speed_limit_kph = r.speed_limit_kph;
  overspeed_consecutive = get_or r.overspeed_consecutive 3;
  dwell_s = r.dwell_s;
  breach_severity = get_or r.severity "critical";
  overspeed_severity = get_or r.severity "warning";
  dwell_severity = get_or r.severity "warning";
}
