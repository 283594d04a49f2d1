-- ===== src/Examples/Rules.antt =====
-- The rule groups of a section that overrides an alert of the group SelfMonitoring, on AWS.
use qubership_monitoring_ope.Prelude.{true, ◌≡◌, refl, List, [], ◌∷◌, none, some}
use qubership_monitoring_ope.Api.{PrometheusRule, PrometheusRules}
use qubership_monitoring_ope.Exec.{ok}
use qubership_monitoring_ope.Exec.Rules.{IsOk}
use qubership_monitoring_ope.PrometheusRules.{
  Rule, RuleGroup, add_groups, bind, override_prometheus_rule, override_rules,
  prepare_override_config_map, prometheus_rules_groups, put, select_groups,
}
use qubership_monitoring_ope.PrometheusRules.Groups.{
  is_kept, keep_names, names, prometheus_rules_groups-names,
}
use qubership_monitoring_ope.PrometheusRules.Direct.{
  kept_groups, prometheus_rules_groups-eq-kept_groups,
}
use qubership_monitoring_ope.PrometheusRules.Built.{IsComplete, prometheus_rules_groups-IsOk}

abbrev pub disk_full : Rule
disk_full = record {
  alert = "DiskFull";
  record_name = "";
  expr = "free < 1";
  for_time = some "5m";
  labels = some (("severity", "high") ∷ []);
  others = "annotations: {description: disk}";
}

abbrev pub asset_groups : List RuleGroup
asset_groups =
    record { name = "SelfMonitoring"; rules = disk_full ∷ []; others = "" }
    ∷ record { name = "Etcd"; rules = disk_full ∷ []; others = "" }
    ∷ record { name = "AlertManager"; rules = disk_full ∷ []; others = "" }
    ∷ []

abbrev pub longer : PrometheusRule
longer = record {
  group = "SelfMonitoring";
  alert = "DiskFull";
  record_name = "";
  for_time = "10m";
  expr = "";
  severity = "low";
}

abbrev pub section_of_rules : PrometheusRules
section_of_rules = record {
  install = some true;
  rule_groups = "Etcd" ∷ "SelfMonitoring" ∷ "AlertManager" ∷ [];
  override = longer ∷ [];
}

-- The alert has the duration and the severity of the override.
abbrev chosen_groups : List RuleGroup
chosen_groups =
    record {
      name = "SelfMonitoring";
      rules =
          record disk_full { for_time = some "10m"; labels = some (("severity", "low") ∷ []) } ∷ [];
      others = "";
    }
    ∷ []

built_groups : prometheus_rules_groups "aws" section_of_rules none asset_groups ≡ ok chosen_groups
unfolding prometheus_rules_groups prepare_override_config_map select_groups add_groups put bind
    override_rules override_prometheus_rule
built_groups = refl

prometheus_rules_groups-names_example :
    names chosen_groups ≡ keep_names (is_kept "aws" section_of_rules none) asset_groups
prometheus_rules_groups-names_example =
    prometheus_rules_groups-names "aws" section_of_rules none asset_groups chosen_groups
      built_groups

disk_full-IsComplete : IsComplete disk_full
disk_full-IsComplete = record { for_time = refl; labels = refl }

prometheus_rules_groups-IsOk_example :
    IsOk (prometheus_rules_groups "azure" section_of_rules none asset_groups)
prometheus_rules_groups-IsOk_example =
    prometheus_rules_groups-IsOk "azure" section_of_rules none asset_groups
      ((disk_full-IsComplete, tt), ((disk_full-IsComplete, tt), ((disk_full-IsComplete, tt), tt)))

-- A second override of the alert, behind the first.
abbrev overridden_twice : PrometheusRules
overridden_twice = record section_of_rules {
  override = longer ∷ record longer { for_time = "15m" } ∷ record longer { group = "Etcd" } ∷ [];
}

prometheus_rules_groups-eq-kept_groups_example :
    prometheus_rules_groups "" overridden_twice none asset_groups
    ≡ kept_groups "" overridden_twice none asset_groups
prometheus_rules_groups-eq-kept_groups_example =
    prometheus_rules_groups-eq-kept_groups "" overridden_twice none asset_groups
