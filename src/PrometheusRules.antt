-- ===== src/PrometheusRules.antt =====
-- controllers/prometheus-rules/manifest.go: the choice of the rule groups and the overrides. The
-- groups of the YAML asset are a parameter.
pub mod Groups
pub mod Handlers
pub mod Runs
pub mod Built
pub mod Overrides
pub mod Direct
use qubership_monitoring_ope.Prelude.{
  String, Bool, true, false, not, ◌&&◌, ◌||◌, List, [], ◌∷◌, ◌++◌, Option, none, some, str_eq,
  if◌then◌else◌,
}
use qubership_monitoring_ope.Api.{AlertManager, PrometheusRule, PrometheusRules}
use qubership_monitoring_ope.Api.Install.{installs_alert_manager}
use qubership_monitoring_ope.Exec.{Outcome, err, ok, panic}
use qubership_monitoring_ope.KubernetesMonitors.Choice.{lookup}

-- promv1.Rule with the fields that are read or overridden; `For` is a pointer, `Labels` a map. The
-- other fields of a rule and of a group, which the code passes on, are one text.
pub record Rule : Type 0 where
  pub alert : String
  pub record_name : String
  pub expr : String
  pub for_time : Option String
  pub labels : Option (List (String × String))
  pub others : String

pub record RuleGroup : Type 0 where
  pub name : String
  pub rules : List Rule
  pub others : String

-- `m[k] = v` on a map as the list of its entries
unfoldable pub put {ℓ} : {A : Type ℓ} → String → A → List (String × A) → List (String × A)
put k v [] = (k, v) ∷ []
put k v ((j, w) ∷ entries) = if str_eq j k then (k, v) ∷ entries else (j, w) ∷ put k v entries

abbrev pub is_some {ℓ} : {A : Type ℓ} → Option A → Bool
is_some none = false
is_some (some a) = true

abbrev pub Overrides : Type 0
Overrides = List (String × PrometheusRule)

abbrev pub cloud_rules : List (String × Bool)
cloud_rules = ("CoreDnsAlerts", false) ∷ ("Etcd", false) ∷ []

abbrev pub public_cloud_rules_enabled : List (String × List (String × Bool))
public_cloud_rules_enabled =
    ("aws", cloud_rules) ∷ ("azure", cloud_rules) ∷ ("google", cloud_rules) ∷ []

-- The loop over the map of a cloud: the groups that are always there, and those that never are.
unfoldable pub enabled_groups : List (String × Bool) → List String
enabled_groups [] = []
enabled_groups ((group, included) ∷ entries) =
    let rest = enabled_groups entries in if included then group ∷ rest else rest

unfoldable pub is_restricted : String → List (String × Bool) → Bool
is_restricted group [] = false
is_restricted group ((g, included) ∷ entries) =
    (str_eq g group && not included) || is_restricted group entries

unfoldable pub rules_of : Option (List (String × Bool)) → List (String × Bool)
rules_of none = []
rules_of (some m) = m

-- The map of the cloud, empty where there is none.
unfoldable pub cloud_map : String → List (String × Bool)
unfolding rules_of
cloud_map cloud = if str_eq cloud "" then [] else rules_of (lookup cloud public_cloud_rules_enabled)

-- The loop over the overrides, for one group.
unfoldable pub add_overrides : String → List PrometheusRule → Overrides → Overrides
add_overrides group [] m = m
add_overrides group (rule ∷ rules) m = add_overrides group rules (
    if str_eq rule.group group
    then (if not (str_eq rule.alert "")
        then put rule.alert rule m
        else if not (str_eq rule.record_name "")
        then put rule.record_name rule m
        else m)
    else m)

abbrev pub or_empty : Option Overrides → Overrides
or_empty none = []
or_empty (some m) = m

-- The loop over the chosen groups.
unfoldable pub add_groups :
    (String → Bool)
    → List PrometheusRule
    → List String
    → List (String × Overrides)
    → List (String × Overrides)
unfolding add_overrides
add_groups restricted rules [] m = m
add_groups restricted rules (group ∷ groups) m = add_groups restricted rules groups (
    if restricted group
    then m
    else put group (add_overrides group rules (or_empty (lookup group m))) m)

unfoldable pub prepare_override_config_map : String → PrometheusRules → List (String × Overrides)
unfolding enabled_groups is_restricted cloud_map
prepare_override_config_map cloud pr =
    add_groups (λ group. is_restricted group (cloud_map cloud)) pr.override
      (pr.rule_groups ++ enabled_groups (cloud_map cloud)) []

-- A value, or the error or the panic in front of it.
unfoldable pub bind : {A B : Type 0} → Outcome A → (A → Outcome B) → Outcome B
bind (ok a) f = f a
bind (err e) f = err e
bind panic f = panic

set_expr : String → Rule → Rule
set_expr expr rule = if str_eq expr "" then rule else record rule { expr = expr }

-- `*rule.For = ...` panics where the pointer is nil.
set_for : String → Rule → Outcome Rule
set_for t rule =
    if str_eq t ""
    then ok rule
    else elim rule.for_time [ none ↦ panic | some old ↦ ok (record rule { for_time = some t }) ]

-- A write to a nil map panics.
set_severity : String → Rule → Outcome Rule
set_severity severity rule = if str_eq severity "" then ok rule else elim rule.labels [
  | none ↦ panic
  | some ls ↦ ok (record rule { labels = some (put "severity" severity ls) })
]

unfoldable pub override_prometheus_rule : PrometheusRule → Rule → Outcome Rule
unfolding set_expr set_for set_severity
override_prometheus_rule pr rule =
    bind (set_for pr.for_time (set_expr pr.expr rule)) (set_severity pr.severity)

-- The override of a rule, if there is one under its name.
pub override_if : Option PrometheusRule → Rule → Outcome Rule
override_if none rule = ok rule
override_if (some pr) rule = override_prometheus_rule pr rule

override_rule : Overrides → Rule → Outcome Rule
unfolding override_if
override_rule m rule =
    if not (str_eq rule.alert "")
    then override_if (lookup rule.alert m) rule
    else if not (str_eq rule.record_name "")
    then override_if (lookup rule.record_name m) rule
    else ok rule

unfoldable pub override_rules : Overrides → List Rule → Outcome (List Rule)
unfolding override_rule
override_rules m [] = ok []
override_rules m (rule ∷ rules) =
    bind (override_rule m rule) λ r. bind (override_rules m rules) λ rs. ok (r ∷ rs)

-- `cr.Spec.AlertManager != nil && cr.Spec.AlertManager.IsInstall()`
abbrev pub wants_alert_manager : Option AlertManager → Bool
wants_alert_manager none = false
wants_alert_manager (some am) = installs_alert_manager am

-- One round of the loop over the groups of the asset, with the groups that follow.
unfoldable pub take_group :
    Bool → Option Overrides → RuleGroup → Outcome (List RuleGroup) → Outcome (List RuleGroup)
take_group alert_manager none group rest = rest
take_group alert_manager (some m) group rest =
    if str_eq group.name "AlertManager" && not alert_manager
    then rest
    else bind (override_rules m group.rules)
        λ rs. bind rest λ gs. ok (record group { rules = rs } ∷ gs)

unfoldable pub select_groups :
    List (String × Overrides) → Bool → List RuleGroup → Outcome (List RuleGroup)
unfolding take_group
select_groups config alert_manager [] = ok []
select_groups config alert_manager (group ∷ groups) =
    take_group alert_manager (lookup group.name config) group
      (select_groups config alert_manager groups)

-- The groups of the rules object for the groups of the asset, where the section is there.
unfoldable pub prometheus_rules_groups :
    String → PrometheusRules → Option AlertManager → List RuleGroup → Outcome (List RuleGroup)
prometheus_rules_groups cloud pr am groups =
    select_groups (prepare_override_config_map cloud pr) (wants_alert_manager am) groups
