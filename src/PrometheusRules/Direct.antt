-- ===== src/PrometheusRules/Direct.antt =====
-- The groups of the rules object of controllers/prometheus-rules/manifest.go, described without the
-- map from groups to overrides.
use qubership_monitoring_ope.Prelude.{
  String, ◌≡◌, refl, sym, ap, ◌∙◌, not, ◌&&◌, List, [], ◌∷◌, Option, none, some, str_eq,
  if◌then◌else◌, inl, inr, Bool-cases,
}
use qubership_monitoring_ope.Api.{AlertManager, PrometheusRule, PrometheusRules}
use qubership_monitoring_ope.Exec.{Outcome, ok}
use qubership_monitoring_ope.KubernetesMonitors.Choice.{lookup}
use qubership_monitoring_ope.PrometheusRules.Groups.{
  chosen, config-is_some, is_hidden_group, is_kept,
}
use qubership_monitoring_ope.PrometheusRules.Overrides.{
  last_override, last_override-unnamed, rule_name, config-HasLast,
}
use qubership_monitoring_ope.PrometheusRules.{
  Overrides, Rule, RuleGroup, bind, override_if, override_rule, override_rules, is_some,
  prepare_override_config_map, prometheus_rules_groups, select_groups, take_group,
  wants_alert_manager,
}

-- The rules of a group, each under the last override that is for it.
unfoldable pub overridden_rules : String → List PrometheusRule → List Rule → Outcome (List Rule)
overridden_rules group os [] = ok []
overridden_rules group os (rule ∷ rules) =
    bind (override_if (last_override group (rule_name rule.alert rule.record_name) os) rule)
      λ r. bind (overridden_rules group os rules) λ rs. ok (r ∷ rs)

-- The groups that are kept, with their rules overridden.
unfoldable pub kept_groups :
    String → PrometheusRules → Option AlertManager → List RuleGroup → Outcome (List RuleGroup)
unfolding overridden_rules
kept_groups cloud pr am [] = ok []
kept_groups cloud pr am (group ∷ groups) =
    let rest = kept_groups cloud pr am groups in
    if is_kept cloud pr am group.name
    then bind (overridden_rules group.name pr.override group.rules)
        (λ rs. bind rest λ gs. ok (record group { rules = rs } ∷ gs))
    else rest

override_rule-eq :
    (os : List PrometheusRule) (group : String) (m : Overrides) (rule : Rule)
    → ((n : String) → lookup n m ≡ last_override group n os)
    → override_rule m rule
      ≡ override_if (last_override group (rule_name rule.alert rule.record_name) os) rule
unfolding override_rule
override_rule-eq os group m rule last = elim (Bool-cases (str_eq rule.alert "")) [
  | inr alert ↦ rw alert (ap (λ o. override_if o rule) (last rule.alert))
  | inl no_alert ↦ elim (Bool-cases (str_eq rule.record_name "")) [
    | inr recorded ↦ rw (no_alert, recorded) (ap (λ o. override_if o rule) (last rule.record_name))
    | inl unnamed ↦
        rw (no_alert, unnamed)
          (sym (
            ap (λ o. override_if o rule) (last_override-unnamed group os rule.record_name unnamed)
            ∙ unfold override_if in refl))
  ]
]

override_rules-eq :
    (os : List PrometheusRule) (group : String) (m : Overrides)
    → ((n : String) → lookup n m ≡ last_override group n os)
    → (rules : List Rule) → override_rules m rules ≡ overridden_rules group os rules
unfolding override_rules overridden_rules
override_rules-eq os group m last [] = refl
override_rules-eq os group m last (rule ∷ rules) =
    ap (λ x. bind x λ r. bind (override_rules m rules) λ rs. ok (r ∷ rs))
      (override_rule-eq os group m rule last)
    ∙ ap
        (λ y.
          bind (override_if (last_override group (rule_name rule.alert rule.record_name) os) rule)
            λ r. bind y λ rs. ok (r ∷ rs))
        (override_rules-eq os group m last rules)

module _ (cloud : String) (pr : PrometheusRules) (am : Option AlertManager) (group : RuleGroup)
    (rest : Outcome (List RuleGroup)) where
  take_group-eq :
      (found : Option Overrides)
      → is_some found ≡ (chosen group.name pr.rule_groups && not (is_hidden_group cloud group.name))
      → ((m : Overrides)
          → found ≡ some m
          → (n : String) → lookup n m ≡ last_override group.name n pr.override)
      → take_group (wants_alert_manager am) found group rest ≡ (
          if is_kept cloud pr am group.name
          then bind
              (overridden_rules group.name pr.override group.rules)
              (λ rs. bind rest λ gs. ok (record group { rules = rs } ∷ gs))
          else rest)
  unfolding take_group
  take_group-eq none there last = rw (sym there) refl
  take_group-eq (some m) there last =
      elim (Bool-cases (str_eq group.name "AlertManager" && not (wants_alert_manager am))) [
        | inl skipped ↦ rw (sym there, skipped) refl
        | inr kept ↦
            rw (sym there, kept)
              (ap (λ x. bind x (λ rs. bind rest λ gs. ok (record group { rules = rs } ∷ gs)))
                (override_rules-eq pr.override group.name m (last m refl) group.rules))
      ]

-- The map from groups to overrides that `prometheusRules` goes through gives, or fails to give, the
-- same groups as going through the groups of the asset directly: those that the section chooses are
-- kept, in the order of the asset and under the names that they have, but for the groups that the
-- cloud hides and that of an AlertManager that is not to be installed; and each of their rules is
-- overridden by the last override of the section for its group and for its alert or, without an
-- alert, its record, if there is one.
pub prometheus_rules_groups-eq-kept_groups :
    (cloud : String) (pr : PrometheusRules) (am : Option AlertManager) (groups : List RuleGroup)
    → prometheus_rules_groups cloud pr am groups ≡ kept_groups cloud pr am groups
unfolding prometheus_rules_groups select_groups kept_groups
prometheus_rules_groups-eq-kept_groups cloud pr am [] = refl
prometheus_rules_groups-eq-kept_groups cloud pr am (g ∷ gs) =
    take_group-eq cloud pr am g _ (lookup g.name (prepare_override_config_map cloud pr))
      (config-is_some cloud pr g.name) ((config-HasLast cloud pr).at g.name)
    ∙ ap
        (λ rest.
          if is_kept cloud pr am g.name
          then bind (overridden_rules g.name pr.override g.rules)
              (λ rs. bind rest λ hs. ok (record g { rules = rs } ∷ hs))
          else rest)
        (prometheus_rules_groups-eq-kept_groups cloud pr am gs)
