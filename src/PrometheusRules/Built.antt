-- ===== src/PrometheusRules/Built.antt =====
-- When the groups of the rules object can be built.
use qubership_monitoring_ope.Prelude.{
  String, ◌≡◌, refl, sym, ap, ◌∙◌, Bool, true, false, not, ◌&&◌, List, [], ◌∷◌, Option, none, some,
  All, str_eq, arith, if◌then◌else◌, inl, inr, Bool-cases, Option-cases,
}
use qubership_monitoring_ope.Api.{AlertManager, PrometheusRule, PrometheusRules}
use qubership_monitoring_ope.Exec.{Outcome, err, ok, panic}
use qubership_monitoring_ope.Exec.Rules.{IsOk}
use qubership_monitoring_ope.KubernetesMonitors.Choice.{lookup}
use qubership_monitoring_ope.PrometheusRules.{
  Overrides, Rule, RuleGroup, bind, is_some, override_if, override_prometheus_rule, override_rule,
  override_rules, prepare_override_config_map, prometheus_rules_groups, select_groups, set_expr,
  set_for, set_severity, take_group, wants_alert_manager,
}

-- A rule with a duration and with labels.
pub record IsComplete (rule : Rule) : Type 0 where
  pub for_time : is_some rule.for_time ≡ true
  pub labels : is_some rule.labels ≡ true

bind-IsOk :
    {A B : Type 0} (x : Outcome A) (f : A → Outcome B)
    → IsOk x
    → ((a : A) → x ≡ ok a → IsOk (f a))
    → IsOk (bind x f)
unfolding bind
bind-IsOk (ok a) f h later = later a refl
bind-IsOk (err e) f h later = absurd h
bind-IsOk panic f h later = absurd h

set_for-IsOk : (t : String) (rule : Rule) → is_some rule.for_time ≡ true → IsOk (set_for t rule)
unfolding set_for
set_for-IsOk t rule h = elim (Bool-cases (str_eq t "")) [
  | inl empty ↦ rw empty tt
  | inr given ↦ elim (Option-cases rule.for_time) [
    | inl missing ↦ absurd (ground (arith, missing, h))
    | inr (old, there) ↦ rw (given, there) tt
  ]
]

set_for-labels :
    (t : String) (rule r : Rule)
    → is_some rule.for_time ≡ true
    → set_for t rule ≡ ok r
    → r.labels ≡ rule.labels
unfolding set_for
set_for-labels t rule r h e = elim (Bool-cases (str_eq t "")) [
  | inl empty ↦ ap (λ (x : Rule). x.labels) (ok-inj (sym (rw empty at e)))
  | inr given ↦ elim (Option-cases rule.for_time) [
    | inl missing ↦ absurd (ground (arith, missing, h))
    | inr (old, there) ↦ ap (λ (x : Rule). x.labels) (ok-inj (sym (rw (given, there) at e)))
  ]
]
  where
    ok-inj : {a b : Rule} → ok a ≡ ok b → a ≡ b
    ok-inj q = ground arith

set_severity-IsOk :
    (severity : String) (rule : Rule)
    → is_some rule.labels ≡ true
    → IsOk (set_severity severity rule)
unfolding set_severity
set_severity-IsOk severity rule h = elim (Bool-cases (str_eq severity "")) [
  | inl empty ↦ rw empty tt
  | inr given ↦ elim (Option-cases rule.labels) [
    | inl missing ↦ absurd (ground (arith, missing, h))
    | inr (old, there) ↦ rw (given, there) tt
  ]
]

set_expr-labels :
    (expr : String) (rule : Rule)
    → ((set_expr expr rule).labels ≡ rule.labels) × ((set_expr expr rule).for_time ≡ rule.for_time)
unfolding set_expr
set_expr-labels expr rule = elim (Bool-cases (str_eq expr "")) [
  | inl empty ↦ rw empty (refl, refl)
  | inr given ↦ rw given (refl, refl)
]

override_prometheus_rule-IsOk :
    (pr : PrometheusRule) (rule : Rule) → IsComplete rule → IsOk (override_prometheus_rule pr rule)
unfolding override_prometheus_rule
override_prometheus_rule-IsOk pr rule complete =
    let (labels, for_time) = set_expr-labels pr.expr rule in
    let timed : is_some (set_expr pr.expr rule).for_time ≡ true =
      ap is_some for_time ∙ complete.for_time in
    bind-IsOk (set_for pr.for_time (set_expr pr.expr rule)) (set_severity pr.severity)
      (set_for-IsOk pr.for_time (set_expr pr.expr rule) timed)
      λ r e. set_severity-IsOk pr.severity r (
        ap is_some (set_for-labels pr.for_time (set_expr pr.expr rule) r timed e ∙ labels)
        ∙ complete.labels)

override_if-IsOk :
    (o : Option PrometheusRule) (rule : Rule) → IsComplete rule → IsOk (override_if o rule)
unfolding override_if
override_if-IsOk none rule complete = tt
override_if-IsOk (some pr) rule complete = override_prometheus_rule-IsOk pr rule complete

if-IsOk : {A : Type 0} (b : Bool) (x y : Outcome A) → IsOk x → IsOk y → IsOk (if b then x else y)
if-IsOk true x y h k = h
if-IsOk false x y h k = k

override_rule-IsOk : (m : Overrides) (rule : Rule) → IsComplete rule → IsOk (override_rule m rule)
unfolding override_rule
override_rule-IsOk m rule complete =
    if-IsOk (not (str_eq rule.alert "")) _ _ (override_if-IsOk (lookup rule.alert m) rule complete)
      (if-IsOk (not (str_eq rule.record_name "")) _ _
        (override_if-IsOk (lookup rule.record_name m) rule complete) tt)

override_rules-IsOk :
    (m : Overrides) (rules : List Rule) → All IsComplete rules → IsOk (override_rules m rules)
unfolding override_rules
override_rules-IsOk m [] complete = tt
override_rules-IsOk m (rule ∷ rules) complete =
    bind-IsOk (override_rule m rule) _ (override_rule-IsOk m rule complete.0) λ r _.
      bind-IsOk (override_rules m rules) _ (override_rules-IsOk m rules complete.1) λ rs _. tt

take_group-IsOk :
    (am : Bool) (o : Option Overrides) (g : RuleGroup) (rest : Outcome (List RuleGroup))
    → All IsComplete g.rules
    → IsOk rest
    → IsOk (take_group am o g rest)
unfolding take_group
take_group-IsOk am none g rest complete h = h
take_group-IsOk am (some m) g rest complete h =
    if-IsOk (str_eq g.name "AlertManager" && not am) _ _ h (
      bind-IsOk (override_rules m g.rules) _ (override_rules-IsOk m g.rules complete)
        λ rs _. bind-IsOk rest _ h λ gs _. tt)

select_groups-IsOk :
    (config : List (String × Overrides)) (am : Bool) (groups : List RuleGroup)
    → All (λ g. All IsComplete g.rules) groups
    → IsOk (select_groups config am groups)
unfolding select_groups
select_groups-IsOk config am [] complete = tt
select_groups-IsOk config am (g ∷ groups) complete =
    take_group-IsOk am (lookup g.name config) g _ complete.0
      (select_groups-IsOk config am groups complete.1)

-- If every rule of the asset has a duration and labels, the rules object is built, whatever is
-- overridden.
pub prometheus_rules_groups-IsOk :
    (cloud : String) (pr : PrometheusRules) (am : Option AlertManager) (groups : List RuleGroup)
    → All (λ g. All IsComplete g.rules) groups
    → IsOk (prometheus_rules_groups cloud pr am groups)
unfolding prometheus_rules_groups
prometheus_rules_groups-IsOk cloud pr am groups complete =
    select_groups-IsOk (prepare_override_config_map cloud pr) (wants_alert_manager am) groups
      complete
