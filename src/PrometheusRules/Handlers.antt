-- ===== src/PrometheusRules/Handlers.antt =====
-- controllers/prometheus-rules: reconciler.go and handlers.go, with the object that prometheusRules
-- of manifest.go builds. The YAML asset is the interface `Asset`.
use qubership_monitoring_ope.Prelude.{
  Bool, false, ◌&&◌, List, [], ◌∷◌, Option, none, some, if◌then◌else◌,
}
use qubership_monitoring_ope.Prelude.Text.{Bytes}
use qubership_monitoring_ope.Api.{Labels, PlatformMonitoring, PrometheusRules}
use qubership_monitoring_ope.Api.Install.{installs_prometheus_rules}
use qubership_monitoring_ope.Exec.{Outcome, ok, logged}
use qubership_monitoring_ope.Cluster.{FieldPath, Kind, Object, is_prefix}
use qubership_monitoring_ope.Utils.Labels.{get_instance_label}
use qubership_monitoring_ope.Reconciler.{Action, Env, create_or_update, delete_if_found}
use qubership_monitoring_ope.Reconciler.Merge.{and_then, merge_fields, set_label, with_labels}
use qubership_monitoring_ope.Reconciler.Fields.{spec}
use qubership_monitoring_ope.KubernetesMonitors.Choice.{lookup}
use qubership_monitoring_ope.PrometheusRules.{RuleGroup, bind, is_some, prometheus_rules_groups}

-- The YAML asset: the object without the groups that its spec lists, and the groups.
pub record Decoded (V : Type 0) : Type 0 where
  pub object : Object V
  pub groups : List RuleGroup

-- The decoded asset, and the values of the fields at and below `Spec` for a list of groups.
pub record Asset (V : Type 0) : Type 0 where
  pub decoded : Outcome (Decoded V)
  pub value : List RuleGroup → FieldPath → V

-- The labels of the custom resource under the keys that the asset does not set. The custom resource
-- has no label or annotation both where its map is nil and where it is empty; both are nil here.
unfoldable pub add_missing : Labels → Labels → Labels
add_missing [] ls = ls
add_missing ((k, v) ∷ more) ls =
    add_missing more (if is_some (lookup k ls) then ls else set_label k v ls)

unfoldable pub merge_labels : Labels → Option Labels → Option Labels
unfolding add_missing
merge_labels [] none = none
merge_labels (l ∷ more) none = some (l ∷ more)
merge_labels more (some ls) = some (add_missing more ls)

unfoldable pub set_all : Labels → Labels → Labels
set_all [] ls = ls
set_all ((k, v) ∷ more) ls = set_all more (set_label k v ls)

unfoldable pub merge_annotations : Labels → Option Labels → Option Labels
unfolding set_all
merge_annotations [] none = none
merge_annotations (a ∷ more) none = some (a ∷ more)
merge_annotations more (some ls) = some (set_all more ls)

-- `rules.Spec = resultSpec`
abbrev pub set_spec : {V : Type 0} → (FieldPath → V) → Object V → Object V
set_spec value m = record m { field = λ q. if is_prefix spec q then value q else m.field q }

-- The object with the groups that are left where the section is there, and with those of the asset
-- where it is not.
unfoldable pub with_groups :
    {V : Type 0}
    → Asset V
    → PlatformMonitoring
    → Option PrometheusRules
    → Decoded V
    → Outcome (Object V)
with_groups asset cr none d = ok d.object
with_groups asset cr (some pr) d =
    bind (prometheus_rules_groups cr.spec.public_cloud_name pr cr.spec.alert_manager d.groups)
      λ gs. ok (set_spec (asset.value gs) d.object)

-- The kind, the namespace, the labels and the annotations.
unfoldable pub complete : {V : Type 0} → PlatformMonitoring → Object V → Object V
unfolding merge_labels merge_annotations
complete cr m = record m {
  kind = Kind.prometheus_rule;
  namespace = cr.namespace;
  labels = merge_labels cr.labels m.labels;
  annotations = merge_annotations cr.annotations m.annotations;
}

unfoldable pub set_version : Option Bytes → Labels → Labels
set_version none ls = ls
set_version (some version) ls = set_label "app.kubernetes.io/version" version ls

unfoldable pub rules_labels : {V : Type 0} → PlatformMonitoring → Object V → Outcome (Object V)
unfolding with_labels set_version
rules_labels cr m =
    with_labels m
      (λ ls.
        set_version (lookup "app.kubernetes.io/version" cr.labels)
          (set_label "app.kubernetes.io/instance" (get_instance_label m.name m.namespace) ls))
      m.labels

-- `len(rules) > 0`
abbrev pub has_groups : {A : Type 0} → List A → Bool
has_groups [] = false
has_groups (g ∷ gs) = Bool.true

-- The condition of `Run`.
unfoldable pub wants_rules : Option PrometheusRules → Bool
wants_rules none = false
wants_rules (some pr) = installs_prometheus_rules pr && has_groups pr.rule_groups

abbrev pub rules_fields : List FieldPath
rules_fields = spec ∷ []

module _ {V : Type 0} (env : Env V) (asset : Asset V) (cr : PlatformMonitoring) where
  unfoldable pub prometheus_rules : Outcome (Object V)
  unfolding with_groups complete
  prometheus_rules =
      bind (bind asset.decoded (with_groups asset cr cr.spec.prometheus_rules))
        λ m. ok (complete cr m)

  abbrev pub labelled_rules : Outcome (Object V)
  labelled_rules = and_then prometheus_rules (rules_labels cr)

  unfoldable pub handle_prometheus_rules : Action env
  handle_prometheus_rules = create_or_update env cr labelled_rules (merge_fields rules_fields)

  unfoldable pub delete_prometheus_rules : Action env
  delete_prometheus_rules = delete_if_found env prometheus_rules

  unfoldable pub run : Action env
  unfolding wants_rules
  run =
      if wants_rules cr.spec.prometheus_rules
      then handle_prometheus_rules
      else logged delete_prometheus_rules
