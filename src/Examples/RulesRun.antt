-- ===== src/Examples/RulesRun.antt =====
-- `Run` of controllers/prometheus-rules on the small cluster.
use qubership_monitoring_ope.PrometheusRules.Groups.{names}
use qubership_monitoring_ope.Prelude.{length, ℕ, some, ◌∷◌, refl, []}
use qubership_monitoring_ope.Prelude.Text.{bytes}
use qubership_monitoring_ope.Api.{PlatformMonitoring, empty_spec}
use qubership_monitoring_ope.Api.Install.{installs_prometheus_rules, set_or_false, unset_or_true}
use qubership_monitoring_ope.Exec.{
  ok, ◌>>◌, ◌>>=◌, continue, pure, lift, call, logged, swallow, raise, is_not_found,
}
use qubership_monitoring_ope.Cluster.{Kind}
use qubership_monitoring_ope.Cluster.Memory.{
  read, create_in, update_in, delete_in, answer, created, updated, deleted,
}
use qubership_monitoring_ope.Reconciler.{
  create_or_update, create_if_missing, create_resource, delete_if_found, delete_resource, store,
  keep, discard, adopt, owned, set_reference,
}
use qubership_monitoring_ope.Reconciler.Merge.{and_then, with_labels}
use qubership_monitoring_ope.Examples.World.{
  env, env-IsHealthy, env-IsLawfulEnv, no_sections, object,
}
use qubership_monitoring_ope.Examples.Rules.{asset_groups, section_of_rules}
use qubership_monitoring_ope.Reconciler.Wanted.{Removed}
use qubership_monitoring_ope.PrometheusRules.{
  add_groups, bind, override_prometheus_rule, override_rules, prepare_override_config_map,
  prometheus_rules_groups, put, select_groups,
}
use qubership_monitoring_ope.PrometheusRules.Handlers.{
  Asset, delete_prometheus_rules, with_groups, complete, merge_labels, add_missing,
  merge_annotations, set_all, handle_prometheus_rules, prometheus_rules, rules_labels, run,
  set_version, wants_rules,
}
use qubership_monitoring_ope.PrometheusRules.Runs.{Published, clears_rules, converges_rules}

abbrev wanted : PlatformMonitoring
wanted = record no_sections {
  labels = ("app.kubernetes.io/version", bytes "1.0") ∷ [];
  spec = record empty_spec {
    prometheus_rules = some section_of_rules;
    public_cloud_name = "google";
  };
}

abbrev asset : Asset ℕ
asset = record {
  decoded = ok (record { object = object Kind.prometheus_rule 1; groups = asset_groups });
  value = λ gs q. length (names gs);
}

converges_rules_example : Published env asset wanted section_of_rules (run env asset wanted []).1
unfolding run handle_prometheus_rules delete_prometheus_rules prometheus_rules with_groups complete
    merge_labels add_missing merge_annotations set_all rules_labels set_version wants_rules
    prometheus_rules_groups prepare_override_config_map select_groups add_groups put bind
    override_rules override_prometheus_rule ◌>>◌ ◌>>=◌ continue pure lift call logged swallow raise
    is_not_found create_or_update create_if_missing create_resource delete_if_found delete_resource
    store keep discard adopt owned set_reference and_then with_labels read create_in update_in
    delete_in answer created updated deleted installs_prometheus_rules set_or_false unset_or_true
converges_rules_example =
    converges_rules env asset wanted env-IsLawfulEnv section_of_rules refl refl [] refl

clears_rules_example :
    Removed env
      (prometheus_rules env asset no_sections)
      (run env asset no_sections (object Kind.prometheus_rule 1 ∷ [])).1
unfolding run handle_prometheus_rules delete_prometheus_rules prometheus_rules with_groups complete
    merge_labels add_missing merge_annotations set_all rules_labels set_version wants_rules
    prometheus_rules_groups prepare_override_config_map select_groups add_groups put bind
    override_rules override_prometheus_rule ◌>>◌ ◌>>=◌ continue pure lift call logged swallow raise
    is_not_found create_or_update create_if_missing create_resource delete_if_found delete_resource
    store keep discard adopt owned set_reference and_then with_labels read create_in update_in
    delete_in answer created updated deleted installs_prometheus_rules set_or_false unset_or_true
clears_rules_example =
    clears_rules env asset no_sections env-IsLawfulEnv (env-IsHealthy Kind.prometheus_rule) refl
      (object Kind.prometheus_rule 1 ∷ []) refl
