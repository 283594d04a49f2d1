-- ===== src/Examples/PrometheusRun.antt =====
-- `Run` of controllers/prometheus on the small cluster.
use qubership_monitoring_ope.Exec.{err, other}
use qubership_monitoring_ope.Reconciler.{Env}
use qubership_monitoring_ope.Reconciler.Unreadable.{Unreadable}
use qubership_monitoring_ope.Prometheus.Unreadable.{run-Unreadable}
use qubership_monitoring_ope.Prelude.{◌≡◌, ℕ, true, false, none, some, List, ◌∷◌, refl, []}
use qubership_monitoring_ope.Prelude.Text.{bytes}
use qubership_monitoring_ope.Api.{PlatformMonitoring, Prometheus, empty_spec}
use qubership_monitoring_ope.Api.Install.{
  installs_prometheus, installs_ingress, installs_monitor, wants_ingress, wants_monitor,
  set_or_false, unset_or_true,
}
use qubership_monitoring_ope.Exec.{
  ok, ◌>>◌, ◌>>=◌, continue, pure, lift, call, logged, swallow, raise, is_not_found,
}
use qubership_monitoring_ope.Cluster.{Kind, Object}
use qubership_monitoring_ope.Cluster.Memory.{
  read, create_in, update_in, delete_in, answer, created, updated, deleted,
}
use qubership_monitoring_ope.Utils.Discovery.{
  has_api, has_ingress_v1_api, has_ingress_v1beta1_api, resource_exists, find_api, has_kind,
  has_pod_security_policy_api, has_security_context_constraints_api,
}
use qubership_monitoring_ope.Reconciler.{
  create_or_update, create_if_missing, create_resource, delete_if_found, delete_resource, store,
  keep, discard, adopt, owned, set_reference, delete_under,
}
use qubership_monitoring_ope.Reconciler.Merge.{
  and_then, set_standard_labels, set_instance_labels, with_labels,
}
use qubership_monitoring_ope.Reconciler.Shapes.{standard_labels_from, instance_labels_from}
use qubership_monitoring_ope.Examples.World.{
  env, env-AreHealthy, env-IsLawfulEnv, no_sections, object, object-OfKind,
}
use qubership_monitoring_ope.Prometheus.{
  pvc_key, Manifests, delete_cluster_role, delete_cluster_role_binding, delete_ingress_v1,
  delete_ingress_v1beta1, delete_pod_monitor, delete_prometheus, delete_service_account,
  handle_cluster_role, handle_cluster_role_binding, handle_ingress_v1, handle_ingress_v1beta1,
  handle_pod_monitor, handle_prometheus, handle_service_account, install, remove_prometheus_pvc,
  run, run_section, uninstall,
}
use qubership_monitoring_ope.Prometheus.Steps.{IsKinded}
use qubership_monitoring_ope.Prometheus.Runs.{
  removed_kinds, Installed, Uninstalled, converges_prometheus, clears_prometheus,
  run_keeps_prometheus_pvc,
}

abbrev p : Prometheus
p = record {
  install = some true;
  paused = false;
  image = bytes "prometheus:v2";
  config_reloader_image = bytes "reloader:v1";
  operator = record { paused = false; image = bytes "operator:v1"; pod_monitor = none };
  has_storage = false;
  ingress = some (record { install = none; host = bytes "h" });
  pod_monitor = some (record { install = some true });
}

abbrev wanted : PlatformMonitoring
wanted = record no_sections { spec = record empty_spec { prometheus = some p } }

abbrev stored : PlatformMonitoring
stored = record no_sections {
  spec = record empty_spec { prometheus = some (record p { has_storage = true }) };
}

abbrev manifests : Manifests ℕ
manifests = record {
  service_account = λ c. ok (object Kind.service_account 1);
  cluster_role = λ c. ok (object Kind.cluster_role 2);
  cluster_role_binding = λ c. ok (object Kind.cluster_role_binding 3);
  prometheus = λ c. ok (object Kind.prometheus 4);
  ingress_v1beta1 = λ c. ok (object Kind.ingress_v1beta1 5);
  ingress_v1 = λ c. ok (object Kind.ingress_v1 6);
  pod_monitor = λ c. ok (object Kind.pod_monitor 7);
}

manifests-IsKinded : (cr : PlatformMonitoring) → IsKinded manifests cr
manifests-IsKinded cr = record {
  service_account = object-OfKind Kind.service_account 1;
  cluster_role = object-OfKind Kind.cluster_role 2;
  cluster_role_binding = object-OfKind Kind.cluster_role_binding 3;
  prometheus = object-OfKind Kind.prometheus 4;
  ingress_v1beta1 = object-OfKind Kind.ingress_v1beta1 5;
  ingress_v1 = object-OfKind Kind.ingress_v1 6;
  pod_monitor = object-OfKind Kind.pod_monitor 7;
}

-- The cluster that an installation has left.
abbrev filled : List (Object ℕ)
filled =
    object Kind.service_account 1
    ∷ object Kind.cluster_role 2
    ∷ object Kind.cluster_role_binding 3
    ∷ object Kind.prometheus 4
    ∷ object Kind.ingress_v1beta1 5
    ∷ object Kind.ingress_v1 6
    ∷ object Kind.pod_monitor 7
    ∷ []

converges_prometheus_example : Installed env manifests wanted p (run env manifests wanted []).1
unfolding run run_section install handle_service_account handle_cluster_role
    handle_cluster_role_binding handle_prometheus handle_ingress_v1beta1 handle_ingress_v1
    handle_pod_monitor delete_service_account delete_cluster_role delete_cluster_role_binding
    delete_prometheus delete_ingress_v1beta1 delete_ingress_v1 delete_pod_monitor
    remove_prometheus_pvc ◌>>◌ ◌>>=◌ continue pure lift call logged swallow raise is_not_found
    create_or_update create_if_missing create_resource delete_if_found delete_resource store keep
    discard adopt owned set_reference delete_under and_then set_standard_labels set_instance_labels
    with_labels standard_labels_from instance_labels_from read create_in update_in delete_in answer
    created updated deleted has_api has_ingress_v1_api has_ingress_v1beta1_api resource_exists
    find_api has_kind has_pod_security_policy_api has_security_context_constraints_api
    installs_prometheus wants_ingress wants_monitor installs_ingress installs_monitor set_or_false
    unset_or_true
converges_prometheus_example =
    converges_prometheus env manifests wanted env-IsLawfulEnv (manifests-IsKinded wanted) p refl
      refl refl [] refl

clears_prometheus_example :
    Uninstalled env manifests no_sections (run env manifests no_sections filled).1
unfolding run run_section uninstall delete_service_account delete_cluster_role
    delete_cluster_role_binding delete_prometheus delete_ingress_v1beta1 delete_ingress_v1
    delete_pod_monitor remove_prometheus_pvc ◌>>◌ ◌>>=◌ continue pure lift call logged swallow raise
    is_not_found create_or_update create_if_missing create_resource delete_if_found delete_resource
    store keep discard adopt owned set_reference delete_under and_then set_standard_labels
    set_instance_labels with_labels standard_labels_from instance_labels_from read create_in
    update_in delete_in answer created updated deleted has_api has_ingress_v1_api
    has_ingress_v1beta1_api resource_exists find_api has_kind has_pod_security_policy_api
    has_security_context_constraints_api installs_prometheus wants_ingress wants_monitor
    installs_ingress installs_monitor set_or_false unset_or_true
clears_prometheus_example =
    clears_prometheus env manifests no_sections env-IsLawfulEnv (manifests-IsKinded no_sections)
      (env-AreHealthy removed_kinds) refl filled refl

-- The claim of the pod, beside nothing else.
abbrev claim : Object ℕ
claim = record (object Kind.persistent_volume_claim 8) {
  name = bytes "prometheus-k8s-db-prometheus-k8s-0";
}

run_keeps_prometheus_pvc_example :
    env.client.get (pvc_key stored) (run env manifests stored (claim ∷ [])).1
    ≡ env.client.get (pvc_key stored) (claim ∷ [])
unfolding installs_prometheus set_or_false
run_keeps_prometheus_pvc_example =
    run_keeps_prometheus_pvc env manifests stored env-IsLawfulEnv (manifests-IsKinded stored) refl
      (claim ∷ [])

-- A server that does not answer in time.
abbrev slow : Env ℕ
slow = record env {
  client = record env.client { get = λ k s. err (record { reason = other; message = "timeout" }) };
}

slow-Unreadable : (s : List (Object ℕ)) → Unreadable slow s
unfolding is_not_found
slow-Unreadable s = record { at = λ k. refl }

run-Unreadable_example : (run slow manifests wanted filled).1 ≡ filled
run-Unreadable_example = run-Unreadable slow manifests wanted filled (slow-Unreadable filled)
