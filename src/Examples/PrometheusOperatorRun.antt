-- ===== src/Examples/PrometheusOperatorRun.antt =====
-- `Run` of controllers/prometheus-operator on the small cluster.
use qubership_monitoring_ope.Prelude.{ℕ, true, refl, []}
use qubership_monitoring_ope.Api.{PlatformMonitoring}
use qubership_monitoring_ope.Api.Install.{
  installs_vm_component, installs_vm_operator, installs_vm_user, installs_vm_cluster,
  installs_prometheus, installs_ingress, installs_monitor, wants_ingress, wants_monitor,
  set_or_false, unset_or_true,
}
use qubership_monitoring_ope.Exec.{
  ok, ◌>>◌, ◌>>=◌, continue, pure, lift, call, logged, swallow, raise, is_not_found,
}
use qubership_monitoring_ope.Cluster.{Kind}
use qubership_monitoring_ope.Cluster.Memory.{
  read, create_in, update_in, delete_in, answer, created, updated, deleted,
}
use qubership_monitoring_ope.Utils.Discovery.{
  has_api, has_ingress_v1_api, has_ingress_v1beta1_api, resource_exists, find_api, has_kind,
  has_pod_security_policy_api, has_security_context_constraints_api,
}
use qubership_monitoring_ope.Reconciler.{
  create_or_update, create_if_missing, create_resource, delete_if_found, delete_resource,
  update_resource, store, keep, discard, adopt, owned, set_reference,
}
use qubership_monitoring_ope.Reconciler.Merge.{
  and_then, set_standard_labels, set_instance_labels, with_labels, set_named_labels, merge_fields,
  merge_annotated, merge_named,
}
use qubership_monitoring_ope.Reconciler.Shapes.{standard_labels_from, instance_labels_from}
use qubership_monitoring_ope.Examples.World.{env, env-IsLawfulEnv, object, object-OfKind}
use qubership_monitoring_ope.Examples.Stack.{prometheus, with_prometheus}
use qubership_monitoring_ope.PrometheusOperator.{
  Manifests, handle_cluster_role, handle_cluster_role_binding, handle_deployment,
  handle_pod_monitor, handle_role, handle_role_binding, handle_service, handle_service_account,
  install, run, run_section,
}
use qubership_monitoring_ope.PrometheusOperator.Steps.{IsKinded}
use qubership_monitoring_ope.PrometheusOperator.Runs.{Installed, converges_prometheus_operator}

abbrev manifests : Manifests ℕ
manifests = record {
  role = λ c. ok (object Kind.role 1);
  service_account = λ c. ok (object Kind.service_account 2);
  cluster_role = λ c. ok (object Kind.cluster_role 3);
  cluster_role_binding = λ c. ok (object Kind.cluster_role_binding 4);
  role_binding = λ c. ok (object Kind.role_binding 5);
  service = λ c. ok (object Kind.service 6);
  deployment = λ c. ok (object Kind.deployment 7);
  pod_monitor = λ c. ok (object Kind.pod_monitor 8);
}

manifests-IsKinded : (cr : PlatformMonitoring) → IsKinded manifests cr
manifests-IsKinded cr = record {
  role = object-OfKind Kind.role 1;
  service_account = object-OfKind Kind.service_account 2;
  cluster_role = object-OfKind Kind.cluster_role 3;
  cluster_role_binding = object-OfKind Kind.cluster_role_binding 4;
  role_binding = object-OfKind Kind.role_binding 5;
  service = object-OfKind Kind.service 6;
  deployment = object-OfKind Kind.deployment 7;
  pod_monitor = object-OfKind Kind.pod_monitor 8;
}

converges_prometheus_operator_example :
    Installed env manifests
      (with_prometheus true)
      (prometheus true)
      (run env manifests (with_prometheus true) []).1
unfolding run run_section install handle_role handle_service_account handle_cluster_role
    handle_cluster_role_binding handle_role_binding handle_service handle_deployment
    handle_pod_monitor ◌>>◌ ◌>>=◌ continue pure lift call logged swallow raise is_not_found
    create_or_update create_if_missing create_resource delete_if_found delete_resource
    update_resource store keep discard adopt owned set_reference and_then set_standard_labels
    set_instance_labels with_labels set_named_labels merge_fields merge_annotated merge_named
    standard_labels_from instance_labels_from read create_in update_in delete_in answer created
    updated deleted has_api has_ingress_v1_api has_ingress_v1beta1_api resource_exists find_api
    has_kind has_pod_security_policy_api has_security_context_constraints_api installs_vm_component
    installs_vm_operator installs_vm_user installs_vm_cluster installs_prometheus installs_ingress
    installs_monitor wants_ingress wants_monitor set_or_false unset_or_true
converges_prometheus_operator_example =
    converges_prometheus_operator env manifests (with_prometheus true) env-IsLawfulEnv
      (manifests-IsKinded (with_prometheus true)) (prometheus true) refl refl refl [] refl
