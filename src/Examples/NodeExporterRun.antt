-- ===== src/Examples/NodeExporterRun.antt =====
-- `Run` of controllers/node_exporter on the small cluster.
use qubership_monitoring_ope.Prelude.{ℕ, true, false, none, some, refl, []}
use qubership_monitoring_ope.Prelude.Text.{bytes}
use qubership_monitoring_ope.Api.{PlatformMonitoring, NodeExporter, empty_spec}
use qubership_monitoring_ope.Api.Install.{
  installs_node_exporter, installs_ingress, installs_monitor, wants_ingress, wants_monitor,
  set_or_false, unset_or_true,
}
use qubership_monitoring_ope.Exec.{
  ok, ◌>>◌, ◌>>=◌, continue, pure, lift, call, logged, swallow, raise, is_not_found,
}
use qubership_monitoring_ope.Cluster.{Kind}
use qubership_monitoring_ope.Cluster.Memory.{
  read, create_in, update_in, delete_in, answer, created, updated, deleted,
}
use qubership_monitoring_ope.Utils.Discovery.{
  has_api, has_ingress_v1_api, has_ingress_v1beta1_api, resource_exists, find_api, has_kind,
  has_pod_security_policy_api, has_security_context_constraints_api,
}
use qubership_monitoring_ope.Reconciler.{
  create_or_update, create_if_missing, create_resource, delete_if_found, delete_resource, store,
  keep, discard, adopt, owned, set_reference,
}
use qubership_monitoring_ope.Reconciler.Merge.{
  and_then, set_standard_labels, set_instance_labels, with_labels,
}
use qubership_monitoring_ope.Reconciler.Shapes.{standard_labels_from, instance_labels_from}
use qubership_monitoring_ope.Examples.World.{
  env, env-IsLawfulEnv, no_sections, object, object-OfKind,
}
use qubership_monitoring_ope.NodeExporter.{
  Manifests, delete_cluster_role, delete_cluster_role_binding, delete_daemon_set, delete_service,
  delete_service_account, delete_service_monitor, handle_cluster_role, handle_cluster_role_binding,
  handle_daemon_set, handle_service, handle_service_account, handle_service_monitor, install, run,
  run_section,
}
use qubership_monitoring_ope.NodeExporter.Steps.{IsKinded}
use qubership_monitoring_ope.NodeExporter.Runs.{Installed, converges_node_exporter}

abbrev ne : NodeExporter
ne = record {
  install = none;
  paused = false;
  image = bytes "node-exporter:v1";
  service_monitor = some (record { install = some true });
}

abbrev wanted : PlatformMonitoring
wanted = record no_sections { spec = record empty_spec { node_exporter = some ne } }

abbrev manifests : Manifests ℕ
manifests = record {
  service_account = λ c. ok (object Kind.service_account 1);
  cluster_role = λ c p q. ok (object Kind.cluster_role 2);
  cluster_role_binding = λ c. ok (object Kind.cluster_role_binding 3);
  service = λ c. ok (object Kind.service 4);
  daemon_set = λ c. ok (object Kind.daemon_set 5);
  service_monitor = λ c. ok (object Kind.service_monitor 6);
}

manifests-IsKinded : (cr : PlatformMonitoring) → IsKinded manifests cr
manifests-IsKinded cr = record {
  service_account = object-OfKind Kind.service_account 1;
  cluster_role = λ p q. object-OfKind Kind.cluster_role 2;
  cluster_role_binding = object-OfKind Kind.cluster_role_binding 3;
  service = object-OfKind Kind.service 4;
  daemon_set = object-OfKind Kind.daemon_set 5;
  service_monitor = object-OfKind Kind.service_monitor 6;
}

converges_node_exporter_example : Installed env manifests wanted ne (run env manifests wanted []).1
unfolding run run_section install handle_service_account handle_cluster_role
    handle_cluster_role_binding handle_service handle_daemon_set handle_service_monitor
    delete_service_account delete_cluster_role delete_cluster_role_binding delete_service
    delete_daemon_set delete_service_monitor ◌>>◌ ◌>>=◌ continue pure lift call logged swallow raise
    is_not_found create_or_update create_if_missing create_resource delete_if_found delete_resource
    store keep discard adopt owned set_reference and_then set_standard_labels set_instance_labels
    with_labels standard_labels_from instance_labels_from read create_in update_in delete_in answer
    created updated deleted has_api has_ingress_v1_api has_ingress_v1beta1_api resource_exists
    find_api has_kind has_pod_security_policy_api has_security_context_constraints_api
    installs_node_exporter wants_ingress wants_monitor installs_ingress installs_monitor
    set_or_false unset_or_true
converges_node_exporter_example =
    converges_node_exporter env manifests wanted env-IsLawfulEnv (manifests-IsKinded wanted) ne refl
      refl refl [] refl
