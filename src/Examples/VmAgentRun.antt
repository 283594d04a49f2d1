-- ===== src/Examples/VmAgentRun.antt =====
-- `Run` of controllers/victoriametrics/vmagent on the small cluster.
use qubership_monitoring_ope.Prelude.{ℕ, true, refl, []}
use qubership_monitoring_ope.Api.{PlatformMonitoring}
use qubership_monitoring_ope.Api.Install.{
  installs_vm_component, installs_vm_operator, installs_vm_user, installs_vm_cluster,
  installs_prometheus, installs_ingress, installs_monitor, wants_ingress, wants_monitor,
  set_or_false, unset_or_true,
}
use qubership_monitoring_ope.Exec.{
  ok, ◌>>◌, ◌>>=◌, continue, pure, lift, call, logged, swallow, raise, is_not_found,
}
use qubership_monitoring_ope.Cluster.{Kind}
use qubership_monitoring_ope.Cluster.Memory.{
  read, create_in, update_in, delete_in, answer, created, updated, deleted,
}
use qubership_monitoring_ope.Utils.Discovery.{
  has_api, has_ingress_v1_api, has_ingress_v1beta1_api, resource_exists, find_api, has_kind,
  has_pod_security_policy_api, has_security_context_constraints_api,
}
use qubership_monitoring_ope.Reconciler.{
  create_or_update, create_if_missing, create_resource, delete_if_found, delete_resource,
  update_resource, store, keep, discard, adopt, owned, set_reference,
}
use qubership_monitoring_ope.Reconciler.Merge.{
  and_then, set_standard_labels, set_instance_labels, with_labels, set_named_labels, merge_fields,
  merge_annotated, merge_named,
}
use qubership_monitoring_ope.Reconciler.Shapes.{standard_labels_from, instance_labels_from}
use qubership_monitoring_ope.Reconciler.Replace.{create_or_replace, drop_former, replace}
use qubership_monitoring_ope.Examples.World.{env, env-IsLawfulEnv, object, object-OfKind}
use qubership_monitoring_ope.Examples.Stack.{stack, with_stack}
use qubership_monitoring_ope.Victoriametrics.VmAgent.{
  Manifests, delete_ingress_v1, delete_ingress_v1beta1, handle_cluster_role,
  handle_cluster_role_binding, handle_ingress_v1, handle_ingress_v1beta1, handle_role,
  handle_role_binding, handle_service_account, handle_vm_agent, install, run, run_section,
}
use qubership_monitoring_ope.Victoriametrics.VmAgent.Steps.{IsKinded}
use qubership_monitoring_ope.Victoriametrics.VmAgent.Runs.{Installed, converges_vm_agent}

abbrev manifests : Manifests ℕ
manifests = record {
  service_account = λ c. ok (object Kind.service_account 1);
  cluster_role = λ c p q. ok (object Kind.cluster_role 2);
  cluster_role_binding = λ c. ok (object Kind.cluster_role_binding 3);
  role = λ c. ok (object Kind.role 4);
  role_binding = λ c. ok (object Kind.role_binding 5);
  vm_agent = λ c. ok (object Kind.vm_agent 6);
  ingress_v1beta1 = λ c. ok (object Kind.ingress_v1beta1 7);
  ingress_v1 = λ c. ok (object Kind.ingress_v1 8);
}

manifests-IsKinded : (cr : PlatformMonitoring) → IsKinded manifests cr
manifests-IsKinded cr = record {
  service_account = object-OfKind Kind.service_account 1;
  cluster_role = λ p q. object-OfKind Kind.cluster_role 2;
  cluster_role_binding = object-OfKind Kind.cluster_role_binding 3;
  role = object-OfKind Kind.role 4;
  role_binding = object-OfKind Kind.role_binding 5;
  vm_agent = object-OfKind Kind.vm_agent 6;
  ingress_v1beta1 = object-OfKind Kind.ingress_v1beta1 7;
  ingress_v1 = object-OfKind Kind.ingress_v1 8;
}

converges_vm_agent_example :
    Installed env manifests
      (with_stack (stack true))
      (stack true)
      (run env manifests (with_stack (stack true)) []).1
unfolding run run_section install handle_service_account handle_cluster_role
    handle_cluster_role_binding handle_role handle_role_binding handle_vm_agent
    handle_ingress_v1beta1 handle_ingress_v1 delete_ingress_v1beta1 delete_ingress_v1
    create_or_replace replace drop_former ◌>>◌ ◌>>=◌ continue pure lift call logged swallow raise
    is_not_found create_or_update create_if_missing create_resource delete_if_found delete_resource
    update_resource store keep discard adopt owned set_reference and_then set_standard_labels
    set_instance_labels with_labels set_named_labels merge_fields merge_annotated merge_named
    standard_labels_from instance_labels_from read create_in update_in delete_in answer created
    updated deleted has_api has_ingress_v1_api has_ingress_v1beta1_api resource_exists find_api
    has_kind has_pod_security_policy_api has_security_context_constraints_api installs_vm_component
    installs_vm_operator installs_vm_user installs_vm_cluster installs_prometheus installs_ingress
    installs_monitor wants_ingress wants_monitor set_or_false unset_or_true
converges_vm_agent_example =
    converges_vm_agent env manifests (with_stack (stack true)) env-IsLawfulEnv
      (manifests-IsKinded (with_stack (stack true))) (stack true) refl refl refl [] refl
