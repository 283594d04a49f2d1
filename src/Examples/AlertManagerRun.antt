-- ===== src/Examples/AlertManagerRun.antt =====
-- `Run` of controllers/alert_manager on the small cluster.
use qubership_monitoring_ope.Prelude.{ℕ, true, false, none, some, refl, []}
use qubership_monitoring_ope.Prelude.Text.{bytes}
use qubership_monitoring_ope.Api.{PlatformMonitoring, AlertManager, empty_spec}
use qubership_monitoring_ope.Api.Install.{
  installs_alert_manager, installs_ingress, installs_monitor, wants_ingress, wants_monitor,
  set_or_false, unset_or_true,
}
use qubership_monitoring_ope.Exec.{
  ok, ◌>>◌, ◌>>=◌, continue, pure, lift, call, logged, swallow, raise, is_not_found,
}
use qubership_monitoring_ope.Cluster.{Kind}
use qubership_monitoring_ope.Cluster.Memory.{
  read, create_in, update_in, delete_in, answer, created, updated, deleted,
}
use qubership_monitoring_ope.Utils.Discovery.{
  has_api, has_ingress_v1_api, has_ingress_v1beta1_api, resource_exists, find_api, has_kind,
  has_pod_security_policy_api, has_security_context_constraints_api,
}
use qubership_monitoring_ope.Reconciler.{
  create_or_update, create_if_missing, create_resource, delete_if_found, delete_resource, store,
  keep, discard, adopt, owned, set_reference,
}
use qubership_monitoring_ope.Reconciler.Merge.{
  and_then, set_standard_labels, set_instance_labels, with_labels,
}
use qubership_monitoring_ope.Reconciler.Shapes.{standard_labels_from, instance_labels_from}
use qubership_monitoring_ope.Examples.World.{
  env, env-IsLawfulEnv, no_sections, object, object-OfKind,
}
use qubership_monitoring_ope.AlertManager.{
  Manifests, delete_alertmanager, delete_ingress_v1, delete_ingress_v1beta1, delete_pod_monitor,
  delete_secret, delete_service, delete_service_account, handle_alertmanager, handle_ingress_v1,
  handle_ingress_v1beta1, handle_pod_monitor, handle_secret, handle_service, handle_service_account,
  install, run, run_section,
}
use qubership_monitoring_ope.AlertManager.Steps.{IsKinded}
use qubership_monitoring_ope.AlertManager.Runs.{Installed, converges_alert_manager}

abbrev am : AlertManager
am = record {
  install = some true;
  paused = false;
  image = bytes "alertmanager:v0.27.0";
  ingress = some (record { install = none; host = bytes "h" });
  pod_monitor = some (record { install = some true });
}

abbrev wanted : PlatformMonitoring
wanted = record no_sections { spec = record empty_spec { alert_manager = some am } }

abbrev manifests : Manifests ℕ
manifests = record {
  secret = λ c. ok (object Kind.secret 1);
  service_account = λ c. ok (object Kind.service_account 2);
  service = λ c. ok (object Kind.service 3);
  alertmanager = λ c. ok (object Kind.alertmanager 4);
  ingress_v1beta1 = λ c. ok (object Kind.ingress_v1beta1 5);
  ingress_v1 = λ c. ok (object Kind.ingress_v1 6);
  pod_monitor = λ c. ok (object Kind.pod_monitor 7);
}

manifests-IsKinded : (cr : PlatformMonitoring) → IsKinded manifests cr
manifests-IsKinded cr = record {
  secret = object-OfKind Kind.secret 1;
  service_account = object-OfKind Kind.service_account 2;
  service = object-OfKind Kind.service 3;
  alertmanager = object-OfKind Kind.alertmanager 4;
  ingress_v1beta1 = object-OfKind Kind.ingress_v1beta1 5;
  ingress_v1 = object-OfKind Kind.ingress_v1 6;
  pod_monitor = object-OfKind Kind.pod_monitor 7;
}

converges_alert_manager_example : Installed env manifests wanted am (run env manifests wanted []).1
unfolding run run_section install handle_secret handle_service_account handle_service
    handle_alertmanager handle_ingress_v1beta1 handle_ingress_v1 handle_pod_monitor delete_secret
    delete_service_account delete_service delete_alertmanager delete_ingress_v1beta1
    delete_ingress_v1 delete_pod_monitor ◌>>◌ ◌>>=◌ continue pure lift call logged swallow raise
    is_not_found create_or_update create_if_missing create_resource delete_if_found delete_resource
    store keep discard adopt owned set_reference and_then set_standard_labels set_instance_labels
    with_labels standard_labels_from instance_labels_from read create_in update_in delete_in answer
    created updated deleted has_api has_ingress_v1_api has_ingress_v1beta1_api resource_exists
    find_api has_kind has_pod_security_policy_api has_security_context_constraints_api
    installs_alert_manager wants_ingress wants_monitor installs_ingress installs_monitor
    set_or_false unset_or_true
converges_alert_manager_example =
    converges_alert_manager env manifests wanted env-IsLawfulEnv (manifests-IsKinded wanted) am refl
      refl refl [] refl
