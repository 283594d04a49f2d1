-- ===== src/Examples/PushgatewayRun.antt =====
-- `Run` of controllers/pushgateway on the small cluster.
use qubership_monitoring_ope.Prelude.{ℕ, true, false, none, some, ◌≡◌, List, ◌∷◌, refl, []}
use qubership_monitoring_ope.Prelude.Text.{bytes}
use qubership_monitoring_ope.Api.{PlatformMonitoring, Pushgateway, empty_spec}
use qubership_monitoring_ope.Api.Install.{
  installs_pushgateway, installs_ingress, installs_monitor, wants_ingress, wants_monitor,
  set_or_false, unset_or_true,
}
use qubership_monitoring_ope.Exec.{
  ok, ◌>>◌, ◌>>=◌, continue, pure, lift, call, logged, swallow, raise, is_not_found,
}
use qubership_monitoring_ope.Cluster.{Kind, Object}
use qubership_monitoring_ope.Cluster.Memory.{
  read, create_in, update_in, delete_in, answer, created, updated, deleted,
}
use qubership_monitoring_ope.Utils.Discovery.{
  has_api, has_ingress_v1_api, has_ingress_v1beta1_api, resource_exists, find_api, has_kind,
  has_pod_security_policy_api, has_security_context_constraints_api,
}
use qubership_monitoring_ope.Reconciler.{
  create_or_update, create_if_missing, create_resource, delete_if_found, delete_resource, store,
  keep, discard, adopt, owned, set_reference,
}
use qubership_monitoring_ope.Reconciler.Merge.{
  and_then, set_standard_labels, set_instance_labels, with_labels,
}
use qubership_monitoring_ope.Reconciler.Shapes.{standard_labels_from, instance_labels_from}
use qubership_monitoring_ope.Examples.World.{
  env, env-AreHealthy, env-IsLawfulEnv, no_sections, object, object-OfKind,
}
use qubership_monitoring_ope.Pushgateway.{
  Manifests, delete_deployment, delete_ingress_v1, delete_ingress_v1beta1, delete_service,
  delete_service_monitor, handle_deployment, handle_ingress_v1, handle_ingress_v1beta1, handle_pvc,
  handle_service, handle_service_monitor, install, run, run_section, uninstall,
}
use qubership_monitoring_ope.Pushgateway.Steps.{IsKinded}
use qubership_monitoring_ope.Pushgateway.Runs.{
  removed_kinds, Installed, Uninstalled, converges_pushgateway, clears_pushgateway,
  uninstall_leaves_monitor,
}

abbrev pub pg : Pushgateway
pg = record {
  install = some true;
  paused = false;
  image = bytes "prom/pushgateway:v1.6.2";
  has_storage = true;
  ingress = some (record { install = none; host = bytes "h" });
  service_monitor = some (record { install = some true });
}

abbrev pub wanted : PlatformMonitoring
wanted = record no_sections { spec = record empty_spec { pushgateway = some pg } }

abbrev pub manifests : Manifests ℕ
manifests = record {
  deployment = λ c. ok (object Kind.deployment 1);
  pvc = λ c. ok (object Kind.persistent_volume_claim 2);
  service = λ c. ok (object Kind.service 3);
  ingress_v1beta1 = λ c. ok (object Kind.ingress_v1beta1 4);
  ingress_v1 = λ c. ok (object Kind.ingress_v1 5);
  service_monitor = λ c. ok (object Kind.service_monitor 6);
}

pub manifests-IsKinded : (cr : PlatformMonitoring) → IsKinded manifests cr
manifests-IsKinded cr = record {
  deployment = object-OfKind Kind.deployment 1;
  pvc = object-OfKind Kind.persistent_volume_claim 2;
  service = object-OfKind Kind.service 3;
  ingress_v1beta1 = object-OfKind Kind.ingress_v1beta1 4;
  ingress_v1 = object-OfKind Kind.ingress_v1 5;
  service_monitor = object-OfKind Kind.service_monitor 6;
}

-- The cluster that an installation has left.
abbrev filled : List (Object ℕ)
filled =
    object Kind.deployment 1
    ∷ object Kind.service 3
    ∷ object Kind.ingress_v1beta1 4
    ∷ object Kind.ingress_v1 5
    ∷ object Kind.service_monitor 6
    ∷ []

converges_pushgateway_example : Installed env manifests wanted pg (run env manifests wanted []).1
unfolding run run_section install handle_deployment handle_pvc handle_service handle_ingress_v1beta1
    handle_ingress_v1 handle_service_monitor delete_deployment delete_service delete_ingress_v1beta1
    delete_ingress_v1 delete_service_monitor ◌>>◌ ◌>>=◌ continue pure lift call logged swallow raise
    is_not_found create_or_update create_if_missing create_resource delete_if_found delete_resource
    store keep discard adopt owned set_reference and_then set_standard_labels set_instance_labels
    with_labels standard_labels_from instance_labels_from read create_in update_in delete_in answer
    created updated deleted has_api has_ingress_v1_api has_ingress_v1beta1_api resource_exists
    find_api has_kind has_pod_security_policy_api has_security_context_constraints_api
    installs_pushgateway wants_ingress wants_monitor installs_ingress installs_monitor set_or_false
    unset_or_true
converges_pushgateway_example =
    converges_pushgateway env manifests wanted env-IsLawfulEnv (manifests-IsKinded wanted) pg refl
      refl refl [] refl

clears_pushgateway_example :
    Uninstalled env manifests no_sections (run env manifests no_sections filled).1
unfolding run run_section uninstall delete_deployment delete_service delete_ingress_v1beta1
    delete_ingress_v1 delete_service_monitor ◌>>◌ ◌>>=◌ continue pure lift call logged swallow raise
    is_not_found create_or_update create_if_missing create_resource delete_if_found delete_resource
    store keep discard adopt owned set_reference and_then set_standard_labels set_instance_labels
    with_labels standard_labels_from instance_labels_from read create_in update_in delete_in answer
    created updated deleted has_api has_ingress_v1_api has_ingress_v1beta1_api resource_exists
    find_api has_kind has_pod_security_policy_api has_security_context_constraints_api
    installs_pushgateway wants_ingress wants_monitor installs_ingress installs_monitor set_or_false
    unset_or_true
clears_pushgateway_example =
    clears_pushgateway env manifests no_sections env-IsLawfulEnv (manifests-IsKinded no_sections)
      (env-AreHealthy removed_kinds) refl filled refl

-- The installation's service monitor is there after the removal.
uninstall_leaves_monitor_example :
    (env.client.get
        (record {
          kind = Kind.service_monitor;
          namespace = bytes "monitoring";
          name = bytes "component";
        })
        (run env manifests no_sections filled).1
      ≡ env.client.get
          (record {
            kind = Kind.service_monitor;
            namespace = bytes "monitoring";
            name = bytes "component";
          })
          filled)
    × (env.client.get
          (record {
            kind = Kind.persistent_volume_claim;
            namespace = bytes "monitoring";
            name = bytes "component";
          })
          (run env manifests no_sections filled).1
        ≡ env.client.get
            (record {
              kind = Kind.persistent_volume_claim;
              namespace = bytes "monitoring";
              name = bytes "component";
            })
            filled)
uninstall_leaves_monitor_example =
    uninstall_leaves_monitor env manifests no_sections env-IsLawfulEnv
      (manifests-IsKinded no_sections) refl filled (bytes "monitoring") (bytes "component")
