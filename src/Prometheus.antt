-- ===== src/Prometheus.antt =====
-- controllers/prometheus: reconciler.go and handlers.go. The manifests of manifest.go, which start
-- from YAML assets, are the interface `Manifests`.
pub mod Steps
pub mod Runs
pub mod Unreadable
use qubership_monitoring_ope.Prelude.{Bool, false, ◌&&◌, ◌∷◌, Option, none, some, if◌then◌else◌, []}
use mathlib.Core.Option
use qubership_monitoring_ope.Prelude.Text.{Bytes, bytes}
use qubership_monitoring_ope.Api.{PlatformMonitoring, Prometheus}
use qubership_monitoring_ope.Api.Install.{installs_prometheus, wants_ingress, wants_monitor}
use qubership_monitoring_ope.Exec.{Outcome, logged, pure, when, ◌>>◌}
use qubership_monitoring_ope.Cluster.{Key, Kind, Object}
use qubership_monitoring_ope.Utils.Discovery.{has_ingress_v1_api, has_ingress_v1beta1_api}
use qubership_monitoring_ope.Reconciler.{
  Action, Env, create_or_update, delete_if_found, delete_under,
}
use qubership_monitoring_ope.Reconciler.Merge.{and_then, merge_annotated, merge_fields, merge_named}
use qubership_monitoring_ope.Reconciler.Shapes.{apply_or_remove, branches, standard_labels_from}
use qubership_monitoring_ope.Reconciler.Fields.{ingress_fields, pod_monitor_fields, rules, spec}

pub record Manifests (V : Type 0) : Type 0 where
  pub service_account : PlatformMonitoring → Outcome (Object V)
  pub cluster_role : PlatformMonitoring → Outcome (Object V)
  pub cluster_role_binding : PlatformMonitoring → Outcome (Object V)
  pub prometheus : PlatformMonitoring → Outcome (Object V)
  pub ingress_v1beta1 : PlatformMonitoring → Outcome (Object V)
  pub ingress_v1 : PlatformMonitoring → Outcome (Object V)
  pub pod_monitor : PlatformMonitoring → Outcome (Object V)

abbrev pub image : PlatformMonitoring → Option Bytes
image cr = Option.map (λ (p : Prometheus). p.image) cr.spec.prometheus

-- The condition of `Run` on a section that is there, and on any.
abbrev pub wants : Prometheus → Bool
wants p = installs_prometheus p

abbrev pub is_wanted : Option Prometheus → Bool
is_wanted none = false
is_wanted (some p) = wants p

-- `removePrometheusPVC` keeps the claim only for an installed section with storage.
abbrev pub needs_pvc : Option Prometheus → Bool
needs_pvc none = false
needs_pvc (some p) = installs_prometheus p && p.has_storage

abbrev pub pvc_key : PlatformMonitoring → Key
pvc_key cr = record {
  kind = Kind.persistent_volume_claim;
  namespace = cr.namespace;
  name = bytes "prometheus-k8s-db-prometheus-k8s-0";
}

-- The claim of the pod, if it is not needed any more.
unfoldable pub remove_prometheus_pvc : {V : Type 0} (env : Env V) → PlatformMonitoring → Action env
remove_prometheus_pvc env cr =
    if needs_pvc cr.spec.prometheus then pure tt else delete_under env (pvc_key cr)

module _ {V : Type 0} (env : Env V) (mf : Manifests V) (cr : PlatformMonitoring) where
  -- The manifests as the handlers label them.
  abbrev pub labelled_service_account : Outcome (Object V)
  labelled_service_account = and_then (mf.service_account cr) (standard_labels_from (image cr))

  abbrev pub labelled_cluster_role : Outcome (Object V)
  labelled_cluster_role = and_then (mf.cluster_role cr) (standard_labels_from (image cr))

  abbrev pub labelled_cluster_role_binding : Outcome (Object V)
  labelled_cluster_role_binding =
      and_then (mf.cluster_role_binding cr) (standard_labels_from (image cr))

  abbrev pub labelled_pod_monitor : Outcome (Object V)
  labelled_pod_monitor = and_then (mf.pod_monitor cr) (standard_labels_from (image cr))

  unfoldable pub handle_service_account : Action env
  handle_service_account = create_or_update env cr labelled_service_account (merge_fields [])

  unfoldable pub handle_cluster_role : Action env
  handle_cluster_role = create_or_update env cr labelled_cluster_role (merge_named (rules ∷ []))

  unfoldable pub handle_cluster_role_binding : Action env
  handle_cluster_role_binding =
      create_or_update env cr labelled_cluster_role_binding (merge_fields [])

  unfoldable pub handle_prometheus : Action env
  handle_prometheus = create_or_update env cr (mf.prometheus cr) (merge_fields (spec ∷ []))

  unfoldable pub handle_ingress_v1beta1 : Action env
  handle_ingress_v1beta1 =
      create_or_update env cr (mf.ingress_v1beta1 cr) (merge_annotated ingress_fields)

  unfoldable pub handle_ingress_v1 : Action env
  handle_ingress_v1 = create_or_update env cr (mf.ingress_v1 cr) (merge_annotated ingress_fields)

  unfoldable pub handle_pod_monitor : Action env
  handle_pod_monitor =
      create_or_update env cr labelled_pod_monitor (merge_fields pod_monitor_fields)

  unfoldable pub delete_cluster_role : Action env
  delete_cluster_role = delete_if_found env (mf.cluster_role cr)

  unfoldable pub delete_cluster_role_binding : Action env
  delete_cluster_role_binding = delete_if_found env (mf.cluster_role_binding cr)

  unfoldable pub delete_service_account : Action env
  delete_service_account = delete_if_found env (mf.service_account cr)

  unfoldable pub delete_prometheus : Action env
  delete_prometheus = delete_if_found env (mf.prometheus cr)

  unfoldable pub delete_pod_monitor : Action env
  delete_pod_monitor = delete_if_found env (mf.pod_monitor cr)

  unfoldable pub delete_ingress_v1beta1 : Action env
  delete_ingress_v1beta1 = delete_if_found env (mf.ingress_v1beta1 cr)

  unfoldable pub delete_ingress_v1 : Action env
  delete_ingress_v1 = delete_if_found env (mf.ingress_v1 cr)

  unfoldable pub uninstall : Action env
  uninstall = do
    when env.privileged_rights do logged delete_cluster_role; logged delete_cluster_role_binding
    logged delete_service_account
    logged delete_prometheus
    logged delete_pod_monitor
    when (has_ingress_v1beta1_api env.discovery) (logged delete_ingress_v1beta1)
    when (has_ingress_v1_api env.discovery) (logged delete_ingress_v1)

  -- The branch of `Run` for a section that is installed and not paused.
  unfoldable pub install : Prometheus → Action env
  install p = do
    handle_service_account
    when env.privileged_rights do handle_cluster_role; handle_cluster_role_binding
    handle_prometheus
    when (has_ingress_v1beta1_api env.discovery)
        (apply_or_remove (wants_ingress p.ingress) handle_ingress_v1beta1 delete_ingress_v1beta1)
    when (has_ingress_v1_api env.discovery)
        (apply_or_remove (wants_ingress p.ingress) handle_ingress_v1 delete_ingress_v1)
    apply_or_remove (wants_monitor p.pod_monitor) handle_pod_monitor delete_pod_monitor

  unfoldable pub run_section : Option Prometheus → Action env
  run_section none = uninstall
  run_section (some p) = branches (wants p) p.paused (install p) uninstall

  unfoldable pub run : Action env
  unfolding run_section
  run = do remove_prometheus_pvc env cr; run_section cr.spec.prometheus
