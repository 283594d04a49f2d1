-- ===== src/KubeStateMetrics.antt =====
-- controllers/kubestatemetrics: reconciler.go and handlers.go. The manifests of manifest.go, which
-- start from YAML assets, are the interface `Manifests`.
pub mod Steps
pub mod Runs
use qubership_monitoring_ope.Prelude.{Bool, false, ◌||◌, ◌∷◌, List, Option, none, some, []}
use mathlib.Core.Option
use qubership_monitoring_ope.Prelude.Text.{Bytes}
use qubership_monitoring_ope.Api.{PlatformMonitoring, KubeStateMetrics}
use qubership_monitoring_ope.Api.Install.{installs_kube_state_metrics, wants_monitor}
use qubership_monitoring_ope.Exec.{Outcome, logged, when, ◌>>◌}
use qubership_monitoring_ope.Cluster.{FieldPath, Object}
use qubership_monitoring_ope.Utils.Discovery.{has_ingress_v1_api, has_ingress_v1beta1_api}
use qubership_monitoring_ope.Reconciler.{Action, Env, create_or_update, delete_if_found}
use qubership_monitoring_ope.Reconciler.Merge.{and_then, merge_fields, merge_named}
use qubership_monitoring_ope.Reconciler.Shapes.{apply_or_remove, branches, standard_labels_from}
use qubership_monitoring_ope.Reconciler.Fields.{
  pod_affinity, pod_containers, pod_node_selector, pod_priority_class_name, pod_security_context,
  pod_service_account_name, rules, service_fields, service_monitor_fields, spec, template_labels,
}

pub record Manifests (V : Type 0) : Type 0 where
  pub service_account : PlatformMonitoring → Outcome (Object V)
  pub cluster_role : PlatformMonitoring → Outcome (Object V)
  pub cluster_role_binding : PlatformMonitoring → Outcome (Object V)
  pub service : PlatformMonitoring → Outcome (Object V)
  pub deployment : PlatformMonitoring → Bool → Outcome (Object V)
  pub service_monitor : PlatformMonitoring → Outcome (Object V)

abbrev pub deployment_fields : List FieldPath
deployment_fields =
    template_labels ∷ pod_security_context ∷ pod_containers ∷ pod_service_account_name
    ∷ pod_node_selector ∷ pod_affinity ∷ pod_priority_class_name ∷ []

abbrev pub image : PlatformMonitoring → Option Bytes
image cr = Option.map (λ (ksm : KubeStateMetrics). ksm.image) cr.spec.kube_state_metrics

-- The condition of `Run` on a section that is there, and on any.
abbrev pub wants : KubeStateMetrics → Bool
wants ksm = installs_kube_state_metrics ksm

abbrev pub is_wanted : Option KubeStateMetrics → Bool
is_wanted none = false
is_wanted (some ksm) = wants ksm

module _ {V : Type 0} (env : Env V) (mf : Manifests V) (cr : PlatformMonitoring) where
  abbrev pub deployment_manifest : Outcome (Object V)
  deployment_manifest =
      mf.deployment cr (has_ingress_v1_api env.discovery || has_ingress_v1beta1_api env.discovery)

  -- The manifests as the handlers label them.
  abbrev pub labelled_service_account : Outcome (Object V)
  labelled_service_account = and_then (mf.service_account cr) (standard_labels_from (image cr))

  abbrev pub labelled_cluster_role : Outcome (Object V)
  labelled_cluster_role = and_then (mf.cluster_role cr) (standard_labels_from (image cr))

  abbrev pub labelled_cluster_role_binding : Outcome (Object V)
  labelled_cluster_role_binding =
      and_then (mf.cluster_role_binding cr) (standard_labels_from (image cr))

  abbrev pub labelled_service : Outcome (Object V)
  labelled_service = and_then (mf.service cr) (standard_labels_from (image cr))

  abbrev pub labelled_service_monitor : Outcome (Object V)
  labelled_service_monitor = and_then (mf.service_monitor cr) (standard_labels_from (image cr))

  unfoldable pub handle_service_account : Action env
  handle_service_account = create_or_update env cr labelled_service_account (merge_fields [])

  unfoldable pub handle_cluster_role : Action env
  handle_cluster_role = create_or_update env cr labelled_cluster_role (merge_named (rules ∷ []))

  unfoldable pub handle_cluster_role_binding : Action env
  handle_cluster_role_binding =
      create_or_update env cr labelled_cluster_role_binding (merge_fields [])

  unfoldable pub handle_service : Action env
  handle_service = create_or_update env cr labelled_service (merge_fields service_fields)

  unfoldable pub handle_deployment : Action env
  handle_deployment = create_or_update env cr deployment_manifest (merge_fields deployment_fields)

  unfoldable pub handle_service_monitor : Action env
  handle_service_monitor =
      create_or_update env cr labelled_service_monitor (merge_fields service_monitor_fields)

  unfoldable pub delete_cluster_role : Action env
  delete_cluster_role = delete_if_found env (mf.cluster_role cr)

  unfoldable pub delete_cluster_role_binding : Action env
  delete_cluster_role_binding = delete_if_found env (mf.cluster_role_binding cr)

  unfoldable pub delete_service_account : Action env
  delete_service_account = delete_if_found env (mf.service_account cr)

  unfoldable pub delete_deployment : Action env
  delete_deployment = delete_if_found env deployment_manifest

  unfoldable pub delete_service : Action env
  delete_service = delete_if_found env (mf.service cr)

  unfoldable pub delete_service_monitor : Action env
  delete_service_monitor = delete_if_found env (mf.service_monitor cr)

  unfoldable pub uninstall : Action env
  uninstall = do
    when env.privileged_rights do logged delete_cluster_role; logged delete_cluster_role_binding
    logged delete_service_account
    logged delete_deployment
    logged delete_service
    logged delete_service_monitor

  -- The branch of `Run` for a section that is installed and not paused.
  unfoldable pub install : KubeStateMetrics → Action env
  install ksm = do
    handle_service_account
    when env.privileged_rights do handle_cluster_role; handle_cluster_role_binding
    handle_service
    handle_deployment
    apply_or_remove (wants_monitor ksm.service_monitor) handle_service_monitor
        delete_service_monitor

  unfoldable pub run_section : Option KubeStateMetrics → Action env
  run_section none = uninstall
  run_section (some ksm) = branches (wants ksm) ksm.paused (install ksm) uninstall

  unfoldable pub run : Action env
  unfolding run_section
  run = run_section cr.spec.kube_state_metrics
