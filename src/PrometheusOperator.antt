-- ===== src/PrometheusOperator.antt =====
-- controllers/prometheus-operator: reconciler.go and handlers.go. The manifests of manifest.go,
-- which start from YAML assets, are the interface `Manifests`. `Run` tests Paused a second time
-- behind the role, where it is false.
pub mod Steps
pub mod Runs
use qubership_monitoring_ope.Prelude.{Bool, false, ◌∷◌, List, Option, none, some, []}
use mathlib.Core.Option
use qubership_monitoring_ope.Prelude.Text.{Bytes}
use qubership_monitoring_ope.Api.{PlatformMonitoring, Prometheus}
use qubership_monitoring_ope.Api.Install.{installs_prometheus, wants_monitor}
use qubership_monitoring_ope.Exec.{Outcome, logged, when, ◌>>◌}
use qubership_monitoring_ope.Cluster.{FieldPath, Object}
use qubership_monitoring_ope.Reconciler.{Action, Env, create_or_update, delete_if_found}
use qubership_monitoring_ope.Reconciler.Merge.{and_then, merge_fields, merge_named}
use qubership_monitoring_ope.Reconciler.Shapes.{branches, standard_labels_from}
use qubership_monitoring_ope.Reconciler.Fields.{
  pod_affinity, pod_containers, pod_monitor_fields, pod_node_selector, pod_priority_class_name,
  pod_security_context, pod_service_account_name, rules, service_fields, spec, spec_selector,
  template_labels, pod_tolerations,
}

pub record Manifests (V : Type 0) : Type 0 where
  pub role : PlatformMonitoring → Outcome (Object V)
  pub service_account : PlatformMonitoring → Outcome (Object V)
  pub cluster_role : PlatformMonitoring → Outcome (Object V)
  pub cluster_role_binding : PlatformMonitoring → Outcome (Object V)
  pub role_binding : PlatformMonitoring → Outcome (Object V)
  pub service : PlatformMonitoring → Outcome (Object V)
  pub deployment : PlatformMonitoring → Outcome (Object V)
  pub pod_monitor : PlatformMonitoring → Outcome (Object V)

abbrev pub deployment_fields : List FieldPath
deployment_fields =
    spec_selector ∷ template_labels ∷ pod_security_context ∷ pod_containers
    ∷ pod_service_account_name ∷ pod_node_selector ∷ pod_affinity ∷ pod_tolerations
    ∷ pod_priority_class_name ∷ []

abbrev pub image : PlatformMonitoring → Option Bytes
image cr = Option.map (λ (p : Prometheus). p.operator.image) cr.spec.prometheus

-- The condition of `Run` on a section that is there, and on any.
abbrev pub wants : Prometheus → Bool
wants p = installs_prometheus p

abbrev pub is_wanted : Option Prometheus → Bool
is_wanted none = false
is_wanted (some p) = wants p

module _ {V : Type 0} (env : Env V) (mf : Manifests V) (cr : PlatformMonitoring) where
  -- The manifests as the handlers label them.
  abbrev pub labelled_role : Outcome (Object V)
  labelled_role = and_then (mf.role cr) (standard_labels_from (image cr))

  abbrev pub labelled_service_account : Outcome (Object V)
  labelled_service_account = and_then (mf.service_account cr) (standard_labels_from (image cr))

  abbrev pub labelled_cluster_role : Outcome (Object V)
  labelled_cluster_role = and_then (mf.cluster_role cr) (standard_labels_from (image cr))

  abbrev pub labelled_cluster_role_binding : Outcome (Object V)
  labelled_cluster_role_binding =
      and_then (mf.cluster_role_binding cr) (standard_labels_from (image cr))

  abbrev pub labelled_role_binding : Outcome (Object V)
  labelled_role_binding = and_then (mf.role_binding cr) (standard_labels_from (image cr))

  abbrev pub labelled_service : Outcome (Object V)
  labelled_service = and_then (mf.service cr) (standard_labels_from (image cr))

  abbrev pub labelled_pod_monitor : Outcome (Object V)
  labelled_pod_monitor = and_then (mf.pod_monitor cr) (standard_labels_from (image cr))

  unfoldable pub handle_role : Action env
  handle_role = create_or_update env cr labelled_role (merge_named (rules ∷ []))

  unfoldable pub handle_service_account : Action env
  handle_service_account = create_or_update env cr labelled_service_account (merge_fields [])

  unfoldable pub handle_cluster_role : Action env
  handle_cluster_role = create_or_update env cr labelled_cluster_role (merge_named (rules ∷ []))

  unfoldable pub handle_cluster_role_binding : Action env
  handle_cluster_role_binding =
      create_or_update env cr labelled_cluster_role_binding (merge_fields [])

  unfoldable pub handle_role_binding : Action env
  handle_role_binding = create_or_update env cr labelled_role_binding (merge_fields [])

  unfoldable pub handle_service : Action env
  handle_service = create_or_update env cr labelled_service (merge_fields service_fields)

  unfoldable pub handle_deployment : Action env
  handle_deployment = create_or_update env cr (mf.deployment cr) (merge_fields deployment_fields)

  unfoldable pub handle_pod_monitor : Action env
  handle_pod_monitor =
      create_or_update env cr labelled_pod_monitor (merge_fields pod_monitor_fields)

  unfoldable pub delete_service_account : Action env
  delete_service_account = delete_if_found env (mf.service_account cr)

  unfoldable pub delete_cluster_role : Action env
  delete_cluster_role = delete_if_found env (mf.cluster_role cr)

  unfoldable pub delete_cluster_role_binding : Action env
  delete_cluster_role_binding = delete_if_found env (mf.cluster_role_binding cr)

  unfoldable pub delete_role : Action env
  delete_role = delete_if_found env (mf.role cr)

  unfoldable pub delete_role_binding : Action env
  delete_role_binding = delete_if_found env (mf.role_binding cr)

  unfoldable pub delete_service : Action env
  delete_service = delete_if_found env (mf.service cr)

  unfoldable pub delete_deployment : Action env
  delete_deployment = delete_if_found env (mf.deployment cr)

  unfoldable pub delete_pod_monitor : Action env
  delete_pod_monitor = delete_if_found env (mf.pod_monitor cr)

  unfoldable pub uninstall : Action env
  uninstall = do
    logged delete_service_account
    when env.privileged_rights do logged delete_cluster_role; logged delete_cluster_role_binding
    logged delete_role
    logged delete_role_binding
    logged delete_service
    logged delete_deployment
    logged delete_pod_monitor

  -- The branch of `Run` for a section that is installed and not paused.
  unfoldable pub install : Prometheus → Action env
  install p = do
    handle_role
    handle_service_account
    when env.privileged_rights do handle_cluster_role; handle_cluster_role_binding
    handle_role_binding
    handle_service
    handle_deployment
    when (wants_monitor p.operator.pod_monitor) handle_pod_monitor

  unfoldable pub run_section : Option Prometheus → Action env
  run_section none = uninstall
  run_section (some p) = branches (wants p) p.operator.paused (install p) uninstall

  unfoldable pub run : Action env
  unfolding run_section
  run = run_section cr.spec.prometheus
