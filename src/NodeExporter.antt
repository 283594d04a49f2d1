-- ===== src/NodeExporter.antt =====
-- controllers/nodeexporter: reconciler.go and handlers.go. The manifests of manifest.go, which start
-- from YAML assets, are the interface `Manifests`.
pub mod Steps
pub mod Runs
use qubership_monitoring_ope.Prelude.{Bool, false, ◌∷◌, List, Option, none, some, []}
use mathlib.Core.Option
use qubership_monitoring_ope.Prelude.Text.{Bytes}
use qubership_monitoring_ope.Api.{PlatformMonitoring, NodeExporter}
use qubership_monitoring_ope.Api.Install.{installs_node_exporter, wants_monitor}
use qubership_monitoring_ope.Exec.{Outcome, logged, when, ◌>>◌}
use qubership_monitoring_ope.Cluster.{FieldPath, Object}
use qubership_monitoring_ope.Utils.Discovery.{
  has_pod_security_policy_api, has_security_context_constraints_api,
}
use qubership_monitoring_ope.Reconciler.{Action, Env, create_or_update, delete_if_found}
use qubership_monitoring_ope.Reconciler.Merge.{and_then, merge_fields, merge_named}
use qubership_monitoring_ope.Reconciler.Shapes.{apply_or_remove, branches, standard_labels_from}
use qubership_monitoring_ope.Reconciler.Fields.{
  pod_spec, rules, service_fields, service_monitor_fields, spec, template_labels,
}

pub record Manifests (V : Type 0) : Type 0 where
  pub service_account : PlatformMonitoring → Outcome (Object V)
  pub cluster_role : PlatformMonitoring → Bool → Bool → Outcome (Object V)
  pub cluster_role_binding : PlatformMonitoring → Outcome (Object V)
  pub service : PlatformMonitoring → Outcome (Object V)
  pub daemon_set : PlatformMonitoring → Outcome (Object V)
  pub service_monitor : PlatformMonitoring → Outcome (Object V)

abbrev pub daemon_set_fields : List FieldPath
daemon_set_fields = template_labels ∷ pod_spec ∷ []

abbrev pub image : PlatformMonitoring → Option Bytes
image cr = Option.map (λ (ne : NodeExporter). ne.image) cr.spec.node_exporter

-- The condition of `Run` on a section that is there, and on any.
abbrev pub wants : NodeExporter → Bool
wants ne = installs_node_exporter ne

abbrev pub is_wanted : Option NodeExporter → Bool
is_wanted none = false
is_wanted (some ne) = wants ne

module _ {V : Type 0} (env : Env V) (mf : Manifests V) (cr : PlatformMonitoring) where
  abbrev pub cluster_role_manifest : Outcome (Object V)
  cluster_role_manifest =
      mf.cluster_role cr (has_pod_security_policy_api env.discovery)
        (has_security_context_constraints_api env.discovery)

  -- The manifests as the handlers label them.
  abbrev pub labelled_service_account : Outcome (Object V)
  labelled_service_account = and_then (mf.service_account cr) (standard_labels_from (image cr))

  abbrev pub labelled_cluster_role : Outcome (Object V)
  labelled_cluster_role = and_then cluster_role_manifest (standard_labels_from (image cr))

  abbrev pub labelled_cluster_role_binding : Outcome (Object V)
  labelled_cluster_role_binding =
      and_then (mf.cluster_role_binding cr) (standard_labels_from (image cr))

  abbrev pub labelled_service : Outcome (Object V)
  labelled_service = and_then (mf.service cr) (standard_labels_from (image cr))

  abbrev pub labelled_service_monitor : Outcome (Object V)
  labelled_service_monitor = and_then (mf.service_monitor cr) (standard_labels_from (image cr))

  unfoldable pub handle_service_account : Action env
  handle_service_account = create_or_update env cr labelled_service_account (merge_fields [])

  unfoldable pub handle_cluster_role : Action env
  handle_cluster_role = create_or_update env cr labelled_cluster_role (merge_named (rules ∷ []))

  unfoldable pub handle_cluster_role_binding : Action env
  handle_cluster_role_binding =
      create_or_update env cr labelled_cluster_role_binding (merge_fields [])

  unfoldable pub handle_service : Action env
  handle_service = create_or_update env cr labelled_service (merge_fields service_fields)

  unfoldable pub handle_daemon_set : Action env
  handle_daemon_set = create_or_update env cr (mf.daemon_set cr) (merge_fields daemon_set_fields)

  unfoldable pub handle_service_monitor : Action env
  handle_service_monitor =
      create_or_update env cr labelled_service_monitor (merge_fields service_monitor_fields)

  unfoldable pub delete_cluster_role : Action env
  delete_cluster_role = delete_if_found env cluster_role_manifest

  unfoldable pub delete_cluster_role_binding : Action env
  delete_cluster_role_binding = delete_if_found env (mf.cluster_role_binding cr)

  unfoldable pub delete_service_account : Action env
  delete_service_account = delete_if_found env (mf.service_account cr)

  unfoldable pub delete_daemon_set : Action env
  delete_daemon_set = delete_if_found env (mf.daemon_set cr)

  unfoldable pub delete_service : Action env
  delete_service = delete_if_found env (mf.service cr)

  unfoldable pub delete_service_monitor : Action env
  delete_service_monitor = delete_if_found env (mf.service_monitor cr)

  unfoldable pub uninstall : Action env
  uninstall = do
    when env.privileged_rights do logged delete_cluster_role; logged delete_cluster_role_binding
    logged delete_service_account
    logged delete_daemon_set
    logged delete_service
    logged delete_service_monitor

  -- The branch of `Run` for a section that is installed and not paused.
  unfoldable pub install : NodeExporter → Action env
  install ne = do
    handle_service_account
    when env.privileged_rights do handle_cluster_role; handle_cluster_role_binding
    handle_service
    handle_daemon_set
    apply_or_remove (wants_monitor ne.service_monitor) handle_service_monitor delete_service_monitor

  unfoldable pub run_section : Option NodeExporter → Action env
  run_section none = uninstall
  run_section (some ne) = branches (wants ne) ne.paused (install ne) uninstall

  unfoldable pub run : Action env
  unfolding run_section
  run = run_section cr.spec.node_exporter
