-- ===== src/Pushgateway.antt =====
-- controllers/pushgateway: reconciler.go and handlers.go. The manifests of manifest.go, which start
-- from YAML assets, are the interface `Manifests`.
pub mod Steps
pub mod Runs
use qubership_monitoring_ope.Prelude.{Bool, false, ◌∷◌, List, Option, none, some, []}
use mathlib.Core.Option
use qubership_monitoring_ope.Prelude.Text.{Bytes}
use qubership_monitoring_ope.Api.{PlatformMonitoring, Pushgateway}
use qubership_monitoring_ope.Api.Install.{installs_pushgateway, wants_ingress, wants_monitor}
use qubership_monitoring_ope.Exec.{Outcome, logged, when, ◌>>◌}
use qubership_monitoring_ope.Cluster.{FieldPath, Object}
use qubership_monitoring_ope.Utils.Discovery.{has_ingress_v1_api, has_ingress_v1beta1_api}
use qubership_monitoring_ope.Reconciler.{
  Action, Env, create_if_missing, create_or_update, delete_if_found,
}
use qubership_monitoring_ope.Reconciler.Merge.{and_then, merge_annotated, merge_fields}
use qubership_monitoring_ope.Reconciler.Shapes.{apply_or_remove, branches, standard_labels_from}
use qubership_monitoring_ope.Reconciler.Fields.{
  ingress_fields, pod_affinity, pod_containers, pod_node_selector, pod_priority_class_name,
  pod_security_context, pod_service_account_name, service_fields, service_monitor_fields, spec,
  spec_replicas, template_annotations, template_labels,
}

pub record Manifests (V : Type 0) : Type 0 where
  pub deployment : PlatformMonitoring → Outcome (Object V)
  pub pvc : PlatformMonitoring → Outcome (Object V)
  pub service : PlatformMonitoring → Outcome (Object V)
  pub ingress_v1beta1 : PlatformMonitoring → Outcome (Object V)
  pub ingress_v1 : PlatformMonitoring → Outcome (Object V)
  pub service_monitor : PlatformMonitoring → Outcome (Object V)

abbrev pub deployment_fields : List FieldPath
deployment_fields =
    template_labels ∷ template_annotations ∷ pod_security_context ∷ pod_containers
    ∷ pod_service_account_name ∷ pod_node_selector ∷ pod_affinity ∷ spec_replicas
    ∷ pod_priority_class_name ∷ []

abbrev pub image : PlatformMonitoring → Option Bytes
image cr = Option.map (λ (pg : Pushgateway). pg.image) cr.spec.pushgateway

-- The condition of `Run` on a section that is there, and on any.
abbrev pub wants : Pushgateway → Bool
wants pg = installs_pushgateway pg

abbrev pub is_wanted : Option Pushgateway → Bool
is_wanted none = false
is_wanted (some pg) = wants pg

module _ {V : Type 0} (env : Env V) (mf : Manifests V) (cr : PlatformMonitoring) where
  -- The manifests as the handlers label them.
  abbrev pub labelled_service : Outcome (Object V)
  labelled_service = and_then (mf.service cr) (standard_labels_from (image cr))

  abbrev pub labelled_service_monitor : Outcome (Object V)
  labelled_service_monitor = and_then (mf.service_monitor cr) (standard_labels_from (image cr))

  unfoldable pub handle_deployment : Action env
  handle_deployment = create_or_update env cr (mf.deployment cr) (merge_annotated deployment_fields)

  unfoldable pub handle_pvc : Action env
  handle_pvc = create_if_missing env cr (mf.pvc cr)

  unfoldable pub handle_service : Action env
  handle_service = create_or_update env cr labelled_service (merge_fields service_fields)

  unfoldable pub handle_ingress_v1beta1 : Action env
  handle_ingress_v1beta1 =
      create_or_update env cr (mf.ingress_v1beta1 cr) (merge_annotated ingress_fields)

  unfoldable pub handle_ingress_v1 : Action env
  handle_ingress_v1 = create_or_update env cr (mf.ingress_v1 cr) (merge_annotated ingress_fields)

  unfoldable pub handle_service_monitor : Action env
  handle_service_monitor =
      create_or_update env cr labelled_service_monitor (merge_fields service_monitor_fields)

  unfoldable pub delete_deployment : Action env
  delete_deployment = delete_if_found env (mf.deployment cr)

  unfoldable pub delete_service : Action env
  delete_service = delete_if_found env (mf.service cr)

  unfoldable pub delete_ingress_v1beta1 : Action env
  delete_ingress_v1beta1 = delete_if_found env (mf.ingress_v1beta1 cr)

  unfoldable pub delete_ingress_v1 : Action env
  delete_ingress_v1 = delete_if_found env (mf.ingress_v1 cr)

  unfoldable pub delete_service_monitor : Action env
  delete_service_monitor = delete_if_found env (mf.service_monitor cr)

  unfoldable pub uninstall : Action env
  uninstall = do
    logged delete_deployment
    logged delete_service
    when (has_ingress_v1beta1_api env.discovery) (logged delete_ingress_v1beta1)
    when (has_ingress_v1_api env.discovery) (logged delete_ingress_v1)

  -- The branch of `Run` for a section that is installed and not paused.
  unfoldable pub install : Pushgateway → Action env
  install pg = do
    handle_service
    when (pg.has_storage) handle_pvc
    handle_deployment
    when (has_ingress_v1beta1_api env.discovery)
        (apply_or_remove (wants_ingress pg.ingress) handle_ingress_v1beta1 delete_ingress_v1beta1)
    when (has_ingress_v1_api env.discovery)
        (apply_or_remove (wants_ingress pg.ingress) handle_ingress_v1 delete_ingress_v1)
    apply_or_remove (wants_monitor pg.service_monitor) handle_service_monitor delete_service_monitor

  unfoldable pub run_section : Option Pushgateway → Action env
  run_section none = uninstall
  run_section (some pg) = branches (wants pg) pg.paused (install pg) uninstall

  unfoldable pub run : Action env
  unfolding run_section
  run = run_section cr.spec.pushgateway
