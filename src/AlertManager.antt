-- ===== src/AlertManager.antt =====
-- controllers/alertmanager: reconciler.go and handlers.go. The manifests of manifest.go, which start
-- from YAML assets, are the interface `Manifests`.
pub mod Steps
pub mod Runs
use qubership_monitoring_ope.Prelude.{Bool, false, ◌∷◌, Option, none, some, []}
use mathlib.Core.Option
use qubership_monitoring_ope.Prelude.Text.{Bytes}
use qubership_monitoring_ope.Api.{PlatformMonitoring, AlertManager}
use qubership_monitoring_ope.Api.Install.{installs_alert_manager, wants_ingress, wants_monitor}
use qubership_monitoring_ope.Exec.{Outcome, logged, when, ◌>>◌}
use qubership_monitoring_ope.Cluster.{Object}
use qubership_monitoring_ope.Utils.Discovery.{has_ingress_v1_api, has_ingress_v1beta1_api}
use qubership_monitoring_ope.Reconciler.{Action, Env, create_or_update, delete_if_found}
use qubership_monitoring_ope.Reconciler.Merge.{and_then, merge_annotated, merge_fields}
use qubership_monitoring_ope.Reconciler.Shapes.{
  apply_or_remove, branches, instance_labels_from, standard_labels_from,
}
use qubership_monitoring_ope.Reconciler.Fields.{
  ingress_fields, pod_monitor_fields, service_fields, spec,
}

pub record Manifests (V : Type 0) : Type 0 where
  pub secret : PlatformMonitoring → Outcome (Object V)
  pub service_account : PlatformMonitoring → Outcome (Object V)
  pub service : PlatformMonitoring → Outcome (Object V)
  pub alertmanager : PlatformMonitoring → Outcome (Object V)
  pub ingress_v1beta1 : PlatformMonitoring → Outcome (Object V)
  pub ingress_v1 : PlatformMonitoring → Outcome (Object V)
  pub pod_monitor : PlatformMonitoring → Outcome (Object V)

abbrev pub image : PlatformMonitoring → Option Bytes
image cr = Option.map (λ (am : AlertManager). am.image) cr.spec.alert_manager

-- The condition of `Run` on a section that is there, and on any.
abbrev pub wants : AlertManager → Bool
wants am = installs_alert_manager am

abbrev pub is_wanted : Option AlertManager → Bool
is_wanted none = false
is_wanted (some am) = wants am

module _ {V : Type 0} (env : Env V) (mf : Manifests V) (cr : PlatformMonitoring) where
  -- The manifests as the handlers label them.
  abbrev pub labelled_secret : Outcome (Object V)
  labelled_secret = and_then (mf.secret cr) (instance_labels_from (image cr))

  abbrev pub labelled_service_account : Outcome (Object V)
  labelled_service_account = and_then (mf.service_account cr) (standard_labels_from (image cr))

  abbrev pub labelled_service : Outcome (Object V)
  labelled_service = and_then (mf.service cr) (standard_labels_from (image cr))

  abbrev pub labelled_pod_monitor : Outcome (Object V)
  labelled_pod_monitor = and_then (mf.pod_monitor cr) (standard_labels_from (image cr))

  unfoldable pub handle_secret : Action env
  handle_secret = create_or_update env cr labelled_secret (merge_fields [])

  unfoldable pub handle_service_account : Action env
  handle_service_account = create_or_update env cr labelled_service_account (merge_fields [])

  unfoldable pub handle_service : Action env
  handle_service = create_or_update env cr labelled_service (merge_fields service_fields)

  unfoldable pub handle_alertmanager : Action env
  handle_alertmanager = create_or_update env cr (mf.alertmanager cr) (merge_fields (spec ∷ []))

  unfoldable pub handle_ingress_v1beta1 : Action env
  handle_ingress_v1beta1 =
      create_or_update env cr (mf.ingress_v1beta1 cr) (merge_annotated ingress_fields)

  unfoldable pub handle_ingress_v1 : Action env
  handle_ingress_v1 = create_or_update env cr (mf.ingress_v1 cr) (merge_annotated ingress_fields)

  unfoldable pub handle_pod_monitor : Action env
  handle_pod_monitor =
      create_or_update env cr labelled_pod_monitor (merge_fields pod_monitor_fields)

  unfoldable pub delete_service_account : Action env
  delete_service_account = delete_if_found env (mf.service_account cr)

  unfoldable pub delete_service : Action env
  delete_service = delete_if_found env (mf.service cr)

  unfoldable pub delete_secret : Action env
  delete_secret = delete_if_found env (mf.secret cr)

  unfoldable pub delete_alertmanager : Action env
  delete_alertmanager = delete_if_found env (mf.alertmanager cr)

  unfoldable pub delete_pod_monitor : Action env
  delete_pod_monitor = delete_if_found env (mf.pod_monitor cr)

  unfoldable pub delete_ingress_v1beta1 : Action env
  delete_ingress_v1beta1 = delete_if_found env (mf.ingress_v1beta1 cr)

  unfoldable pub delete_ingress_v1 : Action env
  delete_ingress_v1 = delete_if_found env (mf.ingress_v1 cr)

  unfoldable pub uninstall : Action env
  uninstall = do
    logged delete_service_account
    logged delete_service
    logged delete_secret
    logged delete_alertmanager
    logged delete_pod_monitor
    when (has_ingress_v1beta1_api env.discovery) (logged delete_ingress_v1beta1)
    when (has_ingress_v1_api env.discovery) (logged delete_ingress_v1)

  -- The branch of `Run` for a section that is installed and not paused.
  unfoldable pub install : AlertManager → Action env
  install am = do
    handle_secret
    handle_service_account
    handle_service
    handle_alertmanager
    when (has_ingress_v1beta1_api env.discovery)
        (apply_or_remove (wants_ingress am.ingress) handle_ingress_v1beta1 delete_ingress_v1beta1)
    when (has_ingress_v1_api env.discovery)
        (apply_or_remove (wants_ingress am.ingress) handle_ingress_v1 delete_ingress_v1)
    apply_or_remove (wants_monitor am.pod_monitor) handle_pod_monitor delete_pod_monitor

  unfoldable pub run_section : Option AlertManager → Action env
  run_section none = uninstall
  run_section (some am) = branches (wants am) am.paused (install am) uninstall

  unfoldable pub run : Action env
  unfolding run_section
  run = run_section cr.spec.alert_manager
