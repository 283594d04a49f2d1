-- ===== src/AlertManager/Steps.antt =====
-- The steps of `Run` and `uninstall` of the alertmanager reconciler, and the kinds that manifest.go
-- sets.
use qubership_monitoring_ope.Prelude.{◌≡◌, refl, [], ◌∷◌, List}
use qubership_monitoring_ope.Api.{PlatformMonitoring, AlertManager}
use qubership_monitoring_ope.Api.Install.{wants_ingress, wants_monitor}
use qubership_monitoring_ope.Cluster.{Kind}
use qubership_monitoring_ope.Utils.Discovery.{has_ingress_v1_api, has_ingress_v1beta1_api}
use qubership_monitoring_ope.Reconciler.{Env}
use qubership_monitoring_ope.Reconciler.Fields.{
  ingress_fields, pod_monitor_fields, service_fields, spec,
}
use qubership_monitoring_ope.Reconciler.Kinds.{
  OfKind, instance_labels_from-OfKind, standard_labels_from-OfKind,
}
use qubership_monitoring_ope.Reconciler.Frame.{IsLawfulEnv}
use qubership_monitoring_ope.Reconciler.Plan.{Step, chain}
use qubership_monitoring_ope.Reconciler.Plan.Steps.{choose_step, remove_step, when_step}
use qubership_monitoring_ope.Reconciler.Plan.Handlers.{fields_step, annotated_step}
use qubership_monitoring_ope.AlertManager.{
  Manifests, install, uninstall, image, labelled_secret, labelled_service_account, labelled_service,
  labelled_pod_monitor, handle_secret, handle_service_account, handle_service, handle_alertmanager,
  handle_ingress_v1beta1, handle_ingress_v1, handle_pod_monitor, delete_service_account,
  delete_service, delete_secret, delete_alertmanager, delete_pod_monitor, delete_ingress_v1beta1,
  delete_ingress_v1,
}

-- The kinds that manifest.go sets.
pub record IsKinded {V : Type 0} (mf : Manifests V) (cr : PlatformMonitoring) : Type 0 where
  pub secret : OfKind Kind.secret (mf.secret cr)
  pub service_account : OfKind Kind.service_account (mf.service_account cr)
  pub service : OfKind Kind.service (mf.service cr)
  pub alertmanager : OfKind Kind.alertmanager (mf.alertmanager cr)
  pub ingress_v1beta1 : OfKind Kind.ingress_v1beta1 (mf.ingress_v1beta1 cr)
  pub ingress_v1 : OfKind Kind.ingress_v1 (mf.ingress_v1 cr)
  pub pod_monitor : OfKind Kind.pod_monitor (mf.pod_monitor cr)

module _ {V : Type 0} (env : Env V) (mf : Manifests V) (cr : PlatformMonitoring)
    (kinds : IsKinded mf cr) where
  pub secret_kind : OfKind Kind.secret (labelled_secret env mf cr)
  secret_kind = instance_labels_from-OfKind _ (mf.secret cr) (image cr) kinds.secret

  pub service_account_kind : OfKind Kind.service_account (labelled_service_account env mf cr)
  service_account_kind =
      standard_labels_from-OfKind _ (mf.service_account cr) (image cr) kinds.service_account

  pub service_kind : OfKind Kind.service (labelled_service env mf cr)
  service_kind = standard_labels_from-OfKind _ (mf.service cr) (image cr) kinds.service

  pub pod_monitor_kind : OfKind Kind.pod_monitor (labelled_pod_monitor env mf cr)
  pod_monitor_kind = standard_labels_from-OfKind _ (mf.pod_monitor cr) (image cr) kinds.pod_monitor

module _ {V : Type 0} (env : Env V) (law : IsLawfulEnv env) (mf : Manifests V)
    (cr : PlatformMonitoring) (kinds : IsKinded mf cr) where
  -- The steps of `install`.
  abbrev pub install_steps : AlertManager → List (Step env)
  install_steps am =
      (fields_step env law cr Kind.secret (labelled_secret env mf cr) []
        (secret_kind env mf cr kinds))
      ∷ (fields_step env law cr Kind.service_account (labelled_service_account env mf cr) []
          (service_account_kind env mf cr kinds))
      ∷ (fields_step env law cr Kind.service (labelled_service env mf cr) service_fields
          (service_kind env mf cr kinds))
      ∷ (fields_step env law cr Kind.alertmanager (mf.alertmanager cr) (spec ∷ [])
          kinds.alertmanager)
      ∷ (when_step env (has_ingress_v1beta1_api env.discovery) (
          choose_step env law (wants_ingress am.ingress)
            (annotated_step env law cr Kind.ingress_v1beta1 (mf.ingress_v1beta1 cr) ingress_fields
              kinds.ingress_v1beta1)
            Kind.ingress_v1beta1 (mf.ingress_v1beta1 cr) kinds.ingress_v1beta1))
      ∷ (when_step env (has_ingress_v1_api env.discovery) (
          choose_step env law (wants_ingress am.ingress)
            (annotated_step env law cr Kind.ingress_v1 (mf.ingress_v1 cr) ingress_fields
              kinds.ingress_v1)
            Kind.ingress_v1 (mf.ingress_v1 cr) kinds.ingress_v1))
      ∷ (choose_step env law (wants_monitor am.pod_monitor)
          (fields_step env law cr Kind.pod_monitor (labelled_pod_monitor env mf cr)
            pod_monitor_fields (pod_monitor_kind env mf cr kinds))
          Kind.pod_monitor (mf.pod_monitor cr) kinds.pod_monitor)
      ∷ []

  pub chain-install_steps :
      (am : AlertManager) → chain env (install_steps am) ≡ install env mf cr am
  unfolding install handle_secret handle_service_account handle_service handle_alertmanager
      handle_ingress_v1beta1 handle_ingress_v1 handle_pod_monitor delete_ingress_v1beta1
      delete_ingress_v1 delete_pod_monitor
  chain-install_steps am = refl

  -- The steps of `uninstall`.
  abbrev pub removal_steps : List (Step env)
  removal_steps =
      (remove_step env law Kind.service_account (mf.service_account cr) kinds.service_account)
      ∷ (remove_step env law Kind.service (mf.service cr) kinds.service)
      ∷ (remove_step env law Kind.secret (mf.secret cr) kinds.secret)
      ∷ (remove_step env law Kind.alertmanager (mf.alertmanager cr) kinds.alertmanager)
      ∷ (remove_step env law Kind.pod_monitor (mf.pod_monitor cr) kinds.pod_monitor)
      ∷ (when_step env (has_ingress_v1beta1_api env.discovery)
          (remove_step env law Kind.ingress_v1beta1 (mf.ingress_v1beta1 cr) kinds.ingress_v1beta1))
      ∷ (when_step env (has_ingress_v1_api env.discovery)
          (remove_step env law Kind.ingress_v1 (mf.ingress_v1 cr) kinds.ingress_v1))
      ∷ []

  pub chain-removal_steps : chain env removal_steps ≡ uninstall env mf cr
  unfolding uninstall delete_service_account delete_service delete_secret delete_alertmanager
      delete_pod_monitor delete_ingress_v1beta1 delete_ingress_v1
  chain-removal_steps = refl
