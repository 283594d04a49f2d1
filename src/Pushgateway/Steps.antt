-- ===== src/Pushgateway/Steps.antt =====
-- The steps of `Run` and `uninstall` of the pushgateway reconciler, and the kinds that manifest.go
-- sets.
use qubership_monitoring_ope.Prelude.{◌≡◌, refl, [], ◌∷◌, List}
use qubership_monitoring_ope.Api.{PlatformMonitoring, Pushgateway}
use qubership_monitoring_ope.Api.Install.{wants_ingress, wants_monitor}
use qubership_monitoring_ope.Cluster.{Kind}
use qubership_monitoring_ope.Utils.Discovery.{has_ingress_v1_api, has_ingress_v1beta1_api}
use qubership_monitoring_ope.Reconciler.{Env}
use qubership_monitoring_ope.Reconciler.Fields.{
  ingress_fields, service_fields, service_monitor_fields,
}
use qubership_monitoring_ope.Reconciler.Kinds.{OfKind, standard_labels_from-OfKind}
use qubership_monitoring_ope.Reconciler.Frame.{IsLawfulEnv}
use qubership_monitoring_ope.Reconciler.Plan.{Step, chain}
use qubership_monitoring_ope.Reconciler.Plan.Steps.{choose_step, remove_step, when_step}
use qubership_monitoring_ope.Reconciler.Plan.Present.{missing_step}
use qubership_monitoring_ope.Reconciler.Plan.Handlers.{fields_step, annotated_step}
use qubership_monitoring_ope.Pushgateway.{
  Manifests, install, uninstall, deployment_fields, image, labelled_service,
  labelled_service_monitor, handle_deployment, handle_pvc, handle_service, handle_ingress_v1beta1,
  handle_ingress_v1, handle_service_monitor, delete_deployment, delete_service,
  delete_ingress_v1beta1, delete_ingress_v1, delete_service_monitor,
}

-- The kinds that manifest.go sets.
pub record IsKinded {V : Type 0} (mf : Manifests V) (cr : PlatformMonitoring) : Type 0 where
  pub deployment : OfKind Kind.deployment (mf.deployment cr)
  pub pvc : OfKind Kind.persistent_volume_claim (mf.pvc cr)
  pub service : OfKind Kind.service (mf.service cr)
  pub ingress_v1beta1 : OfKind Kind.ingress_v1beta1 (mf.ingress_v1beta1 cr)
  pub ingress_v1 : OfKind Kind.ingress_v1 (mf.ingress_v1 cr)
  pub service_monitor : OfKind Kind.service_monitor (mf.service_monitor cr)

module _ {V : Type 0} (env : Env V) (mf : Manifests V) (cr : PlatformMonitoring)
    (kinds : IsKinded mf cr) where
  pub service_kind : OfKind Kind.service (labelled_service env mf cr)
  service_kind = standard_labels_from-OfKind _ (mf.service cr) (image cr) kinds.service

  pub service_monitor_kind : OfKind Kind.service_monitor (labelled_service_monitor env mf cr)
  service_monitor_kind =
      standard_labels_from-OfKind _ (mf.service_monitor cr) (image cr) kinds.service_monitor

module _ {V : Type 0} (env : Env V) (law : IsLawfulEnv env) (mf : Manifests V)
    (cr : PlatformMonitoring) (kinds : IsKinded mf cr) where
  -- The steps of `install`.
  abbrev pub install_steps : Pushgateway → List (Step env)
  install_steps pg =
      (fields_step env law cr Kind.service (labelled_service env mf cr) service_fields
        (service_kind env mf cr kinds))
      ∷ (when_step env (pg.has_storage)
          (missing_step env law cr Kind.persistent_volume_claim (mf.pvc cr) kinds.pvc))
      ∷ (annotated_step env law cr Kind.deployment (mf.deployment cr) deployment_fields
          kinds.deployment)
      ∷ (when_step env (has_ingress_v1beta1_api env.discovery) (
          choose_step env law (wants_ingress pg.ingress)
            (annotated_step env law cr Kind.ingress_v1beta1 (mf.ingress_v1beta1 cr) ingress_fields
              kinds.ingress_v1beta1)
            Kind.ingress_v1beta1 (mf.ingress_v1beta1 cr) kinds.ingress_v1beta1))
      ∷ (when_step env (has_ingress_v1_api env.discovery) (
          choose_step env law (wants_ingress pg.ingress)
            (annotated_step env law cr Kind.ingress_v1 (mf.ingress_v1 cr) ingress_fields
              kinds.ingress_v1)
            Kind.ingress_v1 (mf.ingress_v1 cr) kinds.ingress_v1))
      ∷ (choose_step env law (wants_monitor pg.service_monitor)
          (fields_step env law cr Kind.service_monitor (labelled_service_monitor env mf cr)
            service_monitor_fields (service_monitor_kind env mf cr kinds))
          Kind.service_monitor (mf.service_monitor cr) kinds.service_monitor)
      ∷ []

  pub chain-install_steps : (pg : Pushgateway) → chain env (install_steps pg) ≡ install env mf cr pg
  unfolding install handle_service handle_pvc handle_deployment handle_ingress_v1beta1
      handle_ingress_v1 handle_service_monitor delete_ingress_v1beta1 delete_ingress_v1
      delete_service_monitor
  chain-install_steps pg = refl

  -- The steps of `uninstall`.
  abbrev pub removal_steps : List (Step env)
  removal_steps =
      (remove_step env law Kind.deployment (mf.deployment cr) kinds.deployment)
      ∷ (remove_step env law Kind.service (mf.service cr) kinds.service)
      ∷ (when_step env (has_ingress_v1beta1_api env.discovery)
          (remove_step env law Kind.ingress_v1beta1 (mf.ingress_v1beta1 cr) kinds.ingress_v1beta1))
      ∷ (when_step env (has_ingress_v1_api env.discovery)
          (remove_step env law Kind.ingress_v1 (mf.ingress_v1 cr) kinds.ingress_v1))
      ∷ []

  pub chain-removal_steps : chain env removal_steps ≡ uninstall env mf cr
  unfolding uninstall delete_deployment delete_service delete_ingress_v1beta1 delete_ingress_v1
  chain-removal_steps = refl
