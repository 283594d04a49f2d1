-- ===== src/KubeStateMetrics/Steps.antt =====
-- The steps of `Run` and `uninstall` of the kube-state-metrics reconciler, and the kinds that
-- manifest.go sets.
use qubership_monitoring_ope.Prelude.{◌≡◌, refl, Bool, [], ◌∷◌, List}
use qubership_monitoring_ope.Api.{PlatformMonitoring, KubeStateMetrics}
use qubership_monitoring_ope.Api.Install.{wants_monitor}
use qubership_monitoring_ope.Cluster.{Kind}
use qubership_monitoring_ope.Reconciler.{Env}
use qubership_monitoring_ope.Reconciler.Fields.{rules, service_fields, service_monitor_fields}
use qubership_monitoring_ope.Reconciler.Kinds.{OfKind, standard_labels_from-OfKind}
use qubership_monitoring_ope.Reconciler.Frame.{IsLawfulEnv}
use qubership_monitoring_ope.Reconciler.Plan.{Step, chain}
use qubership_monitoring_ope.Reconciler.Plan.Steps.{choose_step, remove_step, when_steps}
use qubership_monitoring_ope.Reconciler.Plan.Handlers.{fields_step, named_step}
use qubership_monitoring_ope.KubeStateMetrics.{
  Manifests, install, uninstall, deployment_manifest, deployment_fields, image,
  labelled_service_account, labelled_cluster_role, labelled_cluster_role_binding, labelled_service,
  labelled_service_monitor, handle_service_account, handle_cluster_role,
  handle_cluster_role_binding, handle_service, handle_deployment, handle_service_monitor,
  delete_cluster_role, delete_cluster_role_binding, delete_service_account, delete_deployment,
  delete_service, delete_service_monitor,
}

-- The kinds that manifest.go sets.
pub record IsKinded {V : Type 0} (mf : Manifests V) (cr : PlatformMonitoring) : Type 0 where
  pub service_account : OfKind Kind.service_account (mf.service_account cr)
  pub cluster_role : OfKind Kind.cluster_role (mf.cluster_role cr)
  pub cluster_role_binding : OfKind Kind.cluster_role_binding (mf.cluster_role_binding cr)
  pub service : OfKind Kind.service (mf.service cr)
  pub deployment : (b : Bool) → OfKind Kind.deployment (mf.deployment cr b)
  pub service_monitor : OfKind Kind.service_monitor (mf.service_monitor cr)

module _ {V : Type 0} (env : Env V) (mf : Manifests V) (cr : PlatformMonitoring)
    (kinds : IsKinded mf cr) where
  pub service_account_kind : OfKind Kind.service_account (labelled_service_account env mf cr)
  service_account_kind =
      standard_labels_from-OfKind _ (mf.service_account cr) (image cr) kinds.service_account

  pub cluster_role_kind : OfKind Kind.cluster_role (labelled_cluster_role env mf cr)
  cluster_role_kind =
      standard_labels_from-OfKind _ (mf.cluster_role cr) (image cr) kinds.cluster_role

  pub cluster_role_binding_kind :
      OfKind Kind.cluster_role_binding (labelled_cluster_role_binding env mf cr)
  cluster_role_binding_kind =
      standard_labels_from-OfKind _ (mf.cluster_role_binding cr) (image cr)
        kinds.cluster_role_binding

  pub service_kind : OfKind Kind.service (labelled_service env mf cr)
  service_kind = standard_labels_from-OfKind _ (mf.service cr) (image cr) kinds.service

  pub service_monitor_kind : OfKind Kind.service_monitor (labelled_service_monitor env mf cr)
  service_monitor_kind =
      standard_labels_from-OfKind _ (mf.service_monitor cr) (image cr) kinds.service_monitor

module _ {V : Type 0} (env : Env V) (law : IsLawfulEnv env) (mf : Manifests V)
    (cr : PlatformMonitoring) (kinds : IsKinded mf cr) where
  -- The steps of `install`.
  abbrev pub install_steps : KubeStateMetrics → List (Step env)
  install_steps ksm =
      (fields_step env law cr Kind.service_account (labelled_service_account env mf cr) []
        (service_account_kind env mf cr kinds))
      ∷ (when_steps env env.privileged_rights
          ((named_step env law cr Kind.cluster_role (labelled_cluster_role env mf cr) (rules ∷ [])
              (cluster_role_kind env mf cr kinds))
            ∷ (fields_step env law cr Kind.cluster_role_binding
                (labelled_cluster_role_binding env mf cr) []
                (cluster_role_binding_kind env mf cr kinds))
            ∷ [])
          refl)
      ∷ (fields_step env law cr Kind.service (labelled_service env mf cr) service_fields
          (service_kind env mf cr kinds))
      ∷ (fields_step env law cr Kind.deployment (deployment_manifest env mf cr) deployment_fields
          (kinds.deployment _))
      ∷ (choose_step env law (wants_monitor ksm.service_monitor)
          (fields_step env law cr Kind.service_monitor (labelled_service_monitor env mf cr)
            service_monitor_fields (service_monitor_kind env mf cr kinds))
          Kind.service_monitor (mf.service_monitor cr) kinds.service_monitor)
      ∷ []

  pub chain-install_steps :
      (ksm : KubeStateMetrics) → chain env (install_steps ksm) ≡ install env mf cr ksm
  unfolding install handle_service_account handle_cluster_role handle_cluster_role_binding
      handle_service handle_deployment handle_service_monitor delete_service_monitor
  chain-install_steps ksm = refl

  -- The steps of `uninstall`.
  abbrev pub removal_steps : List (Step env)
  removal_steps =
      (when_steps env env.privileged_rights
        ((remove_step env law Kind.cluster_role (mf.cluster_role cr) kinds.cluster_role)
          ∷ (remove_step env law Kind.cluster_role_binding (mf.cluster_role_binding cr)
              kinds.cluster_role_binding)
          ∷ [])
        refl)
      ∷ (remove_step env law Kind.service_account (mf.service_account cr) kinds.service_account)
      ∷ (remove_step env law Kind.deployment (deployment_manifest env mf cr) (kinds.deployment _))
      ∷ (remove_step env law Kind.service (mf.service cr) kinds.service)
      ∷ (remove_step env law Kind.service_monitor (mf.service_monitor cr) kinds.service_monitor)
      ∷ []

  pub chain-removal_steps : chain env removal_steps ≡ uninstall env mf cr
  unfolding uninstall delete_cluster_role delete_cluster_role_binding delete_service_account
      delete_deployment delete_service delete_service_monitor
  chain-removal_steps = refl
