-- ===== src/PrometheusOperator/Steps.antt =====
-- The steps of `Run` and `uninstall` of the prometheus-operator reconciler, and the kinds that
-- manifest.go sets.
use qubership_monitoring_ope.Prelude.{◌≡◌, refl, [], ◌∷◌, List}
use qubership_monitoring_ope.Api.{PlatformMonitoring, Prometheus}
use qubership_monitoring_ope.Api.Install.{wants_monitor}
use qubership_monitoring_ope.Cluster.{Kind}
use qubership_monitoring_ope.Reconciler.{Env}
use qubership_monitoring_ope.Reconciler.Fields.{pod_monitor_fields, rules, service_fields}
use qubership_monitoring_ope.Reconciler.Kinds.{OfKind, standard_labels_from-OfKind}
use qubership_monitoring_ope.Reconciler.Frame.{IsLawfulEnv}
use qubership_monitoring_ope.Reconciler.Plan.{Step, chain}
use qubership_monitoring_ope.Reconciler.Plan.Steps.{remove_step, when_step, when_steps}
use qubership_monitoring_ope.Reconciler.Plan.Handlers.{fields_step, named_step}
use qubership_monitoring_ope.PrometheusOperator.{
  Manifests, install, uninstall, deployment_fields, image, labelled_role, labelled_service_account,
  labelled_cluster_role, labelled_cluster_role_binding, labelled_role_binding, labelled_service,
  labelled_pod_monitor, handle_role, handle_service_account, handle_cluster_role,
  handle_cluster_role_binding, handle_role_binding, handle_service, handle_deployment,
  handle_pod_monitor, delete_service_account, delete_cluster_role, delete_cluster_role_binding,
  delete_role, delete_role_binding, delete_service, delete_deployment, delete_pod_monitor,
}

-- The kinds that manifest.go sets.
pub record IsKinded {V : Type 0} (mf : Manifests V) (cr : PlatformMonitoring) : Type 0 where
  pub role : OfKind Kind.role (mf.role cr)
  pub service_account : OfKind Kind.service_account (mf.service_account cr)
  pub cluster_role : OfKind Kind.cluster_role (mf.cluster_role cr)
  pub cluster_role_binding : OfKind Kind.cluster_role_binding (mf.cluster_role_binding cr)
  pub role_binding : OfKind Kind.role_binding (mf.role_binding cr)
  pub service : OfKind Kind.service (mf.service cr)
  pub deployment : OfKind Kind.deployment (mf.deployment cr)
  pub pod_monitor : OfKind Kind.pod_monitor (mf.pod_monitor cr)

module _ {V : Type 0} (env : Env V) (mf : Manifests V) (cr : PlatformMonitoring)
    (kinds : IsKinded mf cr) where
  pub role_kind : OfKind Kind.role (labelled_role env mf cr)
  role_kind = standard_labels_from-OfKind _ (mf.role cr) (image cr) kinds.role

  pub service_account_kind : OfKind Kind.service_account (labelled_service_account env mf cr)
  service_account_kind =
      standard_labels_from-OfKind _ (mf.service_account cr) (image cr) kinds.service_account

  pub cluster_role_kind : OfKind Kind.cluster_role (labelled_cluster_role env mf cr)
  cluster_role_kind =
      standard_labels_from-OfKind _ (mf.cluster_role cr) (image cr) kinds.cluster_role

  pub cluster_role_binding_kind :
      OfKind Kind.cluster_role_binding (labelled_cluster_role_binding env mf cr)
  cluster_role_binding_kind =
      standard_labels_from-OfKind _ (mf.cluster_role_binding cr) (image cr)
        kinds.cluster_role_binding

  pub role_binding_kind : OfKind Kind.role_binding (labelled_role_binding env mf cr)
  role_binding_kind =
      standard_labels_from-OfKind _ (mf.role_binding cr) (image cr) kinds.role_binding

  pub service_kind : OfKind Kind.service (labelled_service env mf cr)
  service_kind = standard_labels_from-OfKind _ (mf.service cr) (image cr) kinds.service

  pub pod_monitor_kind : OfKind Kind.pod_monitor (labelled_pod_monitor env mf cr)
  pod_monitor_kind = standard_labels_from-OfKind _ (mf.pod_monitor cr) (image cr) kinds.pod_monitor

module _ {V : Type 0} (env : Env V) (law : IsLawfulEnv env) (mf : Manifests V)
    (cr : PlatformMonitoring) (kinds : IsKinded mf cr) where
  -- The steps of `install`.
  abbrev pub install_steps : Prometheus → List (Step env)
  install_steps p =
      (named_step env law cr Kind.role (labelled_role env mf cr) (rules ∷ [])
        (role_kind env mf cr kinds))
      ∷ (fields_step env law cr Kind.service_account (labelled_service_account env mf cr) []
          (service_account_kind env mf cr kinds))
      ∷ (when_steps env env.privileged_rights
          ((named_step env law cr Kind.cluster_role (labelled_cluster_role env mf cr) (rules ∷ [])
              (cluster_role_kind env mf cr kinds))
            ∷ (fields_step env law cr Kind.cluster_role_binding
                (labelled_cluster_role_binding env mf cr) []
                (cluster_role_binding_kind env mf cr kinds))
            ∷ [])
          refl)
      ∷ (fields_step env law cr Kind.role_binding (labelled_role_binding env mf cr) []
          (role_binding_kind env mf cr kinds))
      ∷ (fields_step env law cr Kind.service (labelled_service env mf cr) service_fields
          (service_kind env mf cr kinds))
      ∷ (fields_step env law cr Kind.deployment (mf.deployment cr) deployment_fields
          kinds.deployment)
      ∷ (when_step env (wants_monitor p.operator.pod_monitor) (
          fields_step env law cr Kind.pod_monitor (labelled_pod_monitor env mf cr)
            pod_monitor_fields (pod_monitor_kind env mf cr kinds)))
      ∷ []

  pub chain-install_steps : (p : Prometheus) → chain env (install_steps p) ≡ install env mf cr p
  unfolding install handle_role handle_service_account handle_cluster_role
      handle_cluster_role_binding handle_role_binding handle_service handle_deployment
      handle_pod_monitor
  chain-install_steps p = refl

  -- The steps of `uninstall`.
  abbrev pub removal_steps : List (Step env)
  removal_steps =
      (remove_step env law Kind.service_account (mf.service_account cr) kinds.service_account)
      ∷ (when_steps env env.privileged_rights
          ((remove_step env law Kind.cluster_role (mf.cluster_role cr) kinds.cluster_role)
            ∷ (remove_step env law Kind.cluster_role_binding (mf.cluster_role_binding cr)
                kinds.cluster_role_binding)
            ∷ [])
          refl)
      ∷ (remove_step env law Kind.role (mf.role cr) kinds.role)
      ∷ (remove_step env law Kind.role_binding (mf.role_binding cr) kinds.role_binding)
      ∷ (remove_step env law Kind.service (mf.service cr) kinds.service)
      ∷ (remove_step env law Kind.deployment (mf.deployment cr) kinds.deployment)
      ∷ (remove_step env law Kind.pod_monitor (mf.pod_monitor cr) kinds.pod_monitor)
      ∷ []

  pub chain-removal_steps : chain env removal_steps ≡ uninstall env mf cr
  unfolding uninstall delete_service_account delete_cluster_role delete_cluster_role_binding
      delete_role delete_role_binding delete_service delete_deployment delete_pod_monitor
  chain-removal_steps = refl
