-- ===== src/Prometheus/Steps.antt =====
-- The steps of `Run` and `uninstall` of the prometheus reconciler, and the kinds that manifest.go
-- sets.
use qubership_monitoring_ope.Prelude.{◌≡◌, refl, [], ◌∷◌, List}
use qubership_monitoring_ope.Api.{PlatformMonitoring, Prometheus}
use qubership_monitoring_ope.Api.Install.{wants_ingress, wants_monitor}
use qubership_monitoring_ope.Cluster.{Kind}
use qubership_monitoring_ope.Utils.Discovery.{has_ingress_v1_api, has_ingress_v1beta1_api}
use qubership_monitoring_ope.Reconciler.{Env}
use qubership_monitoring_ope.Reconciler.Fields.{ingress_fields, pod_monitor_fields, rules, spec}
use qubership_monitoring_ope.Reconciler.Kinds.{OfKind, standard_labels_from-OfKind}
use qubership_monitoring_ope.Reconciler.Frame.{IsLawfulEnv}
use qubership_monitoring_ope.Reconciler.Plan.{Step, chain}
use qubership_monitoring_ope.Reconciler.Plan.Steps.{choose_step, remove_step, when_step, when_steps}
use qubership_monitoring_ope.Reconciler.Plan.Handlers.{fields_step, named_step, annotated_step}
use qubership_monitoring_ope.Prometheus.{
  Manifests, install, uninstall, image, labelled_service_account, labelled_cluster_role,
  labelled_cluster_role_binding, labelled_pod_monitor, handle_service_account, handle_cluster_role,
  handle_cluster_role_binding, handle_prometheus, handle_ingress_v1beta1, handle_ingress_v1,
  handle_pod_monitor, delete_cluster_role, delete_cluster_role_binding, delete_service_account,
  delete_prometheus, delete_pod_monitor, delete_ingress_v1beta1, delete_ingress_v1,
}

-- The kinds that manifest.go sets.
pub record IsKinded {V : Type 0} (mf : Manifests V) (cr : PlatformMonitoring) : Type 0 where
  pub service_account : OfKind Kind.service_account (mf.service_account cr)
  pub cluster_role : OfKind Kind.cluster_role (mf.cluster_role cr)
  pub cluster_role_binding : OfKind Kind.cluster_role_binding (mf.cluster_role_binding cr)
  pub prometheus : OfKind Kind.prometheus (mf.prometheus cr)
  pub ingress_v1beta1 : OfKind Kind.ingress_v1beta1 (mf.ingress_v1beta1 cr)
  pub ingress_v1 : OfKind Kind.ingress_v1 (mf.ingress_v1 cr)
  pub pod_monitor : OfKind Kind.pod_monitor (mf.pod_monitor cr)

module _ {V : Type 0} (env : Env V) (mf : Manifests V) (cr : PlatformMonitoring)
    (kinds : IsKinded mf cr) where
  pub service_account_kind : OfKind Kind.service_account (labelled_service_account env mf cr)
  service_account_kind =
      standard_labels_from-OfKind _ (mf.service_account cr) (image cr) kinds.service_account

  pub cluster_role_kind : OfKind Kind.cluster_role (labelled_cluster_role env mf cr)
  cluster_role_kind =
      standard_labels_from-OfKind _ (mf.cluster_role cr) (image cr) kinds.cluster_role

  pub cluster_role_binding_kind :
      OfKind Kind.cluster_role_binding (labelled_cluster_role_binding env mf cr)
  cluster_role_binding_kind =
      standard_labels_from-OfKind _ (mf.cluster_role_binding cr) (image cr)
        kinds.cluster_role_binding

  pub pod_monitor_kind : OfKind Kind.pod_monitor (labelled_pod_monitor env mf cr)
  pod_monitor_kind = standard_labels_from-OfKind _ (mf.pod_monitor cr) (image cr) kinds.pod_monitor

module _ {V : Type 0} (env : Env V) (law : IsLawfulEnv env) (mf : Manifests V)
    (cr : PlatformMonitoring) (kinds : IsKinded mf cr) where
  -- The steps of `install`.
  abbrev pub install_steps : Prometheus → List (Step env)
  install_steps p =
      (fields_step env law cr Kind.service_account (labelled_service_account env mf cr) []
        (service_account_kind env mf cr kinds))
      ∷ (when_steps env env.privileged_rights
          ((named_step env law cr Kind.cluster_role (labelled_cluster_role env mf cr) (rules ∷ [])
              (cluster_role_kind env mf cr kinds))
            ∷ (fields_step env law cr Kind.cluster_role_binding
                (labelled_cluster_role_binding env mf cr) []
                (cluster_role_binding_kind env mf cr kinds))
            ∷ [])
          refl)
      ∷ (fields_step env law cr Kind.prometheus (mf.prometheus cr) (spec ∷ []) kinds.prometheus)
      ∷ (when_step env (has_ingress_v1beta1_api env.discovery) (
          choose_step env law (wants_ingress p.ingress)
            (annotated_step env law cr Kind.ingress_v1beta1 (mf.ingress_v1beta1 cr) ingress_fields
              kinds.ingress_v1beta1)
            Kind.ingress_v1beta1 (mf.ingress_v1beta1 cr) kinds.ingress_v1beta1))
      ∷ (when_step env (has_ingress_v1_api env.discovery) (
          choose_step env law (wants_ingress p.ingress)
            (annotated_step env law cr Kind.ingress_v1 (mf.ingress_v1 cr) ingress_fields
              kinds.ingress_v1)
            Kind.ingress_v1 (mf.ingress_v1 cr) kinds.ingress_v1))
      ∷ (choose_step env law (wants_monitor p.pod_monitor)
          (fields_step env law cr Kind.pod_monitor (labelled_pod_monitor env mf cr)
            pod_monitor_fields (pod_monitor_kind env mf cr kinds))
          Kind.pod_monitor (mf.pod_monitor cr) kinds.pod_monitor)
      ∷ []

  pub chain-install_steps : (p : Prometheus) → chain env (install_steps p) ≡ install env mf cr p
  unfolding install handle_service_account handle_cluster_role handle_cluster_role_binding
      handle_prometheus handle_ingress_v1beta1 handle_ingress_v1 handle_pod_monitor
      delete_ingress_v1beta1 delete_ingress_v1 delete_pod_monitor
  chain-install_steps p = refl

  -- The steps of `uninstall`.
  abbrev pub removal_steps : List (Step env)
  removal_steps =
      (when_steps env env.privileged_rights
        ((remove_step env law Kind.cluster_role (mf.cluster_role cr) kinds.cluster_role)
          ∷ (remove_step env law Kind.cluster_role_binding (mf.cluster_role_binding cr)
              kinds.cluster_role_binding)
          ∷ [])
        refl)
      ∷ (remove_step env law Kind.service_account (mf.service_account cr) kinds.service_account)
      ∷ (remove_step env law Kind.prometheus (mf.prometheus cr) kinds.prometheus)
      ∷ (remove_step env law Kind.pod_monitor (mf.pod_monitor cr) kinds.pod_monitor)
      ∷ (when_step env (has_ingress_v1beta1_api env.discovery)
          (remove_step env law Kind.ingress_v1beta1 (mf.ingress_v1beta1 cr) kinds.ingress_v1beta1))
      ∷ (when_step env (has_ingress_v1_api env.discovery)
          (remove_step env law Kind.ingress_v1 (mf.ingress_v1 cr) kinds.ingress_v1))
      ∷ []

  pub chain-removal_steps : chain env removal_steps ≡ uninstall env mf cr
  unfolding uninstall delete_cluster_role delete_cluster_role_binding delete_service_account
      delete_prometheus delete_pod_monitor delete_ingress_v1beta1 delete_ingress_v1
  chain-removal_steps = refl
