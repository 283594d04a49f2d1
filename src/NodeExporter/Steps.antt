-- ===== src/NodeExporter/Steps.antt =====
-- The steps of `Run` and `uninstall` of the node-exporter reconciler, and the kinds that
-- manifest.go sets.
use qubership_monitoring_ope.Prelude.{◌≡◌, refl, Bool, [], ◌∷◌, List}
use qubership_monitoring_ope.Api.{PlatformMonitoring, NodeExporter}
use qubership_monitoring_ope.Api.Install.{wants_monitor}
use qubership_monitoring_ope.Cluster.{Kind}
use qubership_monitoring_ope.Reconciler.{Env}
use qubership_monitoring_ope.Reconciler.Fields.{rules, service_fields, service_monitor_fields}
use qubership_monitoring_ope.Reconciler.Kinds.{OfKind, standard_labels_from-OfKind}
use qubership_monitoring_ope.Reconciler.Frame.{IsLawfulEnv}
use qubership_monitoring_ope.Reconciler.Plan.{Step, chain}
use qubership_monitoring_ope.Reconciler.Plan.Steps.{choose_step, remove_step, when_steps}
use qubership_monitoring_ope.Reconciler.Plan.Handlers.{fields_step, named_step}
use qubership_monitoring_ope.NodeExporter.{
  Manifests, install, uninstall, cluster_role_manifest, daemon_set_fields, image,
  labelled_service_account, labelled_cluster_role, labelled_cluster_role_binding, labelled_service,
  labelled_service_monitor, handle_service_account, handle_cluster_role,
  handle_cluster_role_binding, handle_service, handle_daemon_set, handle_service_monitor,
  delete_cluster_role, delete_cluster_role_binding, delete_service_account, delete_daemon_set,
  delete_service, delete_service_monitor,
}

-- The kinds that manifest.go sets.
pub record IsKinded {V : Type 0} (mf : Manifests V) (cr : PlatformMonitoring) : Type 0 where
  pub service_account : OfKind Kind.service_account (mf.service_account cr)
  pub cluster_role : (b c : Bool) → OfKind Kind.cluster_role (mf.cluster_role cr b c)
  pub cluster_role_binding : OfKind Kind.cluster_role_binding (mf.cluster_role_binding cr)
  pub service : OfKind Kind.service (mf.service cr)
  pub daemon_set : OfKind Kind.daemon_set (mf.daemon_set cr)
  pub service_monitor : OfKind Kind.service_monitor (mf.service_monitor cr)

module _ {V : Type 0} (env : Env V) (mf : Manifests V) (cr : PlatformMonitoring)
    (kinds : IsKinded mf cr) where
  pub service_account_kind : OfKind Kind.service_account (labelled_service_account env mf cr)
  service_account_kind =
      standard_labels_from-OfKind _ (mf.service_account cr) (image cr) kinds.service_account

  pub cluster_role_kind : OfKind Kind.cluster_role (labelled_cluster_role env mf cr)
  cluster_role_kind =
      standard_labels_from-OfKind _ (cluster_role_manifest env mf cr) (image cr)
        (kinds.cluster_role _ _)

  pub cluster_role_binding_kind :
      OfKind Kind.cluster_role_binding (labelled_cluster_role_binding env mf cr)
  cluster_role_binding_kind =
      standard_labels_from-OfKind _ (mf.cluster_role_binding cr) (image cr)
        kinds.cluster_role_binding

  pub service_kind : OfKind Kind.service (labelled_service env mf cr)
  service_kind = standard_labels_from-OfKind _ (mf.service cr) (image cr) kinds.service

  pub service_monitor_kind : OfKind Kind.service_monitor (labelled_service_monitor env mf cr)
  service_monitor_kind =
      standard_labels_from-OfKind _ (mf.service_monitor cr) (image cr) kinds.service_monitor

module _ {V : Type 0} (env : Env V) (law : IsLawfulEnv env) (mf : Manifests V)
    (cr : PlatformMonitoring) (kinds : IsKinded mf cr) where
  -- The steps of `install`.
  abbrev pub install_steps : NodeExporter → List (Step env)
  install_steps ne =
      (fields_step env law cr Kind.service_account (labelled_service_account env mf cr) []
        (service_account_kind env mf cr kinds))
      ∷ (when_steps env env.privileged_rights
          ((named_step env law cr Kind.cluster_role (labelled_cluster_role env mf cr) (rules ∷ [])
              (cluster_role_kind env mf cr kinds))
            ∷ (fields_step env law cr Kind.cluster_role_binding
                (labelled_cluster_role_binding env mf cr) []
                (cluster_role_binding_kind env mf cr kinds))
            ∷ [])
          refl)
      ∷ (fields_step env law cr Kind.service (labelled_service env mf cr) service_fields
          (service_kind env mf cr kinds))
      ∷ (fields_step env law cr Kind.daemon_set (mf.daemon_set cr) daemon_set_fields
          kinds.daemon_set)
      ∷ (choose_step env law (wants_monitor ne.service_monitor)
          (fields_step env law cr Kind.service_monitor (labelled_service_monitor env mf cr)
            service_monitor_fields (service_monitor_kind env mf cr kinds))
          Kind.service_monitor (mf.service_monitor cr) kinds.service_monitor)
      ∷ []

  pub chain-install_steps :
      (ne : NodeExporter) → chain env (install_steps ne) ≡ install env mf cr ne
  unfolding install handle_service_account handle_cluster_role handle_cluster_role_binding
      handle_service handle_daemon_set handle_service_monitor delete_service_monitor
  chain-install_steps ne = refl

  -- The steps of `uninstall`.
  abbrev pub removal_steps : List (Step env)
  removal_steps =
      (when_steps env env.privileged_rights
        ((remove_step env law Kind.cluster_role (cluster_role_manifest env mf cr)
            (kinds.cluster_role _ _))
          ∷ (remove_step env law Kind.cluster_role_binding (mf.cluster_role_binding cr)
              kinds.cluster_role_binding)
          ∷ [])
        refl)
      ∷ (remove_step env law Kind.service_account (mf.service_account cr) kinds.service_account)
      ∷ (remove_step env law Kind.daemon_set (mf.daemon_set cr) kinds.daemon_set)
      ∷ (remove_step env law Kind.service (mf.service cr) kinds.service)
      ∷ (remove_step env law Kind.service_monitor (mf.service_monitor cr) kinds.service_monitor)
      ∷ []

  pub chain-removal_steps : chain env removal_steps ≡ uninstall env mf cr
  unfolding uninstall delete_cluster_role delete_cluster_role_binding delete_service_account
      delete_daemon_set delete_service delete_service_monitor
  chain-removal_steps = refl
