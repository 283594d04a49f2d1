-- ===== src/Victoriametrics/VmAgent/Steps.antt =====
-- The steps of `Run` and `uninstall` of the vmagent reconciler, and the kinds that manifest.go sets.
use qubership_monitoring_ope.Prelude.{◌≡◌, refl, sym, ap, ◌∙◌, Bool, not, ◌&&◌, [], ◌∷◌, ◌++◌, List}
use qubership_monitoring_ope.Api.{PlatformMonitoring, Victoriametrics}
use qubership_monitoring_ope.Api.Install.{installs_vm_component, wants_ingress}
use qubership_monitoring_ope.Exec.{ok}
use qubership_monitoring_ope.Cluster.{Kind, Object, key}
use qubership_monitoring_ope.Utils.Discovery.{has_ingress_v1_api, has_ingress_v1beta1_api}
use qubership_monitoring_ope.Reconciler.{Action, Env}
use qubership_monitoring_ope.Reconciler.Early.{if_found, chain_then, if_found-rest, found-removal}
use qubership_monitoring_ope.Reconciler.Fields.{ingress_fields, rules, spec}
use qubership_monitoring_ope.Reconciler.Kinds.{OfKind, standard_labels_from-OfKind}
use qubership_monitoring_ope.Reconciler.Frame.{IsLawfulEnv}
use qubership_monitoring_ope.Reconciler.Plan.{Step, Owned, chain}
use qubership_monitoring_ope.Reconciler.Plan.Steps.{choose_step, remove_step, when_step, when_steps}
use qubership_monitoring_ope.Reconciler.Plan.Handlers.{
  fields_step, named_step, replace_fields_step, replace_annotated_step, other_kind_free,
}
use qubership_monitoring_ope.Victoriametrics.VmAgent.{
  Manifests, install, uninstall, cluster_role_manifest, uninstall_rest, image,
  labelled_service_account, labelled_cluster_role, labelled_cluster_role_binding, labelled_role,
  labelled_role_binding, former_vm_agent, former_ingress_v1beta1, former_ingress_v1,
  handle_service_account, handle_cluster_role, handle_cluster_role_binding, handle_role,
  handle_role_binding, handle_vm_agent, handle_ingress_v1beta1, handle_ingress_v1,
  delete_cluster_role, delete_cluster_role_binding, delete_role, delete_role_binding,
  delete_vm_agent, delete_ingress_v1beta1, delete_ingress_v1, delete_service_account,
}

-- The kinds that manifest.go sets.
pub record IsKinded {V : Type 0} (mf : Manifests V) (cr : PlatformMonitoring) : Type 0 where
  pub service_account : OfKind Kind.service_account (mf.service_account cr)
  pub cluster_role : (b c : Bool) → OfKind Kind.cluster_role (mf.cluster_role cr b c)
  pub cluster_role_binding : OfKind Kind.cluster_role_binding (mf.cluster_role_binding cr)
  pub role : OfKind Kind.role (mf.role cr)
  pub role_binding : OfKind Kind.role_binding (mf.role_binding cr)
  pub vm_agent : OfKind Kind.vm_agent (mf.vm_agent cr)
  pub ingress_v1beta1 : OfKind Kind.ingress_v1beta1 (mf.ingress_v1beta1 cr)
  pub ingress_v1 : OfKind Kind.ingress_v1 (mf.ingress_v1 cr)

module _ {V : Type 0} (env : Env V) (mf : Manifests V) (cr : PlatformMonitoring)
    (kinds : IsKinded mf cr) where
  pub service_account_kind : OfKind Kind.service_account (labelled_service_account env mf cr)
  service_account_kind =
      standard_labels_from-OfKind _ (mf.service_account cr) (image cr) kinds.service_account

  pub cluster_role_kind : OfKind Kind.cluster_role (labelled_cluster_role env mf cr)
  cluster_role_kind =
      standard_labels_from-OfKind _ (cluster_role_manifest env mf cr) (image cr)
        (kinds.cluster_role _ _)

  pub cluster_role_binding_kind :
      OfKind Kind.cluster_role_binding (labelled_cluster_role_binding env mf cr)
  cluster_role_binding_kind =
      standard_labels_from-OfKind _ (mf.cluster_role_binding cr) (image cr)
        kinds.cluster_role_binding

  pub role_kind : OfKind Kind.role (labelled_role env mf cr)
  role_kind = standard_labels_from-OfKind _ (mf.role cr) (image cr) kinds.role

  pub role_binding_kind : OfKind Kind.role_binding (labelled_role_binding env mf cr)
  role_binding_kind =
      standard_labels_from-OfKind _ (mf.role_binding cr) (image cr) kinds.role_binding

module _ {V : Type 0} (env : Env V) (law : IsLawfulEnv env) (mf : Manifests V)
    (cr : PlatformMonitoring) (kinds : IsKinded mf cr) where
  -- The steps of `install`.
  abbrev pub install_steps : Victoriametrics → List (Step env)
  install_steps vm =
      (fields_step env law cr Kind.service_account (labelled_service_account env mf cr) []
        (service_account_kind env mf cr kinds))
      ∷ (when_steps env env.privileged_rights
          ((named_step env law cr Kind.cluster_role (labelled_cluster_role env mf cr) (rules ∷ [])
              (cluster_role_kind env mf cr kinds))
            ∷ (fields_step env law cr Kind.cluster_role_binding
                (labelled_cluster_role_binding env mf cr) []
                (cluster_role_binding_kind env mf cr kinds))
            ∷ [])
          refl)
      ∷ (named_step env law cr Kind.role (labelled_role env mf cr) (rules ∷ [])
          (role_kind env mf cr kinds))
      ∷ (fields_step env law cr Kind.role_binding (labelled_role_binding env mf cr) []
          (role_binding_kind env mf cr kinds))
      ∷ (replace_fields_step env law cr (former_vm_agent cr) (mf.vm_agent cr) (spec ∷ [])
          kinds.vm_agent)
      ∷ (when_step env (has_ingress_v1beta1_api env.discovery) (
          choose_step env law
            (wants_ingress vm.vm_agent.ingress && not (installs_vm_component vm.vm_auth))
            (replace_annotated_step env law cr (former_ingress_v1beta1 cr) (mf.ingress_v1beta1 cr)
              ingress_fields kinds.ingress_v1beta1)
            Kind.ingress_v1beta1 (mf.ingress_v1beta1 cr) kinds.ingress_v1beta1))
      ∷ (when_step env (has_ingress_v1_api env.discovery) (
          choose_step env law
            (wants_ingress vm.vm_agent.ingress && not (installs_vm_component vm.vm_auth))
            (replace_annotated_step env law cr (former_ingress_v1 cr) (mf.ingress_v1 cr)
              ingress_fields kinds.ingress_v1)
            Kind.ingress_v1 (mf.ingress_v1 cr) kinds.ingress_v1))
      ∷ []

  pub chain-install_steps :
      (vm : Victoriametrics) → chain env (install_steps vm) ≡ install env mf cr vm
  unfolding install handle_service_account handle_cluster_role handle_cluster_role_binding
      handle_role handle_role_binding handle_vm_agent handle_ingress_v1beta1 handle_ingress_v1
      delete_ingress_v1beta1 delete_ingress_v1
  chain-install_steps vm = refl

  abbrev pub first_steps : List (Step env)
  first_steps =
      (when_steps env env.privileged_rights
        ((remove_step env law Kind.cluster_role (cluster_role_manifest env mf cr)
            (kinds.cluster_role _ _))
          ∷ (remove_step env law Kind.cluster_role_binding (mf.cluster_role_binding cr)
              kinds.cluster_role_binding)
          ∷ [])
        refl)
      ∷ (remove_step env law Kind.role (mf.role cr) kinds.role)
      ∷ (remove_step env law Kind.role_binding (mf.role_binding cr) kinds.role_binding)
      ∷ []

  abbrev pub rest_steps : List (Step env)
  rest_steps =
      (remove_step env law Kind.vm_agent (mf.vm_agent cr) kinds.vm_agent)
      ∷ (when_step env (has_ingress_v1beta1_api env.discovery)
          (remove_step env law Kind.ingress_v1beta1 (mf.ingress_v1beta1 cr) kinds.ingress_v1beta1))
      ∷ (when_step env (has_ingress_v1_api env.discovery)
          (remove_step env law Kind.ingress_v1 (mf.ingress_v1 cr) kinds.ingress_v1))
      ∷ (remove_step env law Kind.service_account (mf.service_account cr) kinds.service_account)
      ∷ []

  -- The steps of `uninstall`.
  abbrev pub removal_steps : List (Step env)
  removal_steps = first_steps ++ rest_steps

  uninstall-chain_then :
      uninstall env mf cr
      ≡ chain_then env first_steps (if_found env (mf.vm_agent cr) (uninstall_rest env mf cr))
  unfolding uninstall delete_cluster_role delete_cluster_role_binding delete_role
      delete_role_binding
  uninstall-chain_then = refl

  chain-removal_steps :
      chain env removal_steps ≡ chain_then env first_steps (uninstall_rest env mf cr)
  unfolding uninstall_rest delete_cluster_role delete_cluster_role_binding delete_role
      delete_role_binding delete_vm_agent delete_ingress_v1beta1 delete_ingress_v1
      delete_service_account
  chain-removal_steps = refl

  -- The first steps leave the main object alone.
  vm_agent_free : (m : Object V) → (mf.vm_agent cr) ≡ ok m → ¬ Owned env first_steps (key m)
  vm_agent_free m built o =
      other_kind_free first_steps (key m) Kind.vm_agent (kinds.vm_agent.at m built) refl o

  pub uninstall-removal_steps :
      (m e : Object V)
      → (mf.vm_agent cr) ≡ ok m
      → (s : env.client.Cluster) → env.client.get (key m) s ≡ ok e
      → chain env removal_steps s ≡ uninstall env mf cr s
  uninstall-removal_steps m e built s there =
      found-removal env m e first_steps rest_steps (mf.vm_agent cr) (uninstall_rest env mf cr)
        (if_found env) (if_found-rest env m e (uninstall_rest env mf cr)) chain-removal_steps
        (vm_agent_free m built) built s there
      ∙ sym (ap (λ (a : Action env). a s) uninstall-chain_then)
