-- ===== src/Victoriametrics/VmAlertManager/Runs.antt =====
-- The outcome of `Run` of the vmalertmanager reconciler on the branches that change the cluster.
use qubership_monitoring_ope.Prelude.{
  ◌≡◌, refl, ap, ◌∙◌, true, false, not, ◌&&◌, [], ◌∷◌, Option, none, some, List,
}
use mathlib.Core.Path.{subst}
use qubership_monitoring_ope.Api.{PlatformMonitoring, Victoriametrics}
use qubership_monitoring_ope.Api.Install.{installs_vm_component, wants_ingress}
use qubership_monitoring_ope.Cluster.{Kind}
use qubership_monitoring_ope.Exec.{ok}
use qubership_monitoring_ope.Exec.Rules.{Ensures, IsOk-ok}
use qubership_monitoring_ope.Cluster.{Object, key}
use qubership_monitoring_ope.Utils.Discovery.{has_ingress_v1_api, has_ingress_v1beta1_api}
use qubership_monitoring_ope.Reconciler.{Action, Env}
use qubership_monitoring_ope.Reconciler.Fields.{ingress_fields, rules, spec}
use qubership_monitoring_ope.Reconciler.Frame.{IsLawfulEnv}
use qubership_monitoring_ope.Reconciler.Settle.{Settled}
use qubership_monitoring_ope.Reconciler.Wanted.{AreHealthy, Removed}
use qubership_monitoring_ope.Reconciler.Plan.{chain, chain-Ensures, distinct_kinds-AllApart}
use qubership_monitoring_ope.Reconciler.Plan.Steps.{If, If-map, If-map_true}
use qubership_monitoring_ope.Reconciler.Plan.Handlers.{Ensures-run}
use qubership_monitoring_ope.Victoriametrics.VmAlertManager.{
  Manifests, install, uninstall, run, run_section, wants, is_wanted, cluster_role_manifest,
  labelled_service_account, labelled_cluster_role, labelled_cluster_role_binding, labelled_role,
  labelled_role_binding, labelled_secret,
}
use qubership_monitoring_ope.Victoriametrics.VmAlertManager.Steps.{
  IsKinded, install_steps, chain-install_steps, removal_steps, uninstall-removal_steps,
}

-- The kinds of the objects that `uninstall` deletes.
abbrev pub removed_kinds : List Kind
removed_kinds =
    Kind.cluster_role ∷ Kind.cluster_role_binding ∷ Kind.vm_alertmanager ∷ Kind.secret
    ∷ Kind.ingress_v1beta1 ∷ Kind.ingress_v1 ∷ Kind.service_account ∷ []

module _ {V : Type 0} (env : Env V) (mf : Manifests V) (cr : PlatformMonitoring) where
  -- What the cluster has after an installation.
  pub record Installed (vm : Victoriametrics) (s : env.client.Cluster) : Type 0 where
    pub service_account : Settled env (labelled_service_account env mf cr) [] s
    pub cluster_role :
        If env.privileged_rights (Settled env (labelled_cluster_role env mf cr) (rules ∷ []) s)
    pub cluster_role_binding :
        If env.privileged_rights (Settled env (labelled_cluster_role_binding env mf cr) [] s)
    pub role : Settled env (labelled_role env mf cr) (rules ∷ []) s
    pub role_binding : Settled env (labelled_role_binding env mf cr) [] s
    pub secret : Settled env (labelled_secret env mf cr) [] s
    pub vm_alert_manager : Settled env (mf.vm_alert_manager cr) (spec ∷ []) s
    pub ingress_v1beta1 : If (has_ingress_v1beta1_api env.discovery) (
        If
          (wants_ingress vm.vm_alert_manager.ingress && not (installs_vm_component vm.vm_auth))
          (Settled env (mf.ingress_v1beta1 cr) ingress_fields s))
    pub ingress_v1 : If (has_ingress_v1_api env.discovery) (
        If
          (wants_ingress vm.vm_alert_manager.ingress)
          (Settled env (mf.ingress_v1 cr) ingress_fields s))

  -- What the cluster is without after a removal.
  pub record Uninstalled (s : env.client.Cluster) : Type 0 where
    pub cluster_role : If env.privileged_rights (Removed env (cluster_role_manifest env mf cr) s)
    pub cluster_role_binding : If env.privileged_rights (Removed env (mf.cluster_role_binding cr) s)
    pub vm_alert_manager : Removed env (mf.vm_alert_manager cr) s
    pub secret : Removed env (mf.secret cr) s
    pub ingress_v1beta1 :
        If (has_ingress_v1beta1_api env.discovery) (Removed env (mf.ingress_v1beta1 cr) s)
    pub ingress_v1 : If (has_ingress_v1_api env.discovery) (Removed env (mf.ingress_v1 cr) s)
    pub service_account : Removed env (mf.service_account cr) s

  run-install :
      (vm : Victoriametrics)
      → cr.spec.victoriametrics ≡ some vm
      → wants vm ≡ true
      → vm.vm_alert_manager.paused ≡ false
      → install env mf cr vm ≡ run env mf cr
  unfolding run run_section
  run-install vm section wanted active = rw (section, wanted, active) refl

  run_section-uninstall :
      (o : Option Victoriametrics)
      → is_wanted o ≡ false
      → uninstall env mf cr ≡ run_section env mf cr o
  unfolding run_section
  run_section-uninstall none h = refl
  run_section-uninstall (some vm) h = rw h refl

  run-uninstall : is_wanted cr.spec.victoriametrics ≡ false → uninstall env mf cr ≡ run env mf cr
  unfolding run
  run-uninstall h = run_section-uninstall cr.spec.victoriametrics h

  module _ (law : IsLawfulEnv env) (kinds : IsKinded mf cr) where
    install-Ensures : (vm : Victoriametrics) → Ensures (Installed vm) (install env mf cr vm)
    install-Ensures vm =
        subst (Ensures (Installed vm)) (chain-install_steps env law mf cr kinds vm) (record {
          at = λ s done.
              let g =
                (chain-Ensures (install_steps env law mf cr kinds vm)
                    (distinct_kinds-AllApart (install_steps env law mf cr kinds vm) refl)).at
                  s done in
              record {
                service_account = g.0;
                cluster_role = If-map env.privileged_rights (λ h. h.0) g.1.0;
                cluster_role_binding = If-map env.privileged_rights (λ h. h.1.0) g.1.0;
                role = g.1.1.0;
                role_binding = g.1.1.1.0;
                secret = g.1.1.1.1.0;
                vm_alert_manager = g.1.1.1.1.1.0;
                ingress_v1beta1 = g.1.1.1.1.1.1.0;
                ingress_v1 = g.1.1.1.1.1.1.1.0;
              };
        })

    Uninstalled-chain :
        (healthy : AreHealthy env removed_kinds)
        → Ensures Uninstalled (chain env (removal_steps env law mf cr kinds))
    Uninstalled-chain healthy = record {
      at = λ s done.
          let g =
            (chain-Ensures (removal_steps env law mf cr kinds)
                (distinct_kinds-AllApart (removal_steps env law mf cr kinds) refl)).at
              s done in
          record {
            cluster_role =
                If-map_true env.privileged_rights (λ t h. h.0 (healthy.at Kind.cluster_role refl t))
                  g.0;
            cluster_role_binding =
                If-map_true env.privileged_rights
                  (λ t h. h.1.0 (healthy.at Kind.cluster_role_binding refl t)) g.0;
            vm_alert_manager = g.1.0 (healthy.at Kind.vm_alertmanager refl refl);
            secret = g.1.1.0 (healthy.at Kind.secret refl refl);
            ingress_v1beta1 =
                If-map_true (has_ingress_v1beta1_api env.discovery)
                  (λ t h. h (healthy.at Kind.ingress_v1beta1 refl t)) g.1.1.1.0;
            ingress_v1 =
                If-map_true (has_ingress_v1_api env.discovery)
                  (λ t h. h (healthy.at Kind.ingress_v1 refl t)) g.1.1.1.1.0;
            service_account = g.1.1.1.1.1.0 (healthy.at Kind.service_account refl refl);
          };
    }

-- With a lawful client, if `Run` of vmalertmanager is to install its component, the section is not
-- paused, and `Run` returns no error, then the cluster has the service account, the role and its
-- binding, the configuration secret and the VMAlertmanager resource with the labels and the copied
-- fields of their manifests, the cluster role and its binding if the operator has privileged
-- rights, and each ingress whose API the cluster has and that the sections want.
pub converges_vm_alert_manager :
    {V : Type 0} (env : Env V) (mf : Manifests V) (cr : PlatformMonitoring)
    → IsLawfulEnv env
    → IsKinded mf cr
    → (vm : Victoriametrics) → cr.spec.victoriametrics ≡ some vm
    → wants vm ≡ true
    → vm.vm_alert_manager.paused ≡ false
    → (s : env.client.Cluster) → (run env mf cr s).0 ≡ ok tt
    → Installed env mf cr vm (run env mf cr s).1
converges_vm_alert_manager env mf cr law kinds vm section wanted active s done =
    Ensures-run env (Installed env mf cr vm) (run-install env mf cr vm section wanted active)
      (install-Ensures env mf cr law kinds vm) s done

-- With a lawful client that is healthy for the kinds of the objects that `uninstall` deletes, as
-- far as the operator uses them, if `Run` of vmalertmanager is to remove its component, the cluster
-- has the VMAlertmanager resource, and `Run` returns no error, then the cluster is without the
-- VMAlertmanager resource, the configuration secret, the service account and each ingress whose API
-- the cluster has, and without the cluster role and its binding if the operator has privileged
-- rights, each as far as its builder returns a manifest.
clears_vm_alert_manager :
    {V : Type 0} (env : Env V) (mf : Manifests V) (cr : PlatformMonitoring)
    → IsLawfulEnv env
    → IsKinded mf cr
    → AreHealthy env removed_kinds
    → is_wanted cr.spec.victoriametrics ≡ false
    → (m e : Object V) → (mf.vm_alert_manager cr) ≡ ok m
    → (s : env.client.Cluster) → env.client.get (key m) s ≡ ok e
    → (run env mf cr s).0 ≡ ok tt
    → Uninstalled env mf cr (run env mf cr s).1
clears_vm_alert_manager env mf cr law kinds healthy unwanted m e built s there done =
    let same =
      uninstall-removal_steps env law mf cr kinds m e built s there
      ∙ ap (λ (a : Action env). a s) (run-uninstall env mf cr unwanted) in
    subst (λ r. Uninstalled env mf cr r.1) same
      ((Uninstalled-chain env mf cr law kinds healthy).at s (IsOk-ok _ (ap (λ r. r.0) same ∙ done)))
