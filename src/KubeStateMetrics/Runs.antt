-- ===== src/KubeStateMetrics/Runs.antt =====
-- The outcome of `Run` of the kube-state-metrics reconciler on the branches that change the cluster.
use qubership_monitoring_ope.Prelude.{◌≡◌, refl, true, false, [], ◌∷◌, Option, none, some, List}
use mathlib.Core.Path.{subst}
use qubership_monitoring_ope.Api.{PlatformMonitoring, KubeStateMetrics}
use qubership_monitoring_ope.Api.Install.{wants_monitor}
use qubership_monitoring_ope.Cluster.{Kind}
use qubership_monitoring_ope.Exec.{ok}
use qubership_monitoring_ope.Exec.Rules.{Ensures}
use qubership_monitoring_ope.Reconciler.{Env}
use qubership_monitoring_ope.Reconciler.Fields.{rules, service_fields, service_monitor_fields}
use qubership_monitoring_ope.Reconciler.Frame.{IsLawfulEnv}
use qubership_monitoring_ope.Reconciler.Settle.{Settled}
use qubership_monitoring_ope.Reconciler.Wanted.{AreHealthy, Removed}
use qubership_monitoring_ope.Reconciler.Plan.{chain-Ensures, distinct_kinds-AllApart}
use qubership_monitoring_ope.Reconciler.Plan.Steps.{If, If-map, If-map_true}
use qubership_monitoring_ope.Reconciler.Plan.Handlers.{Ensures-run}
use qubership_monitoring_ope.KubeStateMetrics.{
  Manifests, install, uninstall, run, run_section, wants, is_wanted, deployment_manifest,
  deployment_fields, labelled_service_account, labelled_cluster_role, labelled_cluster_role_binding,
  labelled_service, labelled_service_monitor,
}
use qubership_monitoring_ope.KubeStateMetrics.Steps.{
  IsKinded, install_steps, chain-install_steps, removal_steps, chain-removal_steps,
}

-- The kinds of the objects that `uninstall` deletes.
abbrev pub removed_kinds : List Kind
removed_kinds =
    Kind.cluster_role ∷ Kind.cluster_role_binding ∷ Kind.service_account ∷ Kind.deployment
    ∷ Kind.service ∷ Kind.service_monitor ∷ []

module _ {V : Type 0} (env : Env V) (mf : Manifests V) (cr : PlatformMonitoring) where
  -- What the cluster has after an installation.
  pub record Installed (ksm : KubeStateMetrics) (s : env.client.Cluster) : Type 0 where
    pub service_account : Settled env (labelled_service_account env mf cr) [] s
    pub cluster_role :
        If env.privileged_rights (Settled env (labelled_cluster_role env mf cr) (rules ∷ []) s)
    pub cluster_role_binding :
        If env.privileged_rights (Settled env (labelled_cluster_role_binding env mf cr) [] s)
    pub service : Settled env (labelled_service env mf cr) service_fields s
    pub deployment : Settled env (deployment_manifest env mf cr) deployment_fields s
    pub service_monitor :
        If
          (wants_monitor ksm.service_monitor)
          (Settled env (labelled_service_monitor env mf cr) service_monitor_fields s)

  -- What the cluster is without after a removal.
  pub record Uninstalled (s : env.client.Cluster) : Type 0 where
    pub cluster_role : If env.privileged_rights (Removed env (mf.cluster_role cr) s)
    pub cluster_role_binding : If env.privileged_rights (Removed env (mf.cluster_role_binding cr) s)
    pub service_account : Removed env (mf.service_account cr) s
    pub deployment : Removed env (deployment_manifest env mf cr) s
    pub service : Removed env (mf.service cr) s
    pub service_monitor : Removed env (mf.service_monitor cr) s

  run-install :
      (ksm : KubeStateMetrics)
      → cr.spec.kube_state_metrics ≡ some ksm
      → wants ksm ≡ true
      → ksm.paused ≡ false
      → install env mf cr ksm ≡ run env mf cr
  unfolding run run_section
  run-install ksm section wanted active = rw (section, wanted, active) refl

  run_section-uninstall :
      (o : Option KubeStateMetrics)
      → is_wanted o ≡ false
      → uninstall env mf cr ≡ run_section env mf cr o
  unfolding run_section
  run_section-uninstall none h = refl
  run_section-uninstall (some ksm) h = rw h refl

  run-uninstall : is_wanted cr.spec.kube_state_metrics ≡ false → uninstall env mf cr ≡ run env mf cr
  unfolding run
  run-uninstall h = run_section-uninstall cr.spec.kube_state_metrics h

  module _ (law : IsLawfulEnv env) (kinds : IsKinded mf cr) where
    install-Ensures : (ksm : KubeStateMetrics) → Ensures (Installed ksm) (install env mf cr ksm)
    install-Ensures ksm =
        subst (Ensures (Installed ksm)) (chain-install_steps env law mf cr kinds ksm) (record {
          at = λ s done.
              let g =
                (chain-Ensures (install_steps env law mf cr kinds ksm)
                    (distinct_kinds-AllApart (install_steps env law mf cr kinds ksm) refl)).at
                  s done in
              record {
                service_account = g.0;
                cluster_role = If-map env.privileged_rights (λ h. h.0) g.1.0;
                cluster_role_binding = If-map env.privileged_rights (λ h. h.1.0) g.1.0;
                service = g.1.1.0;
                deployment = g.1.1.1.0;
                service_monitor = g.1.1.1.1.0;
              };
        })

    uninstall-Ensures : AreHealthy env removed_kinds → Ensures Uninstalled (uninstall env mf cr)
    uninstall-Ensures healthy =
        subst (Ensures Uninstalled) (chain-removal_steps env law mf cr kinds) (record {
          at = λ s done.
              let g =
                (chain-Ensures (removal_steps env law mf cr kinds)
                    (distinct_kinds-AllApart (removal_steps env law mf cr kinds) refl)).at
                  s done in
              record {
                cluster_role =
                    If-map_true env.privileged_rights
                      (λ t h. h.0 (healthy.at Kind.cluster_role refl t)) g.0;
                cluster_role_binding =
                    If-map_true env.privileged_rights
                      (λ t h. h.1.0 (healthy.at Kind.cluster_role_binding refl t)) g.0;
                service_account = g.1.0 (healthy.at Kind.service_account refl refl);
                deployment = g.1.1.0 (healthy.at Kind.deployment refl refl);
                service = g.1.1.1.0 (healthy.at Kind.service refl refl);
                service_monitor = g.1.1.1.1.0 (healthy.at Kind.service_monitor refl refl);
              };
        })

-- With a lawful client, if the section is set, is to be installed and is not paused, and `Run`
-- returns no error, then the cluster has the service account, the service and the deployment with
-- the labels and the copied fields of their manifests, the cluster role and its binding if the
-- operator has privileged rights, and the service monitor if the section wants it.
pub converges_kube_state_metrics :
    {V : Type 0} (env : Env V) (mf : Manifests V) (cr : PlatformMonitoring)
    → IsLawfulEnv env
    → IsKinded mf cr
    → (ksm : KubeStateMetrics) → cr.spec.kube_state_metrics ≡ some ksm
    → wants ksm ≡ true
    → ksm.paused ≡ false
    → (s : env.client.Cluster) → (run env mf cr s).0 ≡ ok tt
    → Installed env mf cr ksm (run env mf cr s).1
converges_kube_state_metrics env mf cr law kinds ksm section wanted active s done =
    Ensures-run env (Installed env mf cr ksm) (run-install env mf cr ksm section wanted active)
      (install-Ensures env mf cr law kinds ksm) s done

-- With a lawful client that is healthy for the kinds of the objects that `uninstall` deletes, as
-- far as the operator uses them, if the section is missing or is not to be installed, and `Run`
-- returns no error, then the cluster is without the service account, the deployment, the service
-- and the service monitor, and without the cluster role and its binding if the operator has
-- privileged rights, each as far as its builder returns a manifest.
clears_kube_state_metrics :
    {V : Type 0} (env : Env V) (mf : Manifests V) (cr : PlatformMonitoring)
    → IsLawfulEnv env
    → IsKinded mf cr
    → AreHealthy env removed_kinds
    → is_wanted cr.spec.kube_state_metrics ≡ false
    → (s : env.client.Cluster) → (run env mf cr s).0 ≡ ok tt
    → Uninstalled env mf cr (run env mf cr s).1
clears_kube_state_metrics env mf cr law kinds healthy unwanted s done =
    Ensures-run env (Uninstalled env mf cr) (run-uninstall env mf cr unwanted)
      (uninstall-Ensures env mf cr law kinds healthy) s done
