-- ===== src/PrometheusOperator/Runs.antt =====
-- The outcome of `Run` of the prometheus-operator reconciler on the branches that change the
-- cluster.
use qubership_monitoring_ope.Prelude.{◌≡◌, refl, true, false, [], ◌∷◌, Option, none, some, List}
use mathlib.Core.Path.{subst}
use qubership_monitoring_ope.Api.{PlatformMonitoring, Prometheus}
use qubership_monitoring_ope.Api.Install.{wants_monitor}
use qubership_monitoring_ope.Cluster.{Kind}
use qubership_monitoring_ope.Exec.{ok}
use qubership_monitoring_ope.Exec.Rules.{Ensures}
use qubership_monitoring_ope.Reconciler.{Env}
use qubership_monitoring_ope.Reconciler.Fields.{pod_monitor_fields, rules, service_fields}
use qubership_monitoring_ope.Reconciler.Frame.{IsLawfulEnv}
use qubership_monitoring_ope.Reconciler.Settle.{Settled}
use qubership_monitoring_ope.Reconciler.Wanted.{AreHealthy, Removed}
use qubership_monitoring_ope.Reconciler.Plan.{chain-Ensures, distinct_kinds-AllApart}
use qubership_monitoring_ope.Reconciler.Plan.Steps.{If, If-map, If-map_true}
use qubership_monitoring_ope.Reconciler.Plan.Handlers.{Ensures-run}
use qubership_monitoring_ope.PrometheusOperator.{
  Manifests, install, uninstall, run, run_section, wants, is_wanted, deployment_fields,
  labelled_role, labelled_service_account, labelled_cluster_role, labelled_cluster_role_binding,
  labelled_role_binding, labelled_service, labelled_pod_monitor,
}
use qubership_monitoring_ope.PrometheusOperator.Steps.{
  IsKinded, install_steps, chain-install_steps, removal_steps, chain-removal_steps,
}

-- The kinds of the objects that `uninstall` deletes.
abbrev pub removed_kinds : List Kind
removed_kinds =
    Kind.service_account ∷ Kind.cluster_role ∷ Kind.cluster_role_binding ∷ Kind.role
    ∷ Kind.role_binding ∷ Kind.service ∷ Kind.deployment ∷ Kind.pod_monitor ∷ []

module _ {V : Type 0} (env : Env V) (mf : Manifests V) (cr : PlatformMonitoring) where
  -- What the cluster has after an installation.
  pub record Installed (p : Prometheus) (s : env.client.Cluster) : Type 0 where
    pub role : Settled env (labelled_role env mf cr) (rules ∷ []) s
    pub service_account : Settled env (labelled_service_account env mf cr) [] s
    pub cluster_role :
        If env.privileged_rights (Settled env (labelled_cluster_role env mf cr) (rules ∷ []) s)
    pub cluster_role_binding :
        If env.privileged_rights (Settled env (labelled_cluster_role_binding env mf cr) [] s)
    pub role_binding : Settled env (labelled_role_binding env mf cr) [] s
    pub service : Settled env (labelled_service env mf cr) service_fields s
    pub deployment : Settled env (mf.deployment cr) deployment_fields s
    pub pod_monitor :
        If
          (wants_monitor p.operator.pod_monitor)
          (Settled env (labelled_pod_monitor env mf cr) pod_monitor_fields s)

  -- What the cluster is without after a removal.
  pub record Uninstalled (s : env.client.Cluster) : Type 0 where
    pub service_account : Removed env (mf.service_account cr) s
    pub cluster_role : If env.privileged_rights (Removed env (mf.cluster_role cr) s)
    pub cluster_role_binding : If env.privileged_rights (Removed env (mf.cluster_role_binding cr) s)
    pub role : Removed env (mf.role cr) s
    pub role_binding : Removed env (mf.role_binding cr) s
    pub service : Removed env (mf.service cr) s
    pub deployment : Removed env (mf.deployment cr) s
    pub pod_monitor : Removed env (mf.pod_monitor cr) s

  run-install :
      (p : Prometheus)
      → cr.spec.prometheus ≡ some p
      → wants p ≡ true
      → p.operator.paused ≡ false
      → install env mf cr p ≡ run env mf cr
  unfolding run run_section
  run-install p section wanted active = rw (section, wanted, active) refl

  run_section-uninstall :
      (o : Option Prometheus) → is_wanted o ≡ false → uninstall env mf cr ≡ run_section env mf cr o
  unfolding run_section
  run_section-uninstall none h = refl
  run_section-uninstall (some p) h = rw h refl

  run-uninstall : is_wanted cr.spec.prometheus ≡ false → uninstall env mf cr ≡ run env mf cr
  unfolding run
  run-uninstall h = run_section-uninstall cr.spec.prometheus h

  module _ (law : IsLawfulEnv env) (kinds : IsKinded mf cr) where
    install-Ensures : (p : Prometheus) → Ensures (Installed p) (install env mf cr p)
    install-Ensures p =
        subst (Ensures (Installed p)) (chain-install_steps env law mf cr kinds p) (record {
          at = λ s done.
              let g =
                (chain-Ensures (install_steps env law mf cr kinds p)
                    (distinct_kinds-AllApart (install_steps env law mf cr kinds p) refl)).at
                  s done in
              record {
                role = g.0;
                service_account = g.1.0;
                cluster_role = If-map env.privileged_rights (λ h. h.0) g.1.1.0;
                cluster_role_binding = If-map env.privileged_rights (λ h. h.1.0) g.1.1.0;
                role_binding = g.1.1.1.0;
                service = g.1.1.1.1.0;
                deployment = g.1.1.1.1.1.0;
                pod_monitor = g.1.1.1.1.1.1.0;
              };
        })

    uninstall-Ensures : AreHealthy env removed_kinds → Ensures Uninstalled (uninstall env mf cr)
    uninstall-Ensures healthy =
        subst (Ensures Uninstalled) (chain-removal_steps env law mf cr kinds) (record {
          at = λ s done.
              let g =
                (chain-Ensures (removal_steps env law mf cr kinds)
                    (distinct_kinds-AllApart (removal_steps env law mf cr kinds) refl)).at
                  s done in
              record {
                service_account = g.0 (healthy.at Kind.service_account refl refl);
                cluster_role =
                    If-map_true env.privileged_rights
                      (λ t h. h.0 (healthy.at Kind.cluster_role refl t)) g.1.0;
                cluster_role_binding =
                    If-map_true env.privileged_rights
                      (λ t h. h.1.0 (healthy.at Kind.cluster_role_binding refl t)) g.1.0;
                role = g.1.1.0 (healthy.at Kind.role refl refl);
                role_binding = g.1.1.1.0 (healthy.at Kind.role_binding refl refl);
                service = g.1.1.1.1.0 (healthy.at Kind.service refl refl);
                deployment = g.1.1.1.1.1.0 (healthy.at Kind.deployment refl refl);
                pod_monitor = g.1.1.1.1.1.1.0 (healthy.at Kind.pod_monitor refl refl);
              };
        })

-- With a lawful client, if the section of Prometheus is to be installed, its operator is not
-- paused, and `Run` returns no error, then the cluster has the role and its binding, the service
-- account, the service and the deployment with the labels and the copied fields of their manifests,
-- the cluster role and its binding if the operator has privileged rights, and the pod monitor if
-- the section wants it.
pub converges_prometheus_operator :
    {V : Type 0} (env : Env V) (mf : Manifests V) (cr : PlatformMonitoring)
    → IsLawfulEnv env
    → IsKinded mf cr
    → (p : Prometheus) → cr.spec.prometheus ≡ some p
    → wants p ≡ true
    → p.operator.paused ≡ false
    → (s : env.client.Cluster) → (run env mf cr s).0 ≡ ok tt
    → Installed env mf cr p (run env mf cr s).1
converges_prometheus_operator env mf cr law kinds p section wanted active s done =
    Ensures-run env (Installed env mf cr p) (run-install env mf cr p section wanted active)
      (install-Ensures env mf cr law kinds p) s done

-- With a lawful client that is healthy for the kinds of the objects that `uninstall` deletes, as
-- far as the operator uses them, if the section of Prometheus is not to be installed, and `Run`
-- returns no error, then the cluster is without the service account, the role and its binding, the
-- service, the deployment and the pod monitor, and without the cluster role and its binding if the
-- operator has privileged rights, each as far as its builder returns a manifest.
clears_prometheus_operator :
    {V : Type 0} (env : Env V) (mf : Manifests V) (cr : PlatformMonitoring)
    → IsLawfulEnv env
    → IsKinded mf cr
    → AreHealthy env removed_kinds
    → is_wanted cr.spec.prometheus ≡ false
    → (s : env.client.Cluster) → (run env mf cr s).0 ≡ ok tt
    → Uninstalled env mf cr (run env mf cr s).1
clears_prometheus_operator env mf cr law kinds healthy unwanted s done =
    Ensures-run env (Uninstalled env mf cr) (run-uninstall env mf cr unwanted)
      (uninstall-Ensures env mf cr law kinds healthy) s done
