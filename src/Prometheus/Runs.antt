-- ===== src/Prometheus/Runs.antt =====
-- The outcome of `Run` of the prometheus reconciler on the branches that change the cluster.
use qubership_monitoring_ope.Prelude.{◌≡◌, refl, true, false, [], ◌∷◌, Option, none, some, List}
use mathlib.Core.Path.{subst}
use qubership_monitoring_ope.Api.{PlatformMonitoring, Prometheus}
use qubership_monitoring_ope.Api.Install.{wants_ingress, wants_monitor}
use qubership_monitoring_ope.Exec.{ok}
use qubership_monitoring_ope.Exec.Rules.{Ensures}
use qubership_monitoring_ope.Cluster.{Kind}
use qubership_monitoring_ope.Utils.Discovery.{has_ingress_v1_api, has_ingress_v1beta1_api}
use qubership_monitoring_ope.Reconciler.{Env}
use qubership_monitoring_ope.Reconciler.Fields.{ingress_fields, pod_monitor_fields, rules, spec}
use qubership_monitoring_ope.Reconciler.Frame.{IsLawfulEnv}
use qubership_monitoring_ope.Reconciler.Settle.{Settled}
use qubership_monitoring_ope.Exec.Rules.{Keeps-if, Keeps-pure, Keeps-then}
use qubership_monitoring_ope.Reconciler.Wanted.{AreHealthy, Removed}
use qubership_monitoring_ope.Reconciler.Plan.{Leaves, chain-Ensures, distinct_kinds-AllApart}
use qubership_monitoring_ope.Reconciler.Plan.Steps.{If, If-map, If-map_true}
use qubership_monitoring_ope.Reconciler.Plan.Handlers.{chain-Leaves_kind, Ensures-run_behind}
use qubership_monitoring_ope.Prometheus.{
  Manifests, install, uninstall, run, run_section, wants, is_wanted, needs_pvc, pvc_key,
  remove_prometheus_pvc, labelled_service_account, labelled_cluster_role,
  labelled_cluster_role_binding, labelled_pod_monitor,
}
use qubership_monitoring_ope.Prometheus.Steps.{
  IsKinded, install_steps, chain-install_steps, removal_steps, chain-removal_steps,
}

-- The kinds of the objects that `uninstall` deletes.
abbrev pub removed_kinds : List Kind
removed_kinds =
    Kind.cluster_role ∷ Kind.cluster_role_binding ∷ Kind.service_account ∷ Kind.prometheus
    ∷ Kind.pod_monitor ∷ Kind.ingress_v1beta1 ∷ Kind.ingress_v1 ∷ []

module _ {V : Type 0} (env : Env V) (mf : Manifests V) (cr : PlatformMonitoring) where
  -- What the cluster has after an installation.
  pub record Installed (p : Prometheus) (s : env.client.Cluster) : Type 0 where
    pub service_account : Settled env (labelled_service_account env mf cr) [] s
    pub cluster_role :
        If env.privileged_rights (Settled env (labelled_cluster_role env mf cr) (rules ∷ []) s)
    pub cluster_role_binding :
        If env.privileged_rights (Settled env (labelled_cluster_role_binding env mf cr) [] s)
    pub prometheus : Settled env (mf.prometheus cr) (spec ∷ []) s
    pub ingress_v1beta1 :
        If
          (has_ingress_v1beta1_api env.discovery)
          (If (wants_ingress p.ingress) (Settled env (mf.ingress_v1beta1 cr) ingress_fields s))
    pub ingress_v1 :
        If
          (has_ingress_v1_api env.discovery)
          (If (wants_ingress p.ingress) (Settled env (mf.ingress_v1 cr) ingress_fields s))
    pub pod_monitor :
        If
          (wants_monitor p.pod_monitor)
          (Settled env (labelled_pod_monitor env mf cr) pod_monitor_fields s)

  -- What the cluster is without after a removal.
  pub record Uninstalled (s : env.client.Cluster) : Type 0 where
    pub cluster_role : If env.privileged_rights (Removed env (mf.cluster_role cr) s)
    pub cluster_role_binding : If env.privileged_rights (Removed env (mf.cluster_role_binding cr) s)
    pub service_account : Removed env (mf.service_account cr) s
    pub prometheus : Removed env (mf.prometheus cr) s
    pub pod_monitor : Removed env (mf.pod_monitor cr) s
    pub ingress_v1beta1 :
        If (has_ingress_v1beta1_api env.discovery) (Removed env (mf.ingress_v1beta1 cr) s)
    pub ingress_v1 : If (has_ingress_v1_api env.discovery) (Removed env (mf.ingress_v1 cr) s)

  run-install :
      (p : Prometheus)
      → cr.spec.prometheus ≡ some p
      → wants p ≡ true
      → p.paused ≡ false
      → install env mf cr p ≡ run_section env mf cr cr.spec.prometheus
  unfolding run_section
  run-install p section wanted active = rw (section, wanted, active) refl

  run_section-uninstall :
      (o : Option Prometheus) → is_wanted o ≡ false → uninstall env mf cr ≡ run_section env mf cr o
  unfolding run_section
  run_section-uninstall none h = refl
  run_section-uninstall (some p) h = rw h refl

  run-uninstall :
      is_wanted cr.spec.prometheus ≡ false
      → uninstall env mf cr ≡ run_section env mf cr cr.spec.prometheus
  run-uninstall h = run_section-uninstall cr.spec.prometheus h

  module _ (law : IsLawfulEnv env) (kinds : IsKinded mf cr) where
    install-Ensures : (p : Prometheus) → Ensures (Installed p) (install env mf cr p)
    install-Ensures p =
        subst (Ensures (Installed p)) (chain-install_steps env law mf cr kinds p) (record {
          at = λ s done.
              let g =
                (chain-Ensures (install_steps env law mf cr kinds p)
                    (distinct_kinds-AllApart (install_steps env law mf cr kinds p) refl)).at
                  s done in
              record {
                service_account = g.0;
                cluster_role = If-map env.privileged_rights (λ h. h.0) g.1.0;
                cluster_role_binding = If-map env.privileged_rights (λ h. h.1.0) g.1.0;
                prometheus = g.1.1.0;
                ingress_v1beta1 = g.1.1.1.0;
                ingress_v1 = g.1.1.1.1.0;
                pod_monitor = g.1.1.1.1.1.0;
              };
        })

    uninstall-Ensures : AreHealthy env removed_kinds → Ensures Uninstalled (uninstall env mf cr)
    uninstall-Ensures healthy =
        subst (Ensures Uninstalled) (chain-removal_steps env law mf cr kinds) (record {
          at = λ s done.
              let g =
                (chain-Ensures (removal_steps env law mf cr kinds)
                    (distinct_kinds-AllApart (removal_steps env law mf cr kinds) refl)).at
                  s done in
              record {
                cluster_role =
                    If-map_true env.privileged_rights
                      (λ t h. h.0 (healthy.at Kind.cluster_role refl t)) g.0;
                cluster_role_binding =
                    If-map_true env.privileged_rights
                      (λ t h. h.1.0 (healthy.at Kind.cluster_role_binding refl t)) g.0;
                service_account = g.1.0 (healthy.at Kind.service_account refl refl);
                prometheus = g.1.1.0 (healthy.at Kind.prometheus refl refl);
                pod_monitor = g.1.1.1.0 (healthy.at Kind.pod_monitor refl refl);
                ingress_v1beta1 =
                    If-map_true (has_ingress_v1beta1_api env.discovery)
                      (λ t h. h (healthy.at Kind.ingress_v1beta1 refl t)) g.1.1.1.1.0;
                ingress_v1 =
                    If-map_true (has_ingress_v1_api env.discovery)
                      (λ t h. h (healthy.at Kind.ingress_v1 refl t)) g.1.1.1.1.1.0;
              };
        })

-- With a lawful client, if the section is set, is to be installed and is not paused, and `Run`
-- returns no error, then the cluster has the service account and the Prometheus resource with the
-- labels and the copied fields of their manifests, the cluster role and its binding if the operator
-- has privileged rights, each ingress whose API the cluster has and that the section wants, and the
-- pod monitor if the section wants it.
pub converges_prometheus :
    {V : Type 0} (env : Env V) (mf : Manifests V) (cr : PlatformMonitoring)
    → IsLawfulEnv env
    → IsKinded mf cr
    → (p : Prometheus) → cr.spec.prometheus ≡ some p
    → wants p ≡ true
    → p.paused ≡ false
    → (s : env.client.Cluster) → (run env mf cr s).0 ≡ ok tt
    → Installed env mf cr p (run env mf cr s).1
unfolding run
converges_prometheus env mf cr law kinds p section wanted active s done =
    Ensures-run_behind env (remove_prometheus_pvc env cr) (Installed env mf cr p)
      (run-install env mf cr p section wanted active) (install-Ensures env mf cr law kinds p) s done

-- With a lawful client that is healthy for the kinds of the objects that `uninstall` deletes, as
-- far as the operator uses them, if the section is missing or is not to be installed, and `Run`
-- returns no error, then the cluster is without the service account, the Prometheus resource, the
-- pod monitor and each ingress whose API the cluster has, and without the cluster role and its
-- binding if the operator has privileged rights, each as far as its builder returns a manifest.
pub clears_prometheus :
    {V : Type 0} (env : Env V) (mf : Manifests V) (cr : PlatformMonitoring)
    → IsLawfulEnv env
    → IsKinded mf cr
    → AreHealthy env removed_kinds
    → is_wanted cr.spec.prometheus ≡ false
    → (s : env.client.Cluster) → (run env mf cr s).0 ≡ ok tt
    → Uninstalled env mf cr (run env mf cr s).1
unfolding run
clears_prometheus env mf cr law kinds healthy unwanted s done =
    Ensures-run_behind env (remove_prometheus_pvc env cr) (Uninstalled env mf cr)
      (run-uninstall env mf cr unwanted) (uninstall-Ensures env mf cr law kinds healthy) s done

module _ {V : Type 0} (env : Env V) (mf : Manifests V) (cr : PlatformMonitoring)
    (law : IsLawfulEnv env) where
  remove_prometheus_pvc-Leaves :
      needs_pvc cr.spec.prometheus ≡ true → Leaves env (pvc_key cr) (remove_prometheus_pvc env cr)
  unfolding remove_prometheus_pvc
  remove_prometheus_pvc-Leaves needed = record { at = λ r. rw needed (Keeps-pure tt) }

  uninstall-Leaves : IsKinded mf cr → Leaves env (pvc_key cr) (uninstall env mf cr)
  uninstall-Leaves kinds =
      subst (Leaves env (pvc_key cr)) (chain-removal_steps env law mf cr kinds) (
        chain-Leaves_kind env (removal_steps env law mf cr kinds) (pvc_key cr)
          Kind.persistent_volume_claim refl refl)

  install-Leaves : IsKinded mf cr → (p : Prometheus) → Leaves env (pvc_key cr) (install env mf cr p)
  install-Leaves kinds p =
      subst (Leaves env (pvc_key cr)) (chain-install_steps env law mf cr kinds p) (
        chain-Leaves_kind env (install_steps env law mf cr kinds p) (pvc_key cr)
          Kind.persistent_volume_claim refl refl)

  run_section-Leaves :
      IsKinded mf cr → (o : Option Prometheus) → Leaves env (pvc_key cr) (run_section env mf cr o)
  unfolding run_section
  run_section-Leaves kinds none = uninstall-Leaves kinds
  run_section-Leaves kinds (some p) = record {
    at = λ r.
        Keeps-if (wants p) (Keeps-if p.paused (Keeps-pure tt) ((install-Leaves kinds p).at r))
          ((uninstall-Leaves kinds).at r);
  }

-- With a lawful client, if the section is to be installed and has storage, then whatever `Run`
-- returns, and also where the section is paused, the volume claim of the Prometheus pod is as it
-- was.
pub run_keeps_prometheus_pvc :
    {V : Type 0} (env : Env V) (mf : Manifests V) (cr : PlatformMonitoring)
    → IsLawfulEnv env
    → IsKinded mf cr
    → needs_pvc cr.spec.prometheus ≡ true
    → (s : env.client.Cluster)
    → env.client.get (pvc_key cr) (run env mf cr s).1 ≡ env.client.get (pvc_key cr) s
unfolding run
run_keeps_prometheus_pvc env mf cr law kinds needed s =
    (Keeps-then ((remove_prometheus_pvc-Leaves env mf cr law needed).at _)
        ((run_section-Leaves env mf cr law kinds cr.spec.prometheus).at _)).at
      s refl
