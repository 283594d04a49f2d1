-- ===== src/AlertManager/Runs.antt =====
-- The outcome of `Run` of the alertmanager reconciler on the branches that change the cluster.
use qubership_monitoring_ope.Prelude.{◌≡◌, refl, true, false, [], ◌∷◌, Option, none, some, List}
use mathlib.Core.Path.{subst}
use qubership_monitoring_ope.Api.{PlatformMonitoring, AlertManager}
use qubership_monitoring_ope.Api.Install.{wants_ingress, wants_monitor}
use qubership_monitoring_ope.Cluster.{Kind}
use qubership_monitoring_ope.Exec.{ok}
use qubership_monitoring_ope.Exec.Rules.{Ensures}
use qubership_monitoring_ope.Utils.Discovery.{has_ingress_v1_api, has_ingress_v1beta1_api}
use qubership_monitoring_ope.Reconciler.{Env}
use qubership_monitoring_ope.Reconciler.Fields.{
  ingress_fields, pod_monitor_fields, service_fields, spec,
}
use qubership_monitoring_ope.Reconciler.Frame.{IsLawfulEnv}
use qubership_monitoring_ope.Reconciler.Settle.{Settled}
use qubership_monitoring_ope.Reconciler.Wanted.{AreHealthy, Removed}
use qubership_monitoring_ope.Reconciler.Plan.{chain-Ensures, distinct_kinds-AllApart}
use qubership_monitoring_ope.Reconciler.Plan.Steps.{If, If-map_true}
use qubership_monitoring_ope.Reconciler.Plan.Handlers.{Ensures-run}
use qubership_monitoring_ope.AlertManager.{
  Manifests, install, uninstall, run, run_section, wants, is_wanted, labelled_secret,
  labelled_service_account, labelled_service, labelled_pod_monitor,
}
use qubership_monitoring_ope.AlertManager.Steps.{
  IsKinded, install_steps, chain-install_steps, removal_steps, chain-removal_steps,
}

-- The kinds of the objects that `uninstall` deletes.
abbrev pub removed_kinds : List Kind
removed_kinds =
    Kind.service_account ∷ Kind.service ∷ Kind.secret ∷ Kind.alertmanager ∷ Kind.pod_monitor
    ∷ Kind.ingress_v1beta1 ∷ Kind.ingress_v1 ∷ []

module _ {V : Type 0} (env : Env V) (mf : Manifests V) (cr : PlatformMonitoring) where
  -- What the cluster has after an installation.
  pub record Installed (am : AlertManager) (s : env.client.Cluster) : Type 0 where
    pub secret : Settled env (labelled_secret env mf cr) [] s
    pub service_account : Settled env (labelled_service_account env mf cr) [] s
    pub service : Settled env (labelled_service env mf cr) service_fields s
    pub alertmanager : Settled env (mf.alertmanager cr) (spec ∷ []) s
    pub ingress_v1beta1 :
        If
          (has_ingress_v1beta1_api env.discovery)
          (If (wants_ingress am.ingress) (Settled env (mf.ingress_v1beta1 cr) ingress_fields s))
    pub ingress_v1 :
        If
          (has_ingress_v1_api env.discovery)
          (If (wants_ingress am.ingress) (Settled env (mf.ingress_v1 cr) ingress_fields s))
    pub pod_monitor :
        If
          (wants_monitor am.pod_monitor)
          (Settled env (labelled_pod_monitor env mf cr) pod_monitor_fields s)

  -- What the cluster is without after a removal.
  pub record Uninstalled (s : env.client.Cluster) : Type 0 where
    pub service_account : Removed env (mf.service_account cr) s
    pub service : Removed env (mf.service cr) s
    pub secret : Removed env (mf.secret cr) s
    pub alertmanager : Removed env (mf.alertmanager cr) s
    pub pod_monitor : Removed env (mf.pod_monitor cr) s
    pub ingress_v1beta1 :
        If (has_ingress_v1beta1_api env.discovery) (Removed env (mf.ingress_v1beta1 cr) s)
    pub ingress_v1 : If (has_ingress_v1_api env.discovery) (Removed env (mf.ingress_v1 cr) s)

  run-install :
      (am : AlertManager)
      → cr.spec.alert_manager ≡ some am
      → wants am ≡ true
      → am.paused ≡ false
      → install env mf cr am ≡ run env mf cr
  unfolding run run_section
  run-install am section wanted active = rw (section, wanted, active) refl

  run_section-uninstall :
      (o : Option AlertManager)
      → is_wanted o ≡ false
      → uninstall env mf cr ≡ run_section env mf cr o
  unfolding run_section
  run_section-uninstall none h = refl
  run_section-uninstall (some am) h = rw h refl

  run-uninstall : is_wanted cr.spec.alert_manager ≡ false → uninstall env mf cr ≡ run env mf cr
  unfolding run
  run-uninstall h = run_section-uninstall cr.spec.alert_manager h

  module _ (law : IsLawfulEnv env) (kinds : IsKinded mf cr) where
    install-Ensures : (am : AlertManager) → Ensures (Installed am) (install env mf cr am)
    install-Ensures am =
        subst (Ensures (Installed am)) (chain-install_steps env law mf cr kinds am) (record {
          at = λ s done.
              let g =
                (chain-Ensures (install_steps env law mf cr kinds am)
                    (distinct_kinds-AllApart (install_steps env law mf cr kinds am) refl)).at
                  s done in
              record {
                secret = g.0;
                service_account = g.1.0;
                service = g.1.1.0;
                alertmanager = g.1.1.1.0;
                ingress_v1beta1 = g.1.1.1.1.0;
                ingress_v1 = g.1.1.1.1.1.0;
                pod_monitor = g.1.1.1.1.1.1.0;
              };
        })

    uninstall-Ensures : AreHealthy env removed_kinds → Ensures Uninstalled (uninstall env mf cr)
    uninstall-Ensures healthy =
        subst (Ensures Uninstalled) (chain-removal_steps env law mf cr kinds) (record {
          at = λ s done.
              let g =
                (chain-Ensures (removal_steps env law mf cr kinds)
                    (distinct_kinds-AllApart (removal_steps env law mf cr kinds) refl)).at
                  s done in
              record {
                service_account = g.0 (healthy.at Kind.service_account refl refl);
                service = g.1.0 (healthy.at Kind.service refl refl);
                secret = g.1.1.0 (healthy.at Kind.secret refl refl);
                alertmanager = g.1.1.1.0 (healthy.at Kind.alertmanager refl refl);
                pod_monitor = g.1.1.1.1.0 (healthy.at Kind.pod_monitor refl refl);
                ingress_v1beta1 =
                    If-map_true (has_ingress_v1beta1_api env.discovery)
                      (λ t h. h (healthy.at Kind.ingress_v1beta1 refl t)) g.1.1.1.1.1.0;
                ingress_v1 =
                    If-map_true (has_ingress_v1_api env.discovery)
                      (λ t h. h (healthy.at Kind.ingress_v1 refl t)) g.1.1.1.1.1.1.0;
              };
        })

-- With a lawful client, if the section is set, is to be installed and is not paused, and `Run`
-- returns no error, then the cluster has the secret, the service account, the service and the
-- Alertmanager resource with the labels and the copied fields of their manifests, each ingress
-- whose API the cluster has and that the section wants, and the pod monitor if the section wants
-- it.
pub converges_alert_manager :
    {V : Type 0} (env : Env V) (mf : Manifests V) (cr : PlatformMonitoring)
    → IsLawfulEnv env
    → IsKinded mf cr
    → (am : AlertManager) → cr.spec.alert_manager ≡ some am
    → wants am ≡ true
    → am.paused ≡ false
    → (s : env.client.Cluster) → (run env mf cr s).0 ≡ ok tt
    → Installed env mf cr am (run env mf cr s).1
converges_alert_manager env mf cr law kinds am section wanted active s done =
    Ensures-run env (Installed env mf cr am) (run-install env mf cr am section wanted active)
      (install-Ensures env mf cr law kinds am) s done

-- With a lawful client that is healthy for the kinds of the objects that `uninstall` deletes, as
-- far as the operator uses them, if the section is missing or is not to be installed, and `Run`
-- returns no error, then the cluster is without the service account, the service, the secret, the
-- Alertmanager resource, the pod monitor and each ingress whose API the cluster has, each as far as
-- its builder returns a manifest.
clears_alert_manager :
    {V : Type 0} (env : Env V) (mf : Manifests V) (cr : PlatformMonitoring)
    → IsLawfulEnv env
    → IsKinded mf cr
    → AreHealthy env removed_kinds
    → is_wanted cr.spec.alert_manager ≡ false
    → (s : env.client.Cluster) → (run env mf cr s).0 ≡ ok tt
    → Uninstalled env mf cr (run env mf cr s).1
clears_alert_manager env mf cr law kinds healthy unwanted s done =
    Ensures-run env (Uninstalled env mf cr) (run-uninstall env mf cr unwanted)
      (uninstall-Ensures env mf cr law kinds healthy) s done
