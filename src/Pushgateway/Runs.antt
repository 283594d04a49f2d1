-- ===== src/Pushgateway/Runs.antt =====
-- The outcome of `Run` of the pushgateway reconciler on the branches that change the cluster.
use qubership_monitoring_ope.Prelude.{
  ◌∷◌, ◌≡◌, refl, ◌∙◌, true, false, Option, none, some, List, [],
}
use mathlib.Core.Path.{subst}
use qubership_monitoring_ope.Prelude.Text.{Bytes}
use qubership_monitoring_ope.Api.{PlatformMonitoring, Pushgateway}
use qubership_monitoring_ope.Api.Install.{wants_ingress, wants_monitor}
use qubership_monitoring_ope.Exec.{ok}
use qubership_monitoring_ope.Exec.Rules.{Ensures}
use qubership_monitoring_ope.Cluster.{Kind}
use qubership_monitoring_ope.Utils.Discovery.{has_ingress_v1_api, has_ingress_v1beta1_api}
use qubership_monitoring_ope.Reconciler.{Env}
use qubership_monitoring_ope.Reconciler.Fields.{
  ingress_fields, service_fields, service_monitor_fields,
}
use qubership_monitoring_ope.Reconciler.Frame.{IsLawfulEnv}
use qubership_monitoring_ope.Reconciler.Settle.{Settled}
use qubership_monitoring_ope.Reconciler.Wanted.{AreHealthy, Removed}
use qubership_monitoring_ope.Reconciler.Plan.{Leaves, chain-Ensures, distinct_kinds-AllApart}
use qubership_monitoring_ope.Reconciler.Plan.Steps.{If, If-map_true}
use qubership_monitoring_ope.Reconciler.Plan.Present.{Present}
use qubership_monitoring_ope.Reconciler.Plan.Handlers.{chain-Leaves_kind, Ensures-run}
use qubership_monitoring_ope.Pushgateway.{
  Manifests, install, uninstall, run, run_section, wants, is_wanted, deployment_fields,
  labelled_service, labelled_service_monitor,
}
use qubership_monitoring_ope.Pushgateway.Steps.{
  IsKinded, install_steps, chain-install_steps, removal_steps, chain-removal_steps,
}

-- The kinds of the objects that `uninstall` deletes.
abbrev pub removed_kinds : List Kind
removed_kinds = Kind.deployment ∷ Kind.service ∷ Kind.ingress_v1beta1 ∷ Kind.ingress_v1 ∷ []

module _ {V : Type 0} (env : Env V) (mf : Manifests V) (cr : PlatformMonitoring) where
  -- What the cluster has after an installation.
  pub record Installed (pg : Pushgateway) (s : env.client.Cluster) : Type 0 where
    pub service : Settled env (labelled_service env mf cr) service_fields s
    pub pvc : If (pg.has_storage) (Present env (mf.pvc cr) s)
    pub deployment : Settled env (mf.deployment cr) deployment_fields s
    pub ingress_v1beta1 :
        If
          (has_ingress_v1beta1_api env.discovery)
          (If (wants_ingress pg.ingress) (Settled env (mf.ingress_v1beta1 cr) ingress_fields s))
    pub ingress_v1 :
        If
          (has_ingress_v1_api env.discovery)
          (If (wants_ingress pg.ingress) (Settled env (mf.ingress_v1 cr) ingress_fields s))
    pub service_monitor :
        If
          (wants_monitor pg.service_monitor)
          (Settled env (labelled_service_monitor env mf cr) service_monitor_fields s)

  -- What the cluster is without after a removal.
  pub record Uninstalled (s : env.client.Cluster) : Type 0 where
    pub deployment : Removed env (mf.deployment cr) s
    pub service : Removed env (mf.service cr) s
    pub ingress_v1beta1 :
        If (has_ingress_v1beta1_api env.discovery) (Removed env (mf.ingress_v1beta1 cr) s)
    pub ingress_v1 : If (has_ingress_v1_api env.discovery) (Removed env (mf.ingress_v1 cr) s)

  run-install :
      (pg : Pushgateway)
      → cr.spec.pushgateway ≡ some pg
      → wants pg ≡ true
      → pg.paused ≡ false
      → install env mf cr pg ≡ run env mf cr
  unfolding run run_section
  run-install pg section wanted active = rw (section, wanted, active) refl

  run_section-uninstall :
      (o : Option Pushgateway) → is_wanted o ≡ false → uninstall env mf cr ≡ run_section env mf cr o
  unfolding run_section
  run_section-uninstall none h = refl
  run_section-uninstall (some pg) h = rw h refl

  run-uninstall : is_wanted cr.spec.pushgateway ≡ false → uninstall env mf cr ≡ run env mf cr
  unfolding run
  run-uninstall h = run_section-uninstall cr.spec.pushgateway h

  module _ (law : IsLawfulEnv env) (kinds : IsKinded mf cr) where
    install-Ensures : (pg : Pushgateway) → Ensures (Installed pg) (install env mf cr pg)
    install-Ensures pg =
        subst (Ensures (Installed pg)) (chain-install_steps env law mf cr kinds pg) (record {
          at = λ s done.
              let g =
                (chain-Ensures (install_steps env law mf cr kinds pg)
                    (distinct_kinds-AllApart (install_steps env law mf cr kinds pg) refl)).at
                  s done in
              record {
                service = g.0;
                pvc = g.1.0;
                deployment = g.1.1.0;
                ingress_v1beta1 = g.1.1.1.0;
                ingress_v1 = g.1.1.1.1.0;
                service_monitor = g.1.1.1.1.1.0;
              };
        })

    uninstall-Ensures : AreHealthy env removed_kinds → Ensures Uninstalled (uninstall env mf cr)
    uninstall-Ensures healthy =
        subst (Ensures Uninstalled) (chain-removal_steps env law mf cr kinds) (record {
          at = λ s done.
              let g =
                (chain-Ensures (removal_steps env law mf cr kinds)
                    (distinct_kinds-AllApart (removal_steps env law mf cr kinds) refl)).at
                  s done in
              record {
                deployment = g.0 (healthy.at Kind.deployment refl refl);
                service = g.1.0 (healthy.at Kind.service refl refl);
                ingress_v1beta1 =
                    If-map_true (has_ingress_v1beta1_api env.discovery)
                      (λ t h. h (healthy.at Kind.ingress_v1beta1 refl t)) g.1.1.0;
                ingress_v1 =
                    If-map_true (has_ingress_v1_api env.discovery)
                      (λ t h. h (healthy.at Kind.ingress_v1 refl t)) g.1.1.1.0;
              };
        })

-- With a lawful client, if the section is set, is to be installed and is not paused, and `Run`
-- returns no error, then the cluster has the labelled service and the deployment with the labels
-- and the copied fields of their manifests, a volume claim if the section has storage, and each
-- ingress whose API the cluster has and that the section wants, and the labelled service monitor if
-- the section wants it.
pub converges_pushgateway :
    {V : Type 0} (env : Env V) (mf : Manifests V) (cr : PlatformMonitoring)
    → IsLawfulEnv env
    → IsKinded mf cr
    → (pg : Pushgateway) → cr.spec.pushgateway ≡ some pg
    → wants pg ≡ true
    → pg.paused ≡ false
    → (s : env.client.Cluster) → (run env mf cr s).0 ≡ ok tt
    → Installed env mf cr pg (run env mf cr s).1
converges_pushgateway env mf cr law kinds pg section wanted active s done =
    Ensures-run env (Installed env mf cr pg) (run-install env mf cr pg section wanted active)
      (install-Ensures env mf cr law kinds pg) s done

-- With a lawful client that is healthy for the kinds of the objects that `uninstall` deletes, as
-- far as the operator uses them, if the section is missing or is not to be installed, and `Run`
-- returns no error, then the cluster is without the deployment, the service and each ingress whose
-- API the cluster has, each as far as its builder returns a manifest.
pub clears_pushgateway :
    {V : Type 0} (env : Env V) (mf : Manifests V) (cr : PlatformMonitoring)
    → IsLawfulEnv env
    → IsKinded mf cr
    → AreHealthy env removed_kinds
    → is_wanted cr.spec.pushgateway ≡ false
    → (s : env.client.Cluster) → (run env mf cr s).0 ≡ ok tt
    → Uninstalled env mf cr (run env mf cr s).1
clears_pushgateway env mf cr law kinds healthy unwanted s done =
    Ensures-run env (Uninstalled env mf cr) (run-uninstall env mf cr unwanted)
      (uninstall-Ensures env mf cr law kinds healthy) s done

-- With a lawful client, a `Run` that uninstalls leaves every service monitor and every persistent
-- volume claim as it was, those of the pushgateway too.
pub uninstall_leaves_monitor :
    {V : Type 0} (env : Env V) (mf : Manifests V) (cr : PlatformMonitoring)
    → IsLawfulEnv env
    → IsKinded mf cr
    → is_wanted cr.spec.pushgateway ≡ false
    → (s : env.client.Cluster) (namespace name : Bytes)
    → (env.client.get
          (record { kind = Kind.service_monitor; namespace = namespace; name = name })
          (run env mf cr s).1
        ≡ env.client.get
            (record { kind = Kind.service_monitor; namespace = namespace; name = name })
            s)
      × (env.client.get
            (record { kind = Kind.persistent_volume_claim; namespace = namespace; name = name })
            (run env mf cr s).1
          ≡ env.client.get
              (record { kind = Kind.persistent_volume_claim; namespace = namespace; name = name })
              s)
uninstall_leaves_monitor env mf cr law kinds unwanted s namespace name =
    let steps = chain-removal_steps env law mf cr kinds ∙ run-uninstall env mf cr unwanted in
    (
      ((subst (Leaves env _) steps (
              chain-Leaves_kind env (removal_steps env law mf cr kinds)
                (record { kind = Kind.service_monitor; namespace = namespace; name = name })
                Kind.service_monitor refl refl)).at
            _).at
          s refl,
      ((subst (Leaves env _) steps (
              chain-Leaves_kind env (removal_steps env law mf cr kinds)
                (record { kind = Kind.persistent_volume_claim; namespace = namespace; name = name })
                Kind.persistent_volume_claim refl refl)).at
            _).at
          s refl,
    )
