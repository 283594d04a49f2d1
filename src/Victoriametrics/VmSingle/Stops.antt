-- ===== src/Victoriametrics/VmSingle/Stops.antt =====
-- `uninstall` of the vmsingle reconciler where the VMSingle resource is missing.
use qubership_monitoring_ope.Prelude.{◌≡◌, ◌∙◌, refl, sym, ap, false, [], ◌∷◌}
use qubership_monitoring_ope.Api.{PlatformMonitoring}
use qubership_monitoring_ope.Exec.{Error, ok, err}
use qubership_monitoring_ope.Cluster.{Key, Kind, Object, key}
use qubership_monitoring_ope.Reconciler.{Action, Env}
use qubership_monitoring_ope.Reconciler.Early.{chain_then, if_found, chain_then_stops}
use qubership_monitoring_ope.Reconciler.Frame.{IsLawfulEnv}
use qubership_monitoring_ope.Cluster.Keys.{has_kind}
use qubership_monitoring_ope.Reconciler.Plan.Handlers.{other_kind_free}
use qubership_monitoring_ope.Victoriametrics.VmSingle.{Manifests, run, is_wanted, uninstall_rest}
use qubership_monitoring_ope.Victoriametrics.VmSingle.Steps.{
  IsKinded, first_steps, uninstall-chain_then, vm_single_free,
}
use qubership_monitoring_ope.Victoriametrics.VmSingle.Runs.{run-uninstall}

-- With a lawful client, if `Run` of vmsingle is to remove its component, and the read of the
-- VMSingle resource fails, then whatever `Run` returns, a read under a key that is not of a cluster
-- role or of a cluster role binding answers as before: the ingresses and the service account stay.
pub run_stops_early :
    {V : Type 0} (env : Env V) (mf : Manifests V) (cr : PlatformMonitoring)
    → IsLawfulEnv env
    → IsKinded mf cr
    → is_wanted cr.spec.victoriametrics ≡ false
    → (m : Object V) (x : Error) → mf.vm_single cr ≡ ok m
    → (s : env.client.Cluster) → env.client.get (key m) s ≡ err x
    → (k : Key) → has_kind k.kind (Kind.cluster_role ∷ Kind.cluster_role_binding ∷ []) ≡ false
    → env.client.get k (run env mf cr s).1 ≡ env.client.get k s
run_stops_early env mf cr law kinds unwanted m x built s gone k other =
    let first = first_steps env law mf cr kinds in
    ap (λ (a : Action env). env.client.get k (a s).1)
      (sym (run-uninstall env mf cr unwanted)
        ∙ uninstall-chain_then env law mf cr kinds
        ∙ ap (λ o. chain_then env first (if_found env o (uninstall_rest env mf cr))) built)
    ∙ chain_then_stops env m x k (env.client.get k s) first (uninstall_rest env mf cr)
        (vm_single_free env law mf cr kinds m built) (other_kind_free first k k.kind refl other) s
        gone refl
