-- ===== src/Reconciler/Settle.antt =====
-- What the handlers bring about as one fact: a manifest is settled if the builder has returned it
-- and the cluster has its object. A handler that only creates leaves the other objects alone.
use qubership_monitoring_ope.Prelude.{◌≡◌, ◌≢◌, refl, List, []}
use qubership_monitoring_ope.Api.{PlatformMonitoring}
use qubership_monitoring_ope.Exec.{Outcome, err, is_not_found, lift, ok, panic, ◌>>=◌}
use qubership_monitoring_ope.Exec.Rules.{
  Ensures, Keeps, Keeps-if, Keeps-lift, Keeps-pure, Keeps-raise,
}
use qubership_monitoring_ope.Cluster.{FieldPath, Key, Object, key}
use qubership_monitoring_ope.Reconciler.{Env, create_if_missing, create_or_update, keep}
use qubership_monitoring_ope.Reconciler.Merge.{Carries}
use qubership_monitoring_ope.Reconciler.Frame.{IsLawfulEnv, Reads, create_resource-Keeps}
use qubership_monitoring_ope.Reconciler.Converge.{Converged, create_or_update-Ensures}

module _ {V : Type 0} (env : Env V) where
  -- The builder has returned a manifest, and the cluster has its object.
  pub record Settled (manifest : Outcome (Object V)) (ps : List FieldPath) (s : env.client.Cluster)
      : Type 0 where
    pub object : Object V
    pub built : manifest ≡ ok object
    pub converged : Converged env object ps s

module _ {V : Type 0} (env : Env V) (law : IsLawfulEnv env) (cr : PlatformMonitoring) where
  keep-Keeps :
      (k : Key) (r : Outcome (Object V)) (m : Object V) (x : Outcome (Object V))
      → k ≢ key m
      → Keeps (Reads env k r) (keep env cr m x)
  unfolding keep
  keep-Keeps k r m (ok e) ne = Keeps-pure tt
  keep-Keeps k r m (err e) ne =
      Keeps-if (is_not_found e) (create_resource-Keeps env law k r cr m [] ne) (Keeps-raise e)
  keep-Keeps k r m panic ne = Keeps-lift panic

  pub create_if_missing-Keeps :
      (k : Key) (r : Outcome (Object V)) (manifest : Outcome (Object V))
      → ((m : Object V) → manifest ≡ ok m → k ≢ key m)
      → Keeps (Reads env k r) (create_if_missing env cr manifest)
  unfolding create_if_missing ◌>>=◌ lift
  create_if_missing-Keeps k r (ok m) ne = record {
    at = λ s. (keep-Keeps k r m (env.client.get (key m) s) (ne m refl)).at s;
  }
  create_if_missing-Keeps k r (err e) ne = record { at = λ s h. h }
  create_if_missing-Keeps k r panic ne = record { at = λ s h. h }

  -- A `handle` method that returns no error has settled its manifest.
  pub create_or_update-Settles :
      (manifest : Outcome (Object V)) (ps : List FieldPath) (merge : Object V → Object V → Object V)
      → Carries ps merge
      → Ensures (Settled env manifest ps) (create_or_update env cr manifest merge)
  unfolding create_or_update ◌>>=◌ lift
  create_or_update-Settles (ok m) ps merge carries = record {
    at = λ s h. record {
      object = m;
      built = refl;
      converged = (create_or_update-Ensures env law cr (ok m) m ps merge carries refl).at s h;
    };
  }
  create_or_update-Settles (err e) ps merge carries = record { at = λ s h. absurd h }
  create_or_update-Settles panic ps merge carries = record { at = λ s h. absurd h }
