-- ===== src/Reconciler/Plan/Present.antt =====
-- The step for a `handle` method that creates an object and never updates it.
use qubership_monitoring_ope.Prelude.{◌≡◌, refl, [], ◌∷◌, inl, inr, Bool-cases}
use qubership_monitoring_ope.Api.{PlatformMonitoring}
use qubership_monitoring_ope.Exec.{Outcome, err, is_not_found, lift, ok, panic, pure, raise, ◌>>=◌}
use qubership_monitoring_ope.Exec.Rules.{Ensures, IsOk, Keeps}
use qubership_monitoring_ope.Cluster.{Key, Kind, Object, key}
use qubership_monitoring_ope.Reconciler.{Action, Env, create_if_missing, keep}
use qubership_monitoring_ope.Reconciler.Converge.{create_resource-Ensures}
use qubership_monitoring_ope.Reconciler.Settle.{create_if_missing-Keeps}
use qubership_monitoring_ope.Reconciler.Kinds.{OfKind}
use qubership_monitoring_ope.Reconciler.Frame.{IsLawfulEnv}
use qubership_monitoring_ope.Reconciler.Plan.{Leaves, Step}
use qubership_monitoring_ope.Reconciler.Plan.Steps.{OwnsOf, OwnsOf-kind, has_kind_self}

module _ {V : Type 0} (env : Env V) where
  -- The cluster has an object under the key of the manifest.
  pub record Present (manifest : Outcome (Object V)) (c : env.client.Cluster) : Type 0 where
    pub object : Object V
    pub built : manifest ≡ ok object
    pub found : Object V
    pub read : env.client.get (key object) c ≡ ok found

  pub Present-stable :
      (manifest : Outcome (Object V)) (other : Action env)
      → ((k : Key) → OwnsOf manifest k → Leaves env k other)
      → Keeps (Present manifest) other
  Present-stable manifest other leaves = record {
    at = λ s h. record {
      object = h.object;
      built = h.built;
      found = h.found;
      read = ((leaves (key h.object) (h.object, h.built, refl)).at (ok h.found)).at s h.read;
    };
  }

module _ {V : Type 0} (env : Env V) (law : IsLawfulEnv env) (cr : PlatformMonitoring) where
  keep-Present :
      (m : Object V) (s : env.client.Cluster) (x : Outcome (Object V))
      → env.client.get (key m) s ≡ x
      → IsOk (keep env cr m x s).0
      → Present env (ok m) (keep env cr m x s).1
  unfolding keep pure raise lift
  keep-Present m s (ok e) read h = record { object = m; built = refl; found = e; read = read }
  keep-Present m s (err e) read h = elim (Bool-cases (is_not_found e)) [
    | inl missing ↦
        let made = (create_resource-Ensures env law cr m [] []).at s (rw missing at h) in
        rw missing (record { object = m; built = refl; found = made.object; read = made.read })
    | inr there ↦ absurd (rw there at h)
  ]
  keep-Present m s panic read h = absurd h

  pub create_if_missing-Present :
      (manifest : Outcome (Object V))
      → Ensures (Present env manifest) (create_if_missing env cr manifest)
  unfolding create_if_missing ◌>>=◌ lift
  create_if_missing-Present (ok m) = record {
    at = λ s h. keep-Present m s (env.client.get (key m) s) refl h;
  }
  create_if_missing-Present (err e) = record { at = λ s h. absurd h }
  create_if_missing-Present panic = record { at = λ s h. absurd h }

  -- A `handle` method that leaves an existing object as it is.
  abbrev pub missing_step :
      (κ : Kind) (manifest : Outcome (Object V)) → OfKind κ manifest → Step env
  missing_step κ manifest of_kind = record {
    act = create_if_missing env cr manifest;
    Owns = OwnsOf manifest;
    kinds = κ ∷ [];
    Goal = Present env manifest;
    of_kinds = λ k o. has_kind_self k.kind κ [] (OwnsOf-kind κ manifest k of_kind o);
    leaves = λ k free. record {
      at = λ r.
          create_if_missing-Keeps env law cr k r manifest (λ m built same. free (m, built, same));
    };
    reaches = create_if_missing-Present manifest;
    stable = Present-stable env manifest;
  }
