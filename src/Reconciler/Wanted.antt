-- ===== src/Reconciler/Wanted.antt =====
-- `delete` methods whose error `uninstall` logs: with a client that is healthy for the
-- kind they remove their object.
use qubership_monitoring_ope.Prelude.{◌≡◌, refl, ap, ◌∙◌, true, none, List, Bool}
use qubership_monitoring_ope.Exec.{
  Outcome, call, err, is_not_found, lift, logged, ok, panic, pure, ◌>>=◌,
}
use qubership_monitoring_ope.Exec.Rules.{Ensures, IsOk}
use qubership_monitoring_ope.Cluster.{Key, Kind, Object, key}
use qubership_monitoring_ope.Cluster.Keys.{has_kind}
use qubership_monitoring_ope.Utils.Discovery.{has_ingress_v1_api, has_ingress_v1beta1_api}
use qubership_monitoring_ope.Reconciler.Kinds.{OfKind}
use qubership_monitoring_ope.Reconciler.{Env, delete_if_found, delete_resource, discard}
use qubership_monitoring_ope.Reconciler.Frame.{IsLawfulEnv}
use qubership_monitoring_ope.Reconciler.Converge.{Absent, delete_if_found-Ensures}

module _ {V : Type 0} (env : Env V) where
  -- The cluster has no object of the manifest, if the builder returns one.
  abbrev pub Removed : Outcome (Object V) → env.client.Cluster → Type 0
  Removed (ok m) s = Absent env (key m) s
  Removed (err e) s = Unit
  Removed panic s = Unit

  abbrev pub Answers : Outcome (Object V) → Type 0
  Answers (ok o) = Unit
  Answers (err e) = is_not_found e ≡ true
  Answers panic = ⊥

  -- A client whose reads of the kind find the object or answer NotFound, and that accepts the
  -- deletion of an object of the kind that it has.
  pub record IsHealthy (κ : Kind) : Type 0 where
    pub get_answers : (k : Key) (s : env.client.Cluster) → k.kind ≡ κ → Answers (env.client.get k s)
    pub delete_accepts :
        (o : Object V) (s : env.client.Cluster)
        → o.kind ≡ κ
        → env.client.get (key o) s ≡ ok o
        → (env.client.delete o s).0 ≡ none

  -- The operator calls the API of the kind: an ingress if the discovery client has its API, a
  -- cluster role or its binding if the operator has privileged rights, any other kind always.
  abbrev pub uses : Kind → Bool
  uses Kind.ingress_v1beta1 = has_ingress_v1beta1_api env.discovery
  uses Kind.ingress_v1 = has_ingress_v1_api env.discovery
  uses Kind.cluster_role = env.privileged_rights
  uses Kind.cluster_role_binding = env.privileged_rights
  uses _ = true

  -- The client is healthy for the listed kinds, as far as the operator uses them.
  pub record AreHealthy (kinds : List Kind) : Type 0 where
    pub at : (κ : Kind) → has_kind κ kinds ≡ true → uses κ ≡ true → IsHealthy κ

module _ {V : Type 0} (env : Env V) where
  discard-IsOk :
      (κ : Kind)
      → IsHealthy env κ
      → (x : Outcome (Object V)) (s : env.client.Cluster) → Answers env x
      → ((o : Object V) → x ≡ ok o → (o.kind ≡ κ) × (env.client.get (key o) s ≡ ok o))
      → IsOk (discard env x s).0
  unfolding discard delete_resource call pure
  discard-IsOk κ healthy (ok o) s h there =
      let (kind, found) = there o refl in rw (healthy.delete_accepts o s kind found) tt
  discard-IsOk κ healthy (err e) s h there = rw h tt
  discard-IsOk κ healthy panic s h there = absurd h

  -- A `delete` method whose error is logged has removed its object, if the client is healthy.
  pub logged_delete-Ensures :
      IsLawfulEnv env
      → (κ : Kind) (manifest : Outcome (Object V)) → IsHealthy env κ
      → OfKind κ manifest
      → Ensures (Removed env manifest) (logged (delete_if_found env manifest))
  unfolding logged delete_if_found ◌>>=◌ lift
  logged_delete-Ensures law κ (ok m) healthy of_kind = record {
    at = λ s h.
        let kind = of_kind.at m refl in
        (delete_if_found-Ensures env law (ok m) m refl).at s (
          discard-IsOk κ healthy (env.client.get (key m) s) s (healthy.get_answers (key m) s kind)
            λ o e.
              let same = law.client.get_key (key m) s o e in
              (ap (λ (j : Key). j.kind) same ∙ kind, ap (λ j. env.client.get j s) same ∙ e));
  }
  logged_delete-Ensures law κ (err e) healthy of_kind = record { at = λ s h. tt }
  logged_delete-Ensures law κ panic healthy of_kind = record { at = λ s h. tt }
