-- ===== src/Reconciler/Converge.antt =====
-- What a handler that returns no error has brought about in the cluster.
use qubership_monitoring_ope.Prelude.{
  ◌≡◌, ◌∙◌, refl, sym, ap, Bool, true, false, Option, none, some, List, [], inl, inr, Bool-cases,
  if◌then◌else◌, arith,
}
use mathlib.Core.Path.{subst}
use qubership_monitoring_ope.Api.{PlatformMonitoring}
use qubership_monitoring_ope.Exec.{
  Error, Exec, Outcome, call, err, is_not_found, lift, ok, panic, pure, raise, ◌>>=◌,
}
use qubership_monitoring_ope.Exec.Rules.{Ensures, IsOk, Keeps}
use qubership_monitoring_ope.Cluster.{FieldPath, Key, Object, SameContent, key}
use qubership_monitoring_ope.Reconciler.{
  Env, adopt, create_or_update, create_resource, delete_if_found, delete_resource, discard,
  set_reference, store, update_resource,
}
use qubership_monitoring_ope.Reconciler.Merge.{Carries, covers}
use qubership_monitoring_ope.Reconciler.Frame.{IsLawfulEnv, Reads, adopt-SameContent, adopt-key}

module _ {V : Type 0} (env : Env V) where
  -- The cluster has the object of the manifest `m`, with its labels and its listed fields.
  pub record Converged (m : Object V) (ps : List FieldPath) (s : env.client.Cluster) : Type 0 where
    pub object : Object V
    pub read : env.client.get (key m) s ≡ ok object
    pub labels : object.labels ≡ m.labels
    pub field : (q : FieldPath) → covers ps q ≡ true → object.field q ≡ m.field q

  -- The cluster has no object under the key.
  pub record Absent (k : Key) (s : env.client.Cluster) : Type 0 where
    pub error : Error
    pub read : env.client.get k s ≡ err error
    pub missing : is_not_found error ≡ true

  -- What leaves every answer under a key alone keeps what is known of the object of that key.
  pub Converged-Keeps :
      {A : Type 0} {m : Object V} {ps : List FieldPath} {act : Exec env.client.Cluster A}
      → ((r : Outcome (Object V)) → Keeps (Reads env (key m) r) act)
      → Keeps (Converged m ps) act
  Converged-Keeps frame = record {
    at = λ s h. record {
      object = h.object;
      read = (frame (ok h.object)).at s h.read;
      labels = h.labels;
      field = h.field;
    };
  }

  pub Absent-Keeps :
      {A : Type 0} {k : Key} {act : Exec env.client.Cluster A}
      → ((r : Outcome (Object V)) → Keeps (Reads env k r) act)
      → Keeps (Absent k) act
  Absent-Keeps frame = record {
    at = λ s h. record {
      error = h.error;
      read = (frame (err h.error)).at s h.read;
      missing = h.missing;
    };
  }

  module _ (law : IsLawfulEnv env) where
    answered :
        (o : Option Error)
        → IsOk (elim o as (λ _. Outcome (Unit {0})) [ none ↦ ok tt | some x ↦ err x ])
        → o ≡ none
    answered none h = refl
    answered (some e) h = absurd h

    pub update_converges :
        (m o : Object V) (ps : List FieldPath) (s : env.client.Cluster)
        → key o ≡ key m
        → o.labels ≡ m.labels
        → ((q : FieldPath) → covers ps q ≡ true → o.field q ≡ m.field q)
        → IsOk (update_resource env o s).0
        → Converged m ps (update_resource env o s).1
    unfolding update_resource call
    update_converges m o ps s same labels fields h =
        let (o', read, content) =
          law.client.update_stores o s (answered (env.client.update o s).0 h) in
        record {
          object = o';
          read = ap (λ j. env.client.get j (env.client.update o s).1) (sym same) ∙ read;
          labels = content.labels ∙ labels;
          field = λ q below. content.field q ∙ fields q below;
        }

    create_converges :
        (m o : Object V) (ps : List FieldPath) (s : env.client.Cluster)
        → key o ≡ key m
        → SameContent o m
        → IsOk (call (env.client.create o) s).0
        → Converged m ps (call (env.client.create o) s).1
    unfolding call
    create_converges m o ps s same given h =
        let (o', read, content) =
          law.client.create_stores o s (answered (env.client.create o s).0 h) in
        record {
          object = o';
          read = ap (λ j. env.client.get j (env.client.create o s).1) (sym same) ∙ read;
          labels = content.labels ∙ given.labels;
          field = λ q _. content.field q ∙ given.field q;
        }

    create_adopted-Ensures :
        (m : Object V) (ps : List FieldPath) (x : Outcome (Object V))
        → ((o : Object V) → x ≡ ok o → key o ≡ key m)
        → ((o : Object V) → x ≡ ok o → SameContent o m)
        → Ensures (Converged m ps) (lift x >>= λ o. call (env.client.create o))
    unfolding ◌>>=◌ lift
    create_adopted-Ensures m ps (ok o) same given = record {
      at = λ s h. create_converges m o ps s (same o refl) (given o refl) h;
    }
    create_adopted-Ensures m ps (err e) same given = record { at = λ s h. absurd h }
    create_adopted-Ensures m ps panic same given = record { at = λ s h. absurd h }

    pub create_resource-Ensures :
        (cr : PlatformMonitoring) (m : Object V) (ps : List FieldPath) (bs : List Bool)
        → Ensures (Converged m ps) (create_resource env cr m bs)
    unfolding create_resource
    create_resource-Ensures cr m ps bs =
        create_adopted-Ensures m ps (adopt env cr m (set_reference bs))
          (λ o. adopt-key env law cr m o (set_reference bs))
          (λ o. adopt-SameContent env law cr m o (set_reference bs))

    pub if_missing :
        {P : env.client.Cluster → Type 0} (b : Bool) {act : Exec env.client.Cluster (Unit {0})}
        (e : Error)
        → Ensures P act
        → Ensures P (if b then act else raise e)
    unfolding raise
    if_missing true e k = k
    if_missing false e k = record { at = λ s h. absurd h }

    store-Ensures :
        (cr : PlatformMonitoring) (merge : Object V → Object V → Object V) (ps : List FieldPath)
        (m : Object V) (x : Outcome (Object V))
        → Carries ps merge
        → ((e : Object V) → x ≡ ok e → key e ≡ key m)
        → Ensures (Converged m ps) (store env cr merge m x)
    unfolding store lift
    store-Ensures cr merge ps m (ok e) carries same = record {
      at = λ s h.
          update_converges m (merge m e) ps s (carries.on_key m e (same e refl))
            (carries.on_labels m e) (carries.on_field m e) h;
    }
    store-Ensures cr merge ps m (err e) carries same =
        if_missing (is_not_found e) e (create_resource-Ensures cr m ps [])
    store-Ensures cr merge ps m panic carries same = record { at = λ s h. absurd h }

    -- With a lawful environment, if the builder returns a manifest and the `handle` method returns
    -- no error, then the cluster has the object of the manifest, with the labels of the manifest
    -- and with every field that the method takes over from it, whether it was created or updated.
    pub create_or_update-Ensures :
        (cr : PlatformMonitoring) (manifest : Outcome (Object V)) (m : Object V)
        (ps : List FieldPath) (merge : Object V → Object V → Object V)
        → Carries ps merge
        → manifest ≡ ok m
        → Ensures (Converged m ps) (create_or_update env cr manifest merge)
    unfolding create_or_update ◌>>=◌ lift
    create_or_update-Ensures cr (ok n) m ps merge carries h =
        subst (λ j. Ensures (Converged j ps) (create_or_update env cr (ok n) merge)) (ground arith)
          (record {
            at = λ s done.
                (store-Ensures cr merge ps n (env.client.get (key n) s) carries
                    (λ e. law.client.get_key (key n) s e)).at
                  s done;
          })
    create_or_update-Ensures cr (err e) m ps merge carries h = cc
    create_or_update-Ensures cr panic m ps merge carries h = cc

    pub delete_clears :
        (k : Key) (e : Object V) (s : env.client.Cluster)
        → key e ≡ k
        → IsOk (delete_resource env e s).0
        → Absent k (delete_resource env e s).1
    unfolding delete_resource call is_not_found
    delete_clears k e s same h =
        let (x, read, reason) =
          law.client.delete_removes e s (answered (env.client.delete e s).0 h) in
        record {
          error = x;
          read = ap (λ j. env.client.get j (env.client.delete e s).1) (sym same) ∙ read;
          missing = rw reason;
        }

    gone :
        (k : Key) (x : Outcome (Object V)) (s : env.client.Cluster)
        → env.client.get k s ≡ x
        → IsOk (discard env x s).0
        → Absent k (discard env x s).1
    unfolding discard pure raise lift
    gone k (ok e) s read h = delete_clears k e s (law.client.get_key k s e read) h
    gone k (err e) s read h = elim (Bool-cases (is_not_found e)) [
      | inl missing ↦ rw missing (record { error = e; read = read; missing = missing })
      | inr there ↦ absurd (rw there at h)
    ]
    gone k panic s read h = absurd h

    -- With a lawful environment, if the builder returns a manifest and the `delete` method returns
    -- no error, then the cluster has no object under the key of the manifest.
    pub delete_if_found-Ensures :
        (manifest : Outcome (Object V)) (m : Object V)
        → manifest ≡ ok m
        → Ensures (Absent (key m)) (delete_if_found env manifest)
    unfolding delete_if_found ◌>>=◌ lift
    delete_if_found-Ensures (ok n) m h =
        let same : n ≡ m = ground arith in
        subst (λ j. Ensures (Absent (key j)) (delete_if_found env (ok n))) same
          (record { at = λ s done. gone (key n) (env.client.get (key n) s) s refl done })
    delete_if_found-Ensures (err e) m h = cc
    delete_if_found-Ensures panic m h = cc
