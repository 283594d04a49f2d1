-- ===== src/Reconciler/Replace.antt =====
-- The `handle` methods that also look for an object under a former name: where the object of the
-- manifest is missing, that one is deleted before the new one is created.
use qubership_monitoring_ope.Prelude.{◌≡◌, ◌≢◌, ◌∙◌, refl, sym, List, [], if◌then◌else◌}
use mathlib.Core.Path.{subst}
use qubership_monitoring_ope.Api.{PlatformMonitoring}
use qubership_monitoring_ope.Exec.{
  Outcome, err, is_not_found, lift, ok, panic, pure, raise, ◌>>=◌, ◌>>◌,
}
use qubership_monitoring_ope.Exec.Rules.{
  Ensures, Ensures-then_left, Ensures-then_right, IsOk, Keeps, Keeps-if, Keeps-lift, Keeps-pure,
  Keeps-raise, Keeps-then,
}
use qubership_monitoring_ope.Cluster.{FieldPath, Key, Object, key}
use qubership_monitoring_ope.Reconciler.{
  Action, Env, create_resource, delete_resource, get_resource, update_resource,
}
use qubership_monitoring_ope.Reconciler.Merge.{Carries}
use qubership_monitoring_ope.Reconciler.Frame.{
  IsLawfulEnv, Reads, create_resource-Keeps, delete_resource-Keeps, update_resource-Keeps,
}
use qubership_monitoring_ope.Reconciler.Converge.{
  Absent, Absent-Keeps, Converged, create_resource-Ensures, delete_clears, if_missing,
  update_converges,
}
use qubership_monitoring_ope.Reconciler.Wanted.{Answers, IsHealthy}

module _ {V : Type 0} (env : Env V) where
  -- `if err = r.GetResource(e); err == nil { if err = r.DeleteResource(e); err != nil { return err
  -- } }`
  drop_found : Outcome (Object V) → Action env
  drop_found (ok e) = delete_resource env e
  drop_found (err x) = pure tt
  drop_found panic = lift panic

  unfoldable pub drop_former : Key → Action env
  unfolding drop_found
  drop_former former s = drop_found (env.client.get former s) s

  -- The part of the method behind `r.GetResource(e)`.
  unfoldable pub replace :
      PlatformMonitoring
      → Key
      → (Object V → Object V → Object V)
      → Object V
      → Outcome (Object V)
      → Action env
  replace cr former merge m (ok e) = update_resource env (merge m e)
  replace cr former merge m (err x) =
      if is_not_found x then (do drop_former former; create_resource env cr m []) else raise x
  replace cr former merge m panic = lift panic

  unfoldable pub create_or_replace :
      PlatformMonitoring → Key → Outcome (Object V) → (Object V → Object V → Object V) → Action env
  unfolding replace
  create_or_replace cr former manifest merge = do
    m ← lift manifest
    λ s. replace cr former merge m (get_resource env m s) s

module _ {V : Type 0} (env : Env V) (law : IsLawfulEnv env) (k : Key) (r : Outcome (Object V)) where
  drop_found-Keeps :
      (former : Key) (x : Outcome (Object V))
      → k ≢ former
      → ((e : Object V) → x ≡ ok e → key e ≡ former)
      → Keeps (Reads env k r) (drop_found env x)
  unfolding drop_found
  drop_found-Keeps former (ok e) ne same =
      delete_resource-Keeps env law k r e (λ q. ne (q ∙ same e refl))
  drop_found-Keeps former (err e) ne same = Keeps-pure tt
  drop_found-Keeps former panic ne same = Keeps-lift panic

  drop_former-Keeps : (former : Key) → k ≢ former → Keeps (Reads env k r) (drop_former env former)
  unfolding drop_former
  drop_former-Keeps former ne = record {
    at = λ s h.
        (drop_found-Keeps former (env.client.get former s) ne
            (λ e. law.client.get_key former s e)).at
          s h;
  }

  replace-Keeps :
      (cr : PlatformMonitoring) (former : Key) (merge : Object V → Object V → Object V)
      (ps : List FieldPath) (m : Object V) (x : Outcome (Object V))
      → Carries ps merge
      → k ≢ key m
      → k ≢ former
      → ((e : Object V) → x ≡ ok e → key e ≡ key m)
      → Keeps (Reads env k r) (replace env cr former merge m x)
  unfolding replace
  replace-Keeps cr former merge ps m (ok e) carries ne nf same =
      update_resource-Keeps env law k r (merge m e) (λ q. ne (q ∙ carries.on_key m e (same e refl)))
  replace-Keeps cr former merge ps m (err e) carries ne nf same =
      Keeps-if (is_not_found e)
        (Keeps-then (drop_former-Keeps former nf) (create_resource-Keeps env law k r cr m [] ne))
        (Keeps-raise e)
  replace-Keeps cr former merge ps m panic carries ne nf same = Keeps-lift panic

  -- What a read under another key than the two of the method answers is the same behind it.
  pub create_or_replace-Keeps :
      (cr : PlatformMonitoring) (former : Key) (manifest : Outcome (Object V)) (ps : List FieldPath)
      (merge : Object V → Object V → Object V)
      → Carries ps merge
      → ((m : Object V) → manifest ≡ ok m → k ≢ key m)
      → k ≢ former
      → Keeps (Reads env k r) (create_or_replace env cr former manifest merge)
  unfolding create_or_replace ◌>>=◌ lift
  create_or_replace-Keeps cr former (ok m) ps merge carries ne nf = record {
    at = λ s h.
        (replace-Keeps cr former merge ps m (env.client.get (key m) s) carries (ne m refl) nf
            (λ e. law.client.get_key (key m) s e)).at
          s h;
  }
  create_or_replace-Keeps cr former (err e) ps merge carries ne nf = record { at = λ s h. h }
  create_or_replace-Keeps cr former panic ps merge carries ne nf = record { at = λ s h. h }

module _ {V : Type 0} (env : Env V) (law : IsLawfulEnv env) (cr : PlatformMonitoring)
    (former : Key) where
  replace-Ensures :
      (merge : Object V → Object V → Object V) (ps : List FieldPath) (m : Object V)
      (x : Outcome (Object V))
      → Carries ps merge
      → ((e : Object V) → x ≡ ok e → key e ≡ key m)
      → Ensures (Converged env m ps) (replace env cr former merge m x)
  unfolding replace lift
  replace-Ensures merge ps m (ok e) carries same = record {
    at = λ s h.
        update_converges env law m (merge m e) ps s (carries.on_key m e (same e refl))
          (carries.on_labels m e) (carries.on_field m e) h;
  }
  replace-Ensures merge ps m (err e) carries same =
      if_missing env law (is_not_found e) e
        (Ensures-then_right _ (create_resource-Ensures env law cr m ps []))
  replace-Ensures merge ps m panic carries same = record { at = λ s h. absurd h }

  -- A method that returns no error has brought about the object of the manifest.
  pub create_or_replace-Ensures :
      (m : Object V) (ps : List FieldPath) (merge : Object V → Object V → Object V)
      → Carries ps merge
      → Ensures (Converged env m ps) (create_or_replace env cr former (ok m) merge)
  unfolding create_or_replace ◌>>=◌ lift
  create_or_replace-Ensures m ps merge carries = record {
    at = λ s done.
        (replace-Ensures merge ps m (env.client.get (key m) s) carries
            (λ e. law.client.get_key (key m) s e)).at
          s done;
  }

  gone_former :
      (x : Outcome (Object V)) (s : env.client.Cluster)
      → env.client.get former s ≡ x
      → Answers env x
      → IsOk (drop_found env x s).0
      → Absent env former (drop_found env x s).1
  unfolding drop_found pure lift
  gone_former (ok e) s read answers h =
      delete_clears env law former e s (law.client.get_key former s e read) h
  gone_former (err e) s read answers h = record { error = e; read = read; missing = answers }
  gone_former panic s read answers h = absurd h

  drop_former-Ensures :
      IsHealthy env former.kind → Ensures (Absent env former) (drop_former env former)
  unfolding drop_former
  drop_former-Ensures healthy = record {
    at = λ s done.
        gone_former (env.client.get former s) s refl (healthy.get_answers former s refl) done;
  }

  missing-replace :
      (merge : Object V → Object V → Object V) (m : Object V) (s : env.client.Cluster)
      → Absent env (key m) s
      → create_or_replace env cr former (ok m) merge s
        ≡ (drop_former env former >> create_resource env cr m []) s
  unfolding create_or_replace ◌>>=◌ lift
  missing-replace merge m s absent = rw (absent.read, replace, absent.missing) refl

-- With a lawful client that is healthy for the kind of the former name, if the object of the
-- manifest is missing and its key is not the former one, and the method returns no error, then the
-- cluster has the object of the manifest, and none under the former name.
pub create_or_replace_renames :
    {V : Type 0} (env : Env V) (law : IsLawfulEnv env) (cr : PlatformMonitoring) (former : Key)
    (m : Object V) (ps : List FieldPath) (merge : Object V → Object V → Object V)
    → Carries ps merge
    → IsHealthy env former.kind
    → former ≢ key m
    → (s : env.client.Cluster) → Absent env (key m) s
    → IsOk (create_or_replace env cr former (ok m) merge s).0
    → Converged env m ps (create_or_replace env cr former (ok m) merge s).1
      × Absent env former (create_or_replace env cr former (ok m) merge s).1
create_or_replace_renames env law cr former m ps merge carries healthy other s absent done =
    let same = missing-replace env law cr former merge m s absent in
    (
      (create_or_replace-Ensures env law cr former m ps merge carries).at s done,
      subst (λ r. Absent env former r.1) (sym same)
          ((Ensures-then_left (drop_former-Ensures env law cr former healthy)
              (Absent-Keeps env (λ r. create_resource-Keeps env law former r cr m [] other))).at
            s (subst (λ r. IsOk r.0) same done)),
    )
