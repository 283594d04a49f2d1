-- ===== src/Reconciler/Frame.antt =====
-- The operations on one object leave every other key alone, whatever they return.
use qubership_monitoring_ope.Prelude.{
  ◌≡◌, ◌≢◌, ◌∙◌, refl, Bool, true, false, List, [], arith, ap, sym, ◌⊎◌, inl, inr, Bool-cases,
}
use mathlib.Core.Path.{subst}
use qubership_monitoring_ope.Api.{PlatformMonitoring}
use qubership_monitoring_ope.Exec.{Outcome, call, err, is_not_found, lift, ok, panic, ◌>>=◌}
use qubership_monitoring_ope.Exec.Rules.{Keeps, Keeps-if, Keeps-lift, Keeps-pure, Keeps-raise}
use qubership_monitoring_ope.Cluster.{FieldPath, IsLawful, Key, Object, SameContent, key}
use qubership_monitoring_ope.Reconciler.{
  Env, adopt, create_or_update, create_resource, delete_if_found, delete_resource, discard,
  is_cross_scope, owned, set_reference, store, update_resource,
}
use qubership_monitoring_ope.Reconciler.Merge.{Carries}

-- What is assumed of the environment: a lawful client, and a `SetControllerReference` that adds
-- the reference to the object and changes nothing else of it.
pub record IsLawfulEnv {V : Type 0} (env : Env V) : Type 0 where
  pub client : IsLawful env.client
  pub reference_key :
      (cr : PlatformMonitoring) (o o' : Object V)
      → env.set_controller_reference cr o ≡ ok o'
      → key o' ≡ key o
  pub reference_content :
      (cr : PlatformMonitoring) (o o' : Object V)
      → env.set_controller_reference cr o ≡ ok o'
      → SameContent o' o

-- What a read under the key `k` answers.
abbrev pub Reads :
    {V : Type 0} (env : Env V) → Key → Outcome (Object V) → env.client.Cluster → Type 0
Reads env k r s = env.client.get k s ≡ r

module _ {V : Type 0} (env : Env V) where
  owned-inv :
      (o o' : Object V) (x : Outcome (Object V)) → owned env o x ≡ ok o' → (x ≡ ok o') ⊎ (o ≡ o')
  unfolding owned
  owned-inv o o' (ok a) h = inl h
  owned-inv o o' (err e) h = elim (Bool-cases (is_cross_scope e)) [
    | inl cross ↦ inr (ground arith)
    | inr hard ↦ absurd (ground arith)
  ]
  owned-inv o o' panic h = cc

  adopt-inv :
      (cr : PlatformMonitoring) (o o' : Object V) (b : Bool)
      → adopt env cr o b ≡ ok o'
      → (env.set_controller_reference cr o ≡ ok o') ⊎ (o ≡ o')
  unfolding adopt
  adopt-inv cr o o' true h = owned-inv o o' (env.set_controller_reference cr o) h
  adopt-inv cr o o' false h = inr (ground arith)

  pub adopt-key :
      IsLawfulEnv env
      → (cr : PlatformMonitoring) (o o' : Object V) (b : Bool) → adopt env cr o b ≡ ok o'
      → key o' ≡ key o
  adopt-key law cr o o' b h = elim (adopt-inv cr o o' b h) [
    | inl marked ↦ law.reference_key cr o o' marked
    | inr same ↦ ap key (sym same)
  ]

  pub adopt-SameContent :
      IsLawfulEnv env
      → (cr : PlatformMonitoring) (o o' : Object V) (b : Bool) → adopt env cr o b ≡ ok o'
      → SameContent o' o
  adopt-SameContent law cr o o' b h = elim (adopt-inv cr o o' b h) [
    | inl marked ↦ law.reference_content cr o o' marked
    | inr same ↦
        subst (λ x. SameContent x o) same
          (record { labels = refl; annotations = refl; field = λ p. refl })
  ]

module _ {V : Type 0} (env : Env V) (law : IsLawfulEnv env) (k : Key) (r : Outcome (Object V)) where
  pub update_resource-Keeps :
      (o : Object V) → k ≢ key o → Keeps (Reads env k r) (update_resource env o)
  unfolding update_resource call
  update_resource-Keeps o ne = record { at = λ s h. law.client.update_frame o s k ne ∙ h }

  pub delete_resource-Keeps :
      (o : Object V) → k ≢ key o → Keeps (Reads env k r) (delete_resource env o)
  unfolding delete_resource call
  delete_resource-Keeps o ne = record { at = λ s h. law.client.delete_frame o s k ne ∙ h }

  create_adopted-Keeps :
      (o : Object V) (x : Outcome (Object V))
      → k ≢ key o
      → ((o' : Object V) → x ≡ ok o' → key o' ≡ key o)
      → Keeps (Reads env k r) (lift x >>= λ o'. call (env.client.create o'))
  unfolding ◌>>=◌ lift call
  create_adopted-Keeps o (ok o') ne same = record {
    at = λ s h. law.client.create_frame o' s k (λ e. ne (e ∙ same o' refl)) ∙ h;
  }
  create_adopted-Keeps o (err e) ne same = record { at = λ s h. h }
  create_adopted-Keeps o panic ne same = record { at = λ s h. h }

  pub create_resource-Keeps :
      (cr : PlatformMonitoring) (o : Object V) (bs : List Bool)
      → k ≢ key o
      → Keeps (Reads env k r) (create_resource env cr o bs)
  unfolding create_resource
  create_resource-Keeps cr o bs ne =
      create_adopted-Keeps o (adopt env cr o (set_reference bs)) ne
        λ o'. adopt-key env law cr o o' (set_reference bs)

  store-Keeps :
      (cr : PlatformMonitoring) (merge : Object V → Object V → Object V) (ps : List FieldPath)
      (m : Object V) (x : Outcome (Object V))
      → Carries ps merge
      → k ≢ key m
      → ((e : Object V) → x ≡ ok e → key e ≡ key m)
      → Keeps (Reads env k r) (store env cr merge m x)
  unfolding store
  store-Keeps cr merge ps m (ok e) carries ne same =
      update_resource-Keeps (merge m e) (λ q. ne (q ∙ carries.on_key m e (same e refl)))
  store-Keeps cr merge ps m (err e) carries ne same =
      Keeps-if (is_not_found e) (create_resource-Keeps cr m [] ne) (Keeps-raise e)
  store-Keeps cr merge ps m panic carries ne same = Keeps-lift panic

  discard-Keeps :
      (m : Object V) (x : Outcome (Object V))
      → k ≢ key m
      → ((e : Object V) → x ≡ ok e → key e ≡ key m)
      → Keeps (Reads env k r) (discard env x)
  unfolding discard
  discard-Keeps m (ok e) ne same = delete_resource-Keeps e (λ q. ne (q ∙ same e refl))
  discard-Keeps m (err e) ne same = Keeps-if (is_not_found e) (Keeps-pure tt) (Keeps-raise e)
  discard-Keeps m panic ne same = Keeps-lift panic

  -- With a lawful environment, what a read under a key other than that of the manifest answers is
  -- the same behind a `handle` method, whatever the method returns.
  pub create_or_update-Keeps :
      (cr : PlatformMonitoring) (manifest : Outcome (Object V)) (ps : List FieldPath)
      (merge : Object V → Object V → Object V)
      → Carries ps merge
      → ((m : Object V) → manifest ≡ ok m → k ≢ key m)
      → Keeps (Reads env k r) (create_or_update env cr manifest merge)
  unfolding create_or_update ◌>>=◌ lift
  create_or_update-Keeps cr (ok m) ps merge carries ne = record {
    at = λ s h.
        (store-Keeps cr merge ps m (env.client.get (key m) s) carries (ne m refl)
            (λ e. law.client.get_key (key m) s e)).at
          s h;
  }
  create_or_update-Keeps cr (err e) ps merge carries ne = record { at = λ s h. h }
  create_or_update-Keeps cr panic ps merge carries ne = record { at = λ s h. h }

  -- With a lawful environment, what a read under a key other than that of the manifest answers is
  -- the same behind a `delete` method, whatever the method returns.
  pub delete_if_found-Keeps :
      (manifest : Outcome (Object V))
      → ((m : Object V) → manifest ≡ ok m → k ≢ key m)
      → Keeps (Reads env k r) (delete_if_found env manifest)
  unfolding delete_if_found ◌>>=◌ lift
  delete_if_found-Keeps (ok m) ne = record {
    at = λ s h.
        (discard-Keeps m (env.client.get (key m) s) (ne m refl)
            (λ e. law.client.get_key (key m) s e)).at
          s h;
  }
  delete_if_found-Keeps (err e) ne = record { at = λ s h. h }
  delete_if_found-Keeps panic ne = record { at = λ s h. h }
