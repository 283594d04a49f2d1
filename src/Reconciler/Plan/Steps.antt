-- ===== src/Reconciler/Plan/Steps.antt =====
-- The steps of which `Run` and `uninstall` methods consist.
use qubership_monitoring_ope.Prelude.{
  ◌≡◌, ◌∙◌, refl, ap, Bool, true, false, ◌||◌, List, [], ◌∷◌, ◌⊎◌, inl, inr, ==_iff,
}
use qubership_monitoring_ope.Api.{PlatformMonitoring}
use qubership_monitoring_ope.Exec.{Outcome, err, lift, logged, ok, panic, when, ◌>>=◌}
use qubership_monitoring_ope.Exec.Rules.{Ensures, Keeps, Keeps-if, Keeps-logged, Keeps-pure}
use qubership_monitoring_ope.Cluster.{FieldPath, Key, Kind, Object, key}
use qubership_monitoring_ope.Cluster.Keys.{kind_index, same_kind, has_kind}
use qubership_monitoring_ope.Reconciler.{Action, Env, create_or_update, delete_if_found}
use qubership_monitoring_ope.Reconciler.Merge.{Carries}
use qubership_monitoring_ope.Reconciler.Shapes.{apply_or_remove}
use qubership_monitoring_ope.Reconciler.Kinds.{OfKind}
use qubership_monitoring_ope.Reconciler.Frame.{
  IsLawfulEnv, create_or_update-Keeps, delete_if_found-Keeps,
}
use qubership_monitoring_ope.Reconciler.Converge.{Absent-Keeps, Converged-Keeps}
use qubership_monitoring_ope.Reconciler.Settle.{Settled, create_or_update-Settles}
use qubership_monitoring_ope.Reconciler.Wanted.{IsHealthy, Removed, logged_delete-Ensures}
use qubership_monitoring_ope.Reconciler.Replace.{
  create_or_replace, create_or_replace-Ensures, create_or_replace-Keeps,
}
use qubership_monitoring_ope.Reconciler.Plan.{
  AllApart, Goals, Goals-Keeps, Leaves, Owned, Owned-kinds_of, Step, chain, chain-Ensures,
  chain-Leaves, distinct_kinds, distinct_kinds-AllApart, kinds_of,
}

-- The statement, where the condition holds.
abbrev pub If : Bool → Type 0 → Type 0
If true P = P
If false P = Unit

-- A statement under a condition may use that the condition holds.
pub If-map_true : (b : Bool) {P Q : Type 0} → (b ≡ true → P → Q) → If b P → If b Q
If-map_true true f h = f refl h
If-map_true false f h = tt

pub If-map : (b : Bool) {P Q : Type 0} → (P → Q) → If b P → If b Q
If-map true f h = f h
If-map false f h = tt

-- The key of the object that the builder returns.
abbrev pub OwnsOf : {V : Type 0} → Outcome (Object V) → Key → Type 0
OwnsOf {V} manifest k = (m : Object V) × (manifest ≡ ok m) × (k ≡ key m)

same_kind_refl : (κ : Kind) → same_kind κ κ ≡ true
same_kind_refl κ = (==_iff (kind_index κ) (kind_index κ)).1 refl

pub has_kind_self : (κ μ : Kind) (ks : List Kind) → κ ≡ μ → has_kind κ (μ ∷ ks) ≡ true
has_kind_self κ μ ks e = rw (ap (λ j. same_kind j μ) e ∙ same_kind_refl μ) refl

pub has_kind-cons :
    (κ μ : Kind) (ks : List Kind) → has_kind κ ks ≡ true → has_kind κ (μ ∷ ks) ≡ true
has_kind-cons κ μ ks h = elim (same_kind κ μ) as (λ b. (b || has_kind κ ks) ≡ true) [
  | true ↦ refl
  | false ↦ h
]

pub OwnsOf-kind :
    {V : Type 0} (κ : Kind) (manifest : Outcome (Object V)) (k : Key)
    → OfKind κ manifest
    → OwnsOf manifest k
    → k.kind ≡ κ
OwnsOf-kind κ manifest k of_kind (m, built, same) =
    ap (λ (j : Key). j.kind) same ∙ of_kind.at m built

module _ {V : Type 0} (env : Env V) where
  pub Settled-stable :
      (manifest : Outcome (Object V)) (ps : List FieldPath) (other : Action env)
      → ((k : Key) → OwnsOf manifest k → Leaves env k other)
      → Keeps (Settled env manifest ps) other
  Settled-stable manifest ps other leaves = record {
    at = λ s h. record {
      object = h.object;
      built = h.built;
      converged =
          (Converged-Keeps env (λ r. (leaves (key h.object) (h.object, h.built, refl)).at r)).at s
            h.converged;
    };
  }

  pub Removed-stable :
      (manifest : Outcome (Object V)) (other : Action env)
      → ((k : Key) → OwnsOf manifest k → Leaves env k other)
      → Keeps (Removed env manifest) other
  Removed-stable (ok m) other leaves = Absent-Keeps env (λ r. (leaves (key m) (m, refl, refl)).at r)
  Removed-stable (err e) other leaves = record { at = λ s h. tt }
  Removed-stable panic other leaves = record { at = λ s h. tt }

  pub If-Keeps :
      (b : Bool) (P : env.client.Cluster → Type 0) (other : Action env)
      → Keeps P other
      → Keeps (λ c. If b (P c)) other
  If-Keeps true P other k = k
  If-Keeps false P other k = record { at = λ s h. tt }

  pub when-Leaves :
      (b : Bool) (k : Key) (act : Action env) → Leaves env k act → Leaves env k (when b act)
  when-Leaves true k act l = l
  when-Leaves false k act l = record { at = λ r. Keeps-pure tt }

  pub when-Ensures :
      (b : Bool) (P : env.client.Cluster → Type 0) (act : Action env)
      → Ensures P act
      → Ensures (λ c. If b (P c)) (when b act)
  when-Ensures true P act e = e
  when-Ensures false P act e = record { at = λ s h. tt }

  pub apply_or_remove-If :
      (b : Bool) (P : env.client.Cluster → Type 0) (act other : Action env)
      → Ensures P act
      → Ensures (λ c. If b (P c)) (apply_or_remove b act other)
  apply_or_remove-If true P act other e = e
  apply_or_remove-If false P act other e = record { at = λ s h. tt }

  -- `if b { ... }`
  abbrev pub when_step : Bool → Step env → Step env
  when_step b s = record {
    act = when b s.act;
    Owns = s.Owns;
    kinds = s.kinds;
    Goal = λ c. If b (s.Goal c);
    of_kinds = s.of_kinds;
    leaves = λ k free. when-Leaves b k s.act (s.leaves k free);
    reaches = when-Ensures b s.Goal s.act s.reaches;
    stable = λ other h. If-Keeps b s.Goal other (s.stable other h);
  }

  -- Several steps as one.
  abbrev pub group_step : (ts : List (Step env)) → AllApart env ts → Step env
  group_step ts apart = record {
    act = chain env ts;
    Owns = Owned env ts;
    kinds = kinds_of ts;
    Goal = Goals env ts;
    of_kinds = Owned-kinds_of ts;
    leaves = chain-Leaves ts;
    reaches = chain-Ensures ts apart;
    stable = Goals-Keeps ts;
  }

  -- `if b { ... }` around several.
  abbrev pub when_steps : Bool → (ts : List (Step env)) → distinct_kinds ts ≡ true → Step env
  when_steps b ts distinct = when_step b (group_step ts (distinct_kinds-AllApart ts distinct))

  module _ (law : IsLawfulEnv env) where
    pub delete-Leaves :
        (manifest : Outcome (Object V)) (k : Key)
        → ¬ OwnsOf manifest k
        → Leaves env k (delete_if_found env manifest)
    delete-Leaves manifest k free = record {
      at = λ r. delete_if_found-Keeps env law k r manifest (λ m built same. free (m, built, same));
    }

    -- `if err := r.deleteX(cr); err != nil { log }`
    abbrev pub remove_step :
        (κ : Kind) (manifest : Outcome (Object V)) → OfKind κ manifest → Step env
    remove_step κ manifest of_kind = record {
      act = logged (delete_if_found env manifest);
      Owns = OwnsOf manifest;
      kinds = κ ∷ [];
      Goal = λ c. IsHealthy env κ → Removed env manifest c;
      of_kinds = λ k o. has_kind_self k.kind κ [] (OwnsOf-kind κ manifest k of_kind o);
      leaves = λ k free. record { at = λ r. Keeps-logged ((delete-Leaves manifest k free).at r) };
      reaches = record {
        at = λ s h healthy. (logged_delete-Ensures env law κ manifest healthy of_kind).at s h;
      };
      stable = λ other leaves. record {
        at = λ s h healthy. (Removed-stable manifest other leaves).at s (h healthy);
      };
    }

    pub choose-Leaves :
        (b : Bool) (k : Key) (act : Action env) (raw : Outcome (Object V))
        → Leaves env k act
        → ¬ OwnsOf raw k
        → Leaves env k (apply_or_remove b act (delete_if_found env raw))
    choose-Leaves b k act raw l free = record {
      at = λ r. Keeps-if b (l.at r) (Keeps-logged ((delete-Leaves raw k free).at r));
    }

    -- A `handle` method where it is wanted, and otherwise the `delete` method.
    abbrev pub choose_step :
        Bool → Step env → (κ : Kind) (raw : Outcome (Object V)) → OfKind κ raw → Step env
    choose_step b s κ raw of_kind = record {
      act = apply_or_remove b s.act (delete_if_found env raw);
      Owns = λ k. s.Owns k ⊎ OwnsOf raw k;
      kinds = κ ∷ s.kinds;
      Goal = λ c. If b (s.Goal c);
      of_kinds = λ k o. elim o [
        | inl p ↦ has_kind-cons k.kind κ s.kinds (s.of_kinds k p)
        | inr p ↦ has_kind_self k.kind κ s.kinds (OwnsOf-kind κ raw k of_kind p)
      ];
      leaves = λ k free.
          choose-Leaves b k s.act raw (s.leaves k (λ p. free (inl p))) (λ p. free (inr p));
      reaches = apply_or_remove-If b s.Goal s.act (delete_if_found env raw) s.reaches;
      stable = λ other h. If-Keeps b s.Goal other (s.stable other (λ k p. h k (inl p)));
    }

    module _ (cr : PlatformMonitoring) where
      -- A `handle` method.
      abbrev pub update_step :
          (κ : Kind) (manifest : Outcome (Object V)) (ps : List FieldPath)
          (merge : Object V → Object V → Object V)
          → Carries ps merge
          → OfKind κ manifest
          → Step env
      update_step κ manifest ps merge carries of_kind = record {
        act = create_or_update env cr manifest merge;
        Owns = OwnsOf manifest;
        kinds = κ ∷ [];
        Goal = Settled env manifest ps;
        of_kinds = λ k o. has_kind_self k.kind κ [] (OwnsOf-kind κ manifest k of_kind o);
        leaves = λ k free. record {
          at = λ r.
              create_or_update-Keeps env law k r cr manifest ps merge carries
                (λ m built same. free (m, built, same));
        };
        reaches = create_or_update-Settles env law cr manifest ps merge carries;
        stable = Settled-stable manifest ps;
      }

      pub create_or_replace-Settles :
          (former : Key) (manifest : Outcome (Object V)) (ps : List FieldPath)
          (merge : Object V → Object V → Object V)
          → Carries ps merge
          → Ensures (Settled env manifest ps) (create_or_replace env cr former manifest merge)
      unfolding create_or_replace ◌>>=◌ lift
      create_or_replace-Settles former (ok m) ps merge carries = record {
        at = λ s h. record {
          object = m;
          built = refl;
          converged = (create_or_replace-Ensures env law cr former m ps merge carries).at s h;
        };
      }
      create_or_replace-Settles former (err e) ps merge carries = record { at = λ s h. absurd h }
      create_or_replace-Settles former panic ps merge carries = record { at = λ s h. absurd h }

      -- A `handle` method that replaces an object under a former name.
      abbrev pub replace_step :
          (κ : Kind) (former : Key) (manifest : Outcome (Object V)) (ps : List FieldPath)
          (merge : Object V → Object V → Object V)
          → Carries ps merge
          → OfKind κ manifest
          → former.kind ≡ κ
          → Step env
      replace_step κ former manifest ps merge carries of_kind former_kind = record {
        act = create_or_replace env cr former manifest merge;
        Owns = λ k. OwnsOf manifest k ⊎ (k ≡ former);
        kinds = κ ∷ [];
        Goal = Settled env manifest ps;
        of_kinds = λ k o. has_kind_self k.kind κ [] (elim o [
          | inl p ↦ OwnsOf-kind κ manifest k of_kind p
          | inr p ↦ ap (λ (j : Key). j.kind) p ∙ former_kind
        ]);
        leaves = λ k free. record {
          at = λ r.
              create_or_replace-Keeps env law k r cr former manifest ps merge carries
                (λ m built same. free (inl (m, built, same))) (λ p. free (inr p));
        };
        reaches = create_or_replace-Settles former manifest ps merge carries;
        stable = λ other h. Settled-stable manifest ps other (λ k p. h k (inl p));
      }
