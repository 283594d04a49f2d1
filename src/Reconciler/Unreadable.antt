-- ===== src/Reconciler/Unreadable.antt =====
-- Handlers against an API server none of whose reads answers.
use qubership_monitoring_ope.Prelude.{◌≡◌, ◌∙◌, refl, sym, false}
use mathlib.Core.Path.{subst}
use qubership_monitoring_ope.Api.{PlatformMonitoring}
use qubership_monitoring_ope.Exec.{Outcome, err, is_not_found, lift, ok, panic, raise, ◌>>=◌}
use qubership_monitoring_ope.Exec.Rules.{Keeps}
use qubership_monitoring_ope.Cluster.{Key, Object, key}
use qubership_monitoring_ope.Reconciler.{
  Env, create_or_update, delete_if_found, delete_under, discard, store,
}

-- An error other than NotFound.
abbrev pub Fails : {V : Type 0} → Outcome (Object V) → Type 0
Fails (ok o) = ⊥
Fails (err e) = is_not_found e ≡ false
Fails panic = ⊥

module _ {V : Type 0} (env : Env V) where
  -- No read of this cluster answers.
  pub record Unreadable (s : env.client.Cluster) : Type 0 where
    pub at : (k : Key) → Fails (env.client.get k s)

  store-unchanged :
      (cr : PlatformMonitoring) (merge : Object V → Object V → Object V) (m : Object V)
      (x : Outcome (Object V)) (s : env.client.Cluster)
      → Fails x
      → (store env cr merge m x s).1 ≡ s
  unfolding store raise
  store-unchanged cr merge m (ok o) s f = absurd f
  store-unchanged cr merge m (err e) s f = rw f refl
  store-unchanged cr merge m panic s f = absurd f

  discard-unchanged :
      (x : Outcome (Object V)) (s : env.client.Cluster) → Fails x → (discard env x s).1 ≡ s
  unfolding discard raise
  discard-unchanged (ok o) s f = absurd f
  discard-unchanged (err e) s f = rw f refl
  discard-unchanged panic s f = absurd f

  module _ (s : env.client.Cluster) (unreadable : Unreadable s) where
    read-Fails : (k : Key) (c : env.client.Cluster) → c ≡ s → Fails (env.client.get k c)
    read-Fails k c e = subst (λ d. Fails (env.client.get k d)) (sym e) (unreadable.at k)

    pub create_or_update-unchanged :
        (cr : PlatformMonitoring) (manifest : Outcome (Object V))
        (merge : Object V → Object V → Object V)
        → Keeps (λ c. c ≡ s) (create_or_update env cr manifest merge)
    unfolding create_or_update ◌>>=◌ lift
    create_or_update-unchanged cr (ok m) merge = record {
      at = λ c e.
          store-unchanged cr merge m (env.client.get (key m) c) c (read-Fails (key m) c e) ∙ e;
    }
    create_or_update-unchanged cr (err x) merge = record { at = λ c e. e }
    create_or_update-unchanged cr panic merge = record { at = λ c e. e }

    pub delete_if_found-unchanged :
        (manifest : Outcome (Object V)) → Keeps (λ c. c ≡ s) (delete_if_found env manifest)
    unfolding delete_if_found ◌>>=◌ lift
    delete_if_found-unchanged (ok m) = record {
      at = λ c e. discard-unchanged (env.client.get (key m) c) c (read-Fails (key m) c e) ∙ e;
    }
    delete_if_found-unchanged (err x) = record { at = λ c e. e }
    delete_if_found-unchanged panic = record { at = λ c e. e }

    pub delete_under-unchanged : (k : Key) → Keeps (λ c. c ≡ s) (delete_under env k)
    unfolding delete_under
    delete_under-unchanged k = record {
      at = λ c e. discard-unchanged (env.client.get k c) c (read-Fails k c e) ∙ e;
    }

pub ruleset unchanged_rules =
    (create_or_update-unchanged, delete_if_found-unchanged, delete_under-unchanged)
