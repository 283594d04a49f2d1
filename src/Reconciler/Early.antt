-- ===== src/Reconciler/Early.antt =====
-- The `uninstall` methods that return early where the main object of the component is missing.
use qubership_monitoring_ope.Prelude.{
  ◌≡◌, ◌∙◌, refl, sym, ap, List, [], ◌∷◌, ◌++◌, inl, inr, if◌then◌else◌,
}
use qubership_monitoring_ope.Exec.{
  Error, Outcome, continue, err, is_not_found, lift, ok, panic, pure, ◌>>◌,
}
use qubership_monitoring_ope.Cluster.{Key, Object, key}
use qubership_monitoring_ope.Reconciler.{Action, Env}
use qubership_monitoring_ope.Reconciler.Frame.{Reads}
use qubership_monitoring_ope.Reconciler.Plan.{Owned, Step, chain}

module _ {V : Type 0} (env : Env V) where
  proceed : Outcome (Object V) → Action env → Action env
  proceed (ok e) rest = rest
  proceed (err x) rest = pure tt
  proceed panic rest = lift panic

  -- The rest of the method, if the builder returns an object and the cluster has it.
  unfoldable pub if_found : Outcome (Object V) → Action env → Action env
  unfolding proceed
  if_found (ok m) rest s = proceed (env.client.get (key m) s) rest s
  if_found (err e) rest s = (ok tt, s)
  if_found panic rest s = (panic, s)

  proceed_unless : Outcome (Object V) → Action env → Action env
  proceed_unless (ok e) rest = rest
  proceed_unless (err x) rest = if is_not_found x then pure tt else rest
  proceed_unless panic rest = lift panic

  -- The same without a return behind the two errors that are logged: a builder that fails has
  -- returned nil, which is dereferenced.
  unfoldable pub unless_missing : Outcome (Object V) → Action env → Action env
  unfolding proceed_unless
  unless_missing (ok m) rest s = proceed_unless (env.client.get (key m) s) rest s
  unless_missing (err e) rest s = (panic, s)
  unless_missing panic rest s = (panic, s)

  -- Steps in front of the rest of a method.
  abbrev pub chain_then : List (Step env) → Action env → Action env
  chain_then [] rest = rest
  chain_then (s ∷ ts) rest = s.act >> chain_then ts rest

module _ {V : Type 0} (env : Env V) (m e : Object V) where
  pub if_found-rest :
      (rest : Action env) (s : env.client.Cluster)
      → env.client.get (key m) s ≡ ok e
      → if_found env (ok m) rest s ≡ rest s
  unfolding if_found
  if_found-rest rest s there = rw (there, proceed) refl

  pub unless_missing-rest :
      (rest : Action env) (s : env.client.Cluster)
      → env.client.get (key m) s ≡ ok e
      → unless_missing env (ok m) rest s ≡ rest s
  unfolding unless_missing
  unless_missing-rest rest s there = rw (there, proceed_unless) refl

  continue-agree :
      (o : Outcome (Unit {0})) (x y : Action env) (s : env.client.Cluster)
      → x s ≡ y s
      → continue o (λ _. x) s ≡ continue o (λ _. y) s
  unfolding continue
  continue-agree (ok a) x y s same = same
  continue-agree (err a) x y s same = refl
  continue-agree panic x y s same = refl

  -- Behind steps that do not touch the object it is found as before.
  pub chain_then-agree :
      (ts : List (Step env)) (x y : Action env)
      → ((s : env.client.Cluster) → env.client.get (key m) s ≡ ok e → x s ≡ y s)
      → ¬ Owned env ts (key m)
      → (s : env.client.Cluster) → env.client.get (key m) s ≡ ok e
      → chain_then env ts x s ≡ chain_then env ts y s
  unfolding ◌>>◌
  chain_then-agree [] x y same free s there = same s there
  chain_then-agree (t ∷ ts) x y same free s there =
      continue-agree (t.act s).0 (chain_then env ts x) (chain_then env ts y) (t.act s).1 (
        chain_then-agree ts x y same (λ o. free (inr o)) (t.act s).1
          (((t.leaves (key m) (λ o. free (inl o))).at (ok e)).at s there))

  -- Where the main object is found, a method that may return early is the sequence of its steps.
  pub found-removal :
      (first rest : List (Step env)) (manifest : Outcome (Object V)) (body : Action env)
      (early : Outcome (Object V) → Action env → Action env)
      → ((s : env.client.Cluster) → env.client.get (key m) s ≡ ok e → early (ok m) body s ≡ body s)
      → chain env (first ++ rest) ≡ chain_then env first body
      → ¬ Owned env first (key m)
      → manifest ≡ ok m
      → (s : env.client.Cluster) → env.client.get (key m) s ≡ ok e
      → chain env (first ++ rest) s ≡ chain_then env first (early manifest body) s
  found-removal first rest manifest body early found steps free built s there =
      ap (λ (a : Action env). a s) steps
      ∙ sym (
          chain_then-agree first (early manifest body) body
            (λ c h. ap (λ n. early n body c) built ∙ found c h) free s there)

module _ {V : Type 0} (env : Env V) (m : Object V) (x : Error) (k : Key)
    (r : Outcome (Object V)) where
  continue-Reads :
      (o : Outcome (Unit {0})) (act : Action env) (s : env.client.Cluster)
      → Reads env k r s
      → Reads env k r (act s).1
      → Reads env k r (continue o (λ _. act) s).1
  unfolding continue
  continue-Reads (ok a) act s before behind = behind
  continue-Reads (err a) act s before behind = before
  continue-Reads panic act s before behind = before

  -- Where the object is missing, what stands under a key that the first steps leave alone stays.
  pub chain_then_stops :
      (ts : List (Step env)) (rest : Action env)
      → ¬ Owned env ts (key m)
      → ¬ Owned env ts k
      → (s : env.client.Cluster) → env.client.get (key m) s ≡ err x
      → Reads env k r s
      → Reads env k r (chain_then env ts (if_found env (ok m) rest) s).1
  unfolding ◌>>◌ if_found pure
  chain_then_stops [] rest free apart s gone h = rw (gone, proceed) h
  chain_then_stops (t ∷ ts) rest free apart s gone h =
      let kept = ((t.leaves k (λ o. apart (inl o))).at r).at s h in
      continue-Reads (t.act s).0 (chain_then env ts (if_found env (ok m) rest)) (t.act s).1 kept (
        chain_then_stops ts rest (λ o. free (inr o)) (λ o. apart (inr o)) (t.act s).1
          (((t.leaves (key m) (λ o. free (inl o))).at (err x)).at s gone) kept)
