-- ===== src/Reconciler/Plan.antt =====
-- A `Run` method as a sequence of steps. A step has the keys that it may change, and a goal that it
-- brings about and that what spares its keys keeps. In a sequence of steps that share no key every
-- goal is reached.
pub mod Steps
pub mod Handlers
pub mod Present
use qubership_monitoring_ope.Prelude.{
  ◌≡◌, ◌≢◌, ◌∙◌, refl, ap, Bool, true, false, not, ◌&&◌, ◌||◌, List, [], ◌∷◌, ◌++◌, ◌⊎◌, inl, inr,
  if◌then◌else◌, Bool-cases, arith,
}
use mathlib.Core.Path.{subst}
use qubership_monitoring_ope.Exec.{Exec, Outcome, pure, when, ◌>>◌}
use qubership_monitoring_ope.Exec.Rules.{
  Ensures, Ensures-then_left, Ensures-then_right, Keeps, Keeps-pure, Keeps-then, Keeps-when,
}
use qubership_monitoring_ope.Cluster.{Key, Kind, Object}
use qubership_monitoring_ope.Cluster.Keys.{has_kind, same_kind, same_kind-eq}
use qubership_monitoring_ope.Reconciler.{Action, Env}
use qubership_monitoring_ope.Reconciler.Frame.{Reads}

module _ {V : Type 0} (env : Env V) where
  -- Every read under the key answers the same behind the action.
  pub record Leaves (k : Key) (act : Action env) : Type 0 where
    pub at : (r : Outcome (Object V)) → Keeps (Reads env k r) act

  pub record Step : Type 1 where
    pub act : Action env
    pub Owns : Key → Type 0
    pub kinds : List Kind
    pub Goal : env.client.Cluster → Type 0
    pub of_kinds : (k : Key) → Owns k → has_kind k.kind kinds ≡ true
    pub leaves : (k : Key) → ¬ Owns k → Leaves k act
    pub reaches : Ensures Goal act
    pub stable : (other : Action env) → ((k : Key) → Owns k → Leaves k other) → Keeps Goal other

  abbrev pub chain : List Step → Action env
  chain [] = pure tt
  chain (s ∷ []) = s.act
  chain (s ∷ t ∷ ts) = s.act >> chain (t ∷ ts)

  abbrev pub Goals : List Step → env.client.Cluster → Type 0
  Goals [] c = Unit
  Goals (s ∷ ts) c = s.Goal c × Goals ts c

  -- A step of the list owns the key.
  abbrev pub Owned : List Step → Key → Type 0
  Owned [] k = ⊥
  Owned (s ∷ ts) k = s.Owns k ⊎ Owned ts k

  -- No key of the first is one of the second.
  abbrev pub Apart : (Key → Type 0) → (Key → Type 0) → Type 0
  Apart P Q = (k : Key) → P k → ¬ Q k

  -- No two steps share a key.
  abbrev pub AllApart : List Step → Type 0
  AllApart [] = Unit
  AllApart (s ∷ ts) = Apart s.Owns (Owned ts) × AllApart ts

abbrev pub kinds_apart : List Kind → List Kind → Bool
kinds_apart [] ks = true
kinds_apart (κ ∷ js) ks = not (has_kind κ ks) && kinds_apart js ks

or_assoc : (a b c : Bool) → (a || (b || c)) ≡ ((a || b) || c)
or_assoc true b c = refl
or_assoc false b c = refl

or_left : (a b : Bool) → a ≡ true → (a || b) ≡ true
or_left a b h = rw h refl

or_right : (a b : Bool) → b ≡ true → (a || b) ≡ true
or_right true b h = refl
or_right false b h = h

has_kind-append :
    (κ : Kind) (js ks : List Kind) → has_kind κ (js ++ ks) ≡ (has_kind κ js || has_kind κ ks)
has_kind-append κ [] ks = refl
has_kind-append κ (μ ∷ js) ks =
    ap (λ b. same_kind κ μ || b) (has_kind-append κ js ks)
    ∙ or_assoc (same_kind κ μ) (has_kind κ js) (has_kind κ ks)

no_common_kind :
    (κ : Kind) (js ks : List Kind)
    → kinds_apart js ks ≡ true
    → has_kind κ js ≡ true
    → has_kind κ ks ≡ true
    → ⊥
no_common_kind κ [] ks apart j k = cc
no_common_kind κ (μ ∷ js) ks apart j k = elim (Bool-cases (same_kind κ μ)) [
  | inl same ↦
      let e : κ ≡ μ = same_kind-eq κ μ same in
      let h : has_kind μ ks ≡ true = subst (λ x. has_kind x ks ≡ true) e k in absurd (ground arith)
  | inr other ↦ no_common_kind κ js ks (ground arith) (ground arith) k
]

module _ {V : Type 0} {env : Env V} where
  abbrev pub kinds_of : List (Step env) → List Kind
  kinds_of [] = []
  kinds_of (s ∷ ts) = s.kinds ++ kinds_of ts

  -- The kinds of the steps are different, by computation.
  abbrev pub distinct_kinds : List (Step env) → Bool
  distinct_kinds [] = true
  distinct_kinds (s ∷ ts) = kinds_apart s.kinds (kinds_of ts) && distinct_kinds ts

  pub Owned-kinds_of :
      (ts : List (Step env)) (k : Key) → Owned env ts k → has_kind k.kind (kinds_of ts) ≡ true
  Owned-kinds_of [] k o = absurd o
  Owned-kinds_of (s ∷ ts) k (inl o) =
      has_kind-append k.kind s.kinds (kinds_of ts) ∙ or_left _ _ (s.of_kinds k o)
  Owned-kinds_of (s ∷ ts) k (inr o) =
      has_kind-append k.kind s.kinds (kinds_of ts)
      ∙ or_right (has_kind k.kind s.kinds) _ (Owned-kinds_of ts k o)

  pub distinct_kinds-AllApart : (ts : List (Step env)) → distinct_kinds ts ≡ true → AllApart env ts
  distinct_kinds-AllApart [] h = tt
  distinct_kinds-AllApart (s ∷ ts) h = (
    λ k o p.
        no_common_kind k.kind s.kinds (kinds_of ts) (ground arith) (s.of_kinds k o)
          (Owned-kinds_of ts k p),
    distinct_kinds-AllApart ts (ground arith),
  )

  pub chain-Leaves :
      (ts : List (Step env)) (k : Key) → ¬ Owned env ts k → Leaves env k (chain env ts)
  chain-Leaves [] k free = record { at = λ r. Keeps-pure tt }
  chain-Leaves (s ∷ []) k free = s.leaves k (λ o. free (inl o))
  chain-Leaves (s ∷ t ∷ ts) k free = record {
    at = λ r.
        Keeps-then ((s.leaves k (λ o. free (inl o))).at r)
          ((chain-Leaves (t ∷ ts) k (λ o. free (inr o))).at r);
  }

  -- A sequence that returns has reached the goal of every step.
  pub chain-Ensures :
      (ts : List (Step env)) → AllApart env ts → Ensures (Goals env ts) (chain env ts)
  chain-Ensures [] apart = record { at = λ c h. tt }
  chain-Ensures (s ∷ []) apart = record { at = λ c h. (s.reaches.at c h, tt) }
  chain-Ensures (s ∷ t ∷ ts) apart = record {
    at = λ c h. (
      (Ensures-then_left s.reaches
            (s.stable (chain env (t ∷ ts)) (λ k o. chain-Leaves (t ∷ ts) k (apart.0 k o)))).at
          c h,
      (Ensures-then_right s.act (chain-Ensures (t ∷ ts) apart.1)).at c h,
    );
  }

  pub Goals-Keeps :
      (ts : List (Step env)) (other : Action env)
      → ((k : Key) → Owned env ts k → Leaves env k other)
      → Keeps (Goals env ts) other
  Goals-Keeps [] other leaves = record { at = λ c h. tt }
  Goals-Keeps (s ∷ ts) other leaves = record {
    at = λ c h. (
      (s.stable other (λ k o. leaves k (inl o))).at c h.0,
      (Goals-Keeps ts other (λ k o. leaves k (inr o))).at c h.1,
    );
  }
