-- ===== src/Reconciler/Plan/Handlers.antt =====
-- The steps for the `handle` methods as the components write them.
use qubership_monitoring_ope.Prelude.{◌≡◌, ◌∙◌, refl, sym, ap, false, List}
use mathlib.Core.Path.{subst}
use qubership_monitoring_ope.Api.{PlatformMonitoring}
use qubership_monitoring_ope.Exec.{Outcome, ok, ◌>>◌}
use qubership_monitoring_ope.Exec.Rules.{Ensures, Ensures-then_right, IsOk-ok}
use qubership_monitoring_ope.Cluster.{FieldPath, Key, Kind, Object}
use qubership_monitoring_ope.Reconciler.{Action, Env}
use qubership_monitoring_ope.Reconciler.Merge.{
  merge_annotated, merge_annotated-Carries, merge_fields, merge_fields-Carries, merge_named,
  merge_named-Carries,
}
use qubership_monitoring_ope.Reconciler.Kinds.{OfKind}
use qubership_monitoring_ope.Reconciler.Frame.{IsLawfulEnv}
use qubership_monitoring_ope.Cluster.Keys.{has_kind}
use qubership_monitoring_ope.Reconciler.Plan.{
  Leaves, Owned, Owned-kinds_of, Step, chain, chain-Leaves, kinds_of,
}
use qubership_monitoring_ope.Reconciler.Plan.Steps.{replace_step, update_step}

module _ {V : Type 0} (env : Env V) (law : IsLawfulEnv env) (cr : PlatformMonitoring) where
  abbrev pub fields_step :
      (κ : Kind) (manifest : Outcome (Object V)) (ps : List FieldPath)
      → OfKind κ manifest
      → Step env
  fields_step κ manifest ps of_kind =
      update_step env law cr κ manifest ps (merge_fields ps) (merge_fields-Carries ps) of_kind

  abbrev pub named_step :
      (κ : Kind) (manifest : Outcome (Object V)) (ps : List FieldPath)
      → OfKind κ manifest
      → Step env
  named_step κ manifest ps of_kind =
      update_step env law cr κ manifest ps (merge_named ps) (merge_named-Carries ps) of_kind

  abbrev pub annotated_step :
      (κ : Kind) (manifest : Outcome (Object V)) (ps : List FieldPath)
      → OfKind κ manifest
      → Step env
  annotated_step κ manifest ps of_kind =
      update_step env law cr κ manifest ps (merge_annotated ps) (merge_annotated-Carries ps) of_kind

  abbrev pub replace_fields_step :
      (former : Key) (manifest : Outcome (Object V)) (ps : List FieldPath)
      → OfKind former.kind manifest
      → Step env
  replace_fields_step former manifest ps of_kind =
      replace_step env law cr former.kind former manifest ps (merge_fields ps)
        (merge_fields-Carries ps) of_kind refl

  abbrev pub replace_annotated_step :
      (former : Key) (manifest : Outcome (Object V)) (ps : List FieldPath)
      → OfKind former.kind manifest
      → Step env
  replace_annotated_step former manifest ps of_kind =
      replace_step env law cr former.kind former manifest ps (merge_annotated ps)
        (merge_annotated-Carries ps) of_kind refl

-- Steps of other kinds do not own a key.
pub other_kind_free :
    {V : Type 0} {env : Env V} (ts : List (Step env)) (k : Key) (κ : Kind)
    → k.kind ≡ κ
    → has_kind κ (kinds_of ts) ≡ false
    → ¬ Owned env ts k
other_kind_free ts k κ kind other o =
    cc (sym other ∙ ap (λ j. has_kind j (kinds_of ts)) (sym kind) ∙ Owned-kinds_of ts k o)

module _ {V : Type 0} (env : Env V) where
  -- An equal action that returns reaches the goal of an action.
  pub Ensures-run :
      (P : env.client.Cluster → Type 0) {act run : Action env}
      → act ≡ run
      → Ensures P act
      → (s : env.client.Cluster) → (run s).0 ≡ ok tt
      → P (run s).1
  Ensures-run P same e s done = (subst (Ensures P) same e).at s (IsOk-ok _ done)

  -- Objects of kinds that the steps do not have stay as they are.
  pub chain-Leaves_kind :
      (ts : List (Step env)) (k : Key) (κ : Kind)
      → k.kind ≡ κ
      → has_kind κ (kinds_of ts) ≡ false
      → Leaves env k (chain env ts)
  chain-Leaves_kind ts k κ kind other = chain-Leaves ts k (other_kind_free ts k κ kind other)

module _ {V : Type 0} (env : Env V) where
  -- The same behind another action.
  pub Ensures-run_behind :
      (before : Action env) (P : env.client.Cluster → Type 0) {act run : Action env}
      → act ≡ run
      → Ensures P act
      → (s : env.client.Cluster) → ((before >> run) s).0 ≡ ok tt
      → P ((before >> run) s).1
  Ensures-run_behind before P same e s done =
      (Ensures-then_right before (subst (Ensures P) same e)).at s (IsOk-ok _ done)
