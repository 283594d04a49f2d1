-- ===== src/Controller/Reconcile/Unique.antt =====
-- The reasons of the status conditions stay different along a cycle of `Reconcile`.
use qubership_monitoring_ope.Prelude.{
  String, ◌≡◌, refl, sym, Bool, true, false, List, [], ◌∷◌, All, Option, none, some, str_eq, arith,
}
use mathlib.Core.Path.{subst}
use qubership_monitoring_ope.Exec.{Exec, Outcome, err, ok, panic}
use qubership_monitoring_ope.Exec.Rules.{
  Keeps, Keeps-bind, Keeps-if, Keeps-lift, Keeps-logged, Keeps-pure, Keeps-raise, Keeps-then,
}
use qubership_monitoring_ope.Utils.Numbers.{ℤ}
use qubership_monitoring_ope.Controller.Conditions.Rotate.{UniqueReasons}
use qubership_monitoring_ope.Controller.Conditions.Laws.{
  put-UniqueReasons, swap_remove-UniqueReasons,
}
use qubership_monitoring_ope.Controller.Conditions.View.{
  prepare_status_for_update-eq-put, remove_status-eq-swap_remove,
}
use qubership_monitoring_ope.Controller.Reconcile.{
  Operator, State, Step, conclude, cycle, finish, forget, has_failed, prepare, record_outcome,
  reported, run_all, run_step, steps, unreported, update_status,
}
use qubership_monitoring_ope.Controller.Reconcile.Failures.{mem}
use qubership_monitoring_ope.Controller.Reconcile.Outcomes.{
  KeepsConditions, distinct, reasons, run_of,
}
use qubership_monitoring_ope.Controller.Reconcile.Answer.{IsQuiet}

module _ {S : Type 0} where
  -- No two conditions of the custom resource share a reason.
  abbrev pub Unique : State S → Type 0
  Unique st = UniqueReasons st.0.conditions

  quiet-Keeps : {A : Type 0} {m : Exec (State S) A} → KeepsConditions m → Keeps Unique m
  quiet-Keeps k = record { at = λ st u. subst UniqueReasons (sym (k.at st)) u }

  module _ (op : Operator S) where
    prepare-Unique :
        (type status reason message : String)
        → str_eq reason "" ≡ false
        → Keeps Unique (prepare op type status reason message)
    unfolding prepare
    prepare-Unique type status reason message named = record {
      at = λ st u.
          rw (prepare_status_for_update-eq-put st.0.conditions _ named)
            (put-UniqueReasons _ st.0.conditions u);
    }

    forget-Unique : (reason : String) → str_eq reason "" ≡ false → Keeps Unique (forget op reason)
    unfolding forget
    forget-Unique reason named = record {
      at = λ st u.
          rw (remove_status-eq-swap_remove st.0.conditions reason named)
            (swap_remove-UniqueReasons reason st.0.conditions u);
    }

    update_status-Unique :
        KeepsConditions op.status_update
        → (type status reason message : String) → str_eq reason "" ≡ false
        → Keeps Unique (update_status op type status reason message)
    unfolding update_status
    update_status-Unique writer type status reason message named =
        Keeps-bind (prepare-Unique type status reason message named)
          λ changed. Keeps-if changed (quiet-Keeps writer) (Keeps-pure tt)

    record_outcome-Unique :
        (reason message : String) (o : Outcome (Unit {0}))
        → str_eq reason "" ≡ false
        → Keeps Unique (record_outcome op reason message o)
    unfolding record_outcome
    record_outcome-Unique reason message (ok a) named = forget-Unique reason named
    record_outcome-Unique reason message (err e) named =
        Keeps-then (prepare-Unique "Failed" "False" reason message named) (Keeps-pure tt)
    record_outcome-Unique reason message panic named = Keeps-lift panic

    run_all-Unique :
        (xs : List (Step S))
        → All (λ x. KeepsConditions (run_of x)) xs
        → distinct (reasons xs) ≡ true
        → Keeps Unique (run_all op xs)
    unfolding run_all run_step
    run_all-Unique [] quiet d = Keeps-pure tt
    run_all-Unique (reported reason message run ∷ xs) quiet d =
        Keeps-then
          (record {
            at = λ st u.
                (record_outcome-Unique reason message (run st).0 (ground arith)).at (run st).1
                  ((quiet-Keeps quiet.0).at st u);
          })
          (run_all-Unique xs quiet.1 (ground arith))
    run_all-Unique (unreported run ∷ xs) quiet d =
        Keeps-then (Keeps-logged (quiet-Keeps quiet.0)) (run_all-Unique xs quiet.1 d)

    finish-Unique :
        KeepsConditions op.status_update
        → (interval : ℤ) (b : Bool) → Keeps Unique (finish op interval b)
    unfolding finish
    finish-Unique writer interval true =
        Keeps-then (prepare-Unique _ _ _ _ refl)
          (Keeps-then (Keeps-logged (quiet-Keeps writer)) (Keeps-pure _))
    finish-Unique writer interval false =
        Keeps-then (prepare-Unique _ _ _ _ refl)
          (Keeps-then (Keeps-logged (quiet-Keeps writer)) (Keeps-pure _))

    conclude-Unique :
        KeepsConditions op.status_update → (o : Option ℤ) → Keeps Unique (conclude op o)
    unfolding conclude
    conclude-Unique writer none = record { at = (Keeps-raise _).at }
    conclude-Unique writer (some interval) = record {
      at = λ st. (finish-Unique writer interval (has_failed st.0.conditions)).at st;
    }

-- If the components and the status writer leave the conditions alone, then a cycle of `Reconcile`,
-- whatever it returns, leaves a status in which no two conditions share a reason, if it found one.
pub cycle_keeps_reasons_unique :
    {S : Type 0} (op : Operator S)
    → IsQuiet op
    → (st : State S) → UniqueReasons st.0.conditions
    → UniqueReasons (cycle op st).1.0.conditions
unfolding cycle
cycle_keeps_reasons_unique op quiet st unique =
    (Keeps-then (Keeps-logged (update_status-Unique op quiet.status_update _ _ _ _ refl)) (
        Keeps-then (run_all-Unique op (steps op.components) quiet.components (unfold mem in refl))
          (conclude-Unique op quiet.status_update _))).at
      st unique
