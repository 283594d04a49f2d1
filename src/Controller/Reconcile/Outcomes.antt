-- ===== src/Controller/Reconcile/Outcomes.antt =====
-- What `Reconcile` answers, and the status that it leaves.
use qubership_monitoring_ope.Prelude.{
  String, ◌≡◌, refl, sym, ap, ◌∙◌, Bool, true, false, not, ◌&&◌, ◌||◌, List, [], ◌∷◌, All, str_eq,
  arith,
}
use mathlib.Core.Path.{subst}
use qubership_monitoring_ope.Exec.{
  Exec, Outcome, continue, err, lift, logged, ok, panic, pure, ◌>>=◌, ◌>>◌,
}
use qubership_monitoring_ope.Exec.Rules.{IsOk, then-IsOk}
use qubership_monitoring_ope.Controller.Conditions.Rotate.{UniqueReasons}
use qubership_monitoring_ope.Controller.Conditions.Laws.{
  put-UniqueReasons, swap_remove-UniqueReasons,
}
use qubership_monitoring_ope.Controller.Conditions.View.{
  prepare_status_for_update-eq-put, remove_status-eq-swap_remove,
}
use qubership_monitoring_ope.Controller.Reconcile.{
  Operator, State, Step, forget, prepare, record_outcome, reported, run_all, run_step, unreported,
}
use qubership_monitoring_ope.Controller.Reconcile.Failures.{
  failed_outside, failed_outside-put_failed, failed_outside-swap_remove, mem,
}

-- Whatever it answers, the action leaves the conditions of the resource as they were.
pub record KeepsConditions {S A : Type 0} (m : Exec (State S) A) : Type 0 where
  pub at : (st : State S) → (m st).1.0.conditions ≡ st.0.conditions

abbrev pub distinct : List String → Bool
distinct [] = true
distinct (r ∷ rs) = not (str_eq r "") && not (mem r rs) && distinct rs

abbrev pub is_err : Outcome (Unit {0}) → Bool
is_err (ok done) = false
is_err (err e) = true
is_err panic = false

module _ {S : Type 0} where
  abbrev pub run_of : Step S → Exec (State S) (Unit {0})
  run_of (reported reason message run) = run
  run_of (unreported run) = run

  -- The reasons under which the steps record failures.
  abbrev pub reasons : List (Step S) → List String
  reasons [] = []
  reasons (reported reason message run ∷ xs) = reason ∷ reasons xs
  reasons (unreported run ∷ xs) = reasons xs

  abbrev pub fails : Step S → State S → Bool
  fails (reported reason message run) st = is_err (run st).0
  fails (unreported run) st = false

  module _ (op : Operator S) where
    -- Some call whose failure is recorded fails, where each starts from what the one before it left.
    unfoldable pub any_fails : List (Step S) → State S → Bool
    any_fails [] st = false
    any_fails (x ∷ xs) st = fails x st || any_fails xs (run_step op x st).1

    record_outcome-conditions :
        (reason message : String) (o : Outcome (Unit {0})) (rs : List String) (st : State S)
        → str_eq reason "" ≡ false
        → mem reason rs ≡ false
        → UniqueReasons st.0.conditions
        → IsOk (record_outcome op reason message o st).0
        → (failed_outside rs (record_outcome op reason message o st).1.0.conditions
            ≡ (is_err o || failed_outside (reason ∷ rs) st.0.conditions))
          × UniqueReasons (record_outcome op reason message o st).1.0.conditions
    unfolding record_outcome forget prepare ◌>>◌ ◌>>=◌ continue pure lift
    record_outcome-conditions reason message (ok done) rs st named away u h =
        rw (remove_status-eq-swap_remove st.0.conditions reason named) (
          failed_outside-swap_remove reason rs st.0.conditions u,
          swap_remove-UniqueReasons reason st.0.conditions u,
        )
    record_outcome-conditions reason message (err e) rs st named away u h =
        rw (prepare_status_for_update-eq-put st.0.conditions _ named) (
          failed_outside-put_failed _ rs st.0.conditions refl away,
          put-UniqueReasons _ st.0.conditions u,
        )
    record_outcome-conditions reason message panic rs st named away u h = absurd h

    run_step-reported :
        (reason message : String) (run : Exec (State S) (Unit {0})) (rs : List String)
        (st : State S)
        → KeepsConditions run
        → str_eq reason "" ≡ false
        → mem reason rs ≡ false
        → UniqueReasons st.0.conditions
        → IsOk (run_step op (reported reason message run) st).0
        → (failed_outside rs (run_step op (reported reason message run) st).1.0.conditions
            ≡ (is_err (run st).0 || failed_outside (reason ∷ rs) st.0.conditions))
          × UniqueReasons (run_step op (reported reason message run) st).1.0.conditions
    unfolding run_step
    run_step-reported reason message run rs st keeps named away u h =
        let (same, unique) =
          record_outcome-conditions reason message (run st).0 rs (run st).1 named away
            (subst UniqueReasons (sym (keeps.at st)) u) h in
        (
          same ∙ ap (λ cs. is_err (run st).0 || failed_outside (reason ∷ rs) cs) (keeps.at st),
          unique,
        )

    run_step-unreported :
        (run : Exec (State S) (Unit {0})) (st : State S)
        → KeepsConditions run
        → (run_step op (unreported run) st).1.0.conditions ≡ st.0.conditions
    unfolding run_step logged
    run_step-unreported run st keeps = keeps.at st

    pub run_all-failed_outside :
        (xs : List (Step S)) (st : State S)
        → All (λ x. KeepsConditions (run_of x)) xs
        → distinct (reasons xs) ≡ true
        → UniqueReasons st.0.conditions
        → IsOk (run_all op xs st).0
        → (failed_outside [] (run_all op xs st).1.0.conditions
            ≡ (any_fails xs st || failed_outside (reasons xs) st.0.conditions))
          × UniqueReasons (run_all op xs st).1.0.conditions
    unfolding run_all any_fails pure
    run_all-failed_outside [] st keeps d u h = (refl, u)
    run_all-failed_outside (reported reason message run ∷ xs) st keeps d u h =
        let (returns, rest) =
          then-IsOk (run_step op (reported reason message run)) (run_all op xs) st h in
        let (here, unique) =
          run_step-reported reason message run (reasons xs) st keeps.0 (ground arith) (ground arith)
            u returns in
        let (later, after) =
          run_all-failed_outside xs (run_step op (reported reason message run) st).1 keeps.1
            (ground arith) unique (subst (λ (p : Outcome (Unit {0}) × State S). IsOk p.0) rest h) in
        rw rest (ground (arith, later, here), after)
    run_all-failed_outside (unreported run ∷ xs) st keeps d u h =
        let (returns, rest) = then-IsOk (run_step op (unreported run)) (run_all op xs) st h in
        let same = run_step-unreported run st keeps.0 in
        let (later, after) =
          run_all-failed_outside xs (run_step op (unreported run) st).1 keeps.1 d
            (subst UniqueReasons (sym same) u)
            (subst (λ (p : Outcome (Unit {0}) × State S). IsOk p.0) rest h) in
        rw rest (
          later
              ∙ ap
                  (λ cs.
                    any_fails xs (run_step op (unreported run) st).1
                    || failed_outside (reasons xs) cs)
                  same,
          after,
        )
