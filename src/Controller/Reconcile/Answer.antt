-- ===== src/Controller/Reconcile/Answer.antt =====
-- The answer of `Reconcile` to the controller-runtime.
use qubership_monitoring_ope.Prelude.{
  String, ◌≡◌, refl, sym, ap, ◌∙◌, Bool, true, false, ◌||◌, List, ◌∷◌, Option, none, some, All,
  arith, if◌then◌else◌,
}
use mathlib.Core.Path.{subst}
use qubership_monitoring_ope.Api.{PlatformMonitoring, PlatformMonitoringCondition}
use qubership_monitoring_ope.Api.Defaults.{fill_empty_with_defaults}
use qubership_monitoring_ope.Exec.{Exec, Outcome, continue, logged, ok, pure, raise, ◌>>=◌, ◌>>◌}
use qubership_monitoring_ope.Exec.Rules.{IsOk, IsOk-ok, then-IsOk}
use qubership_monitoring_ope.Utils.Numbers.{ℤ, parse_int}
use qubership_monitoring_ope.Controller.Conditions.Rotate.{UniqueReasons}
use qubership_monitoring_ope.Controller.Conditions.Laws.{put, put-UniqueReasons}
use qubership_monitoring_ope.Controller.Conditions.View.{prepare_status_for_update-eq-put}
use qubership_monitoring_ope.Controller.Reconcile.{
  Operator, Result, State, conclude, cycle, duration, finish, get_env_with_default_value,
  has_failed, prepare, reconcile, reconcile_fetched, run_all, steps, update_status,
}
use qubership_monitoring_ope.Controller.Reconcile.Failures.{
  failed_outside, failed_outside-put_other, has_failed-eq, mem,
}
use qubership_monitoring_ope.Controller.Reconcile.Outcomes.{
  KeepsConditions, any_fails, reasons, run_all-failed_outside, run_of,
}

answered :
    {S A B C : Type 0} (m : Exec S A) (k : Exec S B) (c : C) (s : S)
    → IsOk ((m >> (k >> pure c)) s).0
    → ((m >> (k >> pure c)) s).0 ≡ ok c
unfolding pure
answered {S} {C = C} m k c s h =
    let (returns, rest) = then-IsOk m (k >> pure c) s h in
    let (_, last) = then-IsOk k (pure c) (m s).1 (subst (λ (p : Outcome C × S). IsOk p.0) rest h) in
    ap (λ (p : Outcome C × S). p.0) (rest ∙ last)

module _ {S : Type 0} (op : Operator S) where
  -- What is assumed of the parameters: nobody else writes conditions.
  pub record IsQuiet : Type 0 where
    pub status_update : KeepsConditions op.status_update
    pub components : All (λ x. KeepsConditions (run_of x)) (steps op.components)

  -- The state behind the first status update.
  unfoldable pub announced : State S → State S
  announced st =
      (logged
        (update_status op "In progress" "False" "ReconcileCycleStatus"
          "Monitoring service reconcile cycle in progress")
        st).1

  chosen-conditions :
      (b : Bool) (st : State S)
      → KeepsConditions op.status_update
      → ((if b then op.status_update else pure tt) st).1.0.conditions ≡ st.0.conditions
  unfolding pure
  chosen-conditions true st keeps = keeps.at st
  chosen-conditions false st keeps = refl

  abbrev in_progress : S → PlatformMonitoringCondition
  in_progress s = record {
    type = "In progress";
    status = "False";
    reason = "ReconcileCycleStatus";
    message = "Monitoring service reconcile cycle in progress";
    last_transition_time = op.now s;
  }

  announced-conditions :
      (st : State S)
      → KeepsConditions op.status_update
      → (announced st).0.conditions ≡ put (in_progress st.1) st.0.conditions
  unfolding announced logged update_status prepare ◌>>=◌ continue
  announced-conditions st keeps =
      chosen-conditions _ _ keeps
      ∙ prepare_status_for_update-eq-put st.0.conditions (in_progress st.1) refl

  abbrev pub answer : ℤ → Bool → Result
  answer interval true = record { requeue = true; requeue_after = 0 }
  answer interval false = record { requeue = false; requeue_after = duration interval }

  finish-answer :
      (interval : ℤ) (b : Bool) (st : State S)
      → IsOk (finish op interval b st).0
      → (finish op interval b st).0 ≡ ok (answer interval b)
  unfolding finish pure
  finish-answer interval true st h = answered _ _ _ st h
  finish-answer interval false st h = answered _ _ _ st h

  conclude-answer :
      (interval : ℤ) (o : Option ℤ) (st : State S)
      → o ≡ some interval
      → IsOk (conclude op o st).0
      → (conclude op o st).0 ≡ ok (answer interval (has_failed st.0.conditions))
  unfolding conclude raise
  conclude-answer interval none st e h = cc
  conclude-answer interval (some n) st e h =
      let same : n ≡ interval = ground arith in
      finish-answer n (has_failed st.0.conditions) st h
      ∙ ap (λ j. ok (answer j (has_failed st.0.conditions))) same

  abbrev pub interval_of : Option ℤ
  interval_of = parse_int (get_env_with_default_value op.getenv "RECONCILIATION_INTERVAL")

  pub cycle-split :
      (st : State S)
      → IsOk (cycle op st).0
      → IsOk (run_all op (steps op.components) (announced st)).0
        × (cycle op st
            ≡ conclude op interval_of (run_all op (steps op.components) (announced st)).1)
  unfolding cycle announced
  cycle-split st h =
      let (_, rest) = then-IsOk _ _ st h in
      let (ran, last) =
        then-IsOk (run_all op (steps op.components)) _ (announced st)
          (subst (λ (p : Outcome Result × State S). IsOk p.0) rest h) in
      (ran, rest ∙ last)

  -- The failures of this cycle, and those that the status still had under reasons of no step.
  abbrev pub has_failures : State S → Bool
  has_failures st =
      any_fails op (steps op.components) (announced st)
      || failed_outside ("ReconcileCycleStatus" ∷ reasons (steps op.components)) st.0.conditions

  announced-outside :
      (st : State S)
      → KeepsConditions op.status_update
      → UniqueReasons st.0.conditions
      → (rs : List String)
      → (failed_outside rs (announced st).0.conditions
          ≡ failed_outside ("ReconcileCycleStatus" ∷ rs) st.0.conditions)
        × UniqueReasons (announced st).0.conditions
  announced-outside st keeps unique rs = rw (announced-conditions st keeps) (
    failed_outside-put_other (in_progress st.1) rs st.0.conditions refl unique,
    put-UniqueReasons (in_progress st.1) st.0.conditions unique,
  )

  run_all-has_failed :
      (st : State S)
      → IsQuiet
      → UniqueReasons st.0.conditions
      → IsOk (run_all op (steps op.components) (announced st)).0
      → has_failed (run_all op (steps op.components) (announced st)).1.0.conditions
        ≡ has_failures st
  run_all-has_failed st quiet unique ran =
      let (before, kept) =
        announced-outside st quiet.status_update unique (reasons (steps op.components)) in
      has_failed-eq _
      ∙ (run_all-failed_outside op (steps op.components) (announced st) quiet.components
          (unfold mem in refl) kept ran).0
      ∙ ap (λ b. any_fails op (steps op.components) (announced st) || b) before

  pub cycle-answer :
      (interval : ℤ) (st : State S)
      → IsQuiet
      → UniqueReasons st.0.conditions
      → interval_of ≡ some interval
      → IsOk (cycle op st).0
      → (cycle op st).0 ≡ ok (answer interval (has_failures st))
  cycle-answer interval st quiet unique parsed h =
      let (ran, whole) = cycle-split st h in
      ap (λ (p : Outcome Result × State S). p.0) whole
      ∙ conclude-answer interval interval_of (run_all op (steps op.components) (announced st)).1
          parsed (subst (λ (p : Outcome Result × State S). IsOk p.0) whole h)
      ∙ ap (λ b. ok (answer interval b)) (run_all-has_failed st quiet unique ran)

module _ {S : Type 0} (op : Operator S) where
  reconcile-fetched :
      (cr : PlatformMonitoring) (s : S)
      → op.fetch s ≡ ok cr
      → (reconcile op s).0 ≡ (cycle op (fill_empty_with_defaults cr, s)).0
  unfolding reconcile reconcile_fetched
  reconcile-fetched cr s found = rw found refl

pub ok-inj : (a b : Result) → ok a ≡ ok b → a ≡ b
ok-inj a b h = ground arith

-- If the custom resource is found, its conditions have different reasons, the components and the
-- status writer leave the conditions alone, and the interval can be parsed, then whenever
-- `Reconcile` returns, it asks for a requeue at once exactly if a component whose failures are
-- recorded failed in this cycle or the status had a failed condition of a reason that no component
-- records; otherwise it asks to be called again after the interval.
pub reconcile_answers :
    {S : Type 0} (op : Operator S) (cr : PlatformMonitoring) (s : S) (interval : ℤ) (r : Result)
    → IsQuiet op
    → op.fetch s ≡ ok cr
    → UniqueReasons cr.conditions
    → parse_int (get_env_with_default_value op.getenv "RECONCILIATION_INTERVAL") ≡ some interval
    → (reconcile op s).0 ≡ ok r
    → r ≡ answer op interval (has_failures op (fill_empty_with_defaults cr, s))
reconcile_answers op cr s interval r quiet found unique parsed returned =
    let same = reconcile-fetched op cr s found in
    let answers =
      cycle-answer op interval (fill_empty_with_defaults cr, s) quiet
        (unfold fill_empty_with_defaults in unique) parsed (IsOk-ok _ (sym same ∙ returned)) in
    ok-inj r _ (sym returned ∙ same ∙ answers)
