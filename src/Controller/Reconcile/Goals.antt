-- ===== src/Controller/Reconcile/Goals.antt =====
-- What the cluster is like behind a cycle of `Reconcile`, from what each component brings about.
use qubership_monitoring_ope.Prelude.{
  String, ◌≡◌, refl, sym, ap, ◌∙◌, Bool, true, false, ◌||◌, List, [], ◌∷◌, Option, none, some, All,
  arith,
}
use mathlib.Core.Path.{subst}
use qubership_monitoring_ope.Api.{PlatformMonitoring}
use qubership_monitoring_ope.Exec.{Exec, Outcome, err, lift, ok, panic, pure}
use qubership_monitoring_ope.Exec.Rules.{
  Ensures, IsOk, IsOk-ok, Keeps, Keeps-logged, Keeps-pure, Keeps-raise, Keeps-then, then-IsOk,
}
use qubership_monitoring_ope.Utils.Numbers.{ℤ, parse_int}
use qubership_monitoring_ope.Controller.Conditions.{Conditions}
use qubership_monitoring_ope.Controller.Conditions.Rotate.{UniqueReasons}
use qubership_monitoring_ope.Controller.Reconcile.{
  Operator, Result, State, Step, conclude, cycle, finish, forget, get_env_with_default_value,
  has_failed, prepare, record_outcome, reported, run_all, run_step, steps, unreported,
}
use qubership_monitoring_ope.Controller.Reconcile.Outcomes.{any_fails, is_err, run_of}
use qubership_monitoring_ope.Controller.Reconcile.Answer.{
  IsQuiet, announced, answer, cycle-answer, cycle-split, has_failures, interval_of, ok-inj,
}

module _ {S : Type 0} where
  -- The statement is not about the conditions of the custom resource.
  pub record IsBlind (g : State S → Type 0) : Type 0 where
    pub at :
        (cr : PlatformMonitoring) (cs : Conditions) (s : S)
        → g (cr, s)
        → g (record cr { conditions = cs }, s)

  abbrev pub Every : List (State S → Type 0) → State S → Type 0
  Every [] st = Unit
  Every (g ∷ gs) st = g st × Every gs st

  -- Each component whose failures are recorded brings about its goal when it returns no error, and
  -- the components behind it keep that.
  abbrev pub Promises : List (Step S) → List (State S → Type 0) → Type 0
  Promises [] [] = Unit
  Promises [] (g ∷ gs) = ⊥
  Promises (reported reason message run ∷ xs) [] = ⊥
  Promises (reported reason message run ∷ xs) (g ∷ gs) =
      IsBlind g × (Ensures g run × (All (λ x. Keeps g (run_of x)) xs × Promises xs gs))
  Promises (unreported run ∷ xs) gs = Promises xs gs

  Promises-IsBlind :
      (xs : List (Step S)) (gs : List (State S → Type 0)) → Promises xs gs → IsBlind (Every gs)
  Promises-IsBlind [] [] p = record { at = λ cr cs s h. tt }
  Promises-IsBlind [] (g ∷ gs) p = absurd p
  Promises-IsBlind (reported reason message run ∷ xs) [] p = absurd p
  Promises-IsBlind (reported reason message run ∷ xs) (g ∷ gs) p = record {
    at = λ cr cs s h. (p.0.at cr cs s h.0, (Promises-IsBlind xs gs p.1.1.1).at cr cs s h.1);
  }
  Promises-IsBlind (unreported run ∷ xs) gs p = Promises-IsBlind xs gs p

  module _ (op : Operator S) (g : State S → Type 0) (blind : IsBlind g) where
    forget-Keeps : (reason : String) → Keeps g (forget op reason)
    unfolding forget
    forget-Keeps reason = record { at = λ st h. blind.at st.0 _ st.1 h }

    prepare-Keeps :
        (type status reason message : String) → Keeps g (prepare op type status reason message)
    unfolding prepare
    prepare-Keeps type status reason message = record { at = λ st h. blind.at st.0 _ st.1 h }

    record_outcome-Keeps :
        (reason message : String) (o : Outcome (Unit {0}))
        → Keeps g (record_outcome op reason message o)
    unfolding record_outcome lift
    record_outcome-Keeps reason message (ok a) = forget-Keeps reason
    record_outcome-Keeps reason message (err e) =
        Keeps-then (prepare-Keeps "Failed" "False" reason message) (Keeps-pure tt)
    record_outcome-Keeps reason message panic = record { at = λ st h. h }

    run_step-Keeps : (x : Step S) → Keeps g (run_of x) → Keeps g (run_step op x)
    unfolding run_step
    run_step-Keeps (reported reason message run) k = record {
      at = λ st h. (record_outcome-Keeps reason message (run st).0).at (run st).1 (k.at st h);
    }
    run_step-Keeps (unreported run) k = record { at = (Keeps-logged k).at }

    run_all-Keeps :
        (xs : List (Step S)) → All (λ x. Keeps g (run_of x)) xs → Keeps g (run_all op xs)
    unfolding run_all
    run_all-Keeps [] k = Keeps-pure tt
    run_all-Keeps (x ∷ xs) k = Keeps-then (run_step-Keeps x k.0) (run_all-Keeps xs k.1)

    finish-Keeps :
        Keeps g op.status_update → (interval : ℤ) (b : Bool) → Keeps g (finish op interval b)
    unfolding finish
    finish-Keeps k interval true =
        Keeps-then (prepare-Keeps _ _ _ _) (Keeps-then (Keeps-logged k) (Keeps-pure _))
    finish-Keeps k interval false =
        Keeps-then (prepare-Keeps _ _ _ _) (Keeps-then (Keeps-logged k) (Keeps-pure _))

    conclude-Keeps : Keeps g op.status_update → (o : Option ℤ) → Keeps g (conclude op o)
    unfolding conclude
    conclude-Keeps k none = record { at = (Keeps-raise _).at }
    conclude-Keeps k (some interval) = record {
      at = λ st h. (finish-Keeps k interval (has_failed st.0.conditions)).at st h;
    }

    reached :
        (reason message : String) (o : Outcome (Unit {0})) (st : State S)
        → (IsOk o → g st)
        → is_err o ≡ false
        → IsOk (record_outcome op reason message o st).0
        → g (record_outcome op reason message o st).1
    unfolding record_outcome lift
    reached reason message (ok a) st there h returned = (forget-Keeps reason).at st (there tt)
    reached reason message (err e) st there h returned = cc
    reached reason message panic st there h returned = absurd returned

    run_step-reaches :
        (reason message : String) (run : Exec (State S) (Unit {0})) (st : State S)
        → Ensures g run
        → is_err (run st).0 ≡ false
        → IsOk (run_step op (reported reason message run) st).0
        → g (run_step op (reported reason message run) st).1
    unfolding run_step
    run_step-reaches reason message run st ensures =
        reached reason message (run st).0 (run st).1 (ensures.at st)

  module _ (op : Operator S) where
    run_all-Every :
        (xs : List (Step S)) (gs : List (State S → Type 0))
        → Promises xs gs
        → (st : State S) → any_fails op xs st ≡ false
        → IsOk (run_all op xs st).0
        → Every gs (run_all op xs st).1
    unfolding run_all any_fails pure
    run_all-Every [] [] p st none_fails returned = tt
    run_all-Every [] (g ∷ gs) p st none_fails returned = absurd p
    run_all-Every (reported reason message run ∷ xs) [] p st none_fails returned = absurd p
    run_all-Every (reported reason message run ∷ xs) (g ∷ gs) p st none_fails returned =
        let step = run_step op (reported reason message run) in
        let (here, rest) = then-IsOk step (run_all op xs) st returned in
        rw rest (
          (run_all-Keeps op g p.0 xs p.1.1.0).at (step st).1
              (run_step-reaches op g p.0 reason message run st p.1.0 (ground arith) here),
          run_all-Every xs gs p.1.1.1 (step st).1 (ground arith)
              (subst (λ (q : Outcome (Unit {0}) × State S). IsOk q.0) rest returned),
        )
    run_all-Every (unreported run ∷ xs) gs p st none_fails returned =
        let (here, rest) = then-IsOk (run_step op (unreported run)) (run_all op xs) st returned in
        rw rest (
          run_all-Every xs gs p (run_step op (unreported run) st).1 none_fails
            (subst (λ (q : Outcome (Unit {0}) × State S). IsOk q.0) rest returned))

or_left_false : (a b : Bool) → (a || b) ≡ false → a ≡ false
or_left_false a b h = ground arith

no_failures :
    {S : Type 0} (op : Operator S) (interval : ℤ) (b : Bool)
    → (answer op interval b).requeue ≡ false
    → b ≡ false
no_failures op interval true h = cc
no_failures op interval false h = refl

Keeps-Every :
    {S : Type 0} (gs : List (State S → Type 0)) (m : Exec (State S) (Unit {0}))
    → All (λ g. Keeps g m) gs
    → Keeps (Every gs) m
Keeps-Every [] m k = record { at = λ st h. tt }
Keeps-Every (g ∷ gs) m k = record { at = λ st h. (k.0.at st h.0, (Keeps-Every gs m k.1).at st h.1) }

-- If the conditions have different reasons, the components and the status writer leave them alone,
-- the interval can be parsed, each component whose failures are recorded brings about its goal when
-- it returns no error, the components behind it and the status writer keep that, and the goals do
-- not read the conditions, then a cycle of `Reconcile` that returns and does not ask for a requeue
-- at once leaves a cluster with all goals.
pub cycle_reaches_goals :
    {S : Type 0} (op : Operator S) (gs : List (State S → Type 0)) (st : State S) (interval : ℤ)
    (r : Result)
    → IsQuiet op
    → UniqueReasons st.0.conditions
    → parse_int (get_env_with_default_value op.getenv "RECONCILIATION_INTERVAL") ≡ some interval
    → Promises (steps op.components) gs
    → All (λ g. Keeps g op.status_update) gs
    → (cycle op st).0 ≡ ok r
    → r.requeue ≡ false
    → Every gs (cycle op st).1
cycle_reaches_goals op gs st interval r quiet unique parsed promises writer returned calm =
    let whole = IsOk-ok _ returned in
    let answers = cycle-answer op interval st quiet unique parsed whole in
    let same : r ≡ answer op interval (has_failures op st) = ok-inj _ _ (sym returned ∙ answers) in
    let none_fail =
      no_failures op interval (has_failures op st)
        (ap (λ (q : Result). q.requeue) (sym same) ∙ calm) in
    let (ran, split) = cycle-split op st whole in
    rw split (
      (conclude-Keeps op (Every gs) (Promises-IsBlind (steps op.components) gs promises)
          (Keeps-Every gs op.status_update writer) (interval_of op)).at
        _
        (run_all-Every op (steps op.components) gs promises (announced op st)
          (or_left_false _ _ none_fail) ran))
