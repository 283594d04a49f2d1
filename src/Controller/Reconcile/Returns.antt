-- ===== src/Controller/Reconcile/Returns.antt =====
-- `Reconcile` comes to an answer.
use qubership_monitoring_ope.Prelude.{
  ◌≡◌, String, Bool, true, false, List, [], ◌∷◌, Option, none, some, All, if◌then◌else◌,
}
use qubership_monitoring_ope.Api.{PlatformMonitoring}
use qubership_monitoring_ope.Api.Defaults.{fill_empty_with_defaults}
use qubership_monitoring_ope.Exec.{
  Exec, Outcome, continue, err, logged, ok, panic, pure, swallow, ◌>>=◌, ◌>>◌,
}
use qubership_monitoring_ope.Exec.Rules.{IsOk}
use qubership_monitoring_ope.Utils.Numbers.{ℤ, parse_int}
use qubership_monitoring_ope.Controller.Reconcile.{
  Operator, State, Step, conclude, cycle, finish, forget, get_env_with_default_value, has_failed,
  prepare, reconcile, reconcile_fetched, record_outcome, reported, run_all, run_step, steps,
  unreported, update_status,
}
use qubership_monitoring_ope.Controller.Reconcile.Outcomes.{run_of}

abbrev pub IsCalm {ℓ} : {A : Type ℓ} → Outcome A → Type 0
IsCalm (ok a) = Unit
IsCalm (err e) = Unit
IsCalm panic = ⊥

-- The action answers, with an error or none, and does not panic.
pub record NeverPanics {S A : Type 0} (m : Exec S A) : Type 0 where
  pub at : (s : S) → IsCalm (m s).0

module _ {S : Type 0} where
  logged-IsOk : (m : Exec S (Unit {0})) → NeverPanics m → (s : S) → IsOk (logged m s).0
  unfolding logged swallow
  logged-IsOk m calm s = swallow-IsOk (m s).0 (calm.at s)
    where
      swallow-IsOk : (o : Outcome (Unit {0})) → IsCalm o → IsOk (swallow o)
      swallow-IsOk (ok a) h = tt
      swallow-IsOk (err e) h = tt
      swallow-IsOk panic h = h

module _ {S A B : Type 0} where
  then-returns :
      (m : Exec S A) (k : Exec S B) (s : S)
      → IsOk (m s).0
      → ((t : S) → IsOk (k t).0)
      → IsOk ((m >> k) s).0
  unfolding ◌>>◌ ◌>>=◌ continue
  then-returns m k s here later = go (m s).0 (m s).1 here
    where
      go : (o : Outcome A) (t : S) → IsOk o → IsOk (continue o (λ _. k) t).0
      go (ok a) t h = later t
      go (err e) t h = absurd h
      go panic t h = absurd h

module _ {S : Type 0} (op : Operator S) where
  chosen-NeverPanics :
      NeverPanics op.status_update
      → (b : Bool) (st : State S) → IsCalm ((if b then op.status_update else pure tt) st).0
  unfolding pure
  chosen-NeverPanics calm true st = calm.at st
  chosen-NeverPanics calm false st = tt

  update_status-NeverPanics :
      NeverPanics op.status_update
      → (type status reason message : String)
      → NeverPanics (update_status op type status reason message)
  unfolding update_status prepare ◌>>=◌ continue
  update_status-NeverPanics calm type status reason message = record {
    at = λ st. chosen-NeverPanics calm _ _;
  }

  record_outcome-IsOk :
      (reason message : String) (o : Outcome (Unit {0})) (st : State S)
      → IsCalm o
      → IsOk (record_outcome op reason message o st).0
  unfolding record_outcome forget prepare ◌>>◌ ◌>>=◌ continue pure
  record_outcome-IsOk reason message (ok a) st h = tt
  record_outcome-IsOk reason message (err e) st h = tt
  record_outcome-IsOk reason message panic st h = absurd h

  run_step-IsOk : (x : Step S) (st : State S) → NeverPanics (run_of x) → IsOk (run_step op x st).0
  unfolding run_step
  run_step-IsOk (reported reason message run) st calm =
      record_outcome-IsOk reason message (run st).0 (run st).1 (calm.at st)
  run_step-IsOk (unreported run) st calm = logged-IsOk run calm st

  run_all-IsOk :
      (xs : List (Step S)) (st : State S)
      → All (λ x. NeverPanics (run_of x)) xs
      → IsOk (run_all op xs st).0
  unfolding run_all pure
  run_all-IsOk [] st calm = tt
  run_all-IsOk (x ∷ xs) st calm =
      then-returns (run_step op x) (run_all op xs) st (run_step-IsOk x st calm.0)
        λ t. run_all-IsOk xs t calm.1

  finish-IsOk :
      NeverPanics op.status_update
      → (interval : ℤ) (b : Bool) (st : State S) → IsOk (finish op interval b st).0
  unfolding finish prepare pure
  finish-IsOk calm interval true st =
      then-returns _ _ st tt λ t. then-returns _ _ t (logged-IsOk op.status_update calm t) λ u. tt
  finish-IsOk calm interval false st =
      then-returns _ _ st tt λ t. then-returns _ _ t (logged-IsOk op.status_update calm t) λ u. tt

  conclude-IsOk :
      NeverPanics op.status_update
      → (interval : ℤ) (o : Option ℤ) (st : State S) → o ≡ some interval
      → IsOk (conclude op o st).0
  unfolding conclude
  conclude-IsOk calm interval none st h = cc
  conclude-IsOk calm interval (some n) st h = finish-IsOk calm n (has_failed st.0.conditions) st

  cycle-IsOk :
      NeverPanics op.status_update
      → All (λ x. NeverPanics (run_of x)) (steps op.components)
      → (interval : ℤ)
      → parse_int (get_env_with_default_value op.getenv "RECONCILIATION_INTERVAL") ≡ some interval
      → (st : State S) → IsOk (cycle op st).0
  unfolding cycle
  cycle-IsOk calm calms interval parsed st =
      then-returns _ _ st
        (logged-IsOk _
          (update_status-NeverPanics calm "In progress" "False" "ReconcileCycleStatus"
            "Monitoring service reconcile cycle in progress")
          st)
        λ t.
          then-returns (run_all op (steps op.components)) _ t
            (run_all-IsOk (steps op.components) t calms) λ u. conclude-IsOk calm interval _ u parsed

-- `Reconcile` of a custom resource that is found returns no error, whatever errors the components
-- and the status writer return, if none of them panics and the interval can be parsed.
pub reconcile_returns :
    {S : Type 0} (op : Operator S) (cr : PlatformMonitoring) (s : S) (interval : ℤ)
    → NeverPanics op.status_update
    → All (λ x. NeverPanics (run_of x)) (steps op.components)
    → op.fetch s ≡ ok cr
    → parse_int (get_env_with_default_value op.getenv "RECONCILIATION_INTERVAL") ≡ some interval
    → IsOk (reconcile op s).0
unfolding reconcile reconcile_fetched
reconcile_returns op cr s interval calm calms found parsed =
    rw found (cycle-IsOk op calm calms interval parsed (fill_empty_with_defaults cr, s))
