-- ===== src/Controller/Reconcile.antt =====
-- controllers/platformmonitoring_controller.go: `Reconcile`, `updateStatus` and
-- `ignoreDeletionPredicate`, and controllers/utils/env.go. The components' `Run` methods, the status
-- writer of the client, the clock and the process environment are parameters.
pub mod Failures
pub mod Outcomes
pub mod Answer
pub mod Returns
pub mod Goals
pub mod Unique
use qubership_monitoring_ope.Prelude.{
  ℕ, zero, suc, ◌+◌, ◌-◌, ◌*◌, ◌/◌, ◌%◌, ◌^◌, String, Bool, true, false, not, ◌||◌, List, [], ◌∷◌,
  Option, none, some, str_eq, ◌==◌, if◌then◌else◌,
}
use qubership_monitoring_ope.Prelude.Text.{Bytes, bytes, is_empty}
use qubership_monitoring_ope.Api.{PlatformMonitoring, PlatformMonitoringCondition}
use qubership_monitoring_ope.Api.Defaults.{fill_empty_with_defaults}
use qubership_monitoring_ope.Exec.{
  Error, Exec, Outcome, err, is_not_found, lift, logged, ok, panic, pure, raise, ◌>>=◌, ◌>>◌,
}
use qubership_monitoring_ope.Utils.Numbers.{ℤ, negsuc, parse_int, pos}
use qubership_monitoring_ope.Utils.Discovery.{conversion_error}
use qubership_monitoring_ope.Controller.Conditions.{
  Conditions, prepare_status_for_update, remove_status,
}

-- The custom resource that `Reconcile` holds, which the components may change, and the rest.
abbrev pub State : Type 0 → Type 0
State S = PlatformMonitoring × S

-- A call of `Run`: with the reason and the message under which a failure is recorded, or one whose
-- failure is only logged.
pub data Step (S : Type 0) : Type 0 where
  reported : String → String → Exec (State S) (Unit {0}) → Step S
  unreported : Exec (State S) (Unit {0}) → Step S

-- The `Run` methods of the component reconcilers.
pub record Components (S : Type 0) : Type 0 where
  pub prometheus_operator : Exec (State S) (Unit {0})
  pub etcd : Exec (State S) (Unit {0})
  pub kubernetes_monitors : Exec (State S) (Unit {0})
  pub vm_operator : Exec (State S) (Unit {0})
  pub vm_single : Exec (State S) (Unit {0})
  pub vm_cluster : Exec (State S) (Unit {0})
  pub vm_user : Exec (State S) (Unit {0})
  pub vm_agent : Exec (State S) (Unit {0})
  pub vm_auth : Exec (State S) (Unit {0})
  pub prometheus : Exec (State S) (Unit {0})
  pub vm_alert_manager : Exec (State S) (Unit {0})
  pub alert_manager : Exec (State S) (Unit {0})
  pub vm_alert : Exec (State S) (Unit {0})
  pub kube_state_metrics : Exec (State S) (Unit {0})
  pub node_exporter : Exec (State S) (Unit {0})
  pub grafana_operator : Exec (State S) (Unit {0})
  pub grafana : Exec (State S) (Unit {0})
  pub prometheus_rules : Exec (State S) (Unit {0})
  pub pushgateway : Exec (State S) (Unit {0})

-- `Client.Get` of the requested name, `Client.Status().Update` of the held resource,
-- `metav1.Now().String()` and `os.Getenv`.
pub record Operator (S : Type 0) : Type 0 where
  pub fetch : S → Outcome PlatformMonitoring
  pub status_update : Exec (State S) (Unit {0})
  pub now : S → String
  pub getenv : String → Bytes
  pub components : Components S

-- The calls in the order of `Reconcile`.
abbrev pub steps : {S : Type 0} → Components S → List (Step S)
steps c =
    reported "ReconcilePrometheusOperatorStatus" "Prometheus operator reconcile cycle failed"
      c.prometheus_operator
    ∷ unreported c.etcd
    ∷ unreported c.kubernetes_monitors
    ∷ reported "ReconcileVictoriametricsOperatorStatus"
        "Victoriametrics operator reconcile cycle failed" c.vm_operator
    ∷ reported "ReconcileVictoriametricsSingleStatus"
        "Victoriametrics Single reconcile cycle failed" c.vm_single
    ∷ reported "ReconcileVictoriametricsClusterStatus"
        "Victoriametrics Cluster reconcile cycle failed" c.vm_cluster
    ∷ reported "ReconcileVictoriametricsUserStatus" "Victoriametrics User reconcile cycle failed"
        c.vm_user
    ∷ reported "ReconcileVictoriametricsAgentStatus" "Victoriametrics Agent reconcile cycle failed"
        c.vm_agent
    ∷ reported "ReconcileVictoriametricsAuthStatus" "Victoriametrics Auth reconcile cycle failed"
        c.vm_auth
    ∷ reported "ReconcilePrometheusStatus" "Prometheus reconcile cycle failed" c.prometheus
    ∷ reported "ReconcileVictoriametricsAlertManagerStatus"
        "Victoriametrics Alert Manager reconcile cycle failed" c.vm_alert_manager
    ∷ reported "ReconcileAlertManagerStatus" "AlertManager reconcile cycle failed" c.alert_manager
    ∷ reported "ReconcileVictoriametricsAlertStatus" "Victoriametrics Alert reconcile cycle failed"
        c.vm_alert
    ∷ reported "ReconcileKubeStateMetricsStatus" "KubeStateMetrics reconcile cycle failed"
        c.kube_state_metrics
    ∷ reported "ReconcileNodeExporterStatus" "NodeExporter reconcile cycle failed" c.node_exporter
    ∷ reported "ReconcileGrafanaOperatorStatus" "Grafana operator reconcile cycle failed"
        c.grafana_operator
    ∷ reported "ReconcileGrafanaStatus" "Grafana reconcile cycle failed" c.grafana
    ∷ reported "ReconcilePrometheusRulesStatus" "Prometheus Rules reconcile cycle failed"
        c.prometheus_rules
    ∷ reported "ReconcilePushgatewayStatus" "Pushgateway reconcile cycle failed" c.pushgateway
    ∷ []

-- ctrl.Result; `requeue_after` is the 64-bit pattern of the duration in nanoseconds.
pub record Result : Type 0 where
  pub requeue : Bool
  pub requeue_after : ℕ

-- controllers/utils/env.go; the map of defaults has one key.
unfoldable pub get_env_with_default_value : (String → Bytes) → String → Bytes
get_env_with_default_value getenv key =
    if is_empty (getenv key)
    then (if str_eq key "RECONCILIATION_INTERVAL" then bytes "60" else [])
    else getenv key

-- The 64-bit pattern of an `int64`.
unfoldable pub pattern_of : ℤ → ℕ
pattern_of (pos n) = n % 2 ^ 64
pattern_of (negsuc n) = (2 ^ 64 - suc n) % 2 ^ 64

-- `time.Duration(n) * time.Second`, which wraps around.
unfoldable pub duration : ℤ → ℕ
unfolding pattern_of
duration n = (pattern_of n * 1000000000) % 2 ^ 64

-- The loop over the conditions.
unfoldable pub has_failed : Conditions → Bool
has_failed [] = false
has_failed (c ∷ cs) = str_eq c.type "Failed" || has_failed cs

module _ {S : Type 0} (op : Operator S) where
  -- `prepareStatusForUpdate` on the resource, at the time of the call.
  unfoldable pub prepare : String → String → String → String → Exec (State S) Bool
  prepare type status reason message (cr, s) =
      let (cs, changed) = prepare_status_for_update cr.conditions (record {
        type = type;
        status = status;
        reason = reason;
        message = message;
        last_transition_time = op.now s;
      }) in
      (ok changed, (record cr { conditions = cs }, s))

  unfoldable pub update_status : String → String → String → String → Exec (State S) (Unit {0})
  unfolding prepare
  update_status type status reason message = do
    changed ← prepare type status reason message
    if changed then op.status_update else pure tt

  -- `removeStatus` on the resource.
  unfoldable pub forget : String → Exec (State S) (Unit {0})
  forget reason (cr, s) =
      (ok tt, (record cr { conditions = (remove_status cr.conditions reason).0 }, s))

  -- What follows a call of `Run`, on its error.
  unfoldable pub record_outcome : String → String → Outcome (Unit {0}) → Exec (State S) (Unit {0})
  unfolding prepare forget
  record_outcome reason message (ok done) = forget reason
  record_outcome reason message (err e) = do prepare "Failed" "False" reason message; pure tt
  record_outcome reason message panic = lift panic

  unfoldable pub run_step : Step S → Exec (State S) (Unit {0})
  unfolding record_outcome
  run_step (reported reason message run) st = record_outcome reason message (run st).0 (run st).1
  run_step (unreported run) st = logged run st

  unfoldable pub run_all : List (Step S) → Exec (State S) (Unit {0})
  unfolding run_step
  run_all [] = pure tt
  run_all (x ∷ xs) = do run_step x; run_all xs

  -- The end of `Reconcile`, on the condition that it has looked for.
  unfoldable pub finish : ℤ → Bool → Exec (State S) Result
  unfolding prepare
  finish interval true = do
    prepare "Failed" "False" "ReconcileCycleStatus" "Monitoring service reconcile cycle failed"
    logged op.status_update
    pure (record { requeue = true; requeue_after = 0 })
  finish interval false = do
    prepare "Successful" "True" "ReconcileCycleStatus"
        "Monitoring service reconcile cycle succeeded"
    logged op.status_update
    pure (record { requeue = false; requeue_after = duration interval })

  unfoldable pub conclude : Option ℤ → Exec (State S) Result
  unfolding finish
  conclude none st = raise conversion_error st
  conclude (some interval) st = finish interval (has_failed st.0.conditions) st

  -- `Reconcile` from `FillEmptyWithDefaults` on.
  unfoldable pub cycle : Exec (State S) Result
  unfolding conclude
  cycle = do
    logged (
        update_status "In progress" "False" "ReconcileCycleStatus"
          "Monitoring service reconcile cycle in progress")
    run_all (steps op.components)
    conclude (parse_int (get_env_with_default_value op.getenv "RECONCILIATION_INTERVAL"))

  unfoldable pub reconcile_fetched : Outcome PlatformMonitoring → Exec S Result
  reconcile_fetched (ok cr) s = let (r, st) = cycle (fill_empty_with_defaults cr, s) in (r, st.1)
  reconcile_fetched (err e) s =
      if is_not_found e then (ok (record { requeue = false; requeue_after = 0 }), s) else (err e, s)
  reconcile_fetched panic s = (panic, s)

  unfoldable pub reconcile : Exec S Result
  unfolding reconcile_fetched
  reconcile s = reconcile_fetched (op.fetch s) s

-- The events that `ignoreDeletionPredicate` lets through; its other functions are unset, which lets
-- every event through.
unfoldable pub passes_update : PlatformMonitoring → PlatformMonitoring → Bool
passes_update old new = not (old.generation == new.generation)

unfoldable pub passes_delete : Bool → Bool
passes_delete delete_state_unknown = not delete_state_unknown
