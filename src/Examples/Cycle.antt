-- ===== src/Examples/Cycle.antt =====
-- `Reconcile` of a custom resource of which one component fails.
use qubership_monitoring_ope.Prelude.{ℕ, ◌≡◌, refl, true, [], ◌∷◌}
use qubership_monitoring_ope.Api.Defaults.{fill_empty_with_defaults}
use qubership_monitoring_ope.Exec.{
  Exec, Outcome, err, ok, other, continue, lift, logged, pure, swallow, ◌>>=◌, ◌>>◌,
}
use qubership_monitoring_ope.Exec.Rules.{IsOk}
use qubership_monitoring_ope.Utils.Numbers.{in_range, parse_int, pos, read_digits, read_number}
use qubership_monitoring_ope.Controller.Reconcile.{
  Components, Operator, State, get_env_with_default_value, reconcile, reconcile_fetched, cycle,
  update_status, prepare, record_outcome, forget, run_step, run_all, finish, conclude, has_failed,
}
use qubership_monitoring_ope.Controller.Conditions.{
  prepare_status_for_update, get_condition, scan_conditions, is_nil, replace_at, set_condition,
  same_condition, remove_status, remove_at, last_condition, drop_last,
}
use qubership_monitoring_ope.Controller.Reconcile.Outcomes.{KeepsConditions}
use qubership_monitoring_ope.Controller.Reconcile.Answer.{
  IsQuiet, answer, has_failures, reconcile_answers,
}
use qubership_monitoring_ope.Controller.Reconcile.Returns.{NeverPanics, reconcile_returns}
use qubership_monitoring_ope.Examples.World.{no_sections}
use qubership_monitoring_ope.Api.{PlatformMonitoring}
use qubership_monitoring_ope.Controller.Conditions.Rotate.{UniqueReasons, find_reason}
use qubership_monitoring_ope.Controller.Reconcile.Unique.{cycle_keeps_reasons_unique}

-- A component that changes nothing and answers `o`.
abbrev answers : Outcome (Unit {0}) → Exec (State ℕ) (Unit {0})
answers o st = (o, st)

abbrev failure : Outcome (Unit {0})
failure = err (record { reason = other; message = "no route to host" })

abbrev components : Components ℕ
components = record {
  prometheus_operator = answers (ok tt);
  etcd = answers failure;
  kubernetes_monitors = answers (ok tt);
  vm_operator = answers (ok tt);
  vm_single = answers (ok tt);
  vm_cluster = answers (ok tt);
  vm_user = answers (ok tt);
  vm_agent = answers (ok tt);
  vm_auth = answers (ok tt);
  prometheus = answers (ok tt);
  vm_alert_manager = answers (ok tt);
  alert_manager = answers (ok tt);
  vm_alert = answers (ok tt);
  kube_state_metrics = answers (ok tt);
  node_exporter = answers (ok tt);
  grafana_operator = answers (ok tt);
  grafana = answers (ok tt);
  prometheus_rules = answers (ok tt);
  pushgateway = answers failure;
}

abbrev operator : Operator ℕ
operator = record {
  fetch = λ s. ok no_sections;
  status_update = answers (ok tt);
  now = λ s. "2024-01-01 00:00:00 +0000 UTC";
  getenv = λ key. [];
  components = components;
}

quiet : (o : Outcome (Unit {0})) → KeepsConditions (answers o)
quiet o = record { at = λ st. refl }

calm : NeverPanics (answers (ok tt))
calm = record { at = λ st. tt }

calm_failure : NeverPanics (answers failure)
calm_failure = record { at = λ st. tt }

operator-IsQuiet : IsQuiet operator
operator-IsQuiet = record {
  status_update = quiet (ok tt);
  components = (
    quiet (ok tt),
    (
      quiet failure,
      (
        quiet (ok tt),
        (
          quiet (ok tt),
          (
            quiet (ok tt),
            (
              quiet (ok tt),
              (
                quiet (ok tt),
                (
                  quiet (ok tt),
                  (
                    quiet (ok tt),
                    (
                      quiet (ok tt),
                      (
                        quiet (ok tt),
                        (
                          quiet (ok tt),
                          (
                            quiet (ok tt),
                            (
                              quiet (ok tt),
                              (
                                quiet (ok tt),
                                (
                                  quiet (ok tt),
                                  (quiet (ok tt), (quiet (ok tt), (quiet failure, tt))),
                                ),
                              ),
                            ),
                          ),
                        ),
                      ),
                    ),
                  ),
                ),
              ),
            ),
          ),
        ),
      ),
    ),
  );
}

reconcile_returns_example : IsOk (reconcile operator 0).0
reconcile_returns_example =
    reconcile_returns operator no_sections 0 (pos 60) calm
      (
        calm,
        (
          calm_failure,
          (
            calm,
            (
              calm,
              (
                calm,
                (
                  calm,
                  (
                    calm,
                    (
                      calm,
                      (
                        calm,
                        (
                          calm,
                          (
                            calm,
                            (
                              calm,
                              (calm, (calm, (calm, (calm, (calm, (calm, (calm_failure, tt))))))),
                            ),
                          ),
                        ),
                      ),
                    ),
                  ),
                ),
              ),
            ),
          ),
        ),
      )
      refl (unfold get_env_with_default_value parse_int read_number read_digits in_range in refl)

reconcile_answers_example :
    record { requeue = true; requeue_after = 0 }
    ≡ answer operator (pos 60) (has_failures operator (fill_empty_with_defaults no_sections, 0))
unfolding reconcile reconcile_fetched cycle update_status prepare record_outcome forget run_step
    run_all finish conclude has_failed get_env_with_default_value prepare_status_for_update
    get_condition scan_conditions is_nil replace_at set_condition same_condition remove_status
    remove_at last_condition drop_last parse_int read_number read_digits in_range ◌>>◌ ◌>>=◌
    continue pure lift logged swallow fill_empty_with_defaults
reconcile_answers_example =
    reconcile_answers operator no_sections 0 (pos 60) (record { requeue = true; requeue_after = 0 })
      operator-IsQuiet refl tt refl refl

-- A status of a former cycle.
abbrev reconciled : PlatformMonitoring
reconciled = record no_sections {
  conditions =
      record {
        type = "Successful";
        status = "True";
        reason = "ReconcileCycleStatus";
        message = "Monitoring service reconcile cycle succeeded";
        last_transition_time = "2023-12-31 00:00:00 +0000 UTC";
      }
      ∷ record {
        type = "Failed";
        status = "False";
        reason = "ReconcilePrometheusStatus";
        message = "Prometheus reconcile cycle failed";
        last_transition_time = "2023-12-31 00:00:00 +0000 UTC";
      }
      ∷ [];
}

cycle_keeps_reasons_unique_example : UniqueReasons (cycle operator (reconciled, 0)).1.0.conditions
cycle_keeps_reasons_unique_example =
    cycle_keeps_reasons_unique operator operator-IsQuiet (reconciled, 0)
      (unfold find_reason in (refl, (refl, tt)))
