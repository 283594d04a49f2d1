-- ===== src/Examples/GoalsRun.antt =====
-- A cycle of `Reconcile` that installs the pushgateway on the small cluster; the other components
-- have nothing to do.
use qubership_monitoring_ope.Prelude.{
  ℕ, zero, suc, ◌≡◌, refl, true, false, some, List, ◌∷◌, All, [],
}
use qubership_monitoring_ope.Api.{Pushgateway}
use qubership_monitoring_ope.Api.Install.{
  installs_pushgateway, installs_ingress, installs_monitor, wants_ingress, wants_monitor,
  set_or_false, unset_or_true,
}
use qubership_monitoring_ope.Exec.{
  Exec, Outcome, ok, err, panic, ◌>>◌, ◌>>=◌, continue, pure, lift, call, logged, swallow, raise,
  is_not_found,
}
use qubership_monitoring_ope.Exec.Rules.{Ensures, IsOk, Keeps}
use qubership_monitoring_ope.Cluster.{Object}
use qubership_monitoring_ope.Cluster.Memory.{
  read, create_in, update_in, delete_in, created, updated, deleted,
}
use qubership_monitoring_ope.Cluster.Memory
use qubership_monitoring_ope.Utils.Numbers.{in_range, parse_int, pos, read_digits, read_number}
use qubership_monitoring_ope.Utils.Discovery.{
  has_api, has_ingress_v1_api, has_ingress_v1beta1_api, resource_exists, find_api, has_kind,
  has_pod_security_policy_api, has_security_context_constraints_api,
}
use qubership_monitoring_ope.Reconciler.{
  create_or_update, create_if_missing, create_resource, delete_if_found, delete_resource, store,
  keep, discard, adopt, owned, set_reference,
}
use qubership_monitoring_ope.Reconciler.Merge.{
  and_then, set_standard_labels, set_instance_labels, with_labels,
}
use qubership_monitoring_ope.Reconciler.Shapes.{standard_labels_from, instance_labels_from}
use qubership_monitoring_ope.Controller.Reconcile.{
  Operator, State, Step, conclude, cycle, duration, finish, forget, get_env_with_default_value,
  has_failed, prepare, record_outcome, run_all, run_step, steps, update_status,
}
use qubership_monitoring_ope.Controller.Conditions.{
  prepare_status_for_update, get_condition, scan_conditions, is_nil, replace_at, set_condition,
  same_condition, remove_status, remove_at, last_condition, drop_last,
}
use qubership_monitoring_ope.Controller.Reconcile.Outcomes.{KeepsConditions, run_of}
use qubership_monitoring_ope.Controller.Reconcile.Answer.{IsQuiet}
use qubership_monitoring_ope.Controller.Reconcile.Goals.{
  Every, IsBlind, Promises, cycle_reaches_goals,
}
use qubership_monitoring_ope.Pushgateway.{
  handle_deployment, handle_ingress_v1, handle_ingress_v1beta1, handle_pvc, handle_service,
  handle_service_monitor, install, run, run_section, wants, delete_ingress_v1beta1,
  delete_ingress_v1, delete_service_monitor,
}
use qubership_monitoring_ope.Pushgateway.Runs.{Installed, converges_pushgateway}
use qubership_monitoring_ope.Examples.World.{env, env-IsLawfulEnv}
use qubership_monitoring_ope.Examples.PushgatewayRun.{manifests, manifests-IsKinded, wanted}

abbrev Here : Type 0
Here = State (List (Object ℕ))

abbrev idle : Exec Here (Unit {0})
idle st = (ok tt, st)

-- `Run` of the pushgateway on the resource that `Reconcile` holds.
abbrev run_pushgateway : Exec Here (Unit {0})
run_pushgateway (cr, s) = let (o, t) = run env manifests cr s in (o, (cr, t))

abbrev operator : Operator (List (Object ℕ))
operator = record {
  fetch = λ s. ok wanted;
  status_update = idle;
  now = λ s. "2024-01-01 00:00:00 +0000 UTC";
  getenv = λ key. [];
  components = record {
    prometheus_operator = idle;
    etcd = idle;
    kubernetes_monitors = idle;
    vm_operator = idle;
    vm_single = idle;
    vm_cluster = idle;
    vm_user = idle;
    vm_agent = idle;
    vm_auth = idle;
    prometheus = idle;
    vm_alert_manager = idle;
    alert_manager = idle;
    vm_alert = idle;
    kube_state_metrics = idle;
    node_exporter = idle;
    grafana_operator = idle;
    grafana = idle;
    prometheus_rules = idle;
    pushgateway = run_pushgateway;
  };
}

-- Where the section asks for it, the pushgateway is installed.
abbrev PushgatewayThere : Here → Type 0
PushgatewayThere (cr, s) =
    (p : Pushgateway)
    → cr.spec.pushgateway ≡ some p
    → wants p ≡ true
    → p.paused ≡ false
    → Installed env manifests cr p s

abbrev Nothing : Here → Type 0
Nothing st = Unit

abbrev goals : List (Here → Type 0)
goals =
    Nothing ∷ Nothing ∷ Nothing ∷ Nothing ∷ Nothing ∷ Nothing ∷ Nothing ∷ Nothing ∷ Nothing
    ∷ Nothing ∷ Nothing ∷ Nothing ∷ Nothing ∷ Nothing ∷ Nothing ∷ Nothing ∷ PushgatewayThere ∷ []

quiet : KeepsConditions idle
quiet = record { at = λ st. refl }

pushgateway-KeepsConditions : KeepsConditions run_pushgateway
pushgateway-KeepsConditions = record { at = λ st. refl }

quietly : {P : Type 0} → P → KeepsConditions idle × P
quietly p = (record { at = λ st. refl }, p)

kept : {P : Type 0} → P → Keeps Nothing idle × P
kept p = (record { at = λ st h. tt }, p)

operator-IsQuiet : IsQuiet operator
operator-IsQuiet = record {
  status_update = quiet;
  components =
      (quietly (
        quietly (
          quietly (
            quietly (
              quietly (
                quietly (
                  quietly (
                    quietly (
                      quietly (
                        quietly (
                          quietly (
                            quietly (
                              quietly (
                                quietly (
                                  quietly (
                                    quietly (
                                      quietly (
                                        quietly (pushgateway-KeepsConditions, tt)))))))))))))))))));
}

idle-IsBlind : IsBlind Nothing
idle-IsBlind = record { at = λ cr cs s h. tt }

idle-Ensures : Ensures Nothing idle
idle-Ensures = record { at = λ st h. tt }

idle-Keeps : (xs : List (Step (List (Object ℕ)))) → All (λ x. Keeps Nothing (run_of x)) xs
idle-Keeps [] = tt
idle-Keeps (x ∷ xs) = (record { at = λ st h. tt }, idle-Keeps xs)

-- The list behind its first elements.
abbrev behind : {A : Type 0} → ℕ → List A → List A
behind zero xs = xs
behind (suc n) [] = []
behind (suc n) (x ∷ xs) = behind n xs

idly :
    {P : Type 0} (n : ℕ)
    → P
    → IsBlind Nothing
      × (Ensures Nothing idle
          × (All (λ x. Keeps Nothing (run_of x)) (behind n (steps operator.components)) × P))
idly n p = (idle-IsBlind, (idle-Ensures, (idle-Keeps (behind n (steps operator.components)), p)))

PushgatewayThere-IsBlind : IsBlind PushgatewayThere
PushgatewayThere-IsBlind = record {
  at = λ cr cs s h p section wanted active.
      let there = h p section wanted active in
      record {
        service = record {
          object = there.service.object;
          built = there.service.built;
          converged = there.service.converged;
        };
        pvc = there.pvc;
        deployment = there.deployment;
        ingress_v1beta1 = there.ingress_v1beta1;
        ingress_v1 = there.ingress_v1;
        service_monitor = there.service_monitor;
      };
}

returned : (o : Outcome (Unit {0})) → IsOk o → o ≡ ok tt
returned (ok a) h = refl
returned (err e) h = absurd h
returned panic h = absurd h

run_pushgateway-Ensures : Ensures PushgatewayThere run_pushgateway
run_pushgateway-Ensures = record {
  at = λ st h p section wanted active.
      converges_pushgateway env manifests st.0 env-IsLawfulEnv (manifests-IsKinded st.0) p section
        wanted active st.1 (returned (run env manifests st.0 st.1).0 h);
}

promises : Promises (steps operator.components) goals
promises = idly 1 (
    idly 4 (
      idly 5 (
        idly 6 (
          idly 7 (
            idly 8 (
              idly 9 (
                idly 10 (
                  idly 11 (
                    idly 12 (
                      idly 13 (
                        idly 14 (
                          idly 15 (
                            idly 16 (
                              idly 17 (
                                idly 18 (
                                  (
                                    PushgatewayThere-IsBlind,
                                    (run_pushgateway-Ensures, (tt, tt)),
                                  )))))))))))))))))

cycle_reaches_goals_example : Every goals (cycle operator (wanted, [])).1
unfolding cycle update_status prepare record_outcome forget run_step run_all finish conclude
    has_failed get_env_with_default_value prepare_status_for_update get_condition scan_conditions
    is_nil replace_at set_condition same_condition remove_status remove_at last_condition drop_last
    parse_int read_number read_digits in_range swallow run run_section install handle_deployment
    handle_pvc handle_service handle_ingress_v1beta1 handle_ingress_v1 handle_service_monitor
    delete_ingress_v1beta1 delete_ingress_v1 delete_service_monitor ◌>>◌ ◌>>=◌ continue pure lift
    call logged raise is_not_found create_or_update create_if_missing create_resource
    delete_if_found delete_resource store keep discard adopt owned set_reference and_then
    set_standard_labels set_instance_labels with_labels standard_labels_from instance_labels_from
    read create_in update_in delete_in Memory.answer created updated deleted has_api
    has_ingress_v1_api has_ingress_v1beta1_api resource_exists find_api has_kind
    has_pod_security_policy_api has_security_context_constraints_api installs_pushgateway
    wants_ingress wants_monitor installs_ingress installs_monitor set_or_false unset_or_true
    duration
cycle_reaches_goals_example =
    cycle_reaches_goals operator goals (wanted, []) (pos 60)
      (record { requeue = false; requeue_after = 60000000000 }) operator-IsQuiet tt refl promises
      (kept (
        kept (
          kept (
            kept (
              kept (
                kept (
                  kept (
                    kept (
                      kept (
                        kept (
                          kept (
                            kept (
                              kept (kept (kept (kept (record { at = λ st h. h }, tt)))))))))))))))))
      refl refl
