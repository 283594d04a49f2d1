-- ===== src/Prometheus/Unreadable.antt =====
-- `Run` of the prometheus reconciler where the API server does not answer.
use qubership_monitoring_ope.Prelude.{◌≡◌, refl, Option, none, some}
use qubership_monitoring_ope.Api.{PlatformMonitoring, Prometheus}
use qubership_monitoring_ope.Exec.Rules.{Keeps, keeps_rules}
use qubership_monitoring_ope.Reconciler.{Env}
use qubership_monitoring_ope.Reconciler.Unreadable.{Unreadable, unchanged_rules}
use qubership_monitoring_ope.Prometheus.{
  Manifests, delete_cluster_role, delete_cluster_role_binding, delete_ingress_v1,
  delete_ingress_v1beta1, delete_pod_monitor, delete_prometheus, delete_service_account,
  handle_cluster_role, handle_cluster_role_binding, handle_ingress_v1, handle_ingress_v1beta1,
  handle_pod_monitor, handle_prometheus, handle_service_account, install, remove_prometheus_pvc,
  run, run_section, uninstall,
}

module _ {V : Type 0} (env : Env V) (mf : Manifests V) (cr : PlatformMonitoring)
    (s : env.client.Cluster) (unreadable : Unreadable env s) where
  uninstall-unchanged : Keeps (λ c. c ≡ s) (uninstall env mf cr)
  unfolding uninstall delete_cluster_role delete_cluster_role_binding delete_service_account
      delete_prometheus delete_pod_monitor delete_ingress_v1beta1 delete_ingress_v1
  uninstall-unchanged = search (keeps_rules, unchanged_rules) depth 24

  install-unchanged : (p : Prometheus) → Keeps (λ c. c ≡ s) (install env mf cr p)
  unfolding install handle_service_account handle_cluster_role handle_cluster_role_binding
      handle_prometheus handle_ingress_v1beta1 handle_ingress_v1 handle_pod_monitor
      delete_ingress_v1beta1 delete_ingress_v1 delete_pod_monitor
  install-unchanged p = search (keeps_rules, unchanged_rules) depth 24

  remove_prometheus_pvc-unchanged : Keeps (λ c. c ≡ s) (remove_prometheus_pvc env cr)
  unfolding remove_prometheus_pvc
  remove_prometheus_pvc-unchanged = search (keeps_rules, unchanged_rules)

  run_section-unchanged : (o : Option Prometheus) → Keeps (λ c. c ≡ s) (run_section env mf cr o)
  unfolding run_section
  run_section-unchanged none = uninstall-unchanged
  run_section-unchanged (some p) = search (keeps_rules, uninstall-unchanged, install-unchanged)

  run-unchanged : Keeps (λ c. c ≡ s) (run env mf cr)
  unfolding run
  run-unchanged = search (keeps_rules, remove_prometheus_pvc-unchanged, run_section-unchanged)

-- If every read of the cluster fails otherwise than with NotFound, then `Run` of prometheus leaves
-- the cluster as it was, whether the section is missing, to be installed, paused or to be removed,
-- whatever the builders return, and whatever `Run` answers.
pub run-Unreadable :
    {V : Type 0} (env : Env V) (mf : Manifests V) (cr : PlatformMonitoring) (s : env.client.Cluster)
    → Unreadable env s
    → (run env mf cr s).1 ≡ s
run-Unreadable env mf cr s unreadable = (run-unchanged env mf cr s unreadable).at s refl
