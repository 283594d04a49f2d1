-- ===== src/KubernetesMonitors.antt =====
-- controllers/kubernetes-monitors: reconciler.go and handlers.go. The manifests of manifest.go,
-- which start from YAML assets, are the interface `Manifests`.
pub mod Choice
use qubership_monitoring_ope.Prelude.{
  String, Bool, true, false, not, ◌&&◌, List, [], ◌∷◌, if◌then◌else◌,
}
use qubership_monitoring_ope.Api.{Monitor, PlatformMonitoring}
use qubership_monitoring_ope.Exec.{
  Exec, Outcome, err, lift, logged, ok, panic, pure, when, ◌>>=◌, ◌>>◌,
}
use qubership_monitoring_ope.Cluster.{Object}
use qubership_monitoring_ope.Utils.Discovery.{has_route_api, is_open_shift_v3, is_open_shift_v4}
use qubership_monitoring_ope.Reconciler.{Action, Env, create_or_update, delete_if_found}
use qubership_monitoring_ope.Reconciler.Merge.{merge_fields}
use qubership_monitoring_ope.Reconciler.Shapes.{apply_or_remove}
use qubership_monitoring_ope.Reconciler.Fields.{pod_monitor_fields, service_monitor_fields}
use qubership_monitoring_ope.KubernetesMonitors.Choice.{
  core_dns_service_monitor_name, is_monitor_install,
}

-- `core_dns` takes the flag of OpenShift v4, and `openshift` the asset, the name of the monitor in
-- the custom resource and the name of the object.
pub record Manifests (V : Type 0) : Type 0 where
  pub api_server : PlatformMonitoring → Outcome (Object V)
  pub controller_manager : PlatformMonitoring → Outcome (Object V)
  pub scheduler : PlatformMonitoring → Outcome (Object V)
  pub kubelet : PlatformMonitoring → Outcome (Object V)
  pub core_dns : PlatformMonitoring → Bool → Outcome (Object V)
  pub nginx_ingress : PlatformMonitoring → Outcome (Object V)
  pub openshift : PlatformMonitoring → String → String → String → Outcome (Object V)

-- The names under which an OpenShift monitor goes: the asset, that of the custom resource, and that
-- of the object.
pub record OpenshiftMonitor : Type 0 where
  pub asset : String
  pub monitor_name : String
  pub metadata_name : String

abbrev pub api_server_monitor : OpenshiftMonitor
api_server_monitor = record {
  asset = "assets/service-monitor-openshift-apiserver.yaml";
  monitor_name = "openshiftApiserverServiceMonitor";
  metadata_name = "openshift-apiserver-service-monitor";
}

abbrev pub api_server_operator_monitor : OpenshiftMonitor
api_server_operator_monitor = record {
  asset = "assets/service-monitor-openshift-apiserver-operator.yaml";
  monitor_name = "openshiftApiserverOperatorServiceMonitor";
  metadata_name = "openshift-apiserver-operator-service-monitor";
}

abbrev pub cluster_version_operator_monitor : OpenshiftMonitor
cluster_version_operator_monitor = record {
  asset = "assets/service-monitor-openshift-cluster-version-operator.yaml";
  monitor_name = "openshiftClusterVersionOperatorServiceMonitor";
  metadata_name = "openshift-cluster-version-operator-service-monitor";
}

abbrev pub state_metrics_monitor : OpenshiftMonitor
state_metrics_monitor = record {
  asset = "assets/service-monitor-openshift-state-metrics.yaml";
  monitor_name = "openshiftStatemetricsServiceMonitor";
  metadata_name = "openshift-state-metrics-service-monitor";
}

abbrev pub ha_proxy_monitor : OpenshiftMonitor
ha_proxy_monitor = record {
  asset = "assets/service-monitor-openshift-haproxy.yaml";
  monitor_name = "openshiftHAProxyServiceMonitor";
  metadata_name = "openshift-haproxy-service-monitor";
}

module _ {V : Type 0} (env : Env V) (mf : Manifests V) (cr : PlatformMonitoring) where
  handle_monitor : Outcome (Object V) → Action env
  handle_monitor manifest = create_or_update env cr manifest (merge_fields service_monitor_fields)

  unfoldable pub handle_api_server : Action env
  unfolding handle_monitor
  handle_api_server = handle_monitor (mf.api_server cr)

  unfoldable pub handle_controller_manager : Action env
  unfolding handle_monitor
  handle_controller_manager = handle_monitor (mf.controller_manager cr)

  unfoldable pub handle_scheduler : Action env
  unfolding handle_monitor
  handle_scheduler = handle_monitor (mf.scheduler cr)

  unfoldable pub handle_kubelet : Action env
  unfolding handle_monitor
  handle_kubelet = handle_monitor (mf.kubelet cr)

  unfoldable pub handle_core_dns : Bool → Action env
  unfolding handle_monitor
  handle_core_dns is_v4 = handle_monitor (mf.core_dns cr is_v4)

  unfoldable pub handle_nginx_ingress : Action env
  handle_nginx_ingress =
      create_or_update env cr (mf.nginx_ingress cr) (merge_fields pod_monitor_fields)

  unfoldable pub handle_openshift : OpenshiftMonitor → Action env
  unfolding handle_monitor
  handle_openshift m = handle_monitor (mf.openshift cr m.asset m.monitor_name m.metadata_name)

  unfoldable pub delete_api_server : Action env
  delete_api_server = delete_if_found env (mf.api_server cr)

  unfoldable pub delete_controller_manager : Action env
  delete_controller_manager = delete_if_found env (mf.controller_manager cr)

  unfoldable pub delete_scheduler : Action env
  delete_scheduler = delete_if_found env (mf.scheduler cr)

  unfoldable pub delete_kubelet : Action env
  delete_kubelet = delete_if_found env (mf.kubelet cr)

  unfoldable pub delete_core_dns : Bool → Action env
  delete_core_dns is_v4 = delete_if_found env (mf.core_dns cr is_v4)

  unfoldable pub delete_nginx_ingress : Action env
  delete_nginx_ingress = delete_if_found env (mf.nginx_ingress cr)

  unfoldable pub delete_openshift : OpenshiftMonitor → Action env
  delete_openshift m = delete_if_found env (mf.openshift cr m.asset m.monitor_name m.metadata_name)

  -- An error of the version test is logged, and the answer is then false.
  answer_or_false : Outcome Bool → Exec env.client.Cluster Bool
  answer_or_false (ok b) = pure b
  answer_or_false (err e) = pure false
  answer_or_false panic = lift panic

  -- `if IsMonitorInstall(...) { handle } else { delete }` of an OpenShift monitor.
  apply_openshift : OpenshiftMonitor → Action env
  apply_openshift m =
      apply_or_remove (is_monitor_install cr m.monitor_name) (handle_openshift m)
        (delete_openshift m)

  unfoldable pub install : Action env
  unfolding answer_or_false apply_openshift
  install = do
    is_v4 ← answer_or_false (is_open_shift_v4 env.discovery)
    is_v3 ← answer_or_false (is_open_shift_v3 env.discovery)
    apply_or_remove (is_monitor_install cr "apiserverServiceMonitor") handle_api_server
        delete_api_server
    apply_or_remove (is_monitor_install cr "kubeControllerManagerServiceMonitor")
        handle_controller_manager delete_controller_manager
    apply_or_remove (is_monitor_install cr "kubeSchedulerServiceMonitor") handle_scheduler
        delete_scheduler
    apply_or_remove (is_monitor_install cr "kubeletServiceMonitor") handle_kubelet delete_kubelet
    apply_or_remove (not is_v3 && is_monitor_install cr core_dns_service_monitor_name)
        (handle_core_dns is_v4) (delete_core_dns is_v4)
    apply_or_remove
        (not (has_route_api env.discovery) && is_monitor_install cr "nginxIngressPodMonitor")
        handle_nginx_ingress delete_nginx_ingress
    when is_v4 do
      apply_openshift api_server_monitor
      apply_openshift api_server_operator_monitor
      apply_openshift cluster_version_operator_monitor
      apply_openshift state_metrics_monitor
      apply_openshift ha_proxy_monitor

  unfoldable pub uninstall : Action env
  unfolding answer_or_false
  uninstall = do
    is_v4 ← answer_or_false (is_open_shift_v4 env.discovery)
    logged delete_api_server
    logged delete_controller_manager
    logged delete_scheduler
    logged delete_kubelet
    logged (delete_core_dns is_v4)
    logged delete_nginx_ingress
    when is_v4 do
      logged (delete_openshift api_server_monitor)
      logged (delete_openshift api_server_operator_monitor)
      logged (
          delete_openshift (record cluster_version_operator_monitor {
            monitor_name = cluster_version_operator_monitor.asset;
          }))
      logged (delete_openshift state_metrics_monitor)
      logged (delete_openshift ha_proxy_monitor)

  run_monitors : List (String × Monitor) → Action env
  run_monitors [] = uninstall
  run_monitors (m ∷ ms) = install

  unfoldable pub run : Action env
  unfolding run_monitors
  run = run_monitors cr.spec.kubernetes_monitors
