-- ===== src/Api/Install.antt =====
-- api/v1/platformmonitoring_types.go: the `IsInstall` methods.
use qubership_monitoring_ope.Prelude.{Bool, true, false, not, ◌&&◌, Option, none, some}
use qubership_monitoring_ope.Prelude.Text.{is_empty}
use qubership_monitoring_ope.Api.{
  AlertManager, Grafana, Ingress, KubeStateMetrics, Monitor, NodeExporter, Prometheus,
  PrometheusRules, Pushgateway, VmCluster, VmComponent, VmOperator, VmUser,
}

-- `if x.Install != nil { return *x.Install }; return false`
unfoldable pub set_or_false : Option Bool → Bool
set_or_false none = false
set_or_false (some install) = install

-- `if x.Install == nil || *x.Install { return b }; return false`
unfoldable pub unset_or_true : Option Bool → Bool → Bool
unset_or_true none b = b
unset_or_true (some true) b = b
unset_or_true (some false) b = false

unfoldable pub installs_alert_manager : AlertManager → Bool
unfolding set_or_false
installs_alert_manager am = set_or_false am.install

unfoldable pub installs_grafana : Grafana → Bool
unfolding unset_or_true
installs_grafana g = unset_or_true g.install true

unfoldable pub installs_prometheus : Prometheus → Bool
unfolding set_or_false
installs_prometheus p = set_or_false p.install

unfoldable pub installs_kube_state_metrics : KubeStateMetrics → Bool
unfolding unset_or_true
installs_kube_state_metrics ksm = unset_or_true ksm.install true

unfoldable pub installs_node_exporter : NodeExporter → Bool
unfolding unset_or_true
installs_node_exporter ne = unset_or_true ne.install true

-- An ingress needs a host.
unfoldable pub installs_ingress : Ingress → Bool
unfolding unset_or_true
installs_ingress i = unset_or_true i.install (not (is_empty i.host))

unfoldable pub installs_prometheus_rules : PrometheusRules → Bool
unfolding set_or_false
installs_prometheus_rules pr = set_or_false pr.install

unfoldable pub installs_monitor : Monitor → Bool
unfolding set_or_false
installs_monitor m = set_or_false m.install

unfoldable pub installs_pushgateway : Pushgateway → Bool
unfolding set_or_false
installs_pushgateway pg = set_or_false pg.install

unfoldable pub installs_vm_operator : VmOperator → Bool
unfolding unset_or_true
installs_vm_operator vo = unset_or_true vo.install (not (is_empty vo.image))

-- VmAgent, VmSingle, VmAlertManager, VmAlert and VmAuth: the methods read the same.
unfoldable pub installs_vm_component : VmComponent → Bool
unfolding unset_or_true
installs_vm_component vm = unset_or_true vm.install (not (is_empty vm.image))

unfoldable pub installs_vm_user : VmUser → Bool
unfolding unset_or_true
installs_vm_user vu = unset_or_true vu.install true

unfoldable pub installs_vm_cluster : VmCluster → Bool
unfolding unset_or_true
installs_vm_cluster vc = unset_or_true vc.install (
    not (is_empty vc.vm_insert_image)
    && not (is_empty vc.vm_select_image)
    && not (is_empty vc.vm_storage_image))

-- A pointer that is not nil and whose target is to be installed: `x != nil && x.IsInstall()`.
unfoldable pub wants_ingress : Option Ingress → Bool
unfolding installs_ingress
wants_ingress none = false
wants_ingress (some i) = installs_ingress i

unfoldable pub wants_monitor : Option Monitor → Bool
unfolding installs_monitor
wants_monitor none = false
wants_monitor (some m) = installs_monitor m
