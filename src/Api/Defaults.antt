-- ===== src/Api/Defaults.antt =====
-- api/v1/platformmonitoring_types.go: `FillEmptyWithDefaults`.
pub mod Laws
use mathlib.Core.Option
use qubership_monitoring_ope.Prelude.{Bool, true, false, Option, none, some, ◌&&◌, if◌then◌else◌}
use qubership_monitoring_ope.Prelude.Text.{Bytes, bytes, is_empty}
use qubership_monitoring_ope.Api.{
  AlertManager, Grafana, PlatformMonitoring, Prometheus, Victoriametrics,
}
use qubership_monitoring_ope.Api.Install.{installs_prometheus, installs_vm_operator}

unfoldable pub default_alert_manager_image : Bytes
default_alert_manager_image = bytes "prom/alertmanager:v0.19.0"

unfoldable pub default_prometheus_operator_image : Bytes
default_prometheus_operator_image = bytes "coreos/prometheus-operator:v0.34.0"

unfoldable pub default_prometheus_config_reloader_image : Bytes
default_prometheus_config_reloader_image = bytes "coreos/prometheus-config-reloader:v0.34.0"

unfoldable pub default_prometheus_image : Bytes
default_prometheus_image = bytes "prom/prometheus:v2.1.0"

unfoldable pub default_grafana_operator_image : Bytes
default_grafana_operator_image = bytes "integreatly/grafana-operator:v3.1.0"

unfoldable pub default_grafana_operator_init_container_image : Bytes
default_grafana_operator_init_container_image = bytes "integreatly/grafana_plugins_init:0.0.2"

unfoldable pub default_grafana_image : Bytes
default_grafana_image = bytes "grafana/grafana:11.6.5"

-- `if s == "" { s = d }`
or_default : Bytes → Bytes → Bytes
or_default d s = if is_empty s then d else s

fill_alert_manager : AlertManager → AlertManager
unfolding or_default
fill_alert_manager am = record am { image = or_default default_alert_manager_image am.image }

fill_grafana : Grafana → Grafana
unfolding or_default
fill_grafana g = record g {
  image = or_default default_grafana_image g.image;
  operator = record {
    image = or_default default_grafana_operator_image g.operator.image;
    init_container_image =
        or_default default_grafana_operator_init_container_image g.operator.init_container_image;
  };
}

fill_prometheus : Prometheus → Prometheus
unfolding or_default
fill_prometheus p = record p {
  image = or_default default_prometheus_image p.image;
  config_reloader_image =
      or_default default_prometheus_config_reloader_image p.config_reloader_image;
  operator = record p.operator {
    image = or_default default_prometheus_operator_image p.operator.image;
  };
}

-- `p != nil && p.IsInstall()`
abbrev pub prometheus_wanted : Option Prometheus → Bool
prometheus_wanted none = false
prometheus_wanted (some p) = installs_prometheus p

abbrev pub vm_operator_wanted : Option Victoriametrics → Bool
vm_operator_wanted none = false
vm_operator_wanted (some vm) = installs_vm_operator vm.vm_operator

disable_prometheus : Prometheus → Prometheus
disable_prometheus p = record p { install = some false }

-- Where Prometheus and the VictoriaMetrics stack are both asked for, the stack wins.
prefer_victoriametrics : Option Prometheus → Option Victoriametrics → Option Prometheus
unfolding disable_prometheus
prefer_victoriametrics p vm =
    if prometheus_wanted p && vm_operator_wanted vm then Option.map disable_prometheus p else p

unfoldable pub fill_empty_with_defaults : PlatformMonitoring → PlatformMonitoring
unfolding fill_alert_manager fill_grafana fill_prometheus prefer_victoriametrics
fill_empty_with_defaults pm = record pm {
  spec = record pm.spec {
    alert_manager = Option.map fill_alert_manager pm.spec.alert_manager;
    grafana = Option.map fill_grafana pm.spec.grafana;
    prometheus =
        prefer_victoriametrics (Option.map fill_prometheus pm.spec.prometheus)
          pm.spec.victoriametrics;
  };
}
