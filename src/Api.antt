-- ===== src/Api.antt =====
-- api/v1/platformmonitoring_types.go: the custom resource, with the fields that the modelled code
-- reads. A pointer is an `Option`, and an `Install *bool` an `Option Bool`. Text that is only
-- compared is a `String`; names, images and label values are `Bytes`.
pub mod Install
pub mod Defaults
use qubership_monitoring_ope.Prelude.{ℕ, String, Bool, Option, none, List, []}
use qubership_monitoring_ope.Prelude.Text.{Bytes}

abbrev pub Labels : Type 0
Labels = List (String × Bytes)

pub record Ingress : Type 0 where
  pub install : Option Bool
  pub host : Bytes

pub record Monitor : Type 0 where
  pub install : Option Bool

pub record AlertManager : Type 0 where
  pub install : Option Bool
  pub paused : Bool
  pub image : Bytes
  pub ingress : Option Ingress
  pub pod_monitor : Option Monitor

pub record GrafanaOperator : Type 0 where
  pub image : Bytes
  pub init_container_image : Bytes

pub record Grafana : Type 0 where
  pub install : Option Bool
  pub paused : Bool
  pub image : Bytes
  pub operator : GrafanaOperator
  pub ingress : Option Ingress
  pub pod_monitor : Option Monitor

pub record PrometheusOperator : Type 0 where
  pub paused : Bool
  pub image : Bytes
  pub pod_monitor : Option Monitor

-- `storage` tells only whether the pointer is set.
pub record Prometheus : Type 0 where
  pub install : Option Bool
  pub paused : Bool
  pub image : Bytes
  pub config_reloader_image : Bytes
  pub operator : PrometheusOperator
  pub has_storage : Bool
  pub ingress : Option Ingress
  pub pod_monitor : Option Monitor

pub record KubeStateMetrics : Type 0 where
  pub install : Option Bool
  pub paused : Bool
  pub image : Bytes
  pub service_monitor : Option Monitor

pub record NodeExporter : Type 0 where
  pub install : Option Bool
  pub paused : Bool
  pub image : Bytes
  pub service_monitor : Option Monitor

pub record Pushgateway : Type 0 where
  pub install : Option Bool
  pub paused : Bool
  pub image : Bytes
  pub has_storage : Bool
  pub ingress : Option Ingress
  pub service_monitor : Option Monitor

-- An override of one rule; `record_name` and `for_time` are the fields `Record` and `For`.
pub record PrometheusRule : Type 0 where
  pub group : String
  pub alert : String
  pub record_name : String
  pub for_time : String
  pub expr : String
  pub severity : String

pub record PrometheusRules : Type 0 where
  pub install : Option Bool
  pub rule_groups : List String
  pub override : List PrometheusRule

pub record VmOperator : Type 0 where
  pub install : Option Bool
  pub paused : Bool
  pub image : Bytes
  pub service_monitor : Option Monitor

-- The other sections of the VictoriaMetrics stack that have an image of their own.
pub record VmComponent : Type 0 where
  pub install : Option Bool
  pub paused : Bool
  pub image : Bytes
  pub ingress : Option Ingress

pub record VmUser : Type 0 where
  pub install : Option Bool
  pub paused : Bool

pub record VmCluster : Type 0 where
  pub install : Option Bool
  pub paused : Bool
  pub vm_insert_image : Bytes
  pub vm_select_image : Bytes
  pub vm_storage_image : Bytes
  pub vm_select_ingress : Option Ingress

pub record Victoriametrics : Type 0 where
  pub vm_operator : VmOperator
  pub vm_single : VmComponent
  pub vm_agent : VmComponent
  pub vm_alert_manager : VmComponent
  pub vm_alert : VmComponent
  pub vm_auth : VmComponent
  pub vm_user : VmUser
  pub vm_cluster : VmCluster

pub record PlatformMonitoringSpec : Type 0 where
  pub alert_manager : Option AlertManager
  pub grafana : Option Grafana
  pub kube_state_metrics : Option KubeStateMetrics
  pub node_exporter : Option NodeExporter
  pub prometheus : Option Prometheus
  pub prometheus_rules : Option PrometheusRules
  pub pushgateway : Option Pushgateway
  pub victoriametrics : Option Victoriametrics
  -- a Go map: the first entry of a key is its value
  pub kubernetes_monitors : List (String × Monitor)
  pub public_cloud_name : String

pub record PlatformMonitoringCondition : Type 0 where
  pub type : String
  pub status : String
  pub reason : String
  pub message : String
  pub last_transition_time : String

pub record PlatformMonitoring : Type 0 where
  pub namespace : Bytes
  -- a nil map is empty: the API server drops a map that has no entries
  pub labels : Labels
  pub annotations : Labels
  pub generation : ℕ
  pub spec : PlatformMonitoringSpec
  pub conditions : List PlatformMonitoringCondition

abbrev pub empty_spec : PlatformMonitoringSpec
empty_spec = record {
  alert_manager = none;
  grafana = none;
  kube_state_metrics = none;
  node_exporter = none;
  prometheus = none;
  prometheus_rules = none;
  pushgateway = none;
  victoriametrics = none;
  kubernetes_monitors = [];
  public_cloud_name = "";
}
