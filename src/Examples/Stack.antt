-- ===== src/Examples/Stack.antt =====
-- Sections of the VictoriaMetrics stack and of Prometheus, for the examples.
use qubership_monitoring_ope.Prelude.{Bool, true, false, [], none, some}
use qubership_monitoring_ope.Prelude.Text.{bytes}
use qubership_monitoring_ope.Api.{
  PlatformMonitoring, Prometheus, Victoriametrics, VmComponent, empty_spec,
}
use qubership_monitoring_ope.Examples.World.{no_sections}

abbrev pub component : Bool → VmComponent
component installed = record {
  install = some installed;
  paused = false;
  image = bytes "vm:v1";
  ingress = some (record { install = none; host = bytes "h" });
}

-- All is installed but for the cluster; the sections are switched off by the flag.
abbrev pub stack : Bool → Victoriametrics
stack installed = record {
  vm_operator = record {
    install = some installed;
    paused = false;
    image = bytes "vm-operator:v1";
    service_monitor = some (record { install = some true });
  };
  vm_single = component installed;
  vm_agent = component installed;
  vm_alert_manager = component installed;
  vm_alert = component installed;
  vm_auth = component installed;
  vm_user = record { install = some installed; paused = false };
  vm_cluster = record {
    install = some false;
    paused = false;
    vm_insert_image = [];
    vm_select_image = [];
    vm_storage_image = [];
    vm_select_ingress = none;
  };
}

-- The stack with a cluster in place of the single instance.
abbrev pub clustered : Victoriametrics
clustered = record (stack true) {
  vm_single = component false;
  vm_cluster = record {
    install = some true;
    paused = false;
    vm_insert_image = bytes "vminsert:v1";
    vm_select_image = bytes "vmselect:v1";
    vm_storage_image = bytes "vmstorage:v1";
    vm_select_ingress = some (record { install = none; host = bytes "h" });
  };
}

abbrev pub with_stack : Victoriametrics → PlatformMonitoring
with_stack vm = record no_sections { spec = record empty_spec { victoriametrics = some vm } }

abbrev pub prometheus : Bool → Prometheus
prometheus installed = record {
  install = some installed;
  paused = false;
  image = bytes "prometheus:v2";
  config_reloader_image = bytes "reloader:v1";
  operator = record {
    paused = false;
    image = bytes "operator:v1";
    pod_monitor = some (record { install = some true });
  };
  has_storage = false;
  ingress = none;
  pod_monitor = none;
}

abbrev pub with_prometheus : Bool → PlatformMonitoring
with_prometheus installed = record no_sections {
  spec = record empty_spec { prometheus = some (prometheus installed) };
}
