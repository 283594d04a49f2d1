-- ===== src/Examples/Pure.antt =====
-- The functions without state on concrete values.
use qubership_monitoring_ope.Prelude.{
  ℕ, ◌≡◌, ◌↔◌, ◌≤◌, ◌&&◌, refl, String, true, false, not, List, ◌∷◌, none, some, [],
}
use qubership_monitoring_ope.Prelude.Text.{bytes}
use qubership_monitoring_ope.Api.{
  PlatformMonitoring, PlatformMonitoringCondition, VmComponent, empty_spec,
}
use qubership_monitoring_ope.Api.Install.{wants_monitor}
use qubership_monitoring_ope.Api.Defaults.{
  fill_empty_with_defaults, prometheus_wanted, vm_operator_wanted,
}
use qubership_monitoring_ope.Api.Defaults.Laws.{
  HasImages, fill_empty_with_defaults-HasImages, prometheus_wanted-fill_empty_with_defaults,
}
use qubership_monitoring_ope.Exec.{ok}
use qubership_monitoring_ope.Utils.Numbers.{pos}
use qubership_monitoring_ope.Utils.Labels.{trunc_label}
use qubership_monitoring_ope.Utils.Labels.Laws.{IsTrimmed, trunc_label-IsTrimmed}
use qubership_monitoring_ope.Utils.Discovery.{
  ApiResourceList, get_minor_server_version, has_route_api, is_open_shift_v4,
}
use qubership_monitoring_ope.Utils.Discovery.Laws.{is_open_shift_v4_iff}
use qubership_monitoring_ope.Controller.Conditions.{prepare_status_for_update, remove_status}
use qubership_monitoring_ope.Controller.Conditions.Rotate.{UniqueReasons, find_reason}
use qubership_monitoring_ope.Controller.Conditions.View.{
  prepare_status_for_update-sets, remove_status-deletes,
}
use qubership_monitoring_ope.KubernetesMonitors.Choice.{
  is_hidden, is_monitor_install, is_monitor_install_iff, lookup,
}
use qubership_monitoring_ope.Examples.World.{discovery, no_sections}

trunc_label-IsTrimmed_example : IsTrimmed (trunc_label (bytes "-monitoring-"))
trunc_label-IsTrimmed_example = trunc_label-IsTrimmed (bytes "-monitoring-")

abbrev lists : List ApiResourceList
lists =
    record { group_version = "networking.k8s.io/v1"; kinds = "Ingress" ∷ [] }
    ∷ record { group_version = "route.openshift.io/v1"; kinds = "Route" ∷ [] }
    ∷ []

is_open_shift_v4_iff_example : (is_open_shift_v4 discovery ≡ ok true) ↔ (
    (has_route_api discovery ≡ true)
    × (n : ℕ) × (get_minor_server_version discovery ≡ ok (pos n))
    × (18 ≤ n))
is_open_shift_v4_iff_example = is_open_shift_v4_iff discovery

abbrev condition : String → PlatformMonitoringCondition
condition reason = record {
  type = "Failed";
  status = "False";
  reason = reason;
  message = "failed";
  last_transition_time = "now";
}

remove_status-deletes_example :
    (find_reason "c" (remove_status (condition "a" ∷ condition "b" ∷ condition "c" ∷ []) "a").0
      ≡ find_reason "c" (condition "a" ∷ condition "b" ∷ condition "c" ∷ []))
    × UniqueReasons (remove_status (condition "a" ∷ condition "b" ∷ condition "c" ∷ []) "a").0
remove_status-deletes_example =
    remove_status-deletes (condition "a" ∷ condition "b" ∷ condition "c" ∷ []) "a" "c"
      (unfold find_reason in (refl, (refl, (refl, tt)))) refl

prepare_status_for_update-sets_example :
    (find_reason "b" (prepare_status_for_update (condition "a" ∷ []) (condition "b")).0
      ≡ some (condition "b"))
    × UniqueReasons (prepare_status_for_update (condition "a" ∷ []) (condition "b")).0
prepare_status_for_update-sets_example =
    prepare_status_for_update-sets (condition "a" ∷ []) (condition "b") "b"
      (unfold find_reason in (refl, tt)) refl

is_monitor_install_iff_example : is_monitor_install no_sections "coreDnsServiceMonitor" ≡ (
    not (is_hidden "" "coreDnsServiceMonitor") && wants_monitor (lookup "coreDnsServiceMonitor" []))
is_monitor_install_iff_example = is_monitor_install_iff no_sections "coreDnsServiceMonitor"

abbrev vm : VmComponent
vm = record { install = none; paused = false; image = bytes "vm:v1"; ingress = none }

abbrev both : PlatformMonitoring
both = record no_sections {
  spec = record empty_spec {
    prometheus = some (record {
      install = some true;
      paused = false;
      image = [];
      config_reloader_image = [];
      operator = record { paused = false; image = []; pod_monitor = none };
      has_storage = false;
      ingress = none;
      pod_monitor = none;
    });
    victoriametrics = some (record {
      vm_operator = record {
        install = none;
        paused = false;
        image = bytes "vm:v1";
        service_monitor = none;
      };
      vm_single = vm;
      vm_agent = vm;
      vm_alert_manager = vm;
      vm_alert = vm;
      vm_auth = vm;
      vm_user = record { install = none; paused = false };
      vm_cluster = record {
        install = none;
        paused = false;
        vm_insert_image = [];
        vm_select_image = [];
        vm_storage_image = [];
        vm_select_ingress = none;
      };
    });
  };
}

prometheus_wanted-fill_empty_with_defaults_example :
    prometheus_wanted (fill_empty_with_defaults both).spec.prometheus
    ≡ prometheus_wanted both.spec.prometheus && not (vm_operator_wanted both.spec.victoriametrics)
prometheus_wanted-fill_empty_with_defaults_example = prometheus_wanted-fill_empty_with_defaults both

fill_empty_with_defaults-HasImages_example : HasImages (fill_empty_with_defaults both)
fill_empty_with_defaults-HasImages_example = fill_empty_with_defaults-HasImages both
