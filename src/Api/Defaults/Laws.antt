-- ===== src/Api/Defaults/Laws.antt =====
-- What `FillEmptyWithDefaults` guarantees of the custom resource.
use mathlib.Core.Option
use qubership_monitoring_ope.Prelude.{◌≡◌, refl, ap, false, not, Option, none, some, ◌&&◌, arith}
use qubership_monitoring_ope.Prelude.Text.{Bytes, is_empty}
use qubership_monitoring_ope.Api.{
  AlertManager, Grafana, PlatformMonitoring, Prometheus, Victoriametrics,
}
use qubership_monitoring_ope.Api.Install.{installs_prometheus}
use qubership_monitoring_ope.Api.Defaults.{
  default_alert_manager_image, default_grafana_image, default_grafana_operator_image,
  default_grafana_operator_init_container_image, default_prometheus_config_reloader_image,
  default_prometheus_image, default_prometheus_operator_image, fill_alert_manager,
  fill_empty_with_defaults, fill_grafana, fill_prometheus, or_default, prefer_victoriametrics,
  prometheus_wanted, vm_operator_wanted,
}

or_default_filled : (d s : Bytes) → is_empty d ≡ false → is_empty (or_default d s) ≡ false
unfolding or_default
or_default_filled d s h = ground arith

or_default_idem : (d s : Bytes) → or_default d (or_default d s) ≡ or_default d s
unfolding or_default
or_default_idem d s = ground arith

alert_manager_idem :
    (o : Option AlertManager)
    → Option.map fill_alert_manager (Option.map fill_alert_manager o)
      ≡ Option.map fill_alert_manager o
unfolding fill_alert_manager
alert_manager_idem none = refl
alert_manager_idem (some a) =
    ap (λ s. some (record a { image = s })) (or_default_idem default_alert_manager_image a.image)

grafana_idem :
    (o : Option Grafana)
    → Option.map fill_grafana (Option.map fill_grafana o) ≡ Option.map fill_grafana o
unfolding fill_grafana
grafana_idem none = refl
grafana_idem (some g) = λ i. some (record g {
  image = or_default_idem default_grafana_image g.image i;
  operator = record {
    image = or_default_idem default_grafana_operator_image g.operator.image i;
    init_container_image =
        or_default_idem default_grafana_operator_init_container_image
          g.operator.init_container_image i;
  };
})

fill_prometheus_idem : (p : Prometheus) → fill_prometheus (fill_prometheus p) ≡ fill_prometheus p
unfolding fill_prometheus
fill_prometheus_idem p = λ i. record p {
  image = or_default_idem default_prometheus_image p.image i;
  config_reloader_image =
      or_default_idem default_prometheus_config_reloader_image p.config_reloader_image i;
  operator = record p.operator {
    image = or_default_idem default_prometheus_operator_image p.operator.image i;
  };
}

never_both :
    (p : Option Prometheus) (vm : Option Victoriametrics)
    → (prometheus_wanted (prefer_victoriametrics p vm) && vm_operator_wanted vm) ≡ false
unfolding prefer_victoriametrics installs_prometheus
never_both none vm = ground arith
never_both (some p) vm = ground arith

prometheus_idem :
    (o : Option Prometheus) (vm : Option Victoriametrics)
    → prefer_victoriametrics
        (Option.map fill_prometheus (prefer_victoriametrics (Option.map fill_prometheus o) vm))
        vm
      ≡ prefer_victoriametrics (Option.map fill_prometheus o) vm
unfolding prefer_victoriametrics installs_prometheus fill_prometheus
prometheus_idem none vm = ground arith
prometheus_idem (some p) vm = ground (arith, fill_prometheus_idem p)

filled_prometheus_wanted :
    (o : Option Prometheus) (vm : Option Victoriametrics)
    → prometheus_wanted (prefer_victoriametrics (Option.map fill_prometheus o) vm)
      ≡ prometheus_wanted o && not (vm_operator_wanted vm)
unfolding prefer_victoriametrics installs_prometheus fill_prometheus
filled_prometheus_wanted none vm = ground arith
filled_prometheus_wanted (some p) vm = ground arith

-- Filling in the defaults twice gives what filling them in once gives.
fill_empty_with_defaults_idem :
    (pm : PlatformMonitoring)
    → fill_empty_with_defaults (fill_empty_with_defaults pm) ≡ fill_empty_with_defaults pm
unfolding fill_empty_with_defaults
fill_empty_with_defaults_idem pm = λ i. record pm {
  spec = record pm.spec {
    alert_manager = alert_manager_idem pm.spec.alert_manager i;
    grafana = grafana_idem pm.spec.grafana i;
    prometheus = prometheus_idem pm.spec.prometheus pm.spec.victoriametrics i;
  };
}

-- After the defaults are filled in, Prometheus is to be installed exactly if the resource asked for
-- it and did not ask for the VictoriaMetrics operator.
pub prometheus_wanted-fill_empty_with_defaults :
    (pm : PlatformMonitoring)
    → prometheus_wanted (fill_empty_with_defaults pm).spec.prometheus
      ≡ prometheus_wanted pm.spec.prometheus && not (vm_operator_wanted pm.spec.victoriametrics)
unfolding fill_empty_with_defaults
prometheus_wanted-fill_empty_with_defaults pm =
    filled_prometheus_wanted pm.spec.prometheus pm.spec.victoriametrics

abbrev AlertManagerHasImage : Option AlertManager → Type 0
AlertManagerHasImage none = Unit
AlertManagerHasImage (some a) = is_empty a.image ≡ false

abbrev GrafanaHasImages : Option Grafana → Type 0
GrafanaHasImages none = Unit
GrafanaHasImages (some g) =
    (is_empty g.image ≡ false)
    × (is_empty g.operator.image ≡ false)
    × (is_empty g.operator.init_container_image ≡ false)

abbrev PrometheusHasImages : Option Prometheus → Type 0
PrometheusHasImages none = Unit
PrometheusHasImages (some p) =
    (is_empty p.image ≡ false)
    × (is_empty p.config_reloader_image ≡ false)
    × (is_empty p.operator.image ≡ false)

-- Every image of the sections that `FillEmptyWithDefaults` treats.
pub record HasImages (pm : PlatformMonitoring) : Type 0 where
  pub alert_manager : AlertManagerHasImage pm.spec.alert_manager
  pub grafana : GrafanaHasImages pm.spec.grafana
  pub prometheus : PrometheusHasImages pm.spec.prometheus

prefer_victoriametrics-HasImages :
    (p : Option Prometheus) (vm : Option Victoriametrics)
    → PrometheusHasImages p
    → PrometheusHasImages (prefer_victoriametrics p vm)
unfolding prefer_victoriametrics
prefer_victoriametrics-HasImages none vm h = ground arith
prefer_victoriametrics-HasImages (some p) vm h = ground arith

fill_alert_manager-HasImage :
    (o : Option AlertManager) → AlertManagerHasImage (Option.map fill_alert_manager o)
unfolding fill_alert_manager default_alert_manager_image
fill_alert_manager-HasImage none = tt
fill_alert_manager-HasImage (some a) = or_default_filled _ a.image refl

fill_grafana-HasImages : (o : Option Grafana) → GrafanaHasImages (Option.map fill_grafana o)
unfolding fill_grafana default_grafana_image default_grafana_operator_image
    default_grafana_operator_init_container_image
fill_grafana-HasImages none = tt
fill_grafana-HasImages (some g) = (
  or_default_filled _ g.image refl,
  or_default_filled _ g.operator.image refl,
  or_default_filled _ g.operator.init_container_image refl,
)

fill_prometheus-HasImages :
    (o : Option Prometheus) → PrometheusHasImages (Option.map fill_prometheus o)
unfolding fill_prometheus default_prometheus_image default_prometheus_operator_image
    default_prometheus_config_reloader_image
fill_prometheus-HasImages none = tt
fill_prometheus-HasImages (some p) = (
  or_default_filled _ p.image refl,
  or_default_filled _ p.config_reloader_image refl,
  or_default_filled _ p.operator.image refl,
)

-- After the defaults are filled in, no image of AlertManager, Grafana, Prometheus and their
-- operators is empty.
pub fill_empty_with_defaults-HasImages :
    (pm : PlatformMonitoring) → HasImages (fill_empty_with_defaults pm)
unfolding fill_empty_with_defaults
fill_empty_with_defaults-HasImages pm = record {
  alert_manager = fill_alert_manager-HasImage pm.spec.alert_manager;
  grafana = fill_grafana-HasImages pm.spec.grafana;
  prometheus =
      prefer_victoriametrics-HasImages (Option.map fill_prometheus pm.spec.prometheus)
        pm.spec.victoriametrics (fill_prometheus-HasImages pm.spec.prometheus);
}
