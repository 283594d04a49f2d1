-- ===== src/KubernetesMonitors/Choice.antt =====
-- controllers/kubernetes-monitors/reconciler.go: which monitors are to be installed, and the table
-- of the public clouds of controllers/utils/vars.go.
use qubership_monitoring_ope.Prelude.{
  String, ◌≡◌, refl, Bool, true, false, not, ◌&&◌, ◌||◌, List, [], ◌∷◌, Option, none, some, str_eq,
  eq_iff, arith, if◌then◌else◌, ap, ◌∙◌, inl, inr, Bool-cases,
}
use qubership_monitoring_ope.Api.{PlatformMonitoring}
use qubership_monitoring_ope.Api.Install.{wants_monitor}

-- A Go map as the list of its entries; the first entry of a key is its value.
abbrev pub lookup {ℓ} : {A : Type ℓ} → String → List (String × A) → Option A
lookup k [] = none
lookup k ((j, a) ∷ entries) = if str_eq j k then some a else lookup k entries

abbrev pub core_dns_service_monitor_name : String
core_dns_service_monitor_name = "coreDnsServiceMonitor"

abbrev pub etcd_service_monitor_name : String
etcd_service_monitor_name = "etcdServiceMonitor"

abbrev cloud_monitors : List (String × Bool)
cloud_monitors = (core_dns_service_monitor_name, false) ∷ (etcd_service_monitor_name, false) ∷ []

abbrev pub public_cloud_monitors_enabled : List (String × List (String × Bool))
public_cloud_monitors_enabled =
    ("aws", cloud_monitors) ∷ ("azure", cloud_monitors) ∷ ("google", cloud_monitors) ∷ []

-- The pair of answers on the map of a cloud, if there is one.
in_cloud : Option (List (String × Bool)) → String → Bool × Bool
in_cloud none monitor_name = (false, false)
in_cloud (some pc_map) monitor_name = elim (lookup monitor_name pc_map) [
  | none ↦ (false, false)
  | some installed ↦ (true, installed)
]

-- Does the public cloud affect the monitor, and should it be installed?
unfoldable pub is_monitor_present_in_public_cloud : PlatformMonitoring → String → Bool × Bool
unfolding in_cloud
is_monitor_present_in_public_cloud cr monitor_name =
    if str_eq cr.spec.public_cloud_name ""
    then (false, false)
    else in_cloud (lookup cr.spec.public_cloud_name public_cloud_monitors_enabled) monitor_name

unfoldable pub is_monitor_install : PlatformMonitoring → String → Bool
is_monitor_install cr monitor_name =
    let (affected, installed) = is_monitor_present_in_public_cloud cr monitor_name in
    if affected then installed else wants_monitor (lookup monitor_name cr.spec.kubernetes_monitors)

-- The managed clusters, which hide their CoreDNS and etcd.
abbrev pub is_hidden : String → String → Bool
is_hidden cloud monitor_name =
    (str_eq "aws" cloud || str_eq "azure" cloud || str_eq "google" cloud)
    && (str_eq core_dns_service_monitor_name monitor_name
        || str_eq etcd_service_monitor_name monitor_name)

pub first_of_three :
    {A : Type 0} (a b c : Bool) (x : A)
    → (if a then some x else if b then some x else if c then some x else none)
      ≡ (if a || b || c then some x else none)
first_of_three true b c x = refl
first_of_three false true c x = refl
first_of_three false false true x = refl
first_of_three false false false x = refl

choose : Bool × Bool → Bool → Bool
choose p wanted = if p.0 then p.1 else wanted

choose-listed :
    (a b wanted : Bool)
    → choose
        (elim (if a then some false else if b then some false else none) as (λ _. Bool × Bool) [
          | none ↦ (false, false)
          | some installed ↦ (true, installed)
        ])
        wanted
      ≡ (not (a || b) && wanted)
unfolding choose
choose-listed true b wanted = refl
choose-listed false true wanted = refl
choose-listed false false wanted = refl

choose-in_cloud :
    (b wanted : Bool) (monitor_name : String)
    → choose (in_cloud (if b then some cloud_monitors else none) monitor_name) wanted ≡ (
        not (
          b
          && (str_eq core_dns_service_monitor_name monitor_name
              || str_eq etcd_service_monitor_name monitor_name))
        && wanted)
unfolding choose in_cloud
choose-in_cloud true wanted monitor_name =
    choose-listed (str_eq core_dns_service_monitor_name monitor_name)
      (str_eq etcd_service_monitor_name monitor_name) wanted
choose-in_cloud false wanted monitor_name = refl

-- A private installation is no public cloud.
pub unnamed :
    (cloud : String)
    → str_eq cloud "" ≡ true
    → (str_eq "aws" cloud || str_eq "azure" cloud || str_eq "google" cloud) ≡ false
unnamed cloud h = let same : cloud ≡ "" = ground (arith, eq_iff cloud "") in rw same refl

present-eq :
    (cr : PlatformMonitoring) (monitor_name : String)
    → is_monitor_present_in_public_cloud cr monitor_name
      ≡ in_cloud
          (if str_eq "aws" cr.spec.public_cloud_name
              || str_eq "azure" cr.spec.public_cloud_name
              || str_eq "google" cr.spec.public_cloud_name
            then some cloud_monitors
            else none)
          monitor_name
unfolding is_monitor_present_in_public_cloud
present-eq cr monitor_name = elim (Bool-cases (str_eq cr.spec.public_cloud_name "")) [
  | inl empty ↦ rw (empty, unnamed cr.spec.public_cloud_name empty) (unfold in_cloud in refl)
  | inr named ↦ rw named (
      ap (λ o. in_cloud o monitor_name)
        (first_of_three (str_eq "aws" cr.spec.public_cloud_name)
          (str_eq "azure" cr.spec.public_cloud_name) (str_eq "google" cr.spec.public_cloud_name)
          cloud_monitors))
]

-- A monitor is to be installed exactly if it is not that of CoreDNS or of etcd on AWS, Azure or
-- Google, and the custom resource has it under its name and asks for its installation.
pub is_monitor_install_iff :
    (cr : PlatformMonitoring) (monitor_name : String)
    → is_monitor_install cr monitor_name ≡ (
        not (is_hidden cr.spec.public_cloud_name monitor_name)
        && wants_monitor (lookup monitor_name cr.spec.kubernetes_monitors))
unfolding is_monitor_install choose
is_monitor_install_iff cr monitor_name =
    ap (λ p. choose p (wants_monitor (lookup monitor_name cr.spec.kubernetes_monitors)))
      (present-eq cr monitor_name)
    ∙ choose-in_cloud _ (wants_monitor (lookup monitor_name cr.spec.kubernetes_monitors))
        monitor_name
