-- ===== src/PrometheusRules/Groups.antt =====
-- Which groups the rules object has.
use qubership_monitoring_ope.Prelude.{
  String, ◌≡◌, refl, sym, ap, ◌∙◌, Bool, true, false, not, ◌&&◌, ◌||◌, List, [], ◌∷◌, ◌++◌, Option,
  none, some, str_eq, eq_iff, arith, if◌then◌else◌, inl, inr, Bool-cases,
}
use qubership_monitoring_ope.Api.{AlertManager, PrometheusRule, PrometheusRules}
use qubership_monitoring_ope.Exec.{Outcome, err, ok, panic}
use qubership_monitoring_ope.KubernetesMonitors.Choice.{first_of_three, lookup, unnamed}
use qubership_monitoring_ope.PrometheusRules.{
  Overrides, Rule, RuleGroup, add_groups, bind, cloud_map, cloud_rules, rules_of, enabled_groups,
  is_restricted, is_some, override_rules, prepare_override_config_map, prometheus_rules_groups, put,
  select_groups, take_group, wants_alert_manager,
}

-- The name is in the list.
unfoldable pub chosen : String → List String → Bool
chosen name [] = false
chosen name (g ∷ gs) = str_eq g name || chosen name gs

-- The groups that the code is to keep: chosen and not restricted, AlertManager's only with it.
unfoldable pub keep_names : (String → Bool) → List RuleGroup → List String
keep_names p [] = []
keep_names p (g ∷ gs) = let rest = keep_names p gs in if p g.name then g.name ∷ rest else rest

unfoldable pub names : List RuleGroup → List String
names [] = []
names (g ∷ gs) = g.name ∷ names gs

ok-inj : {A : Type 0} {a b : A} → ok a ≡ ok b → a ≡ b
ok-inj h = ground arith

is_some-put :
    {A : Type 0} (k n : String) (v : A) (m : List (String × A))
    → is_some (lookup n (put k v m)) ≡ (str_eq k n || is_some (lookup n m))
unfolding put
is_some-put k n v [] = ground arith
is_some-put k n v ((j, w) ∷ m) =
    ground (arith, is_some-put k n v m, eq_iff j k, eq_iff j n, eq_iff k n)

add_groups-is_some :
    (restricted : String → Bool) (rules : List PrometheusRule) (gs : List String)
    (m : List (String × Overrides)) (n : String)
    → is_some (lookup n (add_groups restricted rules gs m))
      ≡ (is_some (lookup n m) || (chosen n gs && not (restricted n)))
unfolding add_groups chosen
add_groups-is_some restricted rules [] m n = ground arith
add_groups-is_some restricted rules (g ∷ gs) m n =
    let same : str_eq g n ≡ true → restricted g ≡ restricted n =
      λ e. ap restricted ((eq_iff g n).0 e) in
    elim (Bool-cases (restricted g)) [
      | inl out ↦ rw out (add_groups-is_some restricted rules gs m n ∙ ground (arith, same, out))
      | inr stays ↦ rw stays (
          add_groups-is_some restricted rules gs _ n
          ∙ ap (λ b. b || (chosen n gs && not (restricted n))) (is_some-put g n _ m)
          ∙ ground (arith, same, stays))
    ]

-- A group that is taken stands in front of those that follow.
both-names :
    (g : RuleGroup) (x : Outcome (List Rule)) (rest : Outcome (List RuleGroup))
    (gs : List RuleGroup) (tail : List String)
    → bind x (λ rs. bind rest λ hs. ok (record g { rules = rs } ∷ hs)) ≡ ok gs
    → ((hs : List RuleGroup) → rest ≡ ok hs → names hs ≡ tail)
    → names gs ≡ g.name ∷ tail
unfolding bind names
both-names g (ok rs) (ok hs) gs tail h later =
    ap names (sym (ok-inj h)) ∙ ap (λ (l : List String). g.name ∷ l) (later hs refl)
both-names g (ok rs) (err e) gs tail h later = cc
both-names g (ok rs) panic gs tail h later = cc
both-names g (err e) rest gs tail h later = cc
both-names g panic rest gs tail h later = cc

take_group-names :
    (am : Bool) (o : Option Overrides) (g : RuleGroup) (rest : Outcome (List RuleGroup))
    (gs : List RuleGroup) (tail : List String)
    → take_group am o g rest ≡ ok gs
    → ((hs : List RuleGroup) → rest ≡ ok hs → names hs ≡ tail)
    → names gs
      ≡ (if is_some o && not (str_eq g.name "AlertManager" && not am) then g.name ∷ tail else tail)
unfolding take_group
take_group-names am none g rest gs tail h later = later gs h
take_group-names am (some m) g rest gs tail h later =
    elim (Bool-cases (str_eq g.name "AlertManager" && not am)) [
      | inl skipped ↦ rw skipped (later gs (rw skipped at h))
      | inr kept ↦
          rw kept (both-names g (override_rules m g.rules) rest gs tail (rw kept at h) later)
    ]

select_groups-names :
    (config : List (String × Overrides)) (am : Bool) (groups gs : List RuleGroup)
    → select_groups config am groups ≡ ok gs
    → names gs
      ≡ keep_names
          (λ n. is_some (lookup n config) && not (str_eq n "AlertManager" && not am))
          groups
unfolding select_groups names keep_names
select_groups-names config am [] gs h = ap names (sym (ok-inj h))
select_groups-names config am (g ∷ groups) gs h =
    take_group-names am (lookup g.name config) g (select_groups config am groups) gs _ h
      (select_groups-names config am groups)

cloud_map-eq :
    (cloud : String)
    → cloud_map cloud ≡ (
        if str_eq "aws" cloud || str_eq "azure" cloud || str_eq "google" cloud
        then cloud_rules
        else [])
unfolding cloud_map
cloud_map-eq cloud = elim (Bool-cases (str_eq cloud "")) [
  | inl empty ↦ rw (empty, unnamed cloud empty) refl
  | inr named ↦ rw named (
      ap rules_of (
        first_of_three (str_eq "aws" cloud) (str_eq "azure" cloud) (str_eq "google" cloud)
          cloud_rules)
      ∙ either (str_eq "aws" cloud || str_eq "azure" cloud || str_eq "google" cloud))
]
  where
    either :
        (b : Bool)
        → rules_of (if b then some cloud_rules else none) ≡ (if b then cloud_rules else [])
    either true = unfold rules_of in refl
    either false = unfold rules_of in refl

-- The managed clusters, which hide their CoreDNS and etcd.
abbrev pub is_hidden_group : String → String → Bool
is_hidden_group cloud name =
    (str_eq "aws" cloud || str_eq "azure" cloud || str_eq "google" cloud)
    && (str_eq "CoreDnsAlerts" name || str_eq "Etcd" name)

enabled_groups-cloud : (b : Bool) → enabled_groups (if b then cloud_rules else []) ≡ []
unfolding enabled_groups
enabled_groups-cloud true = refl
enabled_groups-cloud false = refl

is_restricted-cloud :
    (b : Bool) (n : String)
    → is_restricted n (if b then cloud_rules else [])
      ≡ (b && (str_eq "CoreDnsAlerts" n || str_eq "Etcd" n))
unfolding is_restricted
is_restricted-cloud true n = ground arith
is_restricted-cloud false n = refl

chosen-append_nil : (n : String) (gs hs : List String) → hs ≡ [] → chosen n (gs ++ hs) ≡ chosen n gs
unfolding chosen
chosen-append_nil n [] hs h = rw h refl
chosen-append_nil n (g ∷ gs) hs h = ap (λ b. str_eq g n || b) (chosen-append_nil n gs hs h)

pub config-is_some :
    (cloud : String) (pr : PrometheusRules) (n : String)
    → is_some (lookup n (prepare_override_config_map cloud pr))
      ≡ (chosen n pr.rule_groups && not (is_hidden_group cloud n))
unfolding prepare_override_config_map
config-is_some cloud pr n =
    add_groups-is_some _ pr.override _ [] n
    ∙ ap (λ b. b && not (is_restricted n (cloud_map cloud)))
        (chosen-append_nil n pr.rule_groups (enabled_groups (cloud_map cloud))
          (ap enabled_groups (cloud_map-eq cloud) ∙ enabled_groups-cloud _))
    ∙ ap (λ b. chosen n pr.rule_groups && not b)
        (ap (is_restricted n) (cloud_map-eq cloud) ∙ is_restricted-cloud _ n)

keep_names-ext :
    (p q : String → Bool)
    → ((n : String) → p n ≡ q n)
    → (gs : List RuleGroup) → keep_names p gs ≡ keep_names q gs
unfolding keep_names
keep_names-ext p q same [] = refl
keep_names-ext p q same (g ∷ gs) =
    rw (same g.name)
      (ap (λ (l : List String). if q g.name then g.name ∷ l else l) (keep_names-ext p q same gs))

-- A group of the asset is kept: the section chooses it, the cloud does not hide it, and it is not
-- that of an AlertManager that is not to be installed.
abbrev pub is_kept : String → PrometheusRules → Option AlertManager → String → Bool
is_kept cloud pr am n =
    (chosen n pr.rule_groups && not (is_hidden_group cloud n))
    && not (str_eq n "AlertManager" && not (wants_alert_manager am))

-- If the rules object is built, its groups are those of the asset, in the order of the asset, that
-- the section chooses, but for those of CoreDNS and etcd on AWS, Azure and Google, and for that of
-- AlertManager where it is not to be installed.
pub prometheus_rules_groups-names :
    (cloud : String) (pr : PrometheusRules) (am : Option AlertManager) (groups gs : List RuleGroup)
    → prometheus_rules_groups cloud pr am groups ≡ ok gs
    → names gs ≡ keep_names (is_kept cloud pr am) groups
unfolding prometheus_rules_groups
prometheus_rules_groups-names cloud pr am groups gs h =
    select_groups-names (prepare_override_config_map cloud pr) (wants_alert_manager am) groups gs h
    ∙ keep_names-ext _ (is_kept cloud pr am)
        (λ n.
          ap (λ b. b && not (str_eq n "AlertManager" && not (wants_alert_manager am)))
            (config-is_some cloud pr n))
        groups
