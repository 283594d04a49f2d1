-- ===== src/PrometheusRules/Overrides.antt =====
-- The map from groups to overrides that prepareOverrideConfigMap of
-- controllers/prometheus-rules/manifest.go builds.
use qubership_monitoring_ope.Prelude.{
  String, ◌≡◌, refl, sym, ap, ◌∙◌, Bool, true, false, not, ◌&&◌, List, [], ◌∷◌, Option, none, some,
  str_eq, eq_iff, arith, if◌then◌else◌, inl, inr, Bool-cases,
}
use mathlib.Core.Path.{subst}
use qubership_monitoring_ope.Api.{PrometheusRule, PrometheusRules}
use qubership_monitoring_ope.KubernetesMonitors.Choice.{lookup}
use qubership_monitoring_ope.PrometheusRules.{
  Overrides, add_groups, add_overrides, or_empty, prepare_override_config_map, put,
}

-- The name of a rule or of an override: its alert or, without one, its record.
abbrev pub rule_name : String → String → String
rule_name alert record_name = if str_eq alert "" then record_name else alert

-- The override is for the rule of this name in this group; without a name it is for none.
abbrev pub is_for : String → String → PrometheusRule → Bool
is_for group name o =
    str_eq o.group group
    && (not (str_eq (rule_name o.alert o.record_name) "")
        && str_eq (rule_name o.alert o.record_name) name)

abbrev pub or_else : {A : Type 0} → Option A → Option A → Option A
or_else none d = d
or_else (some a) d = some a

-- The last override that is for the rule of this name in this group.
unfoldable pub last_override : String → String → List PrometheusRule → Option PrometheusRule
last_override group name [] = none
last_override group name (o ∷ os) =
    or_else (last_override group name os) (if is_for group name o then some o else none)

lookup-put :
    {A : Type 0} (k n : String) (v : A) (m : List (String × A))
    → lookup n (put k v m) ≡ (if str_eq k n then some v else lookup n m)
unfolding put
lookup-put k n v [] = refl
lookup-put k n v ((j, w) ∷ m) =
    ground (arith, lookup-put k n v m, eq_iff j k, eq_iff j n, eq_iff k n)

or_else_assoc : {A : Type 0} (a b c : Option A) → or_else a (or_else b c) ≡ or_else (or_else a b) c
or_else_assoc none b c = refl
or_else_assoc (some x) b c = refl

or_else_self : {A : Type 0} (a : Option A) → or_else a a ≡ a
or_else_self none = refl
or_else_self (some x) = refl

or_else-none : {A : Type 0} (a : Option A) → or_else a none ≡ a
or_else-none none = refl
or_else-none (some x) = refl

or_else-if :
    {A : Type 0} (b : Bool) (a : A) (d : Option A)
    → or_else (if b then some a else none) d ≡ (if b then some a else d)
or_else-if true a d = refl
or_else-if false a d = refl

-- One round of the loop over the overrides.
abbrev add_override : String → PrometheusRule → Overrides → Overrides
add_override group o m =
    if str_eq o.group group
    then (if not (str_eq o.alert "")
        then put o.alert o m
        else if not (str_eq o.record_name "")
        then put o.record_name o m
        else m)
    else m

lookup-add_override :
    (group n : String) (o : PrometheusRule) (m : Overrides)
    → lookup n (add_override group o m) ≡ (if is_for group n o then some o else lookup n m)
lookup-add_override group n o m = elim (Bool-cases (str_eq o.group group)) [
  | inr elsewhere ↦ rw elsewhere refl
  | inl here ↦ elim (Bool-cases (str_eq o.alert "")) [
    | inr alert ↦ rw (here, alert, alert) (lookup-put o.alert n o m)
    | inl no_alert ↦ elim (Bool-cases (str_eq o.record_name "")) [
      | inr recorded ↦ rw (here, no_alert, recorded) (lookup-put o.record_name n o m)
      | inl unnamed ↦ rw (here, no_alert, unnamed) refl
    ]
  ]
]

lookup-add_overrides :
    (group n : String) (os : List PrometheusRule) (m : Overrides)
    → lookup n (add_overrides group os m) ≡ or_else (last_override group n os) (lookup n m)
unfolding add_overrides last_override
lookup-add_overrides group n [] m = refl
lookup-add_overrides group n (o ∷ os) m =
    lookup-add_overrides group n os (add_override group o m)
    ∙ ap (or_else (last_override group n os))
        (lookup-add_override group n o m ∙ sym (or_else-if (is_for group n o) o (lookup n m)))
    ∙ or_else_assoc (last_override group n os) _ (lookup n m)

-- Each override that the map has for a group is the last one of its name.
pub record HasLast (os : List PrometheusRule) (config : List (String × Overrides)) : Type 0 where
  pub at :
      (group : String) (m : Overrides)
      → lookup group config ≡ some m
      → (n : String) → lookup n m ≡ last_override group n os

or_empty-last :
    (os : List PrometheusRule) (group n : String) (found : Option Overrides)
    → ((m : Overrides) → found ≡ some m → lookup n m ≡ last_override group n os)
    → or_else (last_override group n os) (lookup n (or_empty found)) ≡ last_override group n os
or_empty-last os group n none h = or_else-none (last_override group n os)
or_empty-last os group n (some m) h =
    ap (or_else (last_override group n os)) (h m refl) ∙ or_else_self (last_override group n os)

-- One round of the loop over the chosen groups.
abbrev add_group :
    List PrometheusRule → String → List (String × Overrides) → List (String × Overrides)
add_group os group config =
    put group (add_overrides group os (or_empty (lookup group config))) config

some-inj : {A : Type 0} {a b : A} → some a ≡ some b → a ≡ b
some-inj h = ground arith

add_group-HasLast :
    (os : List PrometheusRule) (group : String) (config : List (String × Overrides))
    → HasLast os config
    → HasLast os (add_group os group config)
add_group-HasLast os group config has = record {
  at = λ g m found n.
      let looked = sym (lookup-put group g _ config) ∙ found in
      elim (Bool-cases (str_eq group g)) [
        | inl same ↦
            let e : group ≡ g = (eq_iff group g).0 same in
            subst (λ j. lookup n m ≡ last_override j n os) e
              (ap (lookup n) (sym (some-inj (rw same at looked)))
                ∙ lookup-add_overrides group n os (or_empty (lookup group config))
                ∙ or_empty-last os group n (lookup group config) (λ c h. has.at group c h n))
        | inr other ↦ has.at g m (rw other at looked) n
      ];
}

add_groups-HasLast :
    (restricted : String → Bool) (os : List PrometheusRule) (groups : List String)
    (config : List (String × Overrides))
    → HasLast os config
    → HasLast os (add_groups restricted os groups config)
unfolding add_groups
add_groups-HasLast restricted os [] config has = has
add_groups-HasLast restricted os (g ∷ gs) config has = elim (Bool-cases (restricted g)) [
  | inl out ↦ rw out (add_groups-HasLast restricted os gs config has)
  | inr stays ↦ rw stays (add_groups-HasLast restricted os gs _ (add_group-HasLast os g config has))
]

pub config-HasLast :
    (cloud : String) (pr : PrometheusRules)
    → HasLast pr.override (prepare_override_config_map cloud pr)
unfolding prepare_override_config_map
config-HasLast cloud pr =
    add_groups-HasLast _ pr.override _ [] (record { at = λ g m h n. absurd (ground (arith, h)) })

pub last_override-unnamed :
    (group : String) (os : List PrometheusRule) (n : String)
    → str_eq n "" ≡ true
    → last_override group n os ≡ none
unfolding last_override
last_override-unnamed group [] n h = refl
last_override-unnamed group (o ∷ os) n h = ground (
  arith,
  last_override-unnamed group os n h,
  (eq_iff n "").0 h,
  eq_iff (rule_name o.alert o.record_name) n,
)
