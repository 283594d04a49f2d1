-- ===== src/PrometheusRules/Runs.antt =====
-- The outcome of `Run` of the reconciler of the Prometheus rules.
use qubership_monitoring_ope.Prelude.{
  ◌≡◌, refl, sym, ap, ◌∙◌, arith, true, false, List, Option, none, some,
}
use mathlib.Core.Path.{subst}
use qubership_monitoring_ope.Api.{Labels, PlatformMonitoring, PrometheusRules}
use qubership_monitoring_ope.Exec.{Outcome, err, ok, panic, logged}
use qubership_monitoring_ope.Exec.Rules.{Ensures, IsOk-ok}
use qubership_monitoring_ope.Cluster.{FieldPath, Kind, Object, is_prefix, key}
use qubership_monitoring_ope.Reconciler.Fields.{spec}
use qubership_monitoring_ope.Reconciler.Kinds.{OfKind}
use qubership_monitoring_ope.Reconciler.{Env}
use qubership_monitoring_ope.Reconciler.Merge.{and_then, covers, merge_fields-Carries, with_labels}
use qubership_monitoring_ope.Reconciler.Frame.{IsLawfulEnv}
use qubership_monitoring_ope.Reconciler.Settle.{Settled, create_or_update-Settles}
use qubership_monitoring_ope.Reconciler.Wanted.{IsHealthy, Removed, logged_delete-Ensures}
use qubership_monitoring_ope.PrometheusRules.Groups.{
  is_kept, keep_names, names, prometheus_rules_groups-names,
}
use qubership_monitoring_ope.PrometheusRules.{RuleGroup, bind, prometheus_rules_groups}
use qubership_monitoring_ope.PrometheusRules.Handlers.{
  Asset, Decoded, complete, set_spec, with_groups, delete_prometheus_rules, rules_labels,
  handle_prometheus_rules, labelled_rules, prometheus_rules, rules_fields, run, wants_rules,
}

bind-ok :
    {A B : Type 0} (x : Outcome A) (f : A → Outcome B) (b : B)
    → bind x f ≡ ok b
    → (a : A) × (x ≡ ok a) × (f a ≡ ok b)
unfolding bind
bind-ok (ok a) f b h = (a, refl, h)
bind-ok (err e) f b h = cc
bind-ok panic f b h = cc

ok-inj : {V : Type 0} {a b : Object V} → ok a ≡ ok b → a ≡ b
ok-inj h = ground arith

prometheus_rules-OfKind :
    {V : Type 0} (env : Env V) (asset : Asset V) (cr : PlatformMonitoring)
    → OfKind Kind.prometheus_rule (prometheus_rules env asset cr)
unfolding prometheus_rules complete
prometheus_rules-OfKind env asset cr = record {
  at = λ m h.
      let (body, made, completed) = bind-ok _ (λ x. ok (complete cr x)) m h in
      ap (λ (x : Object _). x.kind) (sym (ok-inj completed));
}

module _ {V : Type 0} (env : Env V) (asset : Asset V) (cr : PlatformMonitoring) where
  run-handle :
      wants_rules cr.spec.prometheus_rules ≡ true
      → handle_prometheus_rules env asset cr ≡ run env asset cr
  unfolding run
  run-handle h = rw h refl

  run-delete :
      wants_rules cr.spec.prometheus_rules ≡ false
      → logged (delete_prometheus_rules env asset cr) ≡ run env asset cr
  unfolding run
  run-delete h = rw h refl

  handle-Ensures :
      IsLawfulEnv env
      → Ensures
          (Settled env (labelled_rules env asset cr) rules_fields)
          (handle_prometheus_rules env asset cr)
  unfolding handle_prometheus_rules
  handle-Ensures law = create_or_update-Settles env law cr _ _ _ (merge_fields-Carries rules_fields)

  delete-Ensures :
      IsLawfulEnv env
      → IsHealthy env Kind.prometheus_rule
      → Ensures
          (Removed env (prometheus_rules env asset cr))
          (logged (delete_prometheus_rules env asset cr))
  unfolding delete_prometheus_rules
  delete-Ensures law healthy =
      logged_delete-Ensures env law Kind.prometheus_rule _ healthy
        (prometheus_rules-OfKind env asset cr)

and_then-ok :
    {V : Type 0} (x : Outcome (Object V)) (f : Object V → Outcome (Object V)) (o : Object V)
    → and_then x f ≡ ok o
    → (m : Object V) × (x ≡ ok m) × (f m ≡ ok o)
unfolding and_then
and_then-ok (ok m) f o h = (m, refl, h)
and_then-ok (err e) f o h = cc
and_then-ok panic f o h = cc

with_labels-field :
    {V : Type 0} (m : Object V) (f : Labels → Labels) (ls : Option Labels) (o : Object V)
    → with_labels m f ls ≡ ok o
    → (p : FieldPath) → m.field p ≡ o.field p
unfolding with_labels
with_labels-field m f none o h p = cc
with_labels-field m f (some ls) o h p = ap (λ (x : Object _). x.field p) (ok-inj h)

with_labels-key :
    {V : Type 0} (m : Object V) (f : Labels → Labels) (ls : Option Labels) (o : Object V)
    → with_labels m f ls ≡ ok o
    → key o ≡ key m
unfolding with_labels
with_labels-key m f none o h = cc
with_labels-key m f (some ls) o h = ap key (sym (ok-inj h))

rules_labels-key :
    {V : Type 0} (cr : PlatformMonitoring) (m o : Object V)
    → rules_labels cr m ≡ ok o
    → key o ≡ key m
unfolding rules_labels
rules_labels-key cr m o h = with_labels-key m _ m.labels o h

rules_labels-field :
    {V : Type 0} (cr : PlatformMonitoring) (m o : Object V)
    → rules_labels cr m ≡ ok o
    → (p : FieldPath) → m.field p ≡ o.field p
unfolding rules_labels
rules_labels-field cr m o h p = with_labels-field m _ m.labels o h p

spec_covered : (q : FieldPath) → covers rules_fields q ≡ true → is_prefix spec q ≡ true
unfolding covers
spec_covered q h = ground arith

set_spec-field :
    {V : Type 0} (value : FieldPath → V) (m : Object V) (q : FieldPath)
    → covers rules_fields q ≡ true
    → (set_spec value m).field q ≡ value q
set_spec-field value m q h = rw (spec_covered q h) refl

-- The groups that the section leaves of those of the asset are published: the cluster has the
-- object of the rules under the name of the asset and in the namespace of the custom resource, with
-- its labels, and the fields of its spec are those of these groups.
pub record Published {V : Type 0} (env : Env V) (asset : Asset V) (cr : PlatformMonitoring)
    (pr : PrometheusRules) (s : env.client.Cluster) : Type 0 where
  pub decoded : Decoded V
  pub kept : List RuleGroup
  pub manifest : Object V
  pub stored : Object V
  pub asset_decoded : asset.decoded ≡ ok decoded
  pub selected :
      prometheus_rules_groups cr.spec.public_cloud_name pr cr.spec.alert_manager decoded.groups
      ≡ ok kept
  pub chosen :
      names kept
      ≡ keep_names (is_kept cr.spec.public_cloud_name pr cr.spec.alert_manager) decoded.groups
  pub labelled : labelled_rules env asset cr ≡ ok manifest
  pub read :
      env.client.get
        (record {
          kind = Kind.prometheus_rule;
          namespace = cr.namespace;
          name = decoded.object.name;
        })
        s
      ≡ ok stored
  pub labels : stored.labels ≡ manifest.labels
  pub field : (q : FieldPath) → covers rules_fields q ≡ true → stored.field q ≡ asset.value kept q

module _ {V : Type 0} (env : Env V) (asset : Asset V) (cr : PlatformMonitoring)
    (pr : PrometheusRules) where
  with_groups-ok :
      (d : Decoded V) (m : Object V)
      → with_groups asset cr (some pr) d ≡ ok m
      → (kept : List RuleGroup) × (prometheus_rules_groups cr.spec.public_cloud_name pr
            cr.spec.alert_manager d.groups
          ≡ ok kept)
        × (m ≡ set_spec (asset.value kept) d.object)
  unfolding with_groups
  with_groups-ok d m h =
      let (kept, selected, object) =
        bind-ok _ (λ gs. ok (set_spec (asset.value gs) d.object)) m h in
      (kept, selected, sym (ok-inj object))

  Settled-Published :
      cr.spec.prometheus_rules ≡ some pr
      → (s : env.client.Cluster) → Settled env (labelled_rules env asset cr) rules_fields s
      → Published env asset cr pr s
  unfolding prometheus_rules complete
  Settled-Published section s settled =
      let (m, built, marked) =
        and_then-ok (prometheus_rules env asset cr) (rules_labels cr) settled.object
          settled.built in
      let (body, made, completed) =
        bind-ok (bind asset.decoded (with_groups asset cr cr.spec.prometheus_rules))
          (λ x. ok (complete cr x)) m built in
      let (d, read, filled) =
        bind-ok asset.decoded (with_groups asset cr cr.spec.prometheus_rules) body made in
      let (kept, selected, object) =
        with_groups-ok d body (ap (λ o. with_groups asset cr o d) (sym section) ∙ filled) in
      let whole : m ≡ complete cr (set_spec (asset.value kept) d.object) =
        sym (ok-inj completed) ∙ ap (complete cr) object in
      record {
        decoded = d;
        kept = kept;
        manifest = settled.object;
        stored = settled.converged.object;
        asset_decoded = read;
        selected = selected;
        chosen =
            prometheus_rules_groups-names cr.spec.public_cloud_name pr cr.spec.alert_manager
              d.groups kept selected;
        labelled = settled.built;
        read =
            ap (λ j. env.client.get j s)
              (sym (rules_labels-key cr m settled.object marked ∙ ap key whole))
            ∙ settled.converged.read;
        labels = settled.converged.labels;
        field = λ q below.
            settled.converged.field q below
            ∙ sym (rules_labels-field cr m settled.object marked q)
            ∙ ap (λ (x : Object V). x.field q) whole
            ∙ set_spec-field (asset.value kept) d.object q below;
      }

-- With a lawful client, if the section is to be installed and names a group, and `Run` returns no
-- error, then the cluster has the rules object under the name of the asset, with the labels of its
-- manifest, and the fields of its spec are those of the groups that `prometheusRules` selects and
-- overrides: the groups of the asset that the section chooses, but for those that the cloud hides
-- and for that of an AlertManager that is not to be installed.
pub converges_rules :
    {V : Type 0} (env : Env V) (asset : Asset V) (cr : PlatformMonitoring)
    → IsLawfulEnv env
    → (pr : PrometheusRules) → cr.spec.prometheus_rules ≡ some pr
    → wants_rules (some pr) ≡ true
    → (s : env.client.Cluster) → (run env asset cr s).0 ≡ ok tt
    → Published env asset cr pr (run env asset cr s).1
converges_rules env asset cr law pr section wanted s done =
    Settled-Published env asset cr pr section _ (
      (subst (Ensures (Settled env (labelled_rules env asset cr) rules_fields))
          (run-handle env asset cr (ap wants_rules section ∙ wanted))
          (handle-Ensures env asset cr law)).at
        s (IsOk-ok _ done))

-- With a lawful client that is healthy for the kind of the rules object, if the section is missing,
-- is not to be installed or names no group, and `Run` returns no error, then the cluster is without
-- the rules object, where that can be built.
pub clears_rules :
    {V : Type 0} (env : Env V) (asset : Asset V) (cr : PlatformMonitoring)
    → IsLawfulEnv env
    → IsHealthy env Kind.prometheus_rule
    → wants_rules cr.spec.prometheus_rules ≡ false
    → (s : env.client.Cluster) → (run env asset cr s).0 ≡ ok tt
    → Removed env (prometheus_rules env asset cr) (run env asset cr s).1
clears_rules env asset cr law healthy unwanted s done =
    (subst (Ensures (Removed env (prometheus_rules env asset cr)))
        (run-delete env asset cr unwanted) (delete-Ensures env asset cr law healthy)).at
      s (IsOk-ok _ done)
