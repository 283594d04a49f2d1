-- ===== src/Reconciler/Merge.antt =====
-- What the handlers do to a manifest before they store it and to the object that they find.
pub mod Version
use qubership_monitoring_ope.Prelude.{
  String, ◌≡◌, refl, Bool, true, false, ◌||◌, List, [], ◌∷◌, Option, none, some, str_eq, arith,
  if◌then◌else◌, inl, inr, Bool-cases, ◌∙◌, ap,
}
use qubership_monitoring_ope.Prelude.Text.{Bytes}
use qubership_monitoring_ope.Api.{Labels}
use qubership_monitoring_ope.Exec.{Outcome, ok, panic}
use qubership_monitoring_ope.Cluster.{
  FieldPath, Key, Object, copy_field, copy_fields, is_prefix, key,
}
use qubership_monitoring_ope.Utils.Labels.{get_instance_label, get_tag_from_image, trunc_label}

-- `labels[k] = v`
unfoldable pub set_label : String → Bytes → Labels → Labels
set_label k v [] = (k, v) ∷ []
set_label k v ((j, w) ∷ ls) = if str_eq j k then (k, v) ∷ ls else (j, w) ∷ set_label k v ls

-- A write to a nil map panics.
unfoldable pub with_labels :
    {V : Type 0} → Object V → (Labels → Labels) → Option Labels → Outcome (Object V)
with_labels o f none = panic
with_labels o f (some ls) = ok (record o { labels = some (f ls) })

abbrev standard : {V : Type 0} → Bytes → Object V → Labels → Labels
standard image o ls = set_label "app.kubernetes.io/version" (get_tag_from_image image) (
    set_label "app.kubernetes.io/instance" (get_instance_label o.name o.namespace) (
      set_label "app.kubernetes.io/name" (trunc_label o.name)
        (set_label "name" (trunc_label o.name) ls)))

-- The block of a handler that sets the labels name, app.kubernetes.io/name, instance and version.
unfoldable pub set_standard_labels : {V : Type 0} → Bytes → Object V → Outcome (Object V)
unfolding with_labels
set_standard_labels image o = with_labels o (standard image o) o.labels

-- The block that leaves the version out.
unfoldable pub set_named_labels : {V : Type 0} → Object V → Outcome (Object V)
unfolding with_labels
set_named_labels o =
    with_labels o
      (λ ls. set_label "app.kubernetes.io/instance" (get_instance_label o.name o.namespace) (
        set_label "app.kubernetes.io/name" (trunc_label o.name)
          (set_label "name" (trunc_label o.name) ls)))
      o.labels

-- The block that sets instance and version only.
unfoldable pub set_instance_labels : {V : Type 0} → Bytes → Object V → Outcome (Object V)
unfolding with_labels
set_instance_labels image o =
    with_labels o
      (λ ls.
        set_label "app.kubernetes.io/version" (get_tag_from_image image)
          (set_label "app.kubernetes.io/instance" (get_instance_label o.name o.namespace) ls))
      o.labels

-- `if err != nil { return err }` in front of such a block.
unfoldable pub and_then :
    {V : Type 0} → Outcome (Object V) → (Object V → Outcome (Object V)) → Outcome (Object V)
and_then (ok o) f = f o
and_then (Outcome.err e) f = Outcome.err e
and_then panic f = panic

-- `e.SetLabels(m.GetLabels())`, and then the fields.
unfoldable pub merge_fields : {V : Type 0} → List FieldPath → Object V → Object V → Object V
unfolding copy_fields
merge_fields ps m e = copy_fields ps m (record e { labels = m.labels })

-- The same with `e.SetAnnotations(m.GetAnnotations())`.
unfoldable pub merge_annotated : {V : Type 0} → List FieldPath → Object V → Object V → Object V
unfolding copy_fields
merge_annotated ps m e =
    copy_fields ps m (record e { labels = m.labels; annotations = m.annotations })

-- The same with `e.SetName(m.GetName())`.
unfoldable pub merge_named : {V : Type 0} → List FieldPath → Object V → Object V → Object V
unfolding copy_fields
merge_named ps m e = copy_fields ps m (record e { labels = m.labels; name = m.name })

-- The path lies below one of the listed fields.
unfoldable pub covers : List FieldPath → FieldPath → Bool
covers [] q = false
covers (p ∷ ps) q = is_prefix p q || covers ps q

-- What every merge owes to the manifest: its labels and the listed fields, on the object of the key
-- that was read.
pub record Carries {V : Type 0} (ps : List FieldPath) (merge : Object V → Object V → Object V)
    : Type 0 where
  pub on_key : (m e : Object V) → key e ≡ key m → key (merge m e) ≡ key m
  pub on_labels : (m e : Object V) → (merge m e).labels ≡ m.labels
  pub on_field :
      (m e : Object V) (q : FieldPath) → covers ps q ≡ true → (merge m e).field q ≡ m.field q

module _ {V : Type 0} (m : Object V) where
  copy_fields-labels : (ps : List FieldPath) (e : Object V) → (copy_fields ps m e).labels ≡ e.labels
  unfolding copy_fields
  copy_fields-labels [] e = refl
  copy_fields-labels (p ∷ ps) e = copy_fields-labels ps (copy_field p m e)

  copy_fields-key : (ps : List FieldPath) (e : Object V) → key (copy_fields ps m e) ≡ key e
  unfolding copy_fields
  copy_fields-key [] e = refl
  copy_fields-key (p ∷ ps) e = copy_fields-key ps (copy_field p m e)

  -- A field that agrees with the manifest goes on agreeing.
  copy_fields-agree :
      (ps : List FieldPath) (e : Object V) (q : FieldPath)
      → e.field q ≡ m.field q
      → (copy_fields ps m e).field q ≡ m.field q
  unfolding copy_fields
  copy_fields-agree [] e q h = h
  copy_fields-agree (p ∷ ps) e q h = copy_fields-agree ps (copy_field p m e) q (ground arith)

  copy_fields-covers :
      (ps : List FieldPath) (e : Object V) (q : FieldPath)
      → covers ps q ≡ true
      → (copy_fields ps m e).field q ≡ m.field q
  unfolding copy_fields covers
  copy_fields-covers [] e q h = cc
  copy_fields-covers (p ∷ ps) e q h = elim (Bool-cases (is_prefix p q)) [
    | inl below ↦ copy_fields-agree ps (copy_field p m e) q (rw below)
    | inr beside ↦ copy_fields-covers ps (copy_field p m e) q (rw beside at h)
  ]

module _ {V : Type 0} (ps : List FieldPath) where
  pub merge_fields-Carries : Carries ps (merge_fields {V = V} ps)
  unfolding merge_fields
  merge_fields-Carries = record {
    on_key = λ m e h. copy_fields-key m ps _ ∙ h;
    on_labels = λ m e. copy_fields-labels m ps _;
    on_field = λ m e q h. copy_fields-covers m ps _ q h;
  }

  pub merge_annotated-Carries : Carries ps (merge_annotated {V = V} ps)
  unfolding merge_annotated
  merge_annotated-Carries = record {
    on_key = λ m e h. copy_fields-key m ps _ ∙ h;
    on_labels = λ m e. copy_fields-labels m ps _;
    on_field = λ m e q h. copy_fields-covers m ps _ q h;
  }

  pub merge_named-Carries : Carries ps (merge_named {V = V} ps)
  unfolding merge_named
  merge_named-Carries = record {
    on_key = λ m e h. copy_fields-key m ps _ ∙ ap (λ (j : Key). record j { name = m.name }) h;
    on_labels = λ m e. copy_fields-labels m ps _;
    on_field = λ m e q h. copy_fields-covers m ps _ q h;
  }
