-- ===== src/Reconciler/Merge/Version.antt =====
-- The version label that the handlers give their objects.
use qubership_monitoring_ope.Prelude.{
  String, ◌≡◌, refl, ◌∙◌, ap, false, [], ◌∷◌, ◌++◌, some, str_eq, eq_iff, inl, inr, Bool-cases,
}
use qubership_monitoring_ope.Prelude.Text.{Bytes}
use qubership_monitoring_ope.Api.{Labels}
use qubership_monitoring_ope.Exec.{ok}
use qubership_monitoring_ope.Cluster.{Object}
use qubership_monitoring_ope.Utils.Labels.Tags.{get_tag_from_image-append, has_colon}
use qubership_monitoring_ope.KubernetesMonitors.Choice.{lookup}
use qubership_monitoring_ope.Reconciler.Merge.{
  set_instance_labels, set_label, set_standard_labels, with_labels,
}

pub lookup-set_label : (k : String) (v : Bytes) (ls : Labels) → lookup k (set_label k v ls) ≡ some v
unfolding set_label
lookup-set_label k v [] = rw ((eq_iff k k).1 refl) refl
lookup-set_label k v ((j, w) ∷ ls) = elim (Bool-cases (str_eq j k)) [
  | inl same ↦ rw (same, (eq_iff k k).1 refl) refl
  | inr other ↦ rw (other, other) (lookup-set_label k v ls)
]

-- An object that has labels gets, for the image `p:t` where `t` has no colon, the version label `t`
-- as it stands, however long it is, from the block of a handler that sets all standard labels and
-- from the block that sets instance and version only.
pub version_label_uncut :
    {V : Type 0} (p t : Bytes) (o : Object V) (ls : Labels)
    → has_colon t ≡ false
    → o.labels ≡ some ls
    → ((m : Object V) × (set_standard_labels (p ++ b':' ∷ t) o ≡ ok m)
        × ((ms : Labels) × (m.labels ≡ some ms) × (lookup "app.kubernetes.io/version" ms ≡ some t)))
      × ((m : Object V) × (set_instance_labels (p ++ b':' ∷ t) o ≡ ok m)
          × ((ms : Labels) × (m.labels ≡ some ms)
              × (lookup "app.kubernetes.io/version" ms ≡ some t)))
unfolding set_standard_labels set_instance_labels with_labels
version_label_uncut p t o ls plain there =
    let tag = get_tag_from_image-append p t plain in
    rw there (
      (_, refl, (_, refl, lookup-set_label "app.kubernetes.io/version" _ _ ∙ ap some tag)),
      (_, refl, (_, refl, lookup-set_label "app.kubernetes.io/version" _ _ ∙ ap some tag)),
    )
