-- ===== src/Examples/Version.antt =====
-- The version label of an image that is named by its digest.
use qubership_monitoring_ope.Prelude.{ℕ, ◌≡◌, refl, [], ◌∷◌, ◌++◌, some}
use qubership_monitoring_ope.Prelude.Text.{Bytes, bytes}
use qubership_monitoring_ope.Api.{Labels}
use qubership_monitoring_ope.Exec.{ok}
use qubership_monitoring_ope.Cluster.{Kind, Object}
use qubership_monitoring_ope.Utils.Labels.Tags.{has_colon}
use qubership_monitoring_ope.KubernetesMonitors.Choice.{lookup}
use qubership_monitoring_ope.Reconciler.Merge.{set_instance_labels, set_standard_labels}
use qubership_monitoring_ope.Reconciler.Merge.Version.{version_label_uncut}
use qubership_monitoring_ope.Examples.World.{object}

-- The digits of a digest.
abbrev digest : Bytes
digest = bytes "0123456789abcdef0123456789abcdef0123456789abcdef0123456789abcdef"

abbrev service : Object ℕ
service = object Kind.service 1

version_label_uncut_example :
    ((m : Object ℕ) × (set_standard_labels (bytes "app@sha256" ++ b':' ∷ digest) service ≡ ok m)
      × ((ms : Labels) × (m.labels ≡ some ms)
          × (lookup "app.kubernetes.io/version" ms ≡ some digest)))
    × ((m : Object ℕ) × (set_instance_labels (bytes "app@sha256" ++ b':' ∷ digest) service ≡ ok m)
        × ((ms : Labels) × (m.labels ≡ some ms)
            × (lookup "app.kubernetes.io/version" ms ≡ some digest)))
version_label_uncut_example =
    version_label_uncut (bytes "app@sha256") digest service (("app", bytes "component") ∷ [])
      (unfold has_colon in refl) refl
