-- ===== src/Reconciler/Shapes.antt =====
-- What the `Run` and `uninstall` methods of the components share.
use qubership_monitoring_ope.Prelude.{Bool, Option, none, some, if◌then◌else◌}
use qubership_monitoring_ope.Prelude.Text.{Bytes}
use qubership_monitoring_ope.Exec.{Exec, Outcome, logged, panic, pure}
use qubership_monitoring_ope.Cluster.{Object}
use qubership_monitoring_ope.Reconciler.Merge.{set_instance_labels, set_standard_labels}

-- `cr.Spec.X.Image` of a section that is nil panics.
unfoldable pub standard_labels_from : {V : Type 0} → Option Bytes → Object V → Outcome (Object V)
standard_labels_from none m = panic
standard_labels_from (some image) m = set_standard_labels image m

unfoldable pub instance_labels_from : {V : Type 0} → Option Bytes → Object V → Outcome (Object V)
instance_labels_from none m = panic
instance_labels_from (some image) m = set_instance_labels image m

-- `if wanted { if err := handle(cr); err != nil { return err } } else { if err := delete(cr); err !=
-- nil { log } }`
abbrev pub apply_or_remove :
    {S : Type 0} → Bool → Exec S (Unit {0}) → Exec S (Unit {0}) → Exec S (Unit {0})
apply_or_remove wanted handle delete = if wanted then handle else logged delete

-- The branches of a `Run` method: `installed`, then `paused`.
abbrev pub branches :
    {S : Type 0} → Bool → Bool → Exec S (Unit {0}) → Exec S (Unit {0}) → Exec S (Unit {0})
branches installed paused install uninstall =
    if installed then (if paused then pure tt else install) else uninstall
