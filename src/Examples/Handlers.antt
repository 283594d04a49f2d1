-- ===== src/Examples/Handlers.antt =====
-- The handlers of one object on the small cluster.
use qubership_monitoring_ope.Prelude.{ℕ, ◌≡◌, ◌≢◌, ◌∙◌, refl, sym, ap}
use qubership_monitoring_ope.Exec.{ok}
use qubership_monitoring_ope.Exec.Rules.{Ensures, Keeps}
use qubership_monitoring_ope.Cluster.{Key, Kind, Object, key}
use qubership_monitoring_ope.Cluster.Keys.{kinds_differ}
use qubership_monitoring_ope.Reconciler.{create_or_update, delete_if_found}
use qubership_monitoring_ope.Reconciler.Merge.{merge_fields, merge_fields-Carries}
use qubership_monitoring_ope.Reconciler.Fields.{service_fields}
use qubership_monitoring_ope.Reconciler.Frame.{Reads, create_or_update-Keeps}
use qubership_monitoring_ope.Reconciler.Converge.{
  Absent, Converged, create_or_update-Ensures, delete_if_found-Ensures,
}
use qubership_monitoring_ope.Examples.World.{env, env-IsLawfulEnv, no_sections, object, ok-inj}

abbrev service : Object ℕ
service = object Kind.service 1

abbrev secret_key : Key
secret_key = key (object Kind.secret 2)

apart : (m : Object ℕ) → ok service ≡ ok m → secret_key ≢ key m
apart m built same =
    kinds_differ Kind.secret Kind.service refl
      (ap (λ (k : Key). k.kind) same ∙ ap (λ (o : Object ℕ). o.kind) (sym (ok-inj built)))

create_or_update-Ensures_example :
    Ensures
      (Converged env service service_fields)
      (create_or_update env no_sections (ok service) (merge_fields service_fields))
create_or_update-Ensures_example =
    create_or_update-Ensures env env-IsLawfulEnv no_sections (ok service) service service_fields
      (merge_fields service_fields) (merge_fields-Carries service_fields) refl

create_or_update-Keeps_example :
    Keeps
      (Reads env secret_key (ok (object Kind.secret 2)))
      (create_or_update env no_sections (ok service) (merge_fields service_fields))
create_or_update-Keeps_example =
    create_or_update-Keeps env env-IsLawfulEnv secret_key (ok (object Kind.secret 2)) no_sections
      (ok service) service_fields (merge_fields service_fields)
      (merge_fields-Carries service_fields) apart

delete_if_found-Ensures_example :
    Ensures (Absent env (key service)) (delete_if_found env (ok service))
delete_if_found-Ensures_example =
    delete_if_found-Ensures env env-IsLawfulEnv (ok service) service refl
