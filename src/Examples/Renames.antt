-- ===== src/Examples/Renames.antt =====
-- Objects of the VMSingle component whose name has changed, and the `uninstall` that stops early.
use qubership_monitoring_ope.Prelude.{◌≡◌, ◌≢◌, ℕ, [], ◌∷◌, ◌∙◌, refl, sym, ap, false}
use qubership_monitoring_ope.Prelude.Text.{bytes}
use qubership_monitoring_ope.Exec.{
  not_found, ok, ◌>>◌, ◌>>=◌, continue, pure, lift, call, logged, swallow, raise, is_not_found,
}
use qubership_monitoring_ope.Cluster.{Kind, Object, key}
use qubership_monitoring_ope.Cluster.Keys.{same_key, same_key_refl}
use qubership_monitoring_ope.Api.Install.{installs_vm_component}
use qubership_monitoring_ope.Cluster.Memory.{read, create_in, delete_in, answer, created, deleted}
use qubership_monitoring_ope.Reconciler.{
  create_resource, delete_resource, adopt, owned, set_reference,
}
use qubership_monitoring_ope.Reconciler.Fields.{spec}
use qubership_monitoring_ope.Reconciler.Merge.{merge_fields, merge_fields-Carries}
use qubership_monitoring_ope.Reconciler.Converge.{Absent, Converged}
use qubership_monitoring_ope.Reconciler.Replace.{
  create_or_replace, create_or_replace_renames, drop_former, replace,
}
use qubership_monitoring_ope.Victoriametrics.VmSingle.{former_vm_single, run}
use qubership_monitoring_ope.Victoriametrics.VmSingle.Stops.{run_stops_early}
use qubership_monitoring_ope.Examples.World.{
  env, env-IsHealthy, env-IsLawfulEnv, no_sections, object,
}
use qubership_monitoring_ope.Examples.Stack.{stack, with_stack}
use qubership_monitoring_ope.Examples.VmSingleRun.{manifests, manifests-IsKinded}

-- A cluster with the VMSingle resource under the name that it had before.
abbrev former_object : Object ℕ
former_object = record (object Kind.vm_single 3) { name = bytes "vmsingle" }

other_key : same_key (former_vm_single no_sections) (key (object Kind.vm_single 4)) ≡ false
other_key = refl

renamed : former_vm_single no_sections ≢ key (object Kind.vm_single 4)
renamed e = cc (
    sym other_key
    ∙ ap (λ j. same_key j (key (object Kind.vm_single 4))) e
    ∙ same_key_refl (key (object Kind.vm_single 4)))

create_or_replace_renames_example :
    Converged env
      (object Kind.vm_single 4)
      (spec ∷ [])
      (create_or_replace env no_sections
        (former_vm_single no_sections)
        (ok (object Kind.vm_single 4))
        (merge_fields (spec ∷ []))
        (former_object ∷ [])).1
    × Absent env
        (former_vm_single no_sections)
        (create_or_replace env no_sections
          (former_vm_single no_sections)
          (ok (object Kind.vm_single 4))
          (merge_fields (spec ∷ []))
          (former_object ∷ [])).1
unfolding create_or_replace replace drop_former ◌>>◌ ◌>>=◌ continue pure lift call logged swallow
    raise is_not_found create_resource delete_resource adopt owned set_reference read create_in
    delete_in answer created deleted
create_or_replace_renames_example =
    create_or_replace_renames env env-IsLawfulEnv no_sections (former_vm_single no_sections)
      (object Kind.vm_single 4) (spec ∷ []) (merge_fields (spec ∷ []))
      (merge_fields-Carries (spec ∷ [])) (env-IsHealthy Kind.vm_single) renamed (former_object ∷ [])
      (record {
        error = record { reason = not_found; message = "not found" };
        read = refl;
        missing = refl;
      })
      tt

-- The ingress of a component whose VMSingle resource is gone.
run_stops_early_example :
    env.client.get
      (key (object Kind.ingress_v1 6))
      (run env manifests (with_stack (stack false)) (object Kind.ingress_v1 6 ∷ [])).1
    ≡ env.client.get (key (object Kind.ingress_v1 6)) (object Kind.ingress_v1 6 ∷ [])
unfolding read answer installs_vm_component
run_stops_early_example =
    run_stops_early env manifests (with_stack (stack false)) env-IsLawfulEnv
      (manifests-IsKinded (with_stack (stack false))) refl (object Kind.vm_single 4)
      (record { reason = not_found; message = "not found" }) refl (object Kind.ingress_v1 6 ∷ [])
      refl (key (object Kind.ingress_v1 6)) refl
