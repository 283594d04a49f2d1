-- ===== src/Victoriametrics/VmSingle.antt =====
-- controllers/victoriametrics/vmsingle: reconciler.go and handlers.go. The manifests of
-- manifest.go, which start from YAML assets, are the interface `Manifests`.
pub mod Steps
pub mod Runs
pub mod Stops
use qubership_monitoring_ope.Prelude.{Bool, false, not, ◌&&◌, ◌∷◌, ◌++◌, Option, none, some, []}
use mathlib.Core.Option
use qubership_monitoring_ope.Prelude.Text.{Bytes, bytes}
use qubership_monitoring_ope.Api.{PlatformMonitoring, Victoriametrics}
use qubership_monitoring_ope.Api.Install.{installs_vm_component, installs_vm_cluster, wants_ingress}
use qubership_monitoring_ope.Exec.{Outcome, logged, when, ◌>>◌}
use qubership_monitoring_ope.Cluster.{Key, Kind, Object}
use qubership_monitoring_ope.Utils.Discovery.{
  has_ingress_v1_api, has_ingress_v1beta1_api, has_pod_security_policy_api,
  has_security_context_constraints_api,
}
use qubership_monitoring_ope.Reconciler.{Action, Env, create_or_update, delete_if_found}
use qubership_monitoring_ope.Reconciler.Merge.{and_then, merge_annotated, merge_fields, merge_named}
use qubership_monitoring_ope.Reconciler.Shapes.{apply_or_remove, branches, standard_labels_from}
use qubership_monitoring_ope.Reconciler.Replace.{create_or_replace}
use qubership_monitoring_ope.Reconciler.Early.{if_found}
use qubership_monitoring_ope.Reconciler.Fields.{ingress_fields, rules, spec}

pub record Manifests (V : Type 0) : Type 0 where
  pub service_account : PlatformMonitoring → Outcome (Object V)
  pub cluster_role : PlatformMonitoring → Bool → Bool → Outcome (Object V)
  pub cluster_role_binding : PlatformMonitoring → Outcome (Object V)
  pub vm_single : PlatformMonitoring → Outcome (Object V)
  pub ingress_v1beta1 : PlatformMonitoring → Outcome (Object V)
  pub ingress_v1 : PlatformMonitoring → Outcome (Object V)

abbrev pub image : PlatformMonitoring → Option Bytes
image cr = Option.map (λ (vm : Victoriametrics). vm.vm_single.image) cr.spec.victoriametrics

-- The name that the object had before.
abbrev pub former_vm_single : PlatformMonitoring → Key
former_vm_single cr = record {
  kind = Kind.vm_single;
  namespace = cr.namespace;
  name = bytes "vmsingle";
}

-- The name that the object had before.
abbrev pub former_ingress_v1beta1 : PlatformMonitoring → Key
former_ingress_v1beta1 cr = record {
  kind = Kind.ingress_v1beta1;
  namespace = cr.namespace;
  name = cr.namespace ++ bytes "-vmsingle";
}

-- The name that the object had before.
abbrev pub former_ingress_v1 : PlatformMonitoring → Key
former_ingress_v1 cr = record {
  kind = Kind.ingress_v1;
  namespace = cr.namespace;
  name = cr.namespace ++ bytes "-vmsingle";
}

-- The condition of `Run` on a section that is there, and on any.
abbrev pub wants : Victoriametrics → Bool
wants vm = installs_vm_component vm.vm_single && not (installs_vm_cluster vm.vm_cluster)

abbrev pub is_wanted : Option Victoriametrics → Bool
is_wanted none = false
is_wanted (some vm) = wants vm

module _ {V : Type 0} (env : Env V) (mf : Manifests V) (cr : PlatformMonitoring) where
  abbrev pub cluster_role_manifest : Outcome (Object V)
  cluster_role_manifest =
      mf.cluster_role cr (has_pod_security_policy_api env.discovery)
        (has_security_context_constraints_api env.discovery)

  -- The manifests as the handlers label them.
  abbrev pub labelled_service_account : Outcome (Object V)
  labelled_service_account = and_then (mf.service_account cr) (standard_labels_from (image cr))

  abbrev pub labelled_cluster_role : Outcome (Object V)
  labelled_cluster_role = and_then cluster_role_manifest (standard_labels_from (image cr))

  abbrev pub labelled_cluster_role_binding : Outcome (Object V)
  labelled_cluster_role_binding =
      and_then (mf.cluster_role_binding cr) (standard_labels_from (image cr))

  unfoldable pub handle_service_account : Action env
  handle_service_account = create_or_update env cr labelled_service_account (merge_fields [])

  unfoldable pub handle_cluster_role : Action env
  handle_cluster_role = create_or_update env cr labelled_cluster_role (merge_named (rules ∷ []))

  unfoldable pub handle_cluster_role_binding : Action env
  handle_cluster_role_binding =
      create_or_update env cr labelled_cluster_role_binding (merge_fields [])

  unfoldable pub handle_vm_single : Action env
  handle_vm_single =
      create_or_replace env cr (former_vm_single cr) (mf.vm_single cr) (merge_fields (spec ∷ []))

  unfoldable pub handle_ingress_v1beta1 : Action env
  handle_ingress_v1beta1 =
      create_or_replace env cr (former_ingress_v1beta1 cr) (mf.ingress_v1beta1 cr)
        (merge_annotated ingress_fields)

  unfoldable pub handle_ingress_v1 : Action env
  handle_ingress_v1 =
      create_or_replace env cr (former_ingress_v1 cr) (mf.ingress_v1 cr)
        (merge_annotated ingress_fields)

  unfoldable pub delete_cluster_role : Action env
  delete_cluster_role = delete_if_found env cluster_role_manifest

  unfoldable pub delete_cluster_role_binding : Action env
  delete_cluster_role_binding = delete_if_found env (mf.cluster_role_binding cr)

  unfoldable pub delete_vm_single : Action env
  delete_vm_single = delete_if_found env (mf.vm_single cr)

  unfoldable pub delete_ingress_v1beta1 : Action env
  delete_ingress_v1beta1 = delete_if_found env (mf.ingress_v1beta1 cr)

  unfoldable pub delete_ingress_v1 : Action env
  delete_ingress_v1 = delete_if_found env (mf.ingress_v1 cr)

  unfoldable pub delete_service_account : Action env
  delete_service_account = delete_if_found env (mf.service_account cr)

  -- What `uninstall` does where it finds the main object.
  unfoldable pub uninstall_rest : Action env
  uninstall_rest = do
    logged delete_vm_single
    when (has_ingress_v1beta1_api env.discovery) (logged delete_ingress_v1beta1)
    when (has_ingress_v1_api env.discovery) (logged delete_ingress_v1)
    logged delete_service_account

  unfoldable pub uninstall : Action env
  unfolding uninstall_rest
  uninstall = do
    when env.privileged_rights do logged delete_cluster_role; logged delete_cluster_role_binding
    if_found env (mf.vm_single cr) uninstall_rest

  -- The branch of `Run` for a section that is installed and not paused.
  unfoldable pub install : Victoriametrics → Action env
  install vm = do
    handle_service_account
    when env.privileged_rights do handle_cluster_role; handle_cluster_role_binding
    handle_vm_single
    when (has_ingress_v1beta1_api env.discovery) (
        apply_or_remove
          (wants_ingress vm.vm_single.ingress && not (installs_vm_component vm.vm_auth))
          handle_ingress_v1beta1 delete_ingress_v1beta1)
    when (has_ingress_v1_api env.discovery) (
        apply_or_remove
          (wants_ingress vm.vm_single.ingress && not (installs_vm_component vm.vm_auth))
          handle_ingress_v1 delete_ingress_v1)

  unfoldable pub run_section : Option Victoriametrics → Action env
  run_section none = uninstall
  run_section (some vm) = branches (wants vm) vm.vm_single.paused (install vm) uninstall

  unfoldable pub run : Action env
  unfolding run_section
  run = run_section cr.spec.victoriametrics
