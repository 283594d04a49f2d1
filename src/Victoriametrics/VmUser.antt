-- ===== src/Victoriametrics/VmUser.antt =====
-- controllers/victoriametrics/vmuser: reconciler.go and handlers.go. The manifest of manifest.go,
-- which starts from a YAML asset, is the interface `Manifests`.
pub mod Runs
use qubership_monitoring_ope.Prelude.{Bool, false, ◌&&◌, ◌∷◌, Option, none, some, []}
use mathlib.Core.Option
use qubership_monitoring_ope.Api.{PlatformMonitoring, Victoriametrics}
use qubership_monitoring_ope.Api.Install.{installs_vm_component, installs_vm_user}
use qubership_monitoring_ope.Exec.{Outcome, logged}
use qubership_monitoring_ope.Cluster.{Object}
use qubership_monitoring_ope.Reconciler.{Action, Env, create_or_update, delete_if_found}
use qubership_monitoring_ope.Reconciler.Merge.{merge_fields}
use qubership_monitoring_ope.Reconciler.Shapes.{branches}
use qubership_monitoring_ope.Reconciler.Early.{if_found}
use qubership_monitoring_ope.Reconciler.Fields.{spec}

pub record Manifests (V : Type 0) : Type 0 where
  pub vm_user : PlatformMonitoring → Outcome (Object V)

-- The condition of `Run` on a section that is there, and on any.
abbrev pub wants : Victoriametrics → Bool
wants vm = installs_vm_user vm.vm_user && installs_vm_component vm.vm_auth

abbrev pub is_wanted : Option Victoriametrics → Bool
is_wanted none = false
is_wanted (some vm) = wants vm

module _ {V : Type 0} (env : Env V) (mf : Manifests V) (cr : PlatformMonitoring) where
  unfoldable pub handle_vm_user : Action env
  handle_vm_user = create_or_update env cr (mf.vm_user cr) (merge_fields (spec ∷ []))

  unfoldable pub delete_vm_user : Action env
  delete_vm_user = delete_if_found env (mf.vm_user cr)

  unfoldable pub uninstall_rest : Action env
  uninstall_rest = logged delete_vm_user

  unfoldable pub uninstall : Action env
  unfolding uninstall_rest
  uninstall = if_found env (mf.vm_user cr) uninstall_rest

  unfoldable pub install : Victoriametrics → Action env
  install vm = handle_vm_user

  unfoldable pub run_section : Option Victoriametrics → Action env
  run_section none = uninstall
  run_section (some vm) = branches (wants vm) vm.vm_user.paused (install vm) uninstall

  unfoldable pub run : Action env
  unfolding run_section
  run = run_section cr.spec.victoriametrics
