-- ===== src/Reconciler.antt =====
-- controllers/utils/common.go: the operations of `ComponentReconciler` on one object, and the two
-- shapes in which the handlers of all components compose them.
pub mod Merge
pub mod Fields
pub mod Shapes
pub mod Frame
pub mod Converge
pub mod Kinds
pub mod Settle
pub mod Wanted
pub mod Unreadable
pub mod Replace
pub mod Plan
pub mod Early
use text.Mathlib.Text.{find?}
use qubership_monitoring_ope.Prelude.{
  String, Bool, true, false, ◌||◌, List, [], ◌∷◌, Option, none, some, str_eq, if◌then◌else◌,
}
use qubership_monitoring_ope.Prelude.Text.{Bytes, bytes}
use qubership_monitoring_ope.Api.{Labels, PlatformMonitoring}
use qubership_monitoring_ope.Exec.{
  Error, Exec, Outcome, call, err, is_not_found, lift, ok, panic, pure, raise, ◌>>=◌, ◌>>◌,
}
use qubership_monitoring_ope.Cluster.{Client, FieldPath, Key, Object, copy_fields, key}
use qubership_monitoring_ope.Utils.Discovery.{Discovery}
use qubership_monitoring_ope.Utils.Labels.{get_instance_label, get_tag_from_image, trunc_label}

-- What a component reconciler is given: the client, the discovery client, the flag
-- `utils.PrivilegedRights`, and `controllerutil.SetControllerReference`, which answers with the
-- object that it has marked or with an error.
pub record Env (V : Type 0) : Type 1 where
  pub client : Client V
  pub discovery : Discovery
  pub privileged_rights : Bool
  pub set_controller_reference : PlatformMonitoring → Object V → Outcome (Object V)

-- `strings.Contains`
contains : String → String → Bool
contains s part = elim (find? s part) [ none ↦ false | some i ↦ true ]

-- `true` where the optional argument is left out
unfoldable pub set_reference : List Bool → Bool
set_reference [] = true
set_reference (b ∷ bs) = b

-- The two refusals of `SetControllerReference` that `CreateResource` passes over.
is_cross_scope : Error → Bool
unfolding contains
is_cross_scope e =
    contains e.message "cluster-scoped resource must not have a namespace-scoped owner"
    || contains e.message "cross-namespace owner references are disallowed"

module _ {V : Type 0} (env : Env V) where
  abbrev pub Action : Type 0
  Action = Exec env.client.Cluster (Unit {0})

  unfoldable pub owned : Object V → Outcome (Object V) → Outcome (Object V)
  unfolding is_cross_scope
  owned o (ok o') = ok o'
  owned o (err e) = if is_cross_scope e then ok o else err e
  owned o panic = panic

  unfoldable pub adopt : PlatformMonitoring → Object V → Bool → Outcome (Object V)
  unfolding owned
  adopt cr o true = owned o (env.set_controller_reference cr o)
  adopt cr o false = ok o

  unfoldable pub create_resource : PlatformMonitoring → Object V → List Bool → Action
  unfolding set_reference adopt
  create_resource cr o set_ref_optional = do
    o' ← lift (adopt cr o (set_reference set_ref_optional))
    call (env.client.create o')

  unfoldable pub update_resource : Object V → Action
  update_resource o = call (env.client.update o)

  unfoldable pub delete_resource : Object V → Action
  delete_resource o = call (env.client.delete o)

  -- `GetResource` reads under the name of the object that it is given.
  abbrev pub get_resource : Object V → env.client.Cluster → Outcome (Object V)
  get_resource o s = env.client.get (key o) s

  -- The part of a `handle` method behind `r.GetResource(e)`.
  unfoldable pub store :
      PlatformMonitoring → (Object V → Object V → Object V) → Object V → Outcome (Object V) → Action
  store cr merge m (ok e) = update_resource (merge m e)
  store cr merge m (err x) = if is_not_found x then create_resource cr m [] else raise x
  store cr merge m panic = lift panic

  -- A `handle` method: read the object; create it where it is missing, and otherwise update it with
  -- what `merge` takes over from the manifest.
  unfoldable pub create_or_update :
      PlatformMonitoring → Outcome (Object V) → (Object V → Object V → Object V) → Action
  unfolding store
  create_or_update cr manifest merge = do
    m ← lift manifest
    λ s. store cr merge m (get_resource m s) s

  -- The part of a method that creates an object but never updates it.
  unfoldable pub keep : PlatformMonitoring → Object V → Outcome (Object V) → Action
  keep cr m (ok e) = pure tt
  keep cr m (err x) = if is_not_found x then create_resource cr m [] else raise x
  keep cr m panic = lift panic

  unfoldable pub create_if_missing : PlatformMonitoring → Outcome (Object V) → Action
  unfolding keep
  create_if_missing cr manifest = do m ← lift manifest; λ s. keep cr m (get_resource m s) s

  unfoldable pub discard : Outcome (Object V) → Action
  discard (ok e) = delete_resource e
  discard (err x) = if is_not_found x then pure tt else raise x
  discard panic = lift panic

  -- A `delete` method: read the object, and delete it where it is there.
  unfoldable pub delete_if_found : Outcome (Object V) → Action
  unfolding discard
  delete_if_found manifest = do m ← lift manifest; λ s. discard (get_resource m s) s

  -- The same for an object that is read under a fixed key.
  unfoldable pub delete_under : Key → Action
  unfolding discard
  delete_under k s = discard (env.client.get k s) s
