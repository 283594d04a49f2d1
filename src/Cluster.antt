-- ===== src/Cluster.antt =====
-- The Kubernetes API as the controllers use it: objects, and the client of controller-runtime as an
-- interface. The client is not part of the repository: it is a parameter, and `IsLawful` names what
-- the proofs rely on.
pub mod Keys
pub mod Memory
use qubership_monitoring_ope.Prelude.{
  String, ◌≡◌, ◌≢◌, Bool, true, false, ◌&&◌, List, [], ◌∷◌, Option, none, str_eq, if◌then◌else◌,
}
use qubership_monitoring_ope.Prelude.Text.{Bytes}
use qubership_monitoring_ope.Api.{Labels}
use qubership_monitoring_ope.Exec.{Error, Outcome, err, not_found}

-- The group, version and kind of an object.
pub data Kind : Type 0 where
  service_account cluster_role cluster_role_binding : Kind
  service secret persistent_volume_claim : Kind
  deployment daemon_set : Kind
  ingress_v1beta1 ingress_v1 : Kind
  service_monitor pod_monitor prometheus alertmanager prometheus_rule : Kind
  vm_user vm_single vm_agent vm_alert vm_alertmanager vm_auth vm_cluster : Kind
  role role_binding security_context_constraints endpoints config_map : Kind

pub record Key : Type 0 where
  pub kind : Kind
  pub namespace : Bytes
  pub name : Bytes

-- A path of struct fields in an object, such as `Spec.Template.Spec`.
abbrev pub FieldPath : Type 0
FieldPath = List String

abbrev pub is_prefix : FieldPath → FieldPath → Bool
is_prefix [] q = true
is_prefix (f ∷ p) [] = false
is_prefix (f ∷ p) (g ∷ q) = str_eq f g && is_prefix p q

-- `V` is the type of the values at the leaves. A nil map is `none`.
pub record Object (V : Type 0) : Type 0 where
  pub kind : Kind
  pub namespace : Bytes
  pub name : Bytes
  pub labels : Option Labels
  pub annotations : Option Labels
  pub field : FieldPath → V

abbrev pub key : {V : Type 0} → Object V → Key
key o = record { kind = o.kind; namespace = o.namespace; name = o.name }

-- `e.F = m.F` replaces all that lies below the field `F`.
unfoldable pub copy_field : {V : Type 0} → FieldPath → Object V → Object V → Object V
copy_field p m e = record e { field = λ q. if is_prefix p q then m.field q else e.field q }

unfoldable pub copy_fields : {V : Type 0} → List FieldPath → Object V → Object V → Object V
unfolding copy_field
copy_fields [] m e = e
copy_fields (p ∷ ps) m e = copy_fields ps m (copy_field p m e)

-- client.Client: `Get`, `Create`, `Update`, `Delete`. An answer is an error or nil, beside the state
-- of the cluster that the call leaves.
pub record Client (V : Type 0) : Type 1 where
  pub Cluster : Type 0
  pub get : Key → Cluster → Outcome (Object V)
  pub create : Object V → Cluster → Option Error × Cluster
  pub update : Object V → Cluster → Option Error × Cluster
  pub delete : Object V → Cluster → Option Error × Cluster

-- Two objects that carry the same content. What the server adds of its own (uid, resource version,
-- status) is not part of `Object`.
pub record SameContent {V : Type 0} (a b : Object V) : Type 0 where
  pub labels : a.labels ≡ b.labels
  pub annotations : a.annotations ≡ b.annotations
  pub field : (p : FieldPath) → a.field p ≡ b.field p

-- The API server as the proofs take it, simpler than the documented behaviour: there is one writer;
-- what is stored is what was sent, with no admission and no defaults that fill in fields; no object
-- has finalizers, so that an accepted deletion takes effect at once, which does not cover a volume
-- claim that a pod still mounts; and the v1beta1 and the v1 ingress of one name are two objects.
pub record IsLawful {V : Type 0} (c : Client V) : Type 0 where
  -- A stored object is read back under its key.
  pub create_stores :
      (o : Object V) (s : c.Cluster)
      → (c.create o s).0 ≡ none
      → (o' : Object V) × (c.get (key o) (c.create o s).1 ≡ Outcome.ok o') × SameContent o' o
  pub update_stores :
      (o : Object V) (s : c.Cluster)
      → (c.update o s).0 ≡ none
      → (o' : Object V) × (c.get (key o) (c.update o s).1 ≡ Outcome.ok o') × SameContent o' o
  pub delete_removes :
      (o : Object V) (s : c.Cluster)
      → (c.delete o s).0 ≡ none
      → (e : Error) × (c.get (key o) (c.delete o s).1 ≡ err e) × (e.reason ≡ not_found)
  -- A call writes under the key of its object only.
  pub create_frame :
      (o : Object V) (s : c.Cluster) (k : Key) → k ≢ key o → c.get k (c.create o s).1 ≡ c.get k s
  pub update_frame :
      (o : Object V) (s : c.Cluster) (k : Key) → k ≢ key o → c.get k (c.update o s).1 ≡ c.get k s
  pub delete_frame :
      (o : Object V) (s : c.Cluster) (k : Key) → k ≢ key o → c.get k (c.delete o s).1 ≡ c.get k s
  -- A read answers with an object of the key that was asked for.
  pub get_key : (k : Key) (s : c.Cluster) (o : Object V) → c.get k s ≡ Outcome.ok o → key o ≡ k
