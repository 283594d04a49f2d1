-- ===== src/Examples/World.antt =====
-- A small cluster, a custom resource and the manifests of the components, for the examples.
use qubership_monitoring_ope.Prelude.{ℕ, ◌≡◌, refl, sym, ap, true, [], ◌∷◌, none, some, arith, List}
use mathlib.Core.Path.{subst}
use qubership_monitoring_ope.Prelude.Text.{bytes}
use qubership_monitoring_ope.Api.{PlatformMonitoring, empty_spec}
use qubership_monitoring_ope.Exec.{Error, Outcome, err, is_not_found, ok, panic}
use qubership_monitoring_ope.Cluster.{Kind, Object, SameContent, key}
use qubership_monitoring_ope.Cluster.Memory.{
  delete_in-accepts, memory, memory-IsLawful, read, read-answers, read-returns,
}
use qubership_monitoring_ope.Utils.Discovery.{Discovery}
use qubership_monitoring_ope.Reconciler.{Env}
use qubership_monitoring_ope.Reconciler.Frame.{IsLawfulEnv}
use qubership_monitoring_ope.Reconciler.Kinds.{OfKind}
use qubership_monitoring_ope.Reconciler.Wanted.{Answers, AreHealthy, IsHealthy}

abbrev pub discovery : Discovery
discovery = record {
  server_groups_and_resources = ok (
      record { group_version = "networking.k8s.io/v1"; kinds = "Ingress" ∷ [] }
      ∷ record { group_version = "route.openshift.io/v1"; kinds = "Route" ∷ [] }
      ∷ []);
  server_version_minor = ok (bytes "27+");
}

abbrev pub env : Env ℕ
env = record {
  client = memory ℕ;
  discovery = discovery;
  privileged_rights = true;
  set_controller_reference = λ cr o. ok o;
}

pub ok-inj : {a b : Object ℕ} → ok a ≡ ok b → a ≡ b
ok-inj h = ground arith

same_content : (a : Object ℕ) → SameContent a a
same_content a = record { labels = refl; annotations = refl; field = λ p. refl }

pub env-IsLawfulEnv : IsLawfulEnv env
env-IsLawfulEnv = record {
  client = memory-IsLawful ℕ;
  reference_key = λ cr o o' h. ap key (sym (ok-inj h));
  reference_content = λ cr o o' h. subst (λ a. SameContent a o) (ok-inj h) (same_content o);
}

answers :
    (o : Outcome (Object ℕ))
    → (o ≡ panic → ⊥)
    → ((e : Error) → o ≡ err e → is_not_found e ≡ true)
    → Answers env o
answers (ok a) returns missing = tt
answers (err e) returns missing = missing e refl
answers panic returns missing = returns refl

pub env-IsHealthy : (κ : Kind) → IsHealthy env κ
env-IsHealthy κ = record {
  get_answers = λ k s of_kind. answers (read k s) (read-returns k s) (read-answers k s);
  delete_accepts = λ o s of_kind. delete_in-accepts o s;
}

pub env-AreHealthy : (kinds : List Kind) → AreHealthy env kinds
env-AreHealthy kinds = record { at = λ κ listed used. env-IsHealthy κ }

-- An object of the kind with one label.
abbrev pub object : Kind → ℕ → Object ℕ
object κ n = record {
  kind = κ;
  namespace = bytes "monitoring";
  name = bytes "component";
  labels = some (("app", bytes "component") ∷ []);
  annotations = none;
  field = λ p. n;
}

pub object-OfKind : (κ : Kind) (n : ℕ) → OfKind κ (ok (object κ n))
object-OfKind κ n = record { at = λ m h. ap (λ (o : Object ℕ). o.kind) (sym (ok-inj h)) }

abbrev pub no_sections : PlatformMonitoring
no_sections = record {
  namespace = bytes "monitoring";
  labels = [];
  annotations = [];
  generation = 1;
  spec = empty_spec;
  conditions = [];
}
