-- ===== src/Cluster/Keys.antt =====
-- Keys of objects, compared by computation.
use qubership_monitoring_ope.Prelude.{
  ℕ, zero, suc, ◌≡◌, ◌≢◌, refl, ap, ◌∙◌, sym, Bool, true, false, ◌&&◌, ◌||◌, List, [], ◌∷◌, ◌==◌,
  inl, inr, Bool-cases, ==_iff, arith,
}
use qubership_monitoring_ope.Prelude.Text.{Bytes}
use qubership_monitoring_ope.Cluster.{Key, Kind}

abbrev pub kind_index : Kind → ℕ
kind_index Kind.service_account = 0
kind_index Kind.cluster_role = 1
kind_index Kind.cluster_role_binding = 2
kind_index Kind.service = 3
kind_index Kind.secret = 4
kind_index Kind.persistent_volume_claim = 5
kind_index Kind.deployment = 6
kind_index Kind.daemon_set = 7
kind_index Kind.ingress_v1beta1 = 8
kind_index Kind.ingress_v1 = 9
kind_index Kind.service_monitor = 10
kind_index Kind.pod_monitor = 11
kind_index Kind.prometheus = 12
kind_index Kind.alertmanager = 13
kind_index Kind.prometheus_rule = 14
kind_index Kind.vm_user = 15
kind_index Kind.vm_single = 16
kind_index Kind.vm_agent = 17
kind_index Kind.vm_alert = 18
kind_index Kind.vm_alertmanager = 19
kind_index Kind.vm_auth = 20
kind_index Kind.vm_cluster = 21
kind_index Kind.role = 22
kind_index Kind.role_binding = 23
kind_index Kind.security_context_constraints = 24
kind_index Kind.endpoints = 25
kind_index Kind.config_map = 26

abbrev pub same_kind : Kind → Kind → Bool
same_kind a b = kind_index a == kind_index b

-- The kind is in the list.
abbrev pub has_kind : Kind → List Kind → Bool
has_kind κ [] = false
has_kind κ (μ ∷ ks) = same_kind κ μ || has_kind κ ks

pub kinds_differ : (a b : Kind) → same_kind a b ≡ false → a ≢ b
kinds_differ a b h e = ground arith

nth : ℕ → List Kind → Kind
nth n [] = Kind.service_account
nth zero (k ∷ ks) = k
nth (suc n) (k ∷ ks) = nth n ks

abbrev kind_at : ℕ → Kind
kind_at n = nth n (
    Kind.service_account ∷ Kind.cluster_role ∷ Kind.cluster_role_binding ∷ Kind.service
    ∷ Kind.secret ∷ Kind.persistent_volume_claim ∷ Kind.deployment ∷ Kind.daemon_set
    ∷ Kind.ingress_v1beta1 ∷ Kind.ingress_v1 ∷ Kind.service_monitor ∷ Kind.pod_monitor
    ∷ Kind.prometheus ∷ Kind.alertmanager ∷ Kind.prometheus_rule ∷ Kind.vm_user ∷ Kind.vm_single
    ∷ Kind.vm_agent ∷ Kind.vm_alert ∷ Kind.vm_alertmanager ∷ Kind.vm_auth ∷ Kind.vm_cluster
    ∷ Kind.role ∷ Kind.role_binding ∷ Kind.security_context_constraints ∷ Kind.endpoints
    ∷ Kind.config_map ∷ [])

kind_at-kind_index : (k : Kind) → kind_at (kind_index k) ≡ k
unfolding nth
kind_at-kind_index k = elim k as (λ j. kind_at (kind_index j) ≡ j) [
  | Kind.service_account ↦ refl
  | Kind.cluster_role ↦ refl
  | Kind.cluster_role_binding ↦ refl
  | Kind.service ↦ refl
  | Kind.secret ↦ refl
  | Kind.persistent_volume_claim ↦ refl
  | Kind.deployment ↦ refl
  | Kind.daemon_set ↦ refl
  | Kind.ingress_v1beta1 ↦ refl
  | Kind.ingress_v1 ↦ refl
  | Kind.service_monitor ↦ refl
  | Kind.pod_monitor ↦ refl
  | Kind.prometheus ↦ refl
  | Kind.alertmanager ↦ refl
  | Kind.prometheus_rule ↦ refl
  | Kind.vm_user ↦ refl
  | Kind.vm_single ↦ refl
  | Kind.vm_agent ↦ refl
  | Kind.vm_alert ↦ refl
  | Kind.vm_alertmanager ↦ refl
  | Kind.vm_auth ↦ refl
  | Kind.vm_cluster ↦ refl
  | Kind.role ↦ refl
  | Kind.role_binding ↦ refl
  | Kind.security_context_constraints ↦ refl
  | Kind.endpoints ↦ refl
  | Kind.config_map ↦ refl
]

pub same_kind-eq : (a b : Kind) → same_kind a b ≡ true → a ≡ b
same_kind-eq a b h =
    let same : kind_index a ≡ kind_index b = ground (arith, ==_iff (kind_index a) (kind_index b)) in
    sym (kind_at-kind_index a) ∙ ap kind_at same ∙ kind_at-kind_index b

abbrev pub same_bytes : Bytes → Bytes → Bool
same_bytes [] [] = true
same_bytes [] (d ∷ t) = false
same_bytes (c ∷ s) [] = false
same_bytes (c ∷ s) (d ∷ t) = (c == d) && same_bytes s t

same_bytes-eq : (s t : Bytes) → same_bytes s t ≡ true → s ≡ t
same_bytes-eq [] [] h = refl
same_bytes-eq [] (d ∷ t) h = cc
same_bytes-eq (c ∷ s) [] h = cc
same_bytes-eq (c ∷ s) (d ∷ t) h = ground (arith, same_bytes-eq s t)

same_bytes_refl : (s : Bytes) → same_bytes s s ≡ true
same_bytes_refl [] = refl
same_bytes_refl (c ∷ s) = ground (arith, same_bytes_refl s)

abbrev pub same_key : Key → Key → Bool
same_key j k =
    same_kind j.kind k.kind && (same_bytes j.namespace k.namespace && same_bytes j.name k.name)

pub same_key_refl : (k : Key) → same_key k k ≡ true
same_key_refl k = ground (arith, same_bytes_refl k.namespace, same_bytes_refl k.name)

pub same_key-eq : (j k : Key) → same_key j k ≡ true → j ≡ k
same_key-eq j k h =
    let kinds : j.kind ≡ k.kind = same_kind-eq j.kind k.kind (ground arith) in
    let namespaces : j.namespace ≡ k.namespace =
      same_bytes-eq j.namespace k.namespace (ground arith) in
    let names : j.name ≡ k.name = same_bytes-eq j.name k.name (ground arith) in
    λ i. record { kind = kinds i; namespace = namespaces i; name = names i }

pub same_key-differ : (j k : Key) → j ≢ k → same_key k j ≡ false
same_key-differ j k ne = elim (Bool-cases (same_key k j)) [
  | inl same ↦ absurd (ne (sym (same_key-eq k j same)))
  | inr h ↦ h
]
