-- ===== src/Utils/Discovery.antt =====
-- controllers/utils/common.go: what the cluster's API offers, and the version of the server. The
-- discovery client is not part of the repository: its answers are the parameter `Discovery`.
pub mod Laws
use qubership_monitoring_ope.Prelude.{
  ℕ, String, Bool, true, false, not, ◌&&◌, ◌||◌, List, [], ◌∷◌, Option, none, some, str_eq, ltb,
  leb, ◌==◌, if◌then◌else◌,
}
use qubership_monitoring_ope.Prelude.Text.{Bytes, is_empty}
use qubership_monitoring_ope.Exec.{Error, Outcome, err, ok, other, panic}
use qubership_monitoring_ope.Utils.Numbers.{ℤ, in_range, negsuc, parse_int, pos, read_number}

pub record ApiResourceList : Type 0 where
  pub group_version : String
  pub kinds : List String

-- The answers of `ServerGroupsAndResources` and of `ServerVersion`.
pub record Discovery : Type 0 where
  pub server_groups_and_resources : Outcome (List ApiResourceList)
  pub server_version_minor : Outcome Bytes

unfoldable pub has_kind : String → List String → Bool
has_kind kind [] = false
has_kind kind (k ∷ ks) = str_eq k kind || has_kind kind ks

unfoldable pub find_api : String → String → List ApiResourceList → Bool
unfolding has_kind
find_api group_version kind [] = false
find_api group_version kind (l ∷ ls) =
    (str_eq l.group_version group_version && has_kind kind l.kinds)
    || find_api group_version kind ls

unfoldable pub resource_exists : Discovery → String → String → Outcome Bool
unfolding find_api
resource_exists d group_version kind = elim d.server_groups_and_resources [
  | ok lists ↦ ok (find_api group_version kind lists)
  | err e ↦ err e
  | panic ↦ panic
]

-- An error is logged, and the answer is then false.
unfoldable pub has_api : Discovery → String → String → Bool
unfolding resource_exists
has_api d group_version kind = elim (resource_exists d group_version kind) [ ok b ↦ b | _ ↦ false ]

unfoldable pub has_ingress_v1beta1_api : Discovery → Bool
has_ingress_v1beta1_api d = has_api d "networking.k8s.io/v1beta1" "Ingress"

unfoldable pub has_ingress_v1_api : Discovery → Bool
has_ingress_v1_api d = has_api d "networking.k8s.io/v1" "Ingress"

unfoldable pub has_route_api : Discovery → Bool
has_route_api d = has_api d "route.openshift.io/v1" "Route"

-- controllers/nodeexporter/reconciler.go
unfoldable pub has_pod_security_policy_api : Discovery → Bool
has_pod_security_policy_api d = has_api d "policy/v1beta1" "PodSecurityPolicy"

unfoldable pub has_security_context_constraints_api : Discovery → Bool
has_security_context_constraints_api d =
    has_api d "security.openshift.io/v1" "SecurityContextConstraints"

-- `strings.Trim(s, "+")`
trim_left_plus : Bytes → Bytes
trim_left_plus [] = []
trim_left_plus (c ∷ s) = let rest = trim_left_plus s in if c == b'+' then rest else c ∷ s

trim_right_plus : Bytes → Bytes
trim_right_plus [] = []
trim_right_plus (c ∷ s) =
    let rest = trim_right_plus s in if c == b'+' && is_empty rest then [] else c ∷ rest

trim_plus : Bytes → Bytes
unfolding trim_left_plus trim_right_plus
trim_plus s = trim_right_plus (trim_left_plus s)

abbrev pub conversion_error : Error
conversion_error = record { reason = other; message = "strconv.Atoi: invalid syntax or range" }

or_conversion_error : Option ℤ → Outcome ℤ
or_conversion_error none = err conversion_error
or_conversion_error (some n) = ok n

unfoldable pub get_minor_server_version : Discovery → Outcome ℤ
unfolding trim_plus parse_int read_number in_range or_conversion_error
get_minor_server_version d = elim d.server_version_minor [
  | ok minor ↦ or_conversion_error (parse_int (trim_plus minor))
  | err e ↦ err e
  | panic ↦ panic
]

-- `n < k` and `n == k` on `int`, for a literal `k` above 0
abbrev pub is_less : ℤ → ℕ → Bool
is_less (pos n) k = ltb n k
is_less (negsuc n) k = true

abbrev pub is_equal : ℤ → ℕ → Bool
is_equal (pos n) k = n == k
is_equal (negsuc n) k = false

answer_v4 : Bool → Outcome ℤ → Outcome Bool
answer_v4 is_open_shift (ok minor) = ok (not (not is_open_shift || is_less minor 18))
answer_v4 is_open_shift (err e) = err e
answer_v4 is_open_shift panic = panic

unfoldable pub is_open_shift_v4 : Discovery → Outcome Bool
unfolding answer_v4
is_open_shift_v4 d = answer_v4 (has_route_api d) (get_minor_server_version d)

answer_v3 : Bool → Outcome ℤ → Outcome Bool
answer_v3 is_open_shift (ok minor) = ok (is_open_shift && is_equal minor 11)
answer_v3 is_open_shift (err e) = err e
answer_v3 is_open_shift panic = panic

unfoldable pub is_open_shift_v3 : Discovery → Outcome Bool
unfolding answer_v3
is_open_shift_v3 d = answer_v3 (has_route_api d) (get_minor_server_version d)
