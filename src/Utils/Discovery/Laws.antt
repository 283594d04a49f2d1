-- ===== src/Utils/Discovery/Laws.antt =====
-- What the questions about the cluster's API and version answer.
use mathlib.Core.List.{Memᴰ}
use qubership_monitoring_ope.Prelude.{
  ℕ, String, ◌≡◌, ◌↔◌, refl, sym, ◌≤◌, Bool, true, List, [], ◌∷◌, str_eq, eq_iff, arith, inl, inr,
  Bool-cases, ap,
}
use qubership_monitoring_ope.Exec.{Outcome, err, ok, panic}
use qubership_monitoring_ope.Utils.Numbers.{ℤ, negsuc, pos}
use qubership_monitoring_ope.Utils.Discovery.{
  ApiResourceList, answer_v4, Discovery, find_api, get_minor_server_version, has_kind,
  has_route_api, is_open_shift_v3, is_open_shift_v4, resource_exists,
}

-- Some list of the group version names the kind.
pub data Offers (group_version kind : String) : List ApiResourceList → Type 0 where
  here :
      {l : ApiResourceList} {ls : List ApiResourceList}
      → l.group_version ≡ group_version
      → Memᴰ kind l.kinds
      → Offers group_version kind (l ∷ ls)
  there :
      {l : ApiResourceList} {ls : List ApiResourceList}
      → Offers group_version kind ls
      → Offers group_version kind (l ∷ ls)

has_kind-Memᴰ : (kind : String) (ks : List String) → has_kind kind ks ≡ true → Memᴰ kind ks
unfolding has_kind
has_kind-Memᴰ kind [] h = cc
has_kind-Memᴰ kind (k ∷ ks) h = elim (Bool-cases (str_eq k kind)) [
  | inl e ↦ Memᴰ.head (sym ((eq_iff k kind).0 e))
  | inr e ↦ Memᴰ.tail (has_kind-Memᴰ kind ks (rw e at h))
]

Memᴰ-has_kind : (kind : String) {ks : List String} → Memᴰ kind ks → has_kind kind ks ≡ true
unfolding has_kind
Memᴰ-has_kind kind (Memᴰ.head {x} e) = ground (arith, eq_iff x kind)
Memᴰ-has_kind kind (Memᴰ.tail m) = ground (arith, Memᴰ-has_kind kind m)

find_api-Offers :
    (gv kind : String) (ls : List ApiResourceList) → find_api gv kind ls ≡ true → Offers gv kind ls
unfolding find_api
find_api-Offers gv kind [] h = cc
find_api-Offers gv kind (l ∷ ls) h = elim (Bool-cases (str_eq l.group_version gv)) [
  | inr e ↦ there (find_api-Offers gv kind ls (rw e at h))
  | inl e ↦ elim (Bool-cases (has_kind kind l.kinds)) [
    | inl k ↦ here ((eq_iff l.group_version gv).0 e) (has_kind-Memᴰ kind l.kinds k)
    | inr k ↦ there (find_api-Offers gv kind ls (rw (e, k) at h))
  ]
]

Offers-find_api :
    (gv kind : String) {ls : List ApiResourceList} → Offers gv kind ls → find_api gv kind ls ≡ true
unfolding find_api
Offers-find_api gv kind (here {l} e m) =
    ground (arith, eq_iff l.group_version gv, Memᴰ-has_kind kind m)
Offers-find_api gv kind (there o) = ground (arith, Offers-find_api gv kind o)

-- Where the discovery client answers, `ResourceExists` returns true exactly if a list of the group
-- version names the kind.
resource_exists_iff :
    (d : Discovery) (gv kind : String) (lists : List ApiResourceList)
    → d.server_groups_and_resources ≡ ok lists
    → (resource_exists d gv kind ≡ ok true) ↔ Offers gv kind lists
unfolding resource_exists
resource_exists_iff d gv kind lists h = rw h (
  λ t. find_api-Offers gv kind lists (ground arith),
  λ o. ap (λ (b : Bool). ok b) (Offers-find_api gv kind o),
)

answer_v4-inv :
    (b : Bool) (o : Outcome ℤ)
    → answer_v4 b o ≡ ok true
    → (b ≡ true) × (n : ℕ) × (o ≡ ok (pos n)) × (18 ≤ n)
unfolding answer_v4
answer_v4-inv b (ok (pos n)) h = (ground arith, n, refl, ground arith)
answer_v4-inv b (ok (negsuc n)) h = absurd (ground arith)
answer_v4-inv b (err e) h = cc
answer_v4-inv b panic h = cc

answer_v4-intro :
    (b : Bool) (o : Outcome ℤ) (n : ℕ)
    → b ≡ true
    → o ≡ ok (pos n)
    → 18 ≤ n
    → answer_v4 b o ≡ ok true
unfolding answer_v4
answer_v4-intro b o n p q h = ground arith

-- No server is both an OpenShift 3.11 and an OpenShift 4.5 or higher.
open_shift_versions_exclusive :
    (d : Discovery) → ¬ ((is_open_shift_v3 d ≡ ok true) × (is_open_shift_v4 d ≡ ok true))
unfolding is_open_shift_v3 is_open_shift_v4
open_shift_versions_exclusive d (h, g) = ground arith

-- OpenShift 4 is recognised exactly if the Route API is there and the minor version of the server
-- can be read and is at least 18.
pub is_open_shift_v4_iff :
    (d : Discovery)
    → (is_open_shift_v4 d ≡ ok true)
      ↔ ((has_route_api d ≡ true) × (n : ℕ) × (get_minor_server_version d ≡ ok (pos n)) × (18 ≤ n))
unfolding is_open_shift_v4
is_open_shift_v4_iff d = (
  answer_v4-inv (has_route_api d) (get_minor_server_version d),
  λ (route, n, read, at_least).
      answer_v4-intro (has_route_api d) (get_minor_server_version d) n route read at_least,
)
