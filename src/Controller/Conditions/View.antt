-- ===== src/Controller/Conditions/View.antt =====
-- The two status operations as a reader of the status sees them.
use qubership_monitoring_ope.Prelude.{
  String, ◌≡◌, false, [], ◌∷◌, none, some, str_eq, arith, if◌then◌else◌,
}
use qubership_monitoring_ope.Api.{PlatformMonitoringCondition}
use qubership_monitoring_ope.Controller.Conditions.{
  Conditions, get_condition, prepare_status_for_update, remove_status, scan_conditions,
}
use qubership_monitoring_ope.Controller.Conditions.Rotate.{UniqueReasons, find_reason}
use qubership_monitoring_ope.Controller.Conditions.Laws.{
  find_reason-put, find_reason-swap_remove, put, put-UniqueReasons, remove_at-eq-swap_remove,
  replace_at-eq-put, swap_remove, swap_remove-UniqueReasons,
}

get_condition-eq-scan :
    (cs : Conditions) (r : String)
    → str_eq r "" ≡ false
    → get_condition cs r ≡ scan_conditions 0 r cs
unfolding get_condition
get_condition-eq-scan [] r h = ground arith
get_condition-eq-scan (c ∷ cs) r h = ground arith

pub remove_status-eq-swap_remove :
    (cs : Conditions) (r : String) → str_eq r "" ≡ false → (remove_status cs r).0 ≡ swap_remove r cs
unfolding remove_status
remove_status-eq-swap_remove cs r h =
    rw (get_condition-eq-scan cs r h) (remove_at-eq-swap_remove r cs)

pub prepare_status_for_update-eq-put :
    (cs : Conditions) (c : PlatformMonitoringCondition)
    → str_eq c.reason "" ≡ false
    → (prepare_status_for_update cs c).0 ≡ put c cs
unfolding prepare_status_for_update
prepare_status_for_update-eq-put cs c h =
    rw (get_condition-eq-scan cs c.reason h) (replace_at-eq-put c cs)

-- Where no two conditions share a reason, `removeStatus` of a reason that is not empty deletes the
-- condition of that reason and no other, whatever the swap with the last element did to the order,
-- and the reasons stay unique.
pub remove_status-deletes :
    (cs : Conditions) (r s : String)
    → UniqueReasons cs
    → str_eq r "" ≡ false
    → (find_reason s (remove_status cs r).0 ≡ (if str_eq r s then none else find_reason s cs))
      × UniqueReasons (remove_status cs r).0
remove_status-deletes cs r s u h =
    rw (remove_status-eq-swap_remove cs r h)
      (find_reason-swap_remove r s cs u, swap_remove-UniqueReasons r cs u)

-- Where no two conditions share a reason, `prepareStatusForUpdate` of a condition whose reason is
-- not empty puts it under its reason and leaves the condition of every other reason, and the
-- reasons stay unique.
pub prepare_status_for_update-sets :
    (cs : Conditions) (c : PlatformMonitoringCondition) (s : String)
    → UniqueReasons cs
    → str_eq c.reason "" ≡ false
    → (find_reason s (prepare_status_for_update cs c).0
        ≡ (if str_eq c.reason s then some c else find_reason s cs))
      × UniqueReasons (prepare_status_for_update cs c).0
prepare_status_for_update-sets cs c s u h =
    rw (prepare_status_for_update-eq-put cs c h) (find_reason-put c s cs, put-UniqueReasons c cs u)
