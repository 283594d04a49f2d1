-- ===== src/Controller/Conditions.antt =====
-- controllers/platformmonitoring_controller.go: the list of status conditions of the custom
-- resource, with `getCondition`, `removeStatus` and `prepareStatusForUpdate`.
pub mod Rotate
pub mod Laws
pub mod View
use qubership_monitoring_ope.Prelude.{
  ℕ, zero, suc, ◌+◌, String, Bool, true, false, not, ◌&&◌, ◌||◌, List, [], ◌∷◌, ◌++◌, Option, none,
  some, str_eq, if◌then◌else◌,
}
use qubership_monitoring_ope.Api.{PlatformMonitoringCondition}

abbrev pub Conditions : Type 0
Conditions = List PlatformMonitoringCondition

-- The loop of `getCondition` from index `i` on.
unfoldable pub scan_conditions : ℕ → String → Conditions → Option (ℕ × PlatformMonitoringCondition)
scan_conditions i reason [] = none
scan_conditions i reason (c ∷ cs) =
    if str_eq c.reason reason then some (i, c) else scan_conditions (suc i) reason cs

unfoldable pub is_nil : Conditions → Bool
is_nil [] = true
is_nil (c ∷ cs) = false

-- `none` stands for `-1, nil`.
unfoldable pub get_condition : Conditions → String → Option (ℕ × PlatformMonitoringCondition)
unfolding scan_conditions is_nil
get_condition cs reason =
    if str_eq reason "" || is_nil cs then none else scan_conditions 0 reason cs

-- `cs[i] = c`
unfoldable pub set_condition : Conditions → ℕ → PlatformMonitoringCondition → Conditions
set_condition [] i c = []
set_condition (d ∷ cs) zero c = c ∷ cs
set_condition (d ∷ cs) (suc i) c = d ∷ set_condition cs i c

-- `cs[len(cs)-1]`; the list is not empty where the code reads it, so `d` is never returned
unfoldable pub last_condition :
    PlatformMonitoringCondition → Conditions → PlatformMonitoringCondition
last_condition d [] = d
last_condition d (c ∷ cs) = last_condition c cs

-- `cs[:len(cs)-1]`
unfoldable pub drop_last : Conditions → Conditions
drop_last [] = []
drop_last (c ∷ []) = []
drop_last (c ∷ d ∷ cs) = c ∷ drop_last (d ∷ cs)

-- The last condition takes the place of the removed one.
unfoldable pub remove_at : Conditions → Option (ℕ × PlatformMonitoringCondition) → Conditions × Bool
unfolding set_condition last_condition drop_last
remove_at cs none = (cs, false)
remove_at cs (some (i, c)) = (drop_last (set_condition cs i (last_condition c cs)), true)

unfoldable pub remove_status : Conditions → String → Conditions × Bool
unfolding get_condition remove_at
remove_status cs reason = remove_at cs (get_condition cs reason)

-- The comparison of the five fields.
unfoldable pub same_condition : PlatformMonitoringCondition → PlatformMonitoringCondition → Bool
same_condition c d =
    str_eq c.type d.type
    && str_eq c.status d.status
    && str_eq c.reason d.reason
    && str_eq c.message d.message
    && str_eq c.last_transition_time d.last_transition_time

unfoldable pub replace_at :
    PlatformMonitoringCondition
    → Conditions
    → Option (ℕ × PlatformMonitoringCondition)
    → Conditions × Bool
unfolding set_condition same_condition
replace_at c cs none = (cs ++ c ∷ [], true)
replace_at c cs (some (i, old)) =
    if same_condition c old then (cs, false) else (set_condition cs i c, true)

-- The new condition, with the time of the call, is passed as one record.
unfoldable pub prepare_status_for_update :
    Conditions → PlatformMonitoringCondition → Conditions × Bool
unfolding get_condition replace_at
prepare_status_for_update cs c = replace_at c cs (get_condition cs c.reason)
