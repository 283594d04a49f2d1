-- ===== src/Controller/Conditions/Rotate.antt =====
-- The condition list as a map from reasons to conditions, and the list with its last element moved
-- to the front, on which `removeStatus` rests.
use qubership_monitoring_ope.Prelude.{
  String, ◌≡◌, refl, [], ◌∷◌, Option, none, some, str_eq, eq_iff, arith, if◌then◌else◌,
}
use qubership_monitoring_ope.Api.{PlatformMonitoringCondition}
use qubership_monitoring_ope.Controller.Conditions.{Conditions}

-- The abstract view: what a reader of the status finds under a reason.
unfoldable pub find_reason : String → Conditions → Option PlatformMonitoringCondition
find_reason r [] = none
find_reason r (c ∷ cs) = if str_eq c.reason r then some c else find_reason r cs

-- No two conditions have one reason.
abbrev pub UniqueReasons : Conditions → Type 0
UniqueReasons [] = Unit
UniqueReasons (c ∷ cs) = (find_reason c.reason cs ≡ none) × UniqueReasons cs

-- The elements of `c ∷ cs` but the last, and the last.
unfoldable pub front : PlatformMonitoringCondition → Conditions → Conditions
front c [] = []
front c (d ∷ cs) = c ∷ front d cs

unfoldable pub back : PlatformMonitoringCondition → Conditions → PlatformMonitoringCondition
back c [] = c
back c (d ∷ cs) = back d cs

pub find_reason-rotate :
    (r : String) (c : PlatformMonitoringCondition) (cs : Conditions)
    → UniqueReasons (c ∷ cs)
    → find_reason r (back c cs ∷ front c cs) ≡ find_reason r (c ∷ cs)
unfolding find_reason front back
find_reason-rotate r c [] u = refl
find_reason-rotate r c (d ∷ cs) u = ground (
  arith,
  find_reason-rotate r d cs u.1,
  find_reason-rotate c.reason d cs u.1,
  eq_iff c.reason r,
  eq_iff (back d cs).reason r,
  eq_iff (back d cs).reason c.reason,
)

pub rotate-UniqueReasons :
    (c : PlatformMonitoringCondition) (cs : Conditions)
    → UniqueReasons (c ∷ cs)
    → UniqueReasons (back c cs ∷ front c cs)
unfolding find_reason front back
rotate-UniqueReasons c [] u = u
rotate-UniqueReasons c (d ∷ cs) u = ground (
  arith,
  rotate-UniqueReasons d cs u.1,
  find_reason-rotate c.reason d cs u.1,
  eq_iff c.reason (back d cs).reason,
  eq_iff (back d cs).reason c.reason,
)
