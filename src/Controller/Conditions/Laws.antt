-- ===== src/Controller/Conditions/Laws.antt =====
-- `removeStatus` and `prepareStatusForUpdate` as the deletion and the update of a map from reasons
-- to conditions.
use qubership_monitoring_ope.Prelude.{
  ℕ, zero, suc, String, ◌≡◌, refl, sym, ap, ◌∙◌, true, inl, inr, Bool-cases, [], ◌∷◌, Option, none,
  some, str_eq, eq_iff, arith, if◌then◌else◌,
}
use qubership_monitoring_ope.Api.{PlatformMonitoringCondition}
use qubership_monitoring_ope.Controller.Conditions.{
  Conditions, drop_last, last_condition, remove_at, replace_at, same_condition, scan_conditions,
}
use qubership_monitoring_ope.Controller.Conditions.Rotate.{
  UniqueReasons, back, find_reason, find_reason-rotate, front, rotate-UniqueReasons,
}

unfoldable pub rotate : Conditions → Conditions
rotate [] = []
rotate (d ∷ cs) = back d cs ∷ front d cs

-- Deletion by the first condition of the reason, on the list itself.
unfoldable pub swap_remove : String → Conditions → Conditions
swap_remove r [] = []
swap_remove r (c ∷ cs) = if str_eq c.reason r then rotate cs else c ∷ swap_remove r cs

unfoldable pub put : PlatformMonitoringCondition → Conditions → Conditions
put c [] = c ∷ []
put c (d ∷ cs) = if str_eq d.reason c.reason then c ∷ cs else d ∷ put c cs

pub shift : Option (ℕ × PlatformMonitoringCondition) → Option (ℕ × PlatformMonitoringCondition)
shift none = none
shift (some (i, c)) = some (suc i, c)

pub scan_conditions-suc :
    (i : ℕ) (r : String) (cs : Conditions)
    → scan_conditions (suc i) r cs ≡ shift (scan_conditions i r cs)
unfolding scan_conditions shift
scan_conditions-suc i r [] = refl
scan_conditions-suc i r (c ∷ cs) = ground (arith, scan_conditions-suc (suc i) r cs)

back-eq-last : (d : PlatformMonitoringCondition) (cs : Conditions) → last_condition d cs ≡ back d cs
unfolding last_condition back
back-eq-last d [] = refl
back-eq-last d (e ∷ cs) = back-eq-last e cs

front-eq-drop_last :
    (d : PlatformMonitoringCondition) (cs : Conditions) → drop_last (d ∷ cs) ≡ front d cs
unfolding drop_last front
front-eq-drop_last d [] = refl
front-eq-drop_last d (e ∷ cs) = ap (λ (l : Conditions). d ∷ l) (front-eq-drop_last e cs)

remove_first :
    (c : PlatformMonitoringCondition) (cs : Conditions)
    → drop_last (last_condition c cs ∷ cs) ≡ rotate cs
unfolding drop_last last_condition rotate
remove_first c [] = refl
remove_first c (d ∷ cs) = cc (back-eq-last d cs, front-eq-drop_last d cs)

remove_later :
    (c d : PlatformMonitoringCondition) (cs : Conditions)
    (o : Option (ℕ × PlatformMonitoringCondition))
    → (remove_at (c ∷ d ∷ cs) (shift o)).0 ≡ c ∷ (remove_at (d ∷ cs) o).0
unfolding remove_at shift
remove_later c d cs none = refl
remove_later c d cs (some (zero, k)) = refl
remove_later c d cs (some (suc i, k)) = refl

pub remove_at-eq-swap_remove :
    (r : String) (cs : Conditions) → (remove_at cs (scan_conditions 0 r cs)).0 ≡ swap_remove r cs
unfolding scan_conditions swap_remove remove_at rotate
remove_at-eq-swap_remove r [] = refl
remove_at-eq-swap_remove r (c ∷ []) = ground arith
remove_at-eq-swap_remove r (c ∷ d ∷ cs) = elim (Bool-cases (str_eq c.reason r)) [
  | inl e ↦ rw e (remove_first c (d ∷ cs))
  | inr e ↦
      rw (e, scan_conditions-suc 0 r (d ∷ cs))
        (remove_later c d cs (scan_conditions 0 r (d ∷ cs))
          ∙ ap (λ (l : Conditions). c ∷ l) (remove_at-eq-swap_remove r (d ∷ cs)))
]

find_reason-rotate_list :
    (r : String) (cs : Conditions) → UniqueReasons cs → find_reason r (rotate cs) ≡ find_reason r cs
unfolding rotate
find_reason-rotate_list r [] u = refl
find_reason-rotate_list r (d ∷ cs) u = find_reason-rotate r d cs u

rotate_list-UniqueReasons : (cs : Conditions) → UniqueReasons cs → UniqueReasons (rotate cs)
unfolding rotate
rotate_list-UniqueReasons [] u = u
rotate_list-UniqueReasons (d ∷ cs) u = rotate-UniqueReasons d cs u

pub find_reason-swap_remove :
    (r s : String) (cs : Conditions)
    → UniqueReasons cs
    → find_reason s (swap_remove r cs) ≡ (if str_eq r s then none else find_reason s cs)
unfolding swap_remove find_reason
find_reason-swap_remove r s [] u = ground arith
find_reason-swap_remove r s (c ∷ cs) u = ground (
  arith,
  find_reason-swap_remove r s cs u.1,
  find_reason-rotate_list s cs u.1,
  eq_iff c.reason r,
  eq_iff c.reason s,
  eq_iff r s,
)

pub swap_remove-UniqueReasons :
    (r : String) (cs : Conditions) → UniqueReasons cs → UniqueReasons (swap_remove r cs)
unfolding swap_remove
swap_remove-UniqueReasons r [] u = u
swap_remove-UniqueReasons r (c ∷ cs) u = elim (Bool-cases (str_eq c.reason r)) [
  | inl e ↦ rw e (rotate_list-UniqueReasons cs u.1)
  | inr e ↦ rw e (
    find_reason-swap_remove r c.reason cs u.1 ∙ ground (arith, u.0),
    swap_remove-UniqueReasons r cs u.1,
  )
]

pub find_reason-put :
    (c : PlatformMonitoringCondition) (s : String) (cs : Conditions)
    → find_reason s (put c cs) ≡ (if str_eq c.reason s then some c else find_reason s cs)
unfolding put find_reason
find_reason-put c s [] = refl
find_reason-put c s (d ∷ cs) =
    ground (
      arith,
      find_reason-put c s cs,
      eq_iff d.reason c.reason,
      eq_iff d.reason s,
      eq_iff c.reason s,
    )

pub put-UniqueReasons :
    (c : PlatformMonitoringCondition) (cs : Conditions)
    → UniqueReasons cs
    → UniqueReasons (put c cs)
unfolding put
put-UniqueReasons c [] u = (unfold find_reason in refl, tt)
put-UniqueReasons c (d ∷ cs) u = elim (Bool-cases (str_eq d.reason c.reason)) [
  | inl e ↦ rw e (ground (arith, eq_iff d.reason c.reason, u.0), u.1)
  | inr e ↦ rw e (
    find_reason-put c d.reason cs
        ∙ ground (arith, u.0, eq_iff d.reason c.reason, eq_iff c.reason d.reason),
    put-UniqueReasons c cs u.1,
  )
]

same_condition-eq : (c d : PlatformMonitoringCondition) → same_condition c d ≡ true → c ≡ d
unfolding same_condition
same_condition-eq c d h = ground (
  arith,
  eq_iff c.type d.type,
  eq_iff c.status d.status,
  eq_iff c.reason d.reason,
  eq_iff c.message d.message,
  eq_iff c.last_transition_time d.last_transition_time,
)

replace_later :
    (c d : PlatformMonitoringCondition) (cs : Conditions)
    (o : Option (ℕ × PlatformMonitoringCondition))
    → (replace_at c (d ∷ cs) (shift o)).0 ≡ d ∷ (replace_at c cs o).0
unfolding replace_at shift
replace_later c d cs none = refl
replace_later c d cs (some (i, k)) = ground arith

-- An equal condition that is kept is the new one.
pub replace_at-eq-put :
    (c : PlatformMonitoringCondition) (cs : Conditions)
    → (replace_at c cs (scan_conditions 0 c.reason cs)).0 ≡ put c cs
unfolding scan_conditions put replace_at
replace_at-eq-put c [] = refl
replace_at-eq-put c (d ∷ cs) = elim (Bool-cases (str_eq d.reason c.reason)) [
  | inl e ↦ rw e (elim (Bool-cases (same_condition c d)) [
    | inl same ↦
        rw same
          (ap (λ (k : PlatformMonitoringCondition). k ∷ cs) (sym (same_condition-eq c d same)))
    | inr other ↦ rw other
  ])
  | inr e ↦
      rw (e, scan_conditions-suc 0 c.reason cs)
        (replace_later c d cs (scan_conditions 0 c.reason cs)
          ∙ ap (λ (l : Conditions). d ∷ l) (replace_at-eq-put c cs))
]
