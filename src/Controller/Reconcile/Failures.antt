-- ===== src/Controller/Reconcile/Failures.antt =====
-- The failed conditions of a status, up to a set of reasons.
use qubership_monitoring_ope.Prelude.{
  String, ◌≡◌, refl, Bool, true, false, not, ◌&&◌, ◌||◌, List, [], ◌∷◌, none, str_eq, eq_iff, arith,
}
use qubership_monitoring_ope.Api.{PlatformMonitoringCondition}
use qubership_monitoring_ope.Controller.Conditions.{Conditions}
use qubership_monitoring_ope.Controller.Conditions.Rotate.{UniqueReasons, back, find_reason, front}
use qubership_monitoring_ope.Controller.Conditions.Laws.{put, rotate, swap_remove}
use qubership_monitoring_ope.Controller.Reconcile.{has_failed}

unfoldable pub mem : String → List String → Bool
mem r [] = false
mem r (q ∷ qs) = str_eq q r || mem r qs

-- Some condition has failed under a reason that is not listed.
unfoldable pub failed_outside : List String → Conditions → Bool
unfolding mem
failed_outside rs [] = false
failed_outside rs (c ∷ cs) =
    (str_eq c.type "Failed" && not (mem c.reason rs)) || failed_outside rs cs

pub has_failed-eq : (cs : Conditions) → has_failed cs ≡ failed_outside [] cs
unfolding has_failed failed_outside mem
has_failed-eq [] = refl
has_failed-eq (c ∷ cs) = ground (arith, has_failed-eq cs)

failed_outside-back :
    (rs : List String) (c : PlatformMonitoringCondition) (cs : Conditions)
    → failed_outside rs (back c cs ∷ front c cs) ≡ failed_outside rs (c ∷ cs)
unfolding failed_outside back front
failed_outside-back rs c [] = refl
failed_outside-back rs c (d ∷ cs) = ground (arith, failed_outside-back rs d cs)

failed_outside-rotate :
    (rs : List String) (cs : Conditions) → failed_outside rs (rotate cs) ≡ failed_outside rs cs
unfolding rotate
failed_outside-rotate rs [] = refl
failed_outside-rotate rs (c ∷ cs) = failed_outside-back rs c cs

-- A reason that no condition has makes no difference.
failed_outside-absent :
    (r : String) (rs : List String) (cs : Conditions)
    → find_reason r cs ≡ none
    → failed_outside (r ∷ rs) cs ≡ failed_outside rs cs
unfolding failed_outside mem find_reason
failed_outside-absent r rs [] h = refl
failed_outside-absent r rs (c ∷ cs) h =
    ground (arith, failed_outside-absent r rs cs, eq_iff r c.reason, eq_iff c.reason r)

pub failed_outside-swap_remove :
    (r : String) (rs : List String) (cs : Conditions)
    → UniqueReasons cs
    → failed_outside rs (swap_remove r cs) ≡ failed_outside (r ∷ rs) cs
unfolding failed_outside mem swap_remove
failed_outside-swap_remove r rs [] u = refl
failed_outside-swap_remove r rs (c ∷ cs) u = ground (
  arith,
  failed_outside-swap_remove r rs cs u.1,
  failed_outside-rotate rs cs,
  failed_outside-absent r rs cs,
  eq_iff r c.reason,
  eq_iff c.reason r,
  u.0,
)

pub failed_outside-put_failed :
    (c : PlatformMonitoringCondition) (rs : List String) (cs : Conditions)
    → c.type ≡ "Failed"
    → mem c.reason rs ≡ false
    → failed_outside rs (put c cs) ≡ true
unfolding failed_outside put
failed_outside-put_failed c rs [] t away = ground (arith, eq_iff c.type "Failed")
failed_outside-put_failed c rs (d ∷ cs) t away =
    ground (arith, failed_outside-put_failed c rs cs t away, eq_iff c.type "Failed")

pub failed_outside-put_other :
    (c : PlatformMonitoringCondition) (rs : List String) (cs : Conditions)
    → str_eq c.type "Failed" ≡ false
    → UniqueReasons cs
    → failed_outside rs (put c cs) ≡ failed_outside (c.reason ∷ rs) cs
unfolding failed_outside mem put
failed_outside-put_other c rs [] t u = ground arith
failed_outside-put_other c rs (d ∷ cs) t u = ground (
  arith,
  failed_outside-put_other c rs cs t u.1,
  failed_outside-absent c.reason rs cs,
  eq_iff c.reason d.reason,
  eq_iff d.reason c.reason,
  u.0,
)
