-- ===== src/Exec.antt =====
-- Go methods that change the cluster and may return an error or panic. What was written before the
-- error stays written, so the state comes back beside it.
pub mod Rules
use qubership_monitoring_ope.Prelude.{String, Bool, true, false, Option, none, some}

-- The class of an API error, as `errors.IsNotFound` and `errors.IsForbidden` tell it.
pub data Reason : Type 0 where
  not_found forbidden other : Reason

pub record Error : Type 0 where
  pub reason : Reason
  pub message : String

pub data Outcome {ℓ} (A : Type ℓ) : Type ℓ where
  ok : A → Outcome A
  err : Error → Outcome A
  panic : Outcome A

-- `errors.IsNotFound(err)`
unfoldable pub is_not_found : Error → Bool
is_not_found e = elim e.reason [ not_found ↦ true | _ ↦ false ]

abbrev pub Exec : Type 0 → Type 0 → Type 0
Exec S A = S → Outcome A × S

module _ {S A : Type 0} where
  unfoldable pub pure : A → Exec S A
  pure a s = (ok a, s)

  unfoldable pub raise : Error → Exec S A
  raise e s = (err e, s)

  unfoldable pub lift : Outcome A → Exec S A
  lift o s = (o, s)

-- A call that answers with an error or nil.
unfoldable pub call : {S : Type 0} → (S → Option Error × S) → Exec S (Unit {0})
call f s = let (e, s') = f s in (elim e [ none ↦ ok tt | some x ↦ err x ], s')

module _ {S A B : Type 0} where
  unfoldable pub continue : Outcome A → (A → Exec S B) → Exec S B
  continue (ok a) f s = f a s
  continue (err e) f s = (err e, s)
  continue panic f s = (panic, s)

  infixl 10 ◌>>=◌ ◌>>◌
  unfoldable pub ◌>>=◌ : Exec S A → (A → Exec S B) → Exec S B
  unfolding continue
  ◌>>=◌ m f s = let (r, s') = m s in continue r f s'

  unfoldable pub ◌>>◌ : Exec S A → Exec S B → Exec S B
  unfolding ◌>>=◌
  m >> k = m >>= λ _. k

-- `if err := m; err != nil { log }`: the error is dropped, a panic is not.
unfoldable pub swallow : {A : Type 0} → Outcome A → Outcome (Unit {0})
swallow (ok a) = ok tt
swallow (err e) = ok tt
swallow panic = panic

unfoldable pub logged : {S A : Type 0} → Exec S A → Exec S (Unit {0})
unfolding swallow
logged m s = let (r, s') = m s in (swallow r, s')

-- `if c { m }`
abbrev pub when : {S : Type 0} → Bool → Exec S (Unit {0}) → Exec S (Unit {0})
when true m = m
when false m = pure tt
