-- ===== src/Exec/Rules.antt =====
-- Rules for what an action keeps whatever it returns, and for what it ensures when it returns.
use qubership_monitoring_ope.Prelude.{◌≡◌, refl, Bool, true, false, if◌then◌else◌}
use qubership_monitoring_ope.Exec.{
  Error, Exec, Outcome, continue, err, logged, lift, ok, panic, pure, raise, when, ◌>>=◌, ◌>>◌,
}

abbrev pub IsOk {ℓ} : {A : Type ℓ} → Outcome A → Type 0
IsOk (ok a) = Unit
IsOk (err e) = ⊥
IsOk panic = ⊥

pub IsOk-ok {ℓ} : {A : Type ℓ} {a : A} (o : Outcome A) → o ≡ ok a → IsOk o
IsOk-ok (ok b) h = tt
IsOk-ok (err e) h = cc
IsOk-ok panic h = cc

-- `m` keeps `P`, whether it returns, fails or panics.
pub record Keeps {S A : Type 0} (P : S → Type 0) (m : Exec S A) : Type 0 where
  pub at : (s : S) → P s → P (m s).1

-- If `m` returns, `P` holds of the state that it leaves.
pub record Ensures {S A : Type 0} (P : S → Type 0) (m : Exec S A) : Type 0 where
  pub at : (s : S) → IsOk (m s).0 → P (m s).1

module _ {S A : Type 0} {P : S → Type 0} where
  pub Keeps-pure : (a : A) → Keeps P (pure a)
  unfolding pure
  Keeps-pure a = record { at = λ s h. h }

  pub Keeps-raise : (e : Error) → Keeps P (raise {A = A} e)
  unfolding raise
  Keeps-raise e = record { at = λ s h. h }

  pub Keeps-lift : (o : Outcome A) → Keeps P (lift o)
  unfolding lift
  Keeps-lift o = record { at = λ s h. h }

  pub Keeps-logged : {m : Exec S A} → Keeps P m → Keeps P (logged m)
  unfolding logged
  Keeps-logged k = record { at = k.at }

  pub Keeps-if : (b : Bool) {m n : Exec S A} → Keeps P m → Keeps P n → Keeps P (if b then m else n)
  Keeps-if true km kn = km
  Keeps-if false km kn = kn

  pub Ensures-if :
      (b : Bool) {m n : Exec S A} → Ensures P m → Ensures P n → Ensures P (if b then m else n)
  Ensures-if true km kn = km
  Ensures-if false km kn = kn

module _ {S : Type 0} {P : S → Type 0} where
  pub Keeps-when : (b : Bool) {m : Exec S (Unit {0})} → Keeps P m → Keeps P (when b m)
  Keeps-when true k = k
  Keeps-when false k = Keeps-pure tt

module _ {S A B : Type 0} {P : S → Type 0} where
  pub Keeps-continue :
      (o : Outcome A) (f : A → Exec S B) → ((a : A) → Keeps P (f a)) → Keeps P (continue o f)
  unfolding continue
  Keeps-continue (ok a) f k = record { at = (k a).at }
  Keeps-continue (err e) f k = record { at = λ s h. h }
  Keeps-continue panic f k = record { at = λ s h. h }

  pub Keeps-bind :
      {m : Exec S A} {f : A → Exec S B} → Keeps P m → ((a : A) → Keeps P (f a)) → Keeps P (m >>= f)
  unfolding ◌>>=◌
  Keeps-bind {m} {f} km kf = record {
    at = λ s h. (Keeps-continue (m s).0 f kf).at (m s).1 (km.at s h);
  }

  pub Keeps-then : {m : Exec S A} {k : Exec S B} → Keeps P m → Keeps P k → Keeps P (m >> k)
  unfolding ◌>>◌
  Keeps-then {m} {k} km kk = record {
    at = λ s h. (Keeps-continue (m s).0 (λ _. k) (λ _. kk)).at (m s).1 (km.at s h);
  }

  Ensures-continue_left :
      (o : Outcome A) (f : A → Exec S B) (s : S)
      → (IsOk o → P s)
      → ((a : A) → Keeps P (f a))
      → IsOk (continue o f s).0
      → P (continue o f s).1
  unfolding continue
  Ensures-continue_left (ok a) f s p k h = (k a).at s (p tt)
  Ensures-continue_left (err e) f s p k h = absurd h
  Ensures-continue_left panic f s p k h = absurd h

  Ensures-continue_right :
      (o : Outcome A) (f : A → Exec S B) (s : S)
      → ((a : A) → Ensures P (f a))
      → IsOk (continue o f s).0
      → P (continue o f s).1
  unfolding continue
  Ensures-continue_right (ok a) f s k h = (k a).at s h
  Ensures-continue_right (err e) f s k h = absurd h
  Ensures-continue_right panic f s k h = absurd h

  -- `m` ensures `P` and the rest keeps it.
  pub Ensures-bind_left :
      {m : Exec S A} {f : A → Exec S B}
      → Ensures P m
      → ((a : A) → Keeps P (f a))
      → Ensures P (m >>= f)
  unfolding ◌>>=◌
  Ensures-bind_left {m} {f} em kf = record {
    at = λ s h. Ensures-continue_left (m s).0 f (m s).1 (em.at s) kf h;
  }

  pub Ensures-bind_right :
      (m : Exec S A) {f : A → Exec S B} → ((a : A) → Ensures P (f a)) → Ensures P (m >>= f)
  unfolding ◌>>=◌
  Ensures-bind_right m {f} ef = record { at = λ s h. Ensures-continue_right (m s).0 f (m s).1 ef h }

  pub Ensures-then_left :
      {m : Exec S A} {k : Exec S B} → Ensures P m → Keeps P k → Ensures P (m >> k)
  unfolding ◌>>◌
  Ensures-then_left {m} {k} em kk = record {
    at = λ s h. Ensures-continue_left (m s).0 (λ _. k) (m s).1 (em.at s) (λ _. kk) h;
  }

  pub Ensures-then_right : (m : Exec S A) {k : Exec S B} → Ensures P k → Ensures P (m >> k)
  unfolding ◌>>◌
  Ensures-then_right m {k} ek = record {
    at = λ s h. Ensures-continue_right (m s).0 (λ _. k) (m s).1 (λ _. ek) h;
  }

module _ {S A B : Type 0} where
  continue-IsOk :
      (o : Outcome A) (k : Exec S B) (s : S)
      → IsOk (continue o (λ _. k) s).0
      → IsOk o × (continue o (λ _. k) s ≡ k s)
  unfolding continue
  continue-IsOk (ok a) k s h = (tt, refl)
  continue-IsOk (err e) k s h = absurd h
  continue-IsOk panic k s h = absurd h

  -- A sequence that returns is its second part, run on what the first part leaves.
  pub then-IsOk :
      (m : Exec S A) (k : Exec S B) (s : S)
      → IsOk ((m >> k) s).0
      → IsOk (m s).0 × ((m >> k) s ≡ k (m s).1)
  unfolding ◌>>◌ ◌>>=◌
  then-IsOk m k s h = continue-IsOk (m s).0 k (m s).1 h

pub ruleset keeps_rules = (
  Keeps-pure, Keeps-raise, Keeps-lift, Keeps-logged, Keeps-if, Keeps-when, Keeps-bind, Keeps-then,
)
