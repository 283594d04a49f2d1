-- ===== src/Utils/Labels/Laws.antt =====
-- What `TruncLabel`, `GetInstanceLabel` and `GetTagFromImage` guarantee.
use qubership_monitoring_ope.Prelude.{
  ℕ, zero, suc, ◌≤◌, ◌≡◌, refl, ap, Bool, true, false, inl, inr, Bool-cases, [], ◌∷◌, length, take,
  leb, ◌==◌, arith,
}
use qubership_monitoring_ope.Prelude.Text.{Bytes, is_empty}
use qubership_monitoring_ope.Utils.Labels.{trim, trim_left, trim_right, trunc_label}

length-take : (n : ℕ) (s : Bytes) → length (take n s) ≤ n
length-take zero s = omega arith
length-take (suc n) [] = omega arith
length-take (suc n) (c ∷ s) = omega (arith, length-take n s)

length-trim_left : (s : Bytes) → length (trim_left s) ≤ length s
unfolding trim_left
length-trim_left [] = omega arith
length-trim_left (c ∷ s) = ground (arith, length-trim_left s)

length-trim_right : (s : Bytes) → length (trim_right s) ≤ length s
unfolding trim_right
length-trim_right [] = omega arith
length-trim_right (c ∷ s) = ground (arith, length-trim_right s)

length-trim : (s : Bytes) → length (trim s) ≤ length s
unfolding trim
length-trim s = omega (arith, length-trim_right (trim_left s), length-trim_left s)

abbrev pub starts_with_dash : Bytes → Bool
starts_with_dash [] = false
starts_with_dash (c ∷ s) = c == b'-'

unfoldable pub ends_with_dash : Bytes → Bool
ends_with_dash [] = false
ends_with_dash (c ∷ []) = c == b'-'
ends_with_dash (c ∷ d ∷ s) = ends_with_dash (d ∷ s)

starts-trim_left : (s : Bytes) → starts_with_dash (trim_left s) ≡ false
unfolding trim_left
starts-trim_left [] = refl
starts-trim_left (c ∷ s) = ground (arith, starts-trim_left s)

starts-trim_right :
    (s : Bytes) → starts_with_dash s ≡ false → starts_with_dash (trim_right s) ≡ false
unfolding trim_right
starts-trim_right [] h = refl
starts-trim_right (c ∷ s) h = ground arith

ends-cons : (c : ℕ) (s : Bytes) → is_empty s ≡ false → ends_with_dash (c ∷ s) ≡ ends_with_dash s
unfolding ends_with_dash
ends-cons c [] h = cc
ends-cons c (d ∷ s) h = refl

ends-single : (c : ℕ) (s : Bytes) → is_empty s ≡ true → ends_with_dash (c ∷ s) ≡ (c == b'-')
unfolding ends_with_dash
ends-single c [] h = refl
ends-single c (d ∷ s) h = cc

ends-nil : ends_with_dash [] ≡ false
unfolding ends_with_dash
ends-nil = refl

ends-trim_right : (s : Bytes) → ends_with_dash (trim_right s) ≡ false
unfolding trim_right
ends-trim_right [] = ends-nil
ends-trim_right (c ∷ s) =
    ground
      (arith, ends-trim_right s, ends-nil, ends-single c (trim_right s), ends-cons c (trim_right s))

trim_left-eq_self : (s : Bytes) → starts_with_dash s ≡ false → trim_left s ≡ s
unfolding trim_left
trim_left-eq_self [] h = refl
trim_left-eq_self (c ∷ s) h = ground arith

trim_right-eq_self : (s : Bytes) → ends_with_dash s ≡ false → trim_right s ≡ s
unfolding trim_right
trim_right-eq_self [] h = refl
trim_right-eq_self (c ∷ []) h = ground (arith, ends-single c [])
trim_right-eq_self (c ∷ d ∷ s) h =
    rw (trim_right-eq_self (d ∷ s) (unfold ends_with_dash in h)) (ground arith)

take-eq_self : (n : ℕ) (s : Bytes) → length s ≤ n → take n s ≡ s
take-eq_self zero [] h = refl
take-eq_self zero (c ∷ s) h = absurd (omega arith)
take-eq_self (suc n) [] h = refl
take-eq_self (suc n) (c ∷ s) h = ap (λ (t : Bytes). c ∷ t) (take-eq_self n s (omega arith))

-- A label value that the code may write: at most 63 bytes, with no dash at either end.
pub record IsTrimmed (s : Bytes) : Type 0 where
  pub short : length s ≤ 63
  pub clean_start : starts_with_dash s ≡ false
  pub clean_end : ends_with_dash s ≡ false

trim-IsTrimmed : (s : Bytes) → length s ≤ 63 → IsTrimmed (trim s)
trim-IsTrimmed s h = record {
  short = omega (arith, length-trim s);
  clean_start = unfold trim in starts-trim_right (trim_left s) (starts-trim_left s);
  clean_end = unfold trim in ends-trim_right (trim_left s);
}

-- `TruncLabel` gives a label of at most 63 bytes that neither starts nor ends with a dash.
pub trunc_label-IsTrimmed : (label : Bytes) → IsTrimmed (trunc_label label)
unfolding trunc_label
trunc_label-IsTrimmed label = elim (Bool-cases (leb 63 (length label))) [
  | inl long ↦ rw long (trim-IsTrimmed (take 63 label) (length-take 63 label))
  | inr fits ↦ rw fits (trim-IsTrimmed label (ground arith))
]

trim-eq_self : (s : Bytes) → IsTrimmed s → trim s ≡ s
unfolding trim
trim-eq_self s v = rw (trim_left-eq_self s v.clean_start) (trim_right-eq_self s v.clean_end)

-- `TruncLabel` leaves a label of at most 63 bytes with no dash at either end as it is.
trunc_label-eq_self : (label : Bytes) → IsTrimmed label → trunc_label label ≡ label
unfolding trunc_label
trunc_label-eq_self s v = elim (Bool-cases (leb 63 (length s))) [
  | inl long ↦ rw (long, take-eq_self 63 s v.short) (trim-eq_self s v)
  | inr fits ↦ rw fits (trim-eq_self s v)
]

-- Truncating a label twice is truncating it once.
trunc_label_idem : (label : Bytes) → trunc_label (trunc_label label) ≡ trunc_label label
trunc_label_idem label = trunc_label-eq_self (trunc_label label) (trunc_label-IsTrimmed label)
