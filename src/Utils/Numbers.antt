-- ===== src/Utils/Numbers.antt =====
-- The parts of package strconv that the code calls: `Atoi` and `ParseInt(s, 10, 64)`, on a platform
-- whose `int` has 64 bits.
use qubership_monitoring_ope.Prelude.{
  ℕ, zero, suc, ◌+◌, ◌*◌, ◌-◌, ◌^◌, ◌&&◌, [], ◌∷◌, Option, none, some, leb, ◌==◌, if◌then◌else◌,
}
use qubership_monitoring_ope.Prelude.Text.{Bytes}

-- `negsuc n` is -(n + 1).
pub data ℤ : Type 0 where
  pos negsuc : ℕ → ℤ

-- -n
unfoldable pub negate : ℕ → ℤ
negate zero = pos 0
negate (suc n) = negsuc n

-- The digits of a number, read from the left.
unfoldable pub read_digits : ℕ → Bytes → Option ℕ
read_digits acc [] = some acc
read_digits acc (c ∷ s) =
    let rest = read_digits (acc * 10 + (c - b'0')) s in
    if leb b'0' c && leb c b'9' then rest else none

unfoldable pub read_number : Bytes → Option ℕ
unfolding read_digits
read_number [] = none
read_number (c ∷ s) = read_digits 0 (c ∷ s)

-- Values out of the range of `int64` are errors.
unfoldable pub in_range : Option ℕ → ℕ → (ℕ → ℤ) → Option ℤ
in_range none bound sign = none
in_range (some n) bound sign = if leb n bound then some (sign n) else none

unfoldable pub parse_int : Bytes → Option ℤ
parse_int [] = none
parse_int (c ∷ s) =
    if c == b'-'
    then in_range (read_number s) (2 ^ 63) negate
    else if c == b'+'
    then in_range (read_number s) (2 ^ 63 - 1) pos
    else in_range (read_number (c ∷ s)) (2 ^ 63 - 1) pos
