-- ===== src/Service/Display/Decimal.antt =====
-- The digits that `Display` writes for a number, and a reader of them.
use svlopp.Prelude.{
  ℕ, zero, suc, ◌+◌, ◌*◌, ◌-◌, ◌/◌, ◌%◌, ◌<◌, ◌≤◌, ◌≡◌, ap, subst, All-append, arith, Bool, true,
  ◌&&◌, Option, none, some, [], ◌∷◌, ◌++◌, leb, if◌then◌else◌, Text, All,
}
use mathlib.Core.List.{append_assoc, append-nil}
use native.Mathlib.Decide.{dec_lt}
use svlopp.Service.Display.{decimal_from, decimal}

abbrev pub is_digit : ℕ → Bool
is_digit c = leb b'0' c && leb c b'9'

abbrev with_digit : Option ℕ → ℕ → ℕ
with_digit none d = d
with_digit (some n) d = n * 10 + d

-- `none` before the first digit.
unfoldable pub read_digits : Option ℕ → Text → Option ℕ
read_digits n [] = n
read_digits n (c ∷ cs) =
    let rest = read_digits (some (with_digit n (c - b'0'))) cs in if is_digit c then rest else none

unfoldable pub read_decimal : Text → Option ℕ
unfolding read_digits
read_decimal t = read_digits none t

abbrev pub IsDigits : Text → Type 0
IsDigits = All (λ c. is_digit c ≡ true)

decimal_from-small : (fuel n : ℕ) → n < 10 → decimal_from (suc fuel) n ≡ (b'0' + n) ∷ []
unfolding decimal_from
decimal_from-small fuel n h = ground arith

decimal_from-large :
    (fuel n : ℕ)
    → 10 ≤ n
    → decimal_from (suc fuel) n ≡ decimal_from fuel (n / 10) ++ (b'0' + n % 10) ∷ []
unfolding decimal_from
decimal_from-large fuel n h = ground arith

is_digit-digit : (d : ℕ) → d < 10 → is_digit (b'0' + d) ≡ true
is_digit-digit d h = ground arith

read_digit :
    (before : Option ℕ) (d : ℕ) (rest : Text)
    → d < 10
    → read_digits before ((b'0' + d) ∷ rest) ≡ read_digits (some (with_digit before d)) rest
unfolding read_digits
read_digit before d rest h =
    rw (is_digit-digit d h) (ap (λ x. read_digits (some (with_digit before x)) rest) (omega arith))

-- The digits before others: reading goes on with the number.
decimal_from-read :
    (fuel n : ℕ) (rest : Text)
    → n < fuel
    → read_digits none (decimal_from fuel n ++ rest) ≡ read_digits (some n) rest
decimal_from-read zero n rest h = elim h [ ]
decimal_from-read (suc fuel) n rest h = elim (dec_lt n 10) [
  | yes small ↦ rw (decimal_from-small fuel n small) (read_digit none n rest small)
  | no large ↦
      rw
        (
          decimal_from-large fuel n (omega arith),
          append_assoc,
          decimal_from-read fuel (n / 10) ((b'0' + n % 10) ∷ rest) (omega arith),
          read_digit (some (n / 10)) (n % 10) rest (omega arith),
        )
        (ap (λ m. read_digits (some m) rest) (omega arith))
]

pub read_decimal-decimal : (n : ℕ) → read_decimal (decimal n) ≡ some n
unfolding read_decimal decimal
read_decimal-decimal n =
    subst (λ t. read_digits none t ≡ some n) (append-nil (decimal_from (suc n) n))
      (decimal_from-read (suc n) n [] (omega arith))

decimal_from-IsDigits : (fuel n : ℕ) → n < fuel → IsDigits (decimal_from fuel n)
decimal_from-IsDigits zero n h = elim h [ ]
decimal_from-IsDigits (suc fuel) n h = elim (dec_lt n 10) [
  | yes small ↦ rw (decimal_from-small fuel n small) (is_digit-digit n small, tt)
  | no large ↦ rw (decimal_from-large fuel n (omega arith)) (
      All-append _ (decimal_from fuel (n / 10)) _
        (decimal_from-IsDigits fuel (n / 10) (omega arith))
        (is_digit-digit (n % 10) (omega arith), tt))
]

pub decimal-IsDigits : (n : ℕ) → IsDigits (decimal n)
unfolding decimal
decimal-IsDigits n = decimal_from-IsDigits (suc n) n (omega arith)
