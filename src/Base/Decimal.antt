-- ===== src/Base/Decimal.antt =====
-- Decimal numerals, as `String(n)` and templates print natural numbers.
use Prim.Native.Nat.{ℕ, zero, suc, ◌-◌, ◌+◌, ◌*◌, ◌/◌, ◌%◌, ◌<◌}
use mathlib.Core.Path.{◌≡◌, refl}
use mathlib.Core.Logic.{inl, inr}
use mathlib.Core.Bool.{Bool, true, ◌&&◌}
use mathlib.Core.List.{[], ◌∷◌, ◌++◌}
use native.Mathlib.Omega.{arith}
use crm_media.Base.Tests.{ltb, leb, if◌then◌else◌, Bool-cases}
use crm_media.Base.Lists.{all}
use crm_media.Base.Strings.{Text}

-- With more fuel than the number no digit is cut off.
unfoldable pub decimal_from : ℕ → ℕ → Text
decimal_from zero n = []
decimal_from (suc fuel) n =
    let rest = decimal_from fuel (n / 10) in
    if ltb n 10 then (b'0' + n) ∷ [] else rest ++ (b'0' + n % 10) ∷ []

unfoldable pub decimal : ℕ → Text
unfolding decimal_from
decimal n = decimal_from (suc n) n

-- `Number(s)` on a decimal numeral: the digits from the left.
unfoldable pub parse_from : ℕ → Text → ℕ
parse_from acc [] = acc
parse_from acc (c ∷ s) = parse_from (10 * acc + (c - b'0')) s

unfoldable pub parse_decimal : Text → ℕ
unfolding parse_from
parse_decimal s = parse_from 0 s

parse_from-append :
    (acc : ℕ) (s : Text) (c : ℕ) → parse_from acc (s ++ c ∷ []) ≡ 10 * parse_from acc s + (c - b'0')
unfolding parse_from
parse_from-append acc [] c = refl
parse_from-append acc (d ∷ s) c = parse_from-append (10 * acc + (d - b'0')) s c

parse_decimal_from : (fuel n : ℕ) → n < fuel → parse_decimal (decimal_from fuel n) ≡ n
unfolding parse_decimal decimal_from
parse_decimal_from zero n h = elim h [ ]
parse_decimal_from (suc fuel) n h = ground (
  arith,
  parse_from-append 0 (decimal_from fuel (n / 10)) (b'0' + n % 10),
  parse_decimal_from fuel (n / 10),
)

-- Printing and reading a number gives it back.
pub parse-decimal : (n : ℕ) → parse_decimal (decimal n) ≡ n
unfolding decimal
parse-decimal n = parse_decimal_from (suc n) n (omega arith)

abbrev pub is_digit : ℕ → Bool
is_digit c = leb b'0' c && leb c b'9'

all-append :
    (s t : Text) → all is_digit s ≡ true → all is_digit t ≡ true → all is_digit (s ++ t) ≡ true
all-append [] t hs ht = ht
all-append (c ∷ s) t hs ht = ground (arith, all-append s t)

all-decimal_from : (fuel n : ℕ) → all is_digit (decimal_from fuel n) ≡ true
unfolding decimal_from
all-decimal_from zero n = refl
all-decimal_from (suc fuel) n = elim (Bool-cases (ltb n 10)) [
  | inl small ↦ ground arith
  | inr large ↦
      let last : all is_digit ((b'0' + n % 10) ∷ []) ≡ true = ground arith in
      rw large (all-append (decimal_from fuel (n / 10)) _ (all-decimal_from fuel (n / 10)) last)
]

pub all-decimal : (n : ℕ) → all is_digit (decimal n) ≡ true
unfolding decimal
all-decimal n = all-decimal_from (suc n) n
