-- ===== src/Prelude/Decimal.antt =====
-- Decimal digits as `format!("{n}")` and `{n:02}` print them, and as `str::parse` reads them.
use Prim.Native.Nat.{ℕ, zero, suc, ◌+◌, ◌-◌, ◌*◌, ◌/◌, ◌%◌, ◌≤◌, ◌<◌}
use mathlib.Core.Path.{◌≡◌, refl, ap, ◌∙◌}
use mathlib.Core.Bool.{Bool, true, ◌&&◌}
use mathlib.Core.List.{[], ◌∷◌, ◌++◌}
use mathlib.Core.Option.{Option, none, some}
use native.Mathlib.Omega.{arith}
use raydio.Prelude.Tests.{ltb, leb, ◌==◌, if◌then◌else◌}
use raydio.Prelude.Lists.{length, length-append}
use raydio.Prelude.Strings.{Text}

-- One digit for each unit of fuel; n + 1 is enough for n.
digits_of : ℕ → ℕ → Text
digits_of zero n = []
digits_of (suc fuel) n =
    let rest = digits_of fuel (n / 10) in
    if ltb n 10 then (48 + n) ∷ [] else rest ++ (48 + n % 10) ∷ []

unfoldable pub decimal : ℕ → Text
unfolding digits_of
decimal n = digits_of (suc n) n

-- `{n:02}`
unfoldable pub padded : ℕ → Text
unfolding decimal
padded n = let s = decimal n in if ltb (length s) 2 then 48 ∷ s else s

-- The number that digits stand for, after `acc`.
unfoldable pub value : ℕ → Text → ℕ
value acc [] = acc
value acc (c ∷ s) = value (acc * 10 + (c - 48)) s

pub value-append : (acc : ℕ) (s t : Text) → value acc (s ++ t) ≡ value (value acc s) t
unfolding value
value-append acc [] t = refl
value-append acc (c ∷ s) t = value-append (acc * 10 + (c - 48)) s t

value-digits_of : (fuel n : ℕ) → n < fuel → value 0 (digits_of fuel n) ≡ n
unfolding digits_of value
value-digits_of zero n h = absurd (omega arith)
value-digits_of (suc fuel) n h = ground (
  arith,
  value-append 0 (digits_of fuel (n / 10)) ((48 + n % 10) ∷ []),
  value-digits_of fuel (n / 10),
)

-- Printing and reading a number back.
pub value-decimal : (n : ℕ) → value 0 (decimal n) ≡ n
unfolding decimal
value-decimal n = value-digits_of (suc n) n (omega arith)

abbrev pub IsDigits : Text → Type 0
IsDigits [] = Unit {0}
IsDigits (c ∷ s) = (48 ≤ c) × (c ≤ 57) × IsDigits s

pub IsDigits-append : (s t : Text) → IsDigits s → IsDigits t → IsDigits (s ++ t)
IsDigits-append [] t hs ht = ht
IsDigits-append (c ∷ s) t hs ht = (hs.0, hs.1, IsDigits-append s t hs.2 ht)

digits_of-IsDigits : (fuel n : ℕ) → IsDigits (digits_of fuel n)
unfolding digits_of
digits_of-IsDigits zero n = tt
digits_of-IsDigits (suc fuel) n = ground (
  arith,
  IsDigits-append (digits_of fuel (n / 10)) ((48 + n % 10) ∷ []) (digits_of-IsDigits fuel (n / 10))
      (omega arith),
)

pub decimal-IsDigits : (n : ℕ) → IsDigits (decimal n)
unfolding decimal
decimal-IsDigits n = digits_of-IsDigits (suc n) n

pub padded-IsDigits : (n : ℕ) → IsDigits (padded n)
unfolding padded
padded-IsDigits n = ground (arith, decimal-IsDigits n)

pub value-padded : (n : ℕ) → value 0 (padded n) ≡ n
unfolding padded value
value-padded n = ground (arith, value-decimal n)

unfoldable pub all_digits : Text → Bool
all_digits [] = true
all_digits (c ∷ s) = leb 48 c && leb c 57 && all_digits s

-- `str::parse` into an unsigned type with the given maximum: one leading `+` is allowed.
unfoldable pub parse_digits : ℕ → Text → Option ℕ
unfolding all_digits value
parse_digits most [] = none
parse_digits most (c ∷ s) =
    if all_digits (c ∷ s) && leb (value 0 (c ∷ s)) most then some (value 0 (c ∷ s)) else none

unfoldable pub parse_unsigned : ℕ → Text → Option ℕ
unfolding parse_digits
parse_unsigned most [] = none
parse_unsigned most (c ∷ s) = if c == b'+' then parse_digits most s else parse_digits most (c ∷ s)

digits_of-some : (fuel n : ℕ) → 0 < length (digits_of (suc fuel) n)
unfolding digits_of
digits_of-some fuel n = ground (arith, length-append (digits_of fuel (n / 10)) ((48 + n % 10) ∷ []))

all_digits-IsDigits : (s : Text) → IsDigits s → all_digits s ≡ true
unfolding all_digits
all_digits-IsDigits [] d = refl
all_digits-IsDigits (c ∷ s) d = ground (arith, d, all_digits-IsDigits s d.2)

parse-IsDigits :
    (most : ℕ) (s : Text)
    → IsDigits s
    → 0 < length s
    → value 0 s ≤ most
    → parse_unsigned most s ≡ some (value 0 s)
unfolding parse_unsigned parse_digits
parse-IsDigits most [] d l h = absurd (omega arith)
parse-IsDigits most (c ∷ s) d l h = ground (arith, d, h, all_digits-IsDigits (c ∷ s) d)

-- `str::parse` reads what `format!("{n}")` prints.
pub parse-decimal : (most n : ℕ) → n ≤ most → parse_unsigned most (decimal n) ≡ some n
unfolding decimal
parse-decimal most n h =
    parse-IsDigits most (decimal n) (decimal-IsDigits n) (digits_of-some n n)
      (omega (arith, value-decimal n, h))
    ∙ ap some (value-decimal n)

abbrev pub u64_max : ℕ
u64_max = 18446744073709551615

abbrev pub u16_max : ℕ
u16_max = 65535
