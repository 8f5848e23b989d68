-- ===== src/Common/Number.antt =====
-- Whole JavaScript numbers as `parseInt` gives them and `toString` prints them: integers, or not a
-- number. Where a double is not exact they differ, which `is_exact` tells.
pub mod Decimal
use mathlib.Core.Bool.{Bool, true, false}
use Prim.Native.Nat.{ℕ, zero, suc, ◌+◌, ◌-◌, ◌*◌, ◌/◌, ◌%◌}
use Prim.Native.Char.{Char, code}
use Prim.Native.String.{String}
use mathlib.Core.Path.{◌≡◌, refl}
use mathlib.Core.Bool.{◌&&◌}
use sentinel_vault.Common.Tests.{if◌then◌else◌, leb, ltb, eqb}
use sentinel_vault.Common.Text.{trim_start, is_space}

-- `negsuc n` is -(n + 1).
pub data ℤ : Type 0 where
  pos : ℕ → ℤ
  negsuc : ℕ → ℤ

pub data Number : Type 0 where
  nan : Number
  int : ℤ → Number

-- `a <= b`
abbrev pub leb_ℤ : ℤ → ℤ → Bool
leb_ℤ (pos a) (pos b) = leb a b
leb_ℤ (pos a) (negsuc b) = false
leb_ℤ (negsuc a) (pos b) = true
leb_ℤ (negsuc a) (negsuc b) = leb b a

-- `a + 1`
abbrev pub suc_ℤ : ℤ → ℤ
suc_ℤ (pos n) = pos (n + 1)
suc_ℤ (negsuc zero) = pos 0
suc_ℤ (negsuc (suc n)) = negsuc n

abbrev pub is_nan : Number → Bool
is_nan nan = true
is_nan (int z) = false

-- A double holds the number, and one more than it, exactly: below 2 ^ 53 - 1 from zero.
abbrev pub is_exact : Number → Bool
is_exact nan = true
is_exact (int (pos n)) = ltb n 9007199254740991
is_exact (int (negsuc n)) = ltb (n + 1) 9007199254740991

abbrev pub at_most : Number → Number → Bool
at_most (int a) (int b) = leb_ℤ a b
at_most a b = false

abbrev pub plus_one : Number → Number
plus_one nan = nan
plus_one (int z) = int (suc_ℤ z)

abbrev pub is_digit : Char → Bool
is_digit c = leb 48 (code c) && leb (code c) 57

-- The digits up to the first other character, after `acc`.
unfoldable pub parse_digits : ℕ → String → ℕ
parse_digits acc String.[] = acc
parse_digits acc (String.◌∷◌ c s) =
    let rest = parse_digits (acc * 10 + (code c - 48)) s in if is_digit c then rest else acc

abbrev pub starts_with_digit : String → Bool
starts_with_digit String.[] = false
starts_with_digit (String.◌∷◌ c s) = is_digit c

abbrev pub negated : ℕ → ℤ
negated zero = pos 0
negated (suc n) = negsuc n

abbrev pub parse_natural : (ℕ → ℤ) → String → Number
parse_natural sign s = if starts_with_digit s then int (sign (parse_digits 0 s)) else nan

abbrev pub parse_signed : String → Number
parse_signed String.[] = nan
parse_signed (String.◌∷◌ c s) =
    if eqb (code c) 45
    then parse_natural negated s
    else if eqb (code c) 43
    then parse_natural pos s
    else parse_natural pos (String.◌∷◌ c s)

-- `parseInt(s, 10)`
unfoldable pub parse_int : String → Number
unfolding trim_start is_space parse_digits
parse_int s = parse_signed (trim_start s)

abbrev pub digit_at : String → ℕ → Char
digit_at String.[] i = "0"
digit_at (String.◌∷◌ c s) zero = c
digit_at (String.◌∷◌ c s) (suc i) = digit_at s i

-- The character of a digit.
abbrev pub digit_char : ℕ → Char
digit_char d = digit_at "0123456789" d

-- The digits of `n` before `acc`, with `n` as fuel.
unfoldable pub decimal_from : ℕ → ℕ → String → String
decimal_from zero n acc = String.◌∷◌ (digit_char (n % 10)) acc
decimal_from (suc fuel) n acc =
    let rest = decimal_from fuel (n / 10) (String.◌∷◌ (digit_char (n % 10)) acc) in
    if ltb n 10 then String.◌∷◌ (digit_char n) acc else rest

unfoldable pub decimal : ℕ → String
unfolding decimal_from
decimal n = decimal_from n n ""

-- `z.toString()`
abbrev pub to_text : Number → String
to_text nan = "NaN"
to_text (int (pos n)) = decimal n
to_text (int (negsuc n)) = String.◌∷◌ "-" (decimal (n + 1))

parse_test : parse_int "  12a" ≡ int (pos 12)
unfolding parse_int
parse_test = refl

parse_nothing : parse_int "v2" ≡ nan
unfolding parse_int
parse_nothing = refl

print_test : to_text (int (negsuc 119)) ≡ "-120"
unfolding decimal
print_test = refl
