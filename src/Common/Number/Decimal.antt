-- ===== src/Common/Number/Decimal.antt =====
-- `parseInt` reads back what `toString` prints.
use sentinel_vault.Common.{
  ℕ, zero, suc, ◌+◌, ◌-◌, ◌*◌, ◌&&◌, ◌/◌, ◌%◌, ◌≤◌, String, true, false, ◌≡◌, inl, inr, refl, ap,
  ◌∙◌, ltb, leb, eqb, Bool-cases, arith,
}
use native.Mathlib.Numerals.{unary_clauses}
use Prim.Native.Char.{code}
use sentinel_vault.Common.Text.{trim_start, is_space}
use sentinel_vault.Common.Number.{
  ℤ, pos, negsuc, int, digit_char, parse_digits, starts_with_digit, parse_int, decimal_from,
  decimal, to_text, negated,
}

code-digit_char : (d : ℕ) → ltb d 10 ≡ true → code (digit_char d) ≡ 48 + d
code-digit_char zero h = refl
code-digit_char (suc zero) h = refl
code-digit_char (suc (suc zero)) h = refl
code-digit_char (suc (suc (suc zero))) h = refl
code-digit_char (suc (suc (suc (suc zero)))) h = refl
code-digit_char (suc (suc (suc (suc (suc zero))))) h = refl
code-digit_char (suc (suc (suc (suc (suc (suc zero)))))) h = refl
code-digit_char (suc (suc (suc (suc (suc (suc (suc zero))))))) h = refl
code-digit_char (suc (suc (suc (suc (suc (suc (suc (suc zero)))))))) h = refl
code-digit_char (suc (suc (suc (suc (suc (suc (suc (suc (suc zero))))))))) h = refl
code-digit_char (suc (suc (suc (suc (suc (suc (suc (suc (suc (suc n)))))))))) h = ground arith

-- The digit as an argument, so that the tactics read it as a character.
next_digit :
    (c d : ℕ) (a : ℕ)
    → c ≡ 48 + d
    → ltb d 10 ≡ true
    → ((leb 48 c && leb c 57) ≡ true) × (a * 10 + (c - 48) ≡ a * 10 + d)
next_digit c d a same h = ground arith

parse_digits-digit :
    (d a : ℕ) (s : String)
    → ltb d 10 ≡ true
    → parse_digits a (String.◌∷◌ (digit_char d) s) ≡ parse_digits (a * 10 + d) s
unfolding parse_digits
parse_digits-digit d a s h =
    let (hit, same) = next_digit (code (digit_char d)) d a (code-digit_char d h) h in
    rw hit (ap (λ n. parse_digits n s) same)

decimal_from-parse :
    (f n : ℕ) (acc : String) → n ≤ f → parse_digits 0 (decimal_from f n acc) ≡ parse_digits n acc
unfolding decimal_from
decimal_from-parse zero n acc h =
    let zero_ : (n ≡ 0) = ground arith in rw zero_ (parse_digits-digit 0 0 acc refl)
decimal_from-parse (suc f) n acc h = elim (Bool-cases (ltb n 10)) [
  | inl small ↦
      rw small (parse_digits-digit n 0 acc small ∙ ap (λ m. parse_digits m acc) (ground arith))
  | inr large ↦ rw large (
      decimal_from-parse f (n / 10) _ (ground arith)
      ∙ parse_digits-digit (n % 10) (n / 10) acc (ground arith)
      ∙ ap (λ m. parse_digits m acc) (ground arith))
]

starts_digit :
    (d : ℕ) (s : String) → ltb d 10 ≡ true → starts_with_digit (String.◌∷◌ (digit_char d) s) ≡ true
starts_digit d s h = (next_digit (code (digit_char d)) d 0 (code-digit_char d h) h).0

decimal_from-starts : (f n : ℕ) (acc : String) → starts_with_digit (decimal_from f n acc) ≡ true
unfolding decimal_from
decimal_from-starts zero n acc = starts_digit (n % 10) acc (ground arith)
decimal_from-starts (suc f) n acc = elim (Bool-cases (ltb n 10)) [
  | inl small ↦ rw small (starts_digit n acc small)
  | inr large ↦ rw large (decimal_from-starts f (n / 10) _)
]

digit_is_no_sign :
    (c : ℕ)
    → (leb 48 c && leb c 57) ≡ true
    → (is_space c ≡ false) × (eqb c 45 ≡ false) × (eqb c 43 ≡ false)
unfolding is_space
digit_is_no_sign c h = (ground arith, ground arith, ground arith)

parse_int-digits :
    (s : String) → starts_with_digit s ≡ true → parse_int s ≡ int (pos (parse_digits 0 s))
unfolding parse_int trim_start
parse_int-digits String.[] h = cc
parse_int-digits (String.◌∷◌ c s) h =
    let (solid, minus, plus) = digit_is_no_sign (code c) h in
    rw solid (rw minus (rw plus (rw h refl)))

parse_int-minus :
    (s : String)
    → starts_with_digit s ≡ true
    → parse_int (String.◌∷◌ "-" s) ≡ int (negated (parse_digits 0 s))
unfolding parse_int trim_start is_space
parse_int-minus s h = rw h refl

parse_digits-decimal : (n : ℕ) → parse_digits 0 (decimal n) ≡ n
unfolding decimal parse_digits
parse_digits-decimal n = decimal_from-parse n n "" (ground arith)

decimal-starts : (n : ℕ) → starts_with_digit (decimal n) ≡ true
unfolding decimal
decimal-starts n = decimal_from-starts n n ""

negated-suc : (n : ℕ) → negated (n + 1) ≡ negsuc n
negated-suc n = simp unary_clauses refl

-- The text of a whole number is read back as the number.
pub parse_int-to_text : (z : ℤ) → parse_int (to_text (int z)) ≡ int z
parse_int-to_text (pos n) =
    parse_int-digits (decimal n) (decimal-starts n) ∙ ap (λ m. int (pos m)) (parse_digits-decimal n)
parse_int-to_text (negsuc n) =
    parse_int-minus (decimal (n + 1)) (decimal-starts (n + 1))
    ∙ ap (λ m. int (negated m)) (parse_digits-decimal (n + 1))
    ∙ ap int (negated-suc n)
