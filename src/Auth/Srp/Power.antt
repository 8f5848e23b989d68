-- ===== src/Auth/Srp/Power.antt =====
-- `modPow` is the power modulo the modulus.
use sentinel_vault.Common.{
  ℕ, zero, suc, ◌+◌, ◌*◌, ◌/◌, ◌%◌, ◌^◌, ◌≤◌, ◌<◌, false, ◌≡◌, inl, inr, refl, sym, ap, ◌∙◌, eqb,
  if◌then◌else◌, arith, Bool-cases,
}
use native.Mathlib.Nat.{native_laws}
use sentinel_vault.Auth.Srp.{mod_pow, mod_pow_loop}

pub mul-mod_left : (a b m : ℕ) → (a % m * b) % m ≡ (a * b) % m
mul-mod_left a b m =
    let split : (a * b ≡ a % m * b + a / m * b * m) =
      ap (λ x. x * b) (sym (native_laws.mod-add-div' a m))
      ∙ native_laws.add-mul (a % m) (a / m * m) b
      ∙ ap (λ x. a % m * b + x) (native_laws.mul_right_comm (a / m) m b) in
    sym (ap (λ x. x % m) split ∙ native_laws.add-mul-mod_self_right (a % m * b) (a / m * b) m)

pub mul-mod_right : (a b m : ℕ) → (a * (b % m)) % m ≡ (a * b) % m
mul-mod_right a b m =
    ap (λ x. x % m) (native_laws.mul_comm a (b % m))
    ∙ mul-mod_left b a m
    ∙ ap (λ x. x % m) (native_laws.mul_comm b a)

pub pow_mod : (a k m : ℕ) → ((a % m) ^ k) % m ≡ (a ^ k) % m
pow_mod a zero m = rw (native_laws.pow-zero (a % m), native_laws.pow-zero a) refl
pow_mod a (suc k) m =
    ap (λ x. x % m) (native_laws.pow-suc (a % m) k)
    ∙ mul-mod_right ((a % m) ^ k) a m
    ∙ sym (mul-mod_left ((a % m) ^ k) a m)
    ∙ ap (λ x. (x * a) % m) (pow_mod a k m)
    ∙ mul-mod_left (a ^ k) a m
    ∙ ap (λ x. x % m) (sym (native_laws.pow-suc a k))

pub pow_add : (b m n : ℕ) → b ^ (m + n) ≡ b ^ m * b ^ n
pow_add b m zero =
    rw (native_laws.add-zero m, native_laws.pow-zero b, native_laws.mul-one (b ^ m)) refl
pow_add b m (suc n) =
    rw
      (
        native_laws.add-suc m n,
        native_laws.pow-suc b (m + n),
        native_laws.pow-suc b n,
        pow_add b m n,
      )
      (native_laws.mul_assoc (b ^ m) (b ^ n) b)

pub pow_mul : (b m n : ℕ) → (b ^ m) ^ n ≡ b ^ (m * n)
pow_mul b m zero =
    rw (native_laws.pow-zero (b ^ m), native_laws.mul-zero m, native_laws.pow-zero b) refl
pow_mul b m (suc n) =
    rw (native_laws.pow-suc (b ^ m) n, native_laws.mul-suc m n, pow_mul b m n, pow_add b (m * n) m)
      refl

pow_square : (b k : ℕ) → (b * b) ^ k ≡ b ^ (k + k)
pow_square b zero =
    rw (native_laws.pow-zero (b * b), native_laws.add-zero 0, native_laws.pow-zero b) refl
pow_square b (suc k) =
    let twice : (suc k + suc k ≡ suc (suc (k + k))) = omega arith in
    rw
      (
        twice,
        native_laws.pow-suc (b * b) k,
        native_laws.pow-suc b (suc (k + k)),
        native_laws.pow-suc b (k + k),
        pow_square b k,
      )
      (sym (native_laws.mul_assoc (b ^ (k + k)) b b))

pow_half : (b e : ℕ) → (b * b) ^ (e / 2) * b ^ (e % 2) ≡ b ^ e
pow_half b e =
    ap (λ x. x * b ^ (e % 2)) (pow_square b (e / 2))
    ∙ sym (pow_add b (e / 2 + e / 2) (e % 2))
    ∙ ap (λ x. b ^ x) (omega arith)

-- The result after one round, for an odd or an even exponent.
abbrev next : ℕ → ℕ → ℕ → ℕ → ℕ
next result b e m = if eqb (e % 2) 1 then (result * b) % m else result

next_mod : (r b e m x : ℕ) → (next r b e m * x) % m ≡ (r * (x * b ^ (e % 2))) % m
next_mod r b e m x = elim (Bool-cases (eqb (e % 2) 1)) [
  | inl odd ↦
      let one_left : (e % 2 ≡ 1) = ground arith in
      rw (odd, one_left, native_laws.pow-suc b 0, native_laws.pow-zero b, native_laws.one-mul b)
        (mul-mod_left (r * b) x m
          ∙ ap (λ y. y % m) (native_laws.mul_right_comm r b x ∙ native_laws.mul_assoc r x b))
  | inr even ↦
      let nothing_left : (e % 2 ≡ 0) = ground arith in
      rw (even, nothing_left, native_laws.pow-zero b, native_laws.mul-one x) refl
]

-- One round keeps the value of `result * b ^ e`.
round : (r b e m : ℕ) → (next r b e m * ((b * b) % m) ^ (e / 2)) % m ≡ (r * b ^ e) % m
round r b e m =
    sym (mul-mod_right (next r b e m) (((b * b) % m) ^ (e / 2)) m)
    ∙ ap (λ x. (next r b e m * x) % m) (pow_mod (b * b) (e / 2) m)
    ∙ mul-mod_right (next r b e m) ((b * b) ^ (e / 2)) m
    ∙ next_mod r b e m ((b * b) ^ (e / 2))
    ∙ ap (λ x. (r * x) % m) (pow_half b e)

loop_mod : (fuel r b e m : ℕ) → e ≤ fuel → mod_pow_loop fuel r b e m % m ≡ (r * b ^ e) % m
unfolding mod_pow_loop
loop_mod zero r b e m h =
    let done : (e ≡ 0) = omega arith in
    rw (done, native_laws.pow-zero b, native_laws.mul-one r) refl
loop_mod (suc fuel) r b zero m h = rw (native_laws.pow-zero b, native_laws.mul-one r) refl
loop_mod (suc fuel) r b (suc e) m h =
    loop_mod fuel (next r b (suc e) m) ((b * b) % m) (suc e / 2) m (omega arith)
    ∙ round r b (suc e) m

next_lt : (r b e m : ℕ) → r < m → next r b e m < m
next_lt r b e m h = elim (Bool-cases (eqb (e % 2) 1)) [
  | inl odd ↦ rw odd (native_laws.mod-lt (r * b) (omega arith))
  | inr even ↦ rw even h
]

loop_lt : (fuel r b e m : ℕ) → r < m → mod_pow_loop fuel r b e m < m
unfolding mod_pow_loop
loop_lt zero r b e m h = h
loop_lt (suc fuel) r b zero m h = h
loop_lt (suc fuel) r b (suc e) m h =
    loop_lt fuel (next r b (suc e) m) ((b * b) % m) (suc e / 2) m (next_lt r b (suc e) m h)

one_mul : (n : ℕ) → 1 * n ≡ n
one_mul n = omega arith

-- For a modulus above 1, `modPow` returns the power of the base modulo the modulus; the steps
-- that it is given are enough for every exponent.
pub mod_pow_lem : (base exp m : ℕ) → 1 < m → mod_pow base exp m ≡ (base ^ exp) % m
unfolding mod_pow
mod_pow_lem base exp m h =
    let reduced : ((base % m + m) % m ≡ base % m) =
      native_laws.add-mod_right (base % m) m ∙ native_laws.mod-mod base m in
    let positive : (eqb m 0 ≡ false) = ground arith in
    rw (positive, reduced)
      (sym (native_laws.mod-eq_of_lt (loop_lt exp 1 (base % m) exp m h))
        ∙ loop_mod exp 1 (base % m) exp m (omega arith)
        ∙ ap (λ x. x % m) (one_mul ((base % m) ^ exp))
        ∙ pow_mod base exp m)
